-- ===== src/Byzantine/Client/Votes.antt =====
-- The votes that one request of the client adds to each general.
use distributed_systems_iiit.Common.{
  ℕ, ◌+◌, ◌≤◌, ◌<◌, ◌≡◌, ◌≢◌, ◌∙◌, refl, ap, inl, inr, Bool, Option, none, some, [], ◌∷◌, ◌==◌,
  ==_iff, nat_key, arith, ltb, leb, ◌&&◌, if◌then◌else◌, Bool-cases,
}
use distributed_systems_iiit.Common.Dict.{Dict, lookup}
use distributed_systems_iiit.Byzantine.{
  Decision, General, ByzantineServer, altered, add_message, deliver, on_path, send_order,
  exchange_message,
}
use distributed_systems_iiit.Byzantine.Decisions.{same, count_rounds}
use distributed_systems_iiit.Byzantine.Delivery.{lookup-deliver, count_rounds-add_message}
use distributed_systems_iiit.Byzantine.Client.{role_of}

unfoldable pub votes_of : ℕ → Decision → Option General → ℕ
votes_of max_rounds d none = 0
votes_of max_rounds d (some g) = count_rounds d max_rounds 1 g.messages

-- The votes for a decision that a general has.
unfoldable pub votes : ℕ → Decision → ℕ → Dict ℕ General → ℕ
unfolding votes_of
votes max_rounds d k generals = votes_of max_rounds d (lookup k generals)

-- Whether messages of the round are counted.
abbrev pub is_counted : ℕ → ℕ → Bool
is_counted max_rounds round = leb 1 round && ltb round (1 + max_rounds)

pub votes-deliver :
    (max_rounds receiver round sender k : ℕ) (d v : Decision) (g : General)
    (generals : Dict ℕ General)
    → lookup receiver generals ≡ some g
    → votes max_rounds d k (deliver receiver round sender v generals) ≡ (
        if (receiver == k) && (same v d && is_counted max_rounds round)
        then votes max_rounds d k generals + 1
        else votes max_rounds d k generals)
unfolding votes
votes-deliver max_rounds receiver round sender k d v g generals found =
    elim (Bool-cases (receiver == k)) [
      | inl e ↦
          let at : receiver ≡ k = (==_iff receiver k).0 e in
          let found' : lookup k generals ≡ some g = ground (arith, at, found) in
          rw (lookup-deliver receiver round sender k v g generals found, e, found')
            (unfold votes_of in count_rounds-add_message d round sender v g max_rounds 1)
      | inr e ↦ rw (lookup-deliver receiver round sender k v g generals found, e) refl
    ]

-- The generals are registered as the client made them.
abbrev pub Known : ℕ → (ℕ → Bool) → Dict ℕ General → Type 0
Known n traitor generals =
    (i : ℕ)
    → i < n
    → (g : General) × (lookup i generals ≡ some g)
      × (g.is_traitor ≡ traitor i)
      × (g.role ≡ role_of i)

pub deliver-Known :
    (n : ℕ) (traitor : ℕ → Bool) (receiver round sender : ℕ) (v : Decision)
    (generals : Dict ℕ General)
    → receiver < n
    → Known n traitor generals
    → Known n traitor (deliver receiver round sender v generals)
deliver-Known n traitor receiver round sender v generals r known i b =
    let (h, at, t, role) = known receiver r in
    let (g, at', t', role') = known i b in
    elim (Bool-cases (receiver == i)) [
      | inl e ↦
          let same_one : receiver ≡ i = (==_iff receiver i).0 e in
          (
            add_message round sender v h,
            rw (lookup-deliver receiver round sender i v h generals at, e) refl,
            unfold add_message in ground (arith, t, same_one),
            unfold add_message in (role ∙ ap role_of same_one),
          )
      | inr e ↦ (g, rw (lookup-deliver receiver round sender i v h generals at, e) at', t', role')
    ]

-- No other general is registered.
abbrev pub NoOthers : ℕ → Dict ℕ General → Type 0
NoOthers n generals = (i : ℕ) → n ≤ i → lookup i generals ≡ none

pub deliver-NoOthers :
    (n receiver round sender : ℕ) (v : Decision) (g : General) (generals : Dict ℕ General)
    → receiver < n
    → lookup receiver generals ≡ some g
    → NoOthers n generals
    → NoOthers n (deliver receiver round sender v generals)
deliver-NoOthers n receiver round sender v g generals r found others i h = ground (
  arith,
  lookup-deliver receiver round sender i v g generals found,
  others i h,
  ==_iff receiver i,
)

module _ (n : ℕ) (traitor : ℕ → Bool) (s : ByzantineServer)
    (known : Known n traitor s.generals) where
  -- An order is kept by the commander as it is, and by its receiver as it was sent.
  pub send_order-generals :
      (coin : Bool) (order : Decision) (j : ℕ)
      → j < n
      → let s' = (send_order coin (record { sender_id = 0; receiver_id = j; order = order }) s).0 in
        (s'.generals
          ≡ deliver j 1 0 (altered (traitor 0) coin order) (deliver 0 1 0 order s.generals))
        × (s'.max_rounds ≡ s.max_rounds)
        × (s'.current_round ≡ (if s.current_round == 0 then 1 else s.current_round))
  unfolding send_order
  send_order-generals coin order j b =
      let (c, at, t, role) = known 0 (omega (arith, b)) in
      let (g, at', _, _) = known j b in ground (arith, at, role, at', t)

  -- A message of the round, or of a later one, is kept by its receiver.
  pub exchange_message-generals :
      (coin : Bool) (value : Decision) (round i j : ℕ)
      → i < n
      → j < n
      → i ≢ j
      → s.current_round ≤ round
      → let s' =
          (exchange_message coin
            (record { sender_id = i; receiver_id = j; round = round; value = value; path = i ∷ [] })
            s).0 in
        (s'.generals ≡ deliver j round i (altered (traitor i) coin value) s.generals)
        × (s'.max_rounds ≡ s.max_rounds)
        × (s'.current_round ≡ round)
  unfolding exchange_message on_path
  exchange_message-generals coin value round i j bi bj apart late =
      let (h, at, t, _) = known i bi in
      let (g, at', _, _) = known j bj in ground (arith, at, at', t, ==_iff i j)
