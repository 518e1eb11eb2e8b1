-- ===== src/Byzantine/Client/Phases.antt =====
-- What a later phase of the client adds to the votes of each general.
use distributed_systems_iiit.Common.{
  ℕ, ◌+◌, ◌≤◌, ◌<◌, ◌≡◌, ◌≢◌, ◌∙◌, refl, ap, Bool, true, false, some, List, [], ◌∷◌, ◌==◌, nat_key,
  arith, not, ◌&&◌, if◌then◌else◌,
}
use distributed_systems_iiit.Common.Dict.{Dict, lookup}
use distributed_systems_iiit.Common.Lists.{All}
use distributed_systems_iiit.Byzantine.{
  Decision, attack, retreat, General, ByzantineServer, altered, flip, deliver, exchange_message,
}
use distributed_systems_iiit.Byzantine.Decisions.{same}
use distributed_systems_iiit.Byzantine.Reachable.{Reachable, step, exchange}
use distributed_systems_iiit.Byzantine.Client.{Flags, Choices, is_traitor, exchange_all}
use distributed_systems_iiit.Byzantine.Client.Votes.{
  votes, is_counted, votes-deliver, Known, deliver-Known, NoOthers, deliver-NoOthers,
  exchange_message-generals,
}

-- How many of the messages pass a test.
unfoldable pub count_if : (ℕ × ℕ → Bool) → List (ℕ × ℕ) → ℕ
count_if test [] = 0
count_if test (m ∷ rest) = let n = count_if test rest in if test m then n + 1 else n

-- A message to a general from a loyal sender, and from a traitor.
abbrev pub from_loyal : (ℕ → Bool) → ℕ → ℕ × ℕ → Bool
from_loyal traitor k (i, j) = (j == k) && not (traitor i)

abbrev pub from_traitor : (ℕ → Bool) → ℕ → ℕ × ℕ → Bool
from_traitor traitor k (i, j) = (j == k) && traitor i

-- The pair can exchange a message.
abbrev pub Valid : ℕ → ℕ × ℕ → Type 0
Valid n (i, j) = (i < n) × (j < n) × (i ≢ j)

-- What is known of a state in a round: the generals, the rounds that are counted and the current one.
pub record At (n : ℕ) (traitor : ℕ → Bool) (max_rounds round : ℕ) (s : ByzantineServer)
    : Type 0 where
  pub known : Known n traitor s.generals
  pub others : NoOthers n s.generals
  pub rounds : s.max_rounds ≡ max_rounds
  pub current : s.current_round ≤ round
  pub reachable : Reachable s

-- The votes for the order grow by at least so many, and those against it by at most so many.
pub record Grows (max_rounds k : ℕ) (d : Decision) (for against : ℕ) (s s' : ByzantineServer)
    : Type 0 where
  pub for_order : votes max_rounds d k s.generals + for ≤ votes max_rounds d k s'.generals
  pub against_order :
      votes max_rounds (flip d) k s'.generals ≤ votes max_rounds (flip d) k s.generals + against

same_refl : (d : Decision) → same d d ≡ true
same_refl attack = refl
same_refl retreat = refl

same-flip : (d : Decision) → same d (flip d) ≡ false
same-flip attack = refl
same-flip retreat = refl

-- One message more, which is the order if its sender is loyal.
pub deliver-votes :
    (max_rounds j round i k : ℕ) (d w : Decision) (t : Bool) (g : General)
    (generals : Dict ℕ General)
    → lookup j generals ≡ some g
    → (t ≡ false → w ≡ d)
    → let generals' = deliver j round i w generals in
      let counted = (j == k) && is_counted max_rounds round in
      (votes max_rounds d k generals + (if counted && not t then 1 else 0)
        ≤ votes max_rounds d k generals')
      × (votes max_rounds (flip d) k generals'
          ≤ votes max_rounds (flip d) k generals + (if counted && t then 1 else 0))
deliver-votes max_rounds j round i k d w true g generals found honest =
    let for_d = votes-deliver max_rounds j round i k d w g generals found in
    let against = votes-deliver max_rounds j round i k (flip d) w g generals found in
    (ground (arith, for_d), ground (arith, against))
deliver-votes max_rounds j round i k d w false g generals found honest =
    let for_d = votes-deliver max_rounds j round i k d w g generals found in
    let against = votes-deliver max_rounds j round i k (flip d) w g generals found in
    let kept : same w d ≡ true = ap (λ (x : Decision). same x d) (honest refl) ∙ same_refl d in
    let other : same w (flip d) ≡ false =
      ap (λ (x : Decision). same x (flip d)) (honest refl) ∙ same-flip d in
    (ground (arith, for_d, kept), ground (arith, against, other))

module _ (flags : Flags) (choices : Choices) (max_rounds : ℕ) where
  exchange_one :
      (round i j : ℕ) (s : ByzantineServer)
      → Valid flags.num_generals (i, j)
      → At flags.num_generals (is_traitor flags choices) max_rounds round s
      → (k : ℕ)
      → let value =
          altered (is_traitor flags choices i) (choices.client_coin round i j) flags.decision in
        let s' =
          (exchange_message
            (choices.server_coin round i j)
            (record { sender_id = i; receiver_id = j; round = round; value = value; path = i ∷ [] })
            s).0 in
        let counted = (j == k) && is_counted max_rounds round in
        At flags.num_generals (is_traitor flags choices) max_rounds round s'
        × Grows max_rounds k flags.decision
            (if counted && not (is_traitor flags choices i) then 1 else 0)
            (if counted && is_traitor flags choices i then 1 else 0)
            s
            s'
  exchange_one round i j s v at k =
      let value =
        altered (is_traitor flags choices i) (choices.client_coin round i j) flags.decision in
      let coin = choices.server_coin round i j in
      let (eg, em, ec) =
        exchange_message-generals flags.num_generals (is_traitor flags choices) s at.known coin
          value round i j v.0 v.1 v.2 at.current in
      let w = altered (is_traitor flags choices i) coin value in
      let honest : is_traitor flags choices i ≡ false → w ≡ flags.decision = λ e. rw e refl in
      let (g, found, _, _) = at.known j v.1 in
      let (for_d, against) =
        deliver-votes max_rounds j round i k flags.decision w (is_traitor flags choices i) g
          s.generals found honest in
      (
        record {
          known = rw eg (
              deliver-Known flags.num_generals (is_traitor flags choices) j round i w s.generals v.1
                at.known);
          others =
              rw eg
                (deliver-NoOthers flags.num_generals j round i w g s.generals v.1 found at.others);
          rounds = em ∙ at.rounds;
          current = omega (arith, ec);
          reachable = step at.reachable (exchange coin _ s);
        },
        record { for_order = rw eg for_d; against_order = rw eg against },
      )

  pub exchange_all-At :
      (round : ℕ) (l : List (ℕ × ℕ)) (s : ByzantineServer)
      → All (Valid flags.num_generals) l
      → At flags.num_generals (is_traitor flags choices) max_rounds round s
      → At flags.num_generals
          (is_traitor flags choices)
          max_rounds
          round
          (exchange_all flags choices round l s)
  unfolding exchange_all
  exchange_all-At round [] s v at = at
  exchange_all-At round ((i, j) ∷ l) s v at =
      exchange_all-At round l _ v.1 (exchange_one round i j s v.0 at 0).0

  -- A phase adds the order once for each loyal sender to a general, and anything once for each
  -- traitor, if its round is counted.
  pub exchange_all-Grows :
      (round : ℕ) (l : List (ℕ × ℕ)) (s : ByzantineServer) (k : ℕ)
      → All (Valid flags.num_generals) l
      → At flags.num_generals (is_traitor flags choices) max_rounds round s
      → Grows max_rounds k flags.decision
          (if is_counted max_rounds round
            then count_if (from_loyal (is_traitor flags choices) k) l
            else 0)
          (if is_counted max_rounds round
            then count_if (from_traitor (is_traitor flags choices) k) l
            else 0)
          s
          (exchange_all flags choices round l s)
  unfolding exchange_all count_if
  exchange_all-Grows round [] s k v at = record {
    for_order = ground arith;
    against_order = ground arith;
  }
  exchange_all-Grows round ((i, j) ∷ l) s k v at =
      let (at', one) = exchange_one round i j s v.0 at k in
      let rest = exchange_all-Grows round l _ k v.1 at' in
      record {
        for_order = ground (arith, one.for_order, rest.for_order);
        against_order = ground (arith, one.against_order, rest.against_order);
      }
