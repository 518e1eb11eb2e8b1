-- ===== src/Byzantine/Delivery.antt =====
-- Which messages are accepted, and what a message adds to the votes of the general that gets it.
use distributed_systems_iiit.Common.{
  ℕ, zero, suc, ◌+◌, ◌≤◌, ◌≡◌, ◌≢◌, ◌↔◌, ◌∙◌, refl, inl, inr, Bool, true, false, some, List, [],
  ◌∷◌, ◌++◌, ◌==◌, ==_iff, ==_refl, nat_key, arith, ltb, leb, or_else, ◌&&◌, if◌then◌else◌,
  Bool-cases, Option-cases,
}
use distributed_systems_iiit.Common.Dict.{Dict, lookup, insert, lookup-insert}
use distributed_systems_iiit.Byzantine.{
  Decision, attack, retreat, commander, lieutenant, RoundMessages, General, ByzantineServer,
  OrderRequest, MessageRequest, message_received, exchange_message, send_order, on_path,
  add_message, deliver,
}
use distributed_systems_iiit.Byzantine.Decisions.{
  same, count, count_senders, count_rounds, majority, loyal_decision,
}

-- The conditions under which a message is kept.
pub record IsAcceptable (req : MessageRequest) (s : ByzantineServer) : Type 0 where
  pub sender : General
  pub receiver : General
  pub sender_known : lookup req.sender_id s.generals ≡ some sender
  pub receiver_known : lookup req.receiver_id s.generals ≡ some receiver
  pub not_late : s.current_round ≤ req.round
  pub no_cycle : on_path req.receiver_id req.path ≡ false

-- A message is kept exactly when both generals are registered, its round is not over and its
-- receiver is not on its path.
pub exchange_message_received :
    (coin : Bool) (req : MessageRequest) (s : ByzantineServer)
    → ((exchange_message coin req s).1 ≡ message_received) ↔ IsAcceptable req s
unfolding exchange_message
exchange_message_received coin req s = elim (Option-cases (lookup req.sender_id s.generals)) [
  | inl e ↦ (λ h. absurd (ground arith), λ w. absurd (cc (w.sender_known)))
  | inr (g, e) ↦ elim (Option-cases (lookup req.receiver_id s.generals)) [
    | inl f ↦ (λ h. absurd (ground arith), λ w. absurd (cc (w.receiver_known)))
    | inr (g', f) ↦ (
      λ h. record {
        sender = g;
        receiver = g';
        sender_known = e;
        receiver_known = f;
        not_late = ground arith;
        no_cycle = ground arith;
      },
      λ w. ground (arith, w.not_late, w.no_cycle),
    )
  ]
]

abbrev within : ℕ → ℕ → ℕ → Bool
within round start left = leb start round && ltb round (start + left)

-- One round more in front of those that are counted: the message is of that round, or of another.
add_round_here :
    (t : Bool) (a a' r r' left start : ℕ)
    → a' ≡ (if t then a + 1 else a)
    → r' ≡ (if t && within start (start + 1) left then r + 1 else r)
    → a' + r' ≡ (if t && within start start (suc left) then a + r + 1 else a + r)
add_round_here true a a' r r' left start p q = ground arith
add_round_here false a a' r r' left start p q = ground arith

add_round_there :
    (t : Bool) (a r r' left start round : ℕ)
    → round ≢ start
    → r' ≡ (if t && within round (start + 1) left then r + 1 else r)
    → a + r' ≡ (if t && within round start (suc left) then a + r + 1 else a + r)
add_round_there true a r r' left start round p q = ground arith
add_round_there false a r r' left start round p q = ground arith

module _ (d : Decision) where
  count-append :
      (values : List Decision) (v : Decision)
      → count d (values ++ (v ∷ [])) ≡ (if same v d then count d values + 1 else count d values)
  unfolding count
  count-append [] v = ground arith
  count-append (w ∷ values) v = ground (arith, count-append values v)

  count_senders-insert :
      (sender : ℕ) (v : Decision) (senders : RoundMessages)
      → count_senders d (insert sender (or_else [] (lookup sender senders) ++ (v ∷ [])) senders)
        ≡ (if same v d then count_senders d senders + 1 else count_senders d senders)
  unfolding count_senders insert lookup
  count_senders-insert sender v [] = ground (arith, count-append [] v)
  count_senders-insert sender v ((j, values) ∷ rest) =
      ground (arith, count_senders-insert sender v rest, count-append values v)

  -- A message of one of the rounds that are counted adds its value once to the votes of the general
  -- that gets it; a message of any other round adds nothing.
  pub count_rounds-add_message :
      (round sender : ℕ) (v : Decision) (g : General) (left start : ℕ)
      → count_rounds d left start (add_message round sender v g).messages ≡ (
          if same v d && (leb start round && ltb round (start + left))
          then count_rounds d left start g.messages + 1
          else count_rounds d left start g.messages)
  unfolding count_rounds add_message
  count_rounds-add_message round sender v g zero start = ground arith
  count_rounds-add_message round sender v g (suc left) start =
      let senders = or_else [] (lookup round g.messages) in
      let new = insert sender (or_else [] (lookup sender senders) ++ (v ∷ [])) senders in
      rw (lookup-insert round start new g.messages) (elim (Bool-cases (round == start)) [
        | inl e ↦
            let at : round ≡ start = (==_iff round start).0 e in
            rw (e, ← at)
              (add_round_here (same v d) (count_senders d senders) (count_senders d new)
                (count_rounds d left (round + 1) g.messages) _ left round
                (count_senders-insert sender v senders)
                (count_rounds-add_message round sender v g left (round + 1)))
        | inr e ↦ rw e (
            add_round_there (same v d) _ (count_rounds d left (start + 1) g.messages) _ left start
              round (ground (arith, ==_iff round start))
              (count_rounds-add_message round sender v g left (start + 1)))
      ])

pub no_votes : (d : Decision) (left start : ℕ) → count_rounds d left start [] ≡ 0
unfolding count_rounds count_senders lookup
no_votes d zero start = refl
no_votes d (suc left) start = ground (arith, no_votes d left (start + 1))

first_vote :
    (sender : ℕ) (v : Decision) (g : General) (s : ByzantineServer)
    → g.role ≡ lieutenant
    → g.messages ≡ []
    → 1 ≤ s.max_rounds
    → loyal_decision (add_message 1 sender v g) s ≡ v
unfolding loyal_decision majority
first_vote sender v g s r m rounds =
    let g' = add_message 1 sender v g in
    let votes : (d : Decision)
        → count_rounds d s.max_rounds 1 g'.messages ≡ (if same v d then 1 else 0) =
      λ d.
        count_rounds-add_message d 1 sender v g s.max_rounds 1
        ∙ rw m (ground (arith, no_votes d s.max_rounds 1)) in
    let role : g'.role ≡ lieutenant = unfold add_message in r in go v votes role
  where
    go :
        (w : Decision)
        → ((d : Decision)
            → count_rounds d s.max_rounds 1 (add_message 1 sender v g).messages
              ≡ (if same w d then 1 else 0))
        → (add_message 1 sender v g).role ≡ lieutenant
        → loyal_decision (add_message 1 sender v g) s ≡ w
    go attack votes role = ground (arith, votes attack, votes retreat)
    go retreat votes role = ground (arith, votes attack, votes retreat)

pub lookup-deliver :
    (receiver round sender j : ℕ) (v : Decision) (g : General) (d : Dict ℕ General)
    → lookup receiver d ≡ some g
    → lookup j (deliver receiver round sender v d)
      ≡ (if receiver == j then some (add_message round sender v g) else lookup j d)
unfolding deliver
lookup-deliver receiver round sender j v g d e =
    rw (e, deliver) (lookup-insert receiver j (add_message round sender v g) d)

-- After the order of a loyal commander a lieutenant that had no message decides on that order, when
-- at least one round is counted.
pub send_order_obeyed :
    (coin : Bool) (req : OrderRequest) (s : ByzantineServer) (c g : General)
    → lookup req.sender_id s.generals ≡ some c
    → c.role ≡ commander
    → c.is_traitor ≡ false
    → lookup req.receiver_id s.generals ≡ some g
    → g.role ≡ lieutenant
    → g.messages ≡ []
    → 1 ≤ s.max_rounds
    → let s' = (send_order coin req s).0 in
      (g' : General) × (lookup req.receiver_id s'.generals ≡ some g')
      × (loyal_decision g' s' ≡ req.order)
unfolding send_order
send_order_obeyed coin req s c g known leads loyal found follows empty rounds =
    let kept = deliver req.sender_id 1 req.sender_id req.order s.generals in
    let apart : req.sender_id ≢ req.receiver_id =
      λ e. absurd (cc (e, known, found, leads, follows)) in
    let there : lookup req.receiver_id kept ≡ some g = ground (
      arith,
      lookup-deliver req.sender_id 1 req.sender_id req.receiver_id req.order c s.generals known,
      ==_iff req.sender_id req.receiver_id,
    ) in
    let g' = add_message 1 req.sender_id req.order g in
    (
      g',
      ground (
        arith,
        lookup-deliver req.receiver_id 1 req.sender_id req.receiver_id req.order g kept there,
        ==_refl req.receiver_id,
      ),
      first_vote req.sender_id req.order g (send_order coin req s).0 follows empty (ground arith),
    )
