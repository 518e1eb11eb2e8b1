-- ===== src/Byzantine/Reachable.antt =====
-- The states that the server reaches, and what holds in all of them.
use distributed_systems_iiit.Common.{
  ℕ, ◌+◌, ◌≤◌, ◌≡◌, ◌⊎◌, ◌∙◌, refl, inl, inr, Bool, none, some, [], ◌∷◌, ◌==◌, ==_iff, nat_key,
  arith, ltb, if◌then◌else◌, Bool-cases, Option-cases,
}
use distributed_systems_iiit.Common.Dict.{Dict, lookup, insert, IsMap, insert-IsMap}
use distributed_systems_iiit.Byzantine.{
  Decision, Role, altered, on_path, commander, lieutenant, General, ByzantineServer,
  new_byzantine_server, RegisterRequest, OrderRequest, MessageRequest, register_general, send_order,
  exchange_message, deliver, add_message,
}

-- One request that the server handles, with the coin that it tosses.
pub data Step : ByzantineServer → ByzantineServer → Type 0 where
  register : (req : RegisterRequest) (s : ByzantineServer) → Step s (register_general req s).0
  order :
      (coin : Bool) (req : OrderRequest) (s : ByzantineServer) → Step s (send_order coin req s).0
  exchange :
      (coin : Bool) (req : MessageRequest) (s : ByzantineServer)
      → Step s (exchange_message coin req s).0

pub data Reachable : ByzantineServer → Type 0 where
  started : Reachable new_byzantine_server
  step : {s s' : ByzantineServer} → Reachable s → Step s s' → Reachable s'

unfoldable pub size : Dict ℕ General → ℕ
size [] = 0
size (_ ∷ rest) = size rest + 1

unfoldable pub traitors : Dict ℕ General → ℕ
traitors [] = 0
traitors ((_, g) ∷ rest) = if g.is_traitor then traitors rest + 1 else traitors rest

-- The counters say what the map holds, and the rounds are enough for the traitors.
pub record IsConsistent (s : ByzantineServer) : Type 0 where
  pub is_map : IsMap s.generals
  pub num_generals : s.num_generals ≡ size s.generals
  pub num_traitors : s.num_traitors ≡ traitors s.generals
  pub max_rounds : s.max_rounds ≡ (if s.num_generals == 0 then 0 else s.num_traitors + 1)

module _ (id : ℕ) (g : General) where
  size-insert_new : (d : Dict ℕ General) → lookup id d ≡ none → size (insert id g d) ≡ size d + 1
  unfolding size insert lookup
  size-insert_new [] h = refl
  size-insert_new ((j, w) ∷ d) h = ground (arith, size-insert_new d)

  traitors-insert_new :
      (d : Dict ℕ General)
      → lookup id d ≡ none
      → traitors (insert id g d) ≡ (if g.is_traitor then traitors d + 1 else traitors d)
  unfolding traitors insert lookup
  traitors-insert_new [] h = ground arith
  traitors-insert_new ((j, w) ∷ d) h = ground (arith, traitors-insert_new d)

  size-insert_old :
      (old : General) (d : Dict ℕ General) → lookup id d ≡ some old → size (insert id g d) ≡ size d
  unfolding size insert lookup
  size-insert_old old [] h = cc h
  size-insert_old old ((j, w) ∷ d) h = ground (arith, size-insert_old old d)

  traitors-insert_old :
      (old : General) (d : Dict ℕ General)
      → lookup id d ≡ some old
      → old.is_traitor ≡ g.is_traitor
      → traitors (insert id g d) ≡ traitors d
  unfolding traitors insert lookup
  traitors-insert_old old [] h t = cc h
  traitors-insert_old old ((j, w) ∷ d) h t = ground (arith, traitors-insert_old old d)

-- What a delivery keeps of the map.
record Kept (d d' : Dict ℕ General) : Type 0 where
  is_map : IsMap d → IsMap d'
  size_kept : size d' ≡ size d
  traitors_kept : traitors d' ≡ traitors d

deliver-Kept :
    (receiver round sender : ℕ) (value : Decision) (d : Dict ℕ General)
    → Kept d (deliver receiver round sender value d)
unfolding deliver add_message
deliver-Kept receiver round sender value d = elim (Option-cases (lookup receiver d)) [
  | inl e ↦ rw (e, deliver) (record { is_map = λ m. m; size_kept = refl; traitors_kept = refl })
  | inr (g, e) ↦
      let g' = add_message round sender value g in
      rw (e, deliver)
        (record {
          is_map = insert-IsMap receiver g' d;
          size_kept = size-insert_old receiver g' g d e;
          traitors_kept = traitors-insert_old receiver g' g d e refl;
        })
]

register_general-IsConsistent :
    (req : RegisterRequest) (s : ByzantineServer)
    → IsConsistent s
    → IsConsistent (register_general req s).0
unfolding register_general
register_general-IsConsistent req s c = elim (Option-cases (lookup req.id s.generals)) [
  | inr (g, e) ↦ rw (e, register_general) c
  | inl e ↦
      let g : General = record {
        id = req.id;
        role = req.role;
        is_traitor = req.is_traitor;
        messages = [];
      } in
      rw (e, register_general)
        (record {
          is_map = insert-IsMap req.id g s.generals c.is_map;
          num_generals = ground (arith, c.num_generals, size-insert_new req.id g s.generals e);
          num_traitors = ground (arith, c.num_traitors, traitors-insert_new req.id g s.generals e);
          max_rounds = ground (arith, ==_iff (s.num_generals + 1) 0);
        })
]

-- A delivery, and whatever becomes of the current round, keeps a state consistent.
delivered-IsConsistent :
    (d : Dict ℕ General) (round : ℕ) (s : ByzantineServer)
    → Kept s.generals d
    → IsConsistent s
    → IsConsistent (record s { generals = d; current_round = round })
delivered-IsConsistent d round s k c = record {
  is_map = k.is_map c.is_map;
  num_generals = ground (arith, c.num_generals, k.size_kept);
  num_traitors = ground (arith, c.num_traitors, k.traitors_kept);
  max_rounds = c.max_rounds;
}

Kept-refl : (d : Dict ℕ General) → Kept d d
Kept-refl d = record { is_map = λ m. m; size_kept = refl; traitors_kept = refl }

Kept-trans : {d d' d'' : Dict ℕ General} → Kept d d' → Kept d' d'' → Kept d d''
Kept-trans k l = record {
  is_map = λ m. l.is_map (k.is_map m);
  size_kept = l.size_kept ∙ k.size_kept;
  traitors_kept = l.traitors_kept ∙ k.traitors_kept;
}

-- A handler that changes no more than the messages and the round.
record OnlyDelivers (s s' : ByzantineServer) : Type 0 where
  generals : Dict ℕ General
  round : ℕ
  result : s' ≡ record s { generals = generals; current_round = round }
  kept : Kept s.generals generals
  forward : s.current_round ≤ round

unchanged : (s : ByzantineServer) → OnlyDelivers s s
unchanged s = record {
  generals = s.generals;
  round = s.current_round;
  result = refl;
  kept = Kept-refl s.generals;
  forward = omega arith;
}

Role-cases : (r : Role) → (r ≡ commander) ⊎ (r ≡ lieutenant)
Role-cases commander = inl refl
Role-cases lieutenant = inr refl

send_order-OnlyDelivers :
    (coin : Bool) (req : OrderRequest) (s : ByzantineServer)
    → OnlyDelivers s (send_order coin req s).0
unfolding send_order
send_order-OnlyDelivers coin req s = elim (Option-cases (lookup req.sender_id s.generals)) [
  | inl e ↦ rw (e, send_order) (unchanged s)
  | inr (g, e) ↦ elim (Option-cases (lookup req.receiver_id s.generals)) [
    | inl f ↦ rw (e, f, send_order) (unchanged s)
    | inr (g', f) ↦ elim (Role-cases g.role) [
      | inl r ↦
          let value = altered g.is_traitor coin req.order in
          let kept = deliver req.sender_id 1 req.sender_id req.order s.generals in
          rw (e, f, r, send_order)
            (record {
              generals = deliver req.receiver_id 1 req.sender_id value kept;
              round = if s.current_round == 0 then 1 else s.current_round;
              result = refl;
              kept =
                  Kept-trans (deliver-Kept req.sender_id 1 req.sender_id req.order s.generals)
                    (deliver-Kept req.receiver_id 1 req.sender_id value kept);
              forward = ground arith;
            })
      | inr r ↦ rw (e, f, r, send_order) (unchanged s)
    ]
  ]
]

exchange_message-OnlyDelivers :
    (coin : Bool) (req : MessageRequest) (s : ByzantineServer)
    → OnlyDelivers s (exchange_message coin req s).0
unfolding exchange_message
exchange_message-OnlyDelivers coin req s = elim (Option-cases (lookup req.sender_id s.generals)) [
  | inl e ↦ rw (e, exchange_message) (unchanged s)
  | inr (g, e) ↦ elim (Option-cases (lookup req.receiver_id s.generals)) [
    | inl f ↦ rw (e, f, exchange_message) (unchanged s)
    | inr (g', f) ↦ elim (Bool-cases (ltb req.round s.current_round)) [
      | inl p ↦ rw (e, f, p, exchange_message) (unchanged s)
      | inr p ↦
          let value = altered g.is_traitor coin req.value in
          let round = if ltb s.current_round req.round then req.round else s.current_round in
          elim (Bool-cases (on_path req.receiver_id req.path)) [
            | inl q ↦
                rw (e, f, p, q, exchange_message)
                  (record {
                    generals = s.generals;
                    round = round;
                    result = refl;
                    kept = Kept-refl s.generals;
                    forward = ground arith;
                  })
            | inr q ↦
                rw (e, f, p, q, exchange_message)
                  (record {
                    generals = deliver req.receiver_id req.round req.sender_id value s.generals;
                    round = round;
                    result = refl;
                    kept = deliver-Kept req.receiver_id req.round req.sender_id value s.generals;
                    forward = ground arith;
                  })
          ]
    ]
  ]
]

OnlyDelivers-IsConsistent :
    (s s' : ByzantineServer) → OnlyDelivers s s' → IsConsistent s → IsConsistent s'
OnlyDelivers-IsConsistent s s' o c =
    rw o.result (delivered-IsConsistent o.generals o.round s o.kept c)

Step-IsConsistent : {s s' : ByzantineServer} → Step s s' → IsConsistent s → IsConsistent s'
Step-IsConsistent (register req s) c = register_general-IsConsistent req s c
Step-IsConsistent (order coin req s) c =
    OnlyDelivers-IsConsistent s (send_order coin req s).0 (send_order-OnlyDelivers coin req s) c
Step-IsConsistent (exchange coin req s) c =
    OnlyDelivers-IsConsistent s (exchange_message coin req s).0
      (exchange_message-OnlyDelivers coin req s) c

-- In every state that the server reaches the ids are unique, the counters are the numbers of
-- generals and of traitors, and there is one round more than there are traitors once a general is
-- registered.
pub Reachable-IsConsistent : {s : ByzantineServer} → Reachable s → IsConsistent s
Reachable-IsConsistent started =
    unfold new_byzantine_server size traitors in
    record { is_map = tt; num_generals = refl; num_traitors = refl; max_rounds = refl }
Reachable-IsConsistent (step r t) = Step-IsConsistent t (Reachable-IsConsistent r)

-- No request takes the server back to an earlier round.
pub Step-forward : {s s' : ByzantineServer} → Step s s' → s.current_round ≤ s'.current_round
Step-forward (register req s) = unfold register_general in ground arith
Step-forward (order coin req s) =
    let o = send_order-OnlyDelivers coin req s in rw o.result o.forward
Step-forward (exchange coin req s) =
    let o = exchange_message-OnlyDelivers coin req s in rw o.result o.forward
