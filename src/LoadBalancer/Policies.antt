-- ===== src/LoadBalancer/Policies.antt =====
-- What the three policies select.
use Prim.Native.String.{◌++◌}
use native.Mathlib.Nat.{mod-lt}
use distributed_systems_iiit.Common.{
  ℕ, zero, suc, ◌%◌, ◌<◌, ◌≤◌, ◌≡◌, ◌⊎◌, refl, inl, inr, String, true, Option, none, some, List, [],
  ◌∷◌, arith, leb, if◌then◌else◌, Bool-cases, Option-cases,
}
use distributed_systems_iiit.Common.Lists.{length, get_elem?}
use distributed_systems_iiit.Common.Int.{pos, ◌≤ℤ◌, ltb_ℤ}
use distributed_systems_iiit.LoadBalancer.{
  ServerStatus, EtcdClient, LoadBalanceStrategy, pick_first, round_robin, least_load, selected,
  no_available_servers, available_servers, least_loaded, server_at, pick, LoadBalancer, put_status,
  register_server, get_best_server, etcd_servers_prefix,
}

-- An available server among the values that a query returned.
pub record Candidate (kvs : List (Option ServerStatus)) : Type 0 where
  pub status : ServerStatus
  pub index : ℕ
  pub listed : get_elem? kvs index ≡ some (some status)
  pub available : status.available ≡ true

available_servers_sound :
    (kvs : List (Option ServerStatus)) (i : ℕ) (s : ServerStatus)
    → get_elem? (available_servers kvs) i ≡ some s
    → (j : ℕ) × (get_elem? kvs j ≡ some (some s)) × (s.available ≡ true)
unfolding available_servers
available_servers_sound [] i s h = cc h
available_servers_sound (none ∷ rest) i s h =
    let (j, p, q) = available_servers_sound rest i s h in (suc j, p, q)
available_servers_sound (some t ∷ rest) i s h = elim (Bool-cases t.available) [
  | inr e ↦ let (j, p, q) = available_servers_sound rest i s (ground arith) in (suc j, p, q)
  | inl e ↦ go (λ k p. available_servers_sound rest k s p) e i (ground arith)
]
  where
    go :
        ((k : ℕ)
          → get_elem? (available_servers rest) k ≡ some s
          → (j : ℕ) × (get_elem? rest j ≡ some (some s)) × (s.available ≡ true))
        → t.available ≡ true
        → (k : ℕ) → get_elem? (t ∷ available_servers rest) k ≡ some s
        → (j : ℕ) × (get_elem? (some t ∷ rest) j ≡ some (some s)) × (s.available ≡ true)
    go found e zero p = (0, cc p, cc (p, e))
    go found e (suc k) p = let (j, q, r) = found k p in (suc j, q, r)

available_servers_complete :
    (kvs : List (Option ServerStatus)) (j : ℕ) (s : ServerStatus)
    → get_elem? kvs j ≡ some (some s)
    → s.available ≡ true
    → (i : ℕ) × (get_elem? (available_servers kvs) i ≡ some s)
unfolding available_servers
available_servers_complete [] j s h a = cc h
available_servers_complete (none ∷ rest) zero s h a = cc h
available_servers_complete (none ∷ rest) (suc j) s h a = available_servers_complete rest j s h a
available_servers_complete (some t ∷ rest) zero s h a = (0, ground arith)
available_servers_complete (some t ∷ rest) (suc j) s h a =
    let (i, p) = available_servers_complete rest j s h a in
    elim (Bool-cases t.available) [ inl e ↦ (suc i, ground arith) | inr e ↦ (i, ground arith) ]

get_elem?_below :
    {A : Type 0} (xs : List A) (i : ℕ) → i < length xs → (x : A) × (get_elem? xs i ≡ some x)
get_elem?_below [] i h = absurd (omega (arith, h))
get_elem?_below (x ∷ xs) zero h = (x, refl)
get_elem?_below (x ∷ xs) (suc i) h = get_elem?_below xs i (omega arith)

least_loaded_listed :
    (best : ServerStatus) (servers : List ServerStatus)
    → (least_loaded best servers ≡ best)
      ⊎ ((i : ℕ) × (get_elem? servers i ≡ some (least_loaded best servers)))
unfolding least_loaded
least_loaded_listed best [] = inl refl
least_loaded_listed best (s ∷ rest) =
    elim (least_loaded_listed (if ltb_ℤ s.load best.load then s else best) rest) [
      | inr (i, e) ↦ inr (suc i, e)
      | inl e ↦ elim (Bool-cases (ltb_ℤ s.load best.load)) [
        | inl p ↦ inr (0, ground arith)
        | inr p ↦ inl (ground arith)
      ]
    ]

least_loaded_minimal :
    (best : ServerStatus) (servers : List ServerStatus)
    → ((least_loaded best servers).load ≤ℤ best.load)
      × ((i : ℕ) (t : ServerStatus)
          → get_elem? servers i ≡ some t
          → (least_loaded best servers).load ≤ℤ t.load)
unfolding least_loaded
least_loaded_minimal best [] = (omega arith, λ i t h. cc h)
least_loaded_minimal best (s ∷ rest) =
    let better = if ltb_ℤ s.load best.load then s else best in
    let (p, q) = least_loaded_minimal better rest in (ground (arith, p), go p q)
  where
    go :
        let better = if ltb_ℤ s.load best.load then s else best in
        ((least_loaded better rest).load ≤ℤ better.load)
        → ((i : ℕ) (t : ServerStatus)
            → get_elem? rest i ≡ some t
            → (least_loaded better rest).load ≤ℤ t.load)
        → (i : ℕ) (t : ServerStatus) → get_elem? (s ∷ rest) i ≡ some t
        → (least_loaded better rest).load ≤ℤ t.load
    go p q zero t h = ground arith
    go p q (suc i) t h = q i t h

-- A list with a server always yields one of its servers.
pick-listed :
    (strategy : LoadBalanceStrategy) (rr_index : ℕ) (s : ServerStatus) (rest : List ServerStatus)
    → (i : ℕ) × (t : ServerStatus) × (get_elem? (s ∷ rest) i ≡ some t)
      × ((pick strategy rr_index (s ∷ rest)).1 ≡ selected t.address)
unfolding pick server_at
pick-listed pick_first rr_index s rest = (0, s, refl, refl)
pick-listed least_load rr_index s rest = elim (least_loaded_listed s (s ∷ rest)) [
  | inl e ↦ (0, s, refl, rw (e, pick) refl)
  | inr (i, e) ↦ (i, least_loaded s (s ∷ rest), e, refl)
]
pick-listed round_robin rr_index s rest =
    let i = (if leb (length (s ∷ rest)) rr_index then 0 else rr_index) % length (s ∷ rest) in
    let (t, e) =
      get_elem?_below (s ∷ rest) i
        (mod-lt (if leb (length (s ∷ rest)) rr_index then 0 else rr_index) (omega arith)) in
    (i, t, e, ground arith)

pick-rr_index :
    (strategy : LoadBalanceStrategy) (rr_index : ℕ) (servers : List ServerStatus)
    → let next = (pick strategy rr_index servers).0 in
      (next ≡ rr_index) ⊎ ((0 < next) × (next ≤ length servers))
unfolding pick
pick-rr_index strategy rr_index [] = inl refl
pick-rr_index pick_first rr_index (s ∷ rest) = inl refl
pick-rr_index least_load rr_index (s ∷ rest) = inl refl
pick-rr_index round_robin rr_index (s ∷ rest) = inr (ground arith, ground arith)

list_cases :
    (xs : List ServerStatus)
    → (xs ≡ []) ⊎ ((s : ServerStatus) × (rest : List ServerStatus) × (xs ≡ s ∷ rest))
list_cases [] = inl refl
list_cases (s ∷ rest) = inr (s, rest, refl)

module _ (etcd : EtcdClient) where
  open etcd use {put, get_with_prefix}

  selection_cases :
      (strategy : LoadBalanceStrategy) (lb : LoadBalancer etcd) (kvs : List (Option ServerStatus))
      → get_with_prefix etcd_servers_prefix lb.store ≡ some kvs
      → let selection = (get_best_server etcd strategy lb).1 in
        ((c : Candidate kvs) × (selection ≡ selected c.status.address))
        ⊎ ((selection ≡ no_available_servers) × (¬ Candidate kvs))
  unfolding get_best_server
  selection_cases strategy lb kvs h = elim (list_cases (available_servers kvs)) [
    | inl e ↦ inr (
      unfold pick in ground arith,
      λ c.
          let (i, p) = available_servers_complete kvs c.index c.status c.listed c.available in
          cc (p, e),
    )
    | inr (s, rest, e) ↦
        let (i, t, p, q) = pick-listed strategy lb.rr_index s rest in
        let (j, listed, available) = available_servers_sound kvs i t (rw e p) in
        inl (record { status = t; index = j; listed = listed; available = available }, ground arith)
  ]

  -- A query that succeeds ends in one of two ways. Either the selected server is one that the query
  -- returned as available, by any policy; or the answer is that no server is available, and then the
  -- query returned none. The round-robin index is left as it was, or is at least 1 and at most the
  -- number of the available servers.
  pub get_best_server_selects :
      (strategy : LoadBalanceStrategy) (lb : LoadBalancer etcd) (kvs : List (Option ServerStatus))
      → get_with_prefix etcd_servers_prefix lb.store ≡ some kvs
      → let (lb', selection) = get_best_server etcd strategy lb in
        (((c : Candidate kvs) × (selection ≡ selected c.status.address))
          ⊎ ((selection ≡ no_available_servers) × (¬ Candidate kvs)))
        × ((lb'.rr_index ≡ lb.rr_index)
            ⊎ ((0 < lb'.rr_index) × (lb'.rr_index ≤ length (available_servers kvs))))
  unfolding get_best_server
  get_best_server_selects strategy lb kvs h = (
    selection_cases strategy lb kvs h,
    rw (h, get_best_server) (pick-rr_index strategy lb.rr_index (available_servers kvs)),
  )

  -- The policy of the least load selects an available server, and no available server that the query
  -- returned has a smaller load.
  pub get_best_server_least :
      (lb : LoadBalancer etcd) (kvs : List (Option ServerStatus)) (d : Candidate kvs)
      → get_with_prefix etcd_servers_prefix lb.store ≡ some kvs
      → (c : Candidate kvs) × ((get_best_server etcd least_load lb).1 ≡ selected c.status.address)
        × (c.status.load ≤ℤ d.status.load)
  unfolding get_best_server
  get_best_server_least lb kvs d h =
      let (k, found) = available_servers_complete kvs d.index d.status d.listed d.available in
      elim (list_cases (available_servers kvs)) [
        | inl e ↦ absurd (cc (found, e))
        | inr (s, rest, e) ↦
            let best = least_loaded s (s ∷ rest) in
            let at : (i : ℕ) × (get_elem? (s ∷ rest) i ≡ some best) =
              elim (least_loaded_listed s (s ∷ rest)) [ inl p ↦ (0, rw p refl) | inr w ↦ w ] in
            let (j, listed, available) = available_servers_sound kvs at.0 best (rw e at.1) in
            (
              record { status = best; index = j; listed = listed; available = available },
              unfold pick in ground arith,
              (least_loaded_minimal s (s ∷ rest)).1 k d.status (cc (found, e)),
            )
      ]

  -- A server that has registered is a candidate for every selection that reads its status: the
  -- next query that succeeds selects a server, by any policy.
  pub get_best_server-register_server :
      (strategy : LoadBalanceStrategy) (address : String) (lb lb' : LoadBalancer etcd)
      (kvs : List (Option ServerStatus))
      → register_server etcd address lb ≡ (lb', true)
      → get_with_prefix etcd_servers_prefix lb'.store ≡ some kvs
      → (c : Candidate kvs) × ((get_best_server etcd strategy lb').1 ≡ selected c.status.address)
  unfolding register_server put_status
  get_best_server-register_server strategy address lb lb' kvs written h =
      let status : ServerStatus = record { address = address; load = pos 0; available = true } in
      elim (Option-cases (put (etcd_servers_prefix ++ address) status lb.store)) [
        | inl e ↦ absurd (ground arith)
        | inr (store, e) ↦
            let (i, listed) =
              etcd.put_get etcd_servers_prefix address status lb.store lb'.store kvs (ground arith)
                h in
            elim (selection_cases strategy lb' kvs h) [
              | inl w ↦ w
              | inr (_, nobody) ↦ absurd (
                  nobody (record { status = status; index = i; listed = listed; available = refl }))
            ]
      ]
