-- ===== src/LoadBalancer/Rounds.antt =====
-- Round robin over a list of servers that does not change.
use native.Mathlib.Nat.{mod-eq_of_lt}
use distributed_systems_iiit.Common.{
  ℕ, zero, suc, ◌+◌, ◌%◌, ◌<◌, ◌≤◌, ◌≡◌, ◌⊎◌, inl, inr, ◌∙◌, List, [], ◌∷◌, arith,
}
use distributed_systems_iiit.Common.Lists.{length}
use distributed_systems_iiit.LoadBalancer.{ServerStatus, round_robin, Selection, server_at, pick}

-- The selections of as many requests in a row, and the index that they leave.
unfoldable pub picks : ℕ → ℕ → List ServerStatus → ℕ × List Selection
picks zero rr_index servers = (rr_index, [])
picks (suc k) rr_index servers =
    let (next, selection) = pick round_robin rr_index servers in
    let (last, others) = picks k next servers in (last, selection ∷ others)

-- The selections of the servers from the place `start` on, in the order of the list.
abbrev pub in_order : ℕ → ℕ → List ServerStatus → List Selection
in_order zero start servers = []
in_order (suc k) start servers = server_at servers start ∷ in_order k (start + 1) servers

pick_at :
    (i : ℕ) (s : ServerStatus) (rest : List ServerStatus)
    → i < length (s ∷ rest)
    → pick round_robin i (s ∷ rest) ≡ (i + 1, server_at (s ∷ rest) i)
unfolding pick
pick_at i s rest h = ground (arith, mod-eq_of_lt h)

pick_wrapped :
    (i : ℕ) (s : ServerStatus) (rest : List ServerStatus)
    → length (s ∷ rest) ≤ i
    → pick round_robin i (s ∷ rest) ≡ (1, server_at (s ∷ rest) 0)
unfolding pick
pick_wrapped i s rest h =
    let at_start : 0 % length (s ∷ rest) ≡ 0 = mod-eq_of_lt (omega arith) in
    ground (arith, at_start)

picks-in_order :
    (k i : ℕ) (s : ServerStatus) (rest : List ServerStatus)
    → i + k ≤ length (s ∷ rest)
    → picks k i (s ∷ rest) ≡ (i + k, in_order k i (s ∷ rest))
unfolding picks
picks-in_order zero i s rest h = ground arith
picks-in_order (suc k) i s rest h =
    rw (pick_at i s rest (omega arith), picks)
      (rw (picks-in_order k (i + 1) s rest (omega arith)) (ground arith))

-- From the start of a round, which is the first request or the end of a round before it, as many
-- requests as there are servers get every server once, in the order of the list, and end a round.
pub picks_round :
    (i : ℕ) (s : ServerStatus) (rest : List ServerStatus)
    → (i ≡ 0) ⊎ (length (s ∷ rest) ≤ i)
    → picks (length (s ∷ rest)) i (s ∷ rest)
      ≡ (length (s ∷ rest), in_order (length (s ∷ rest)) 0 (s ∷ rest))
picks_round i s rest (inl e) =
    rw e (picks-in_order (length (s ∷ rest)) 0 s rest (omega arith) ∙ ground arith)
picks_round i s rest (inr past) =
    unfold picks in
    rw (pick_wrapped i s rest past)
      (rw (picks-in_order (length rest) 1 s rest (omega arith)) (ground arith))
