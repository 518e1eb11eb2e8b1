-- ===== src/Byzantine/Client/Registered.antt =====
-- The state of the server once the client has registered its generals.
use distributed_systems_iiit.Common.{
  ℕ, zero, suc, ◌+◌, ◌≤◌, ◌≡◌, refl, ap, subst, inl, inr, Bool, none, some, [], ◌==◌, ==_iff,
  nat_key, arith, if◌then◌else◌, Bool-cases,
}
use distributed_systems_iiit.Common.Dict.{lookup, insert, lookup-insert}
use distributed_systems_iiit.Byzantine.{
  Decision, General, ByzantineServer, new_byzantine_server, registered, register_general,
}
use distributed_systems_iiit.Byzantine.Delivery.{no_votes}
use distributed_systems_iiit.Byzantine.Reachable.{Reachable, started, step, register}
use distributed_systems_iiit.Byzantine.Client.{
  range, role_of, registration, register_all, count_traitors,
}
use distributed_systems_iiit.Byzantine.Client.Votes.{votes, votes_of, Known}

-- The generals below `m` are registered, and nobody has a vote.
pub record IsRegistered (traitor : ℕ → Bool) (m : ℕ) (s : ByzantineServer) : Type 0 where
  pub known : Known m traitor s.generals
  pub fresh : (i : ℕ) → m ≤ i → lookup i s.generals ≡ none
  pub no_vote : (max_rounds : ℕ) (d : Decision) (k : ℕ) → votes max_rounds d k s.generals ≡ 0
  pub not_started : s.current_round ≡ 0
  pub rounds : 1 ≤ m → s.max_rounds ≡ s.num_traitors + 1
  pub reachable : Reachable s

module _ (traitor : ℕ → Bool) where
  new-IsRegistered : IsRegistered traitor 0 new_byzantine_server
  unfolding new_byzantine_server votes votes_of lookup
  new-IsRegistered = record {
    known = λ i b. absurd (omega (arith, b));
    fresh = λ i h. refl;
    no_vote = λ max_rounds d k. refl;
    not_started = refl;
    rounds = λ h. absurd (omega (arith, h));
    reachable = started;
  }

  abbrev general_of : ℕ → General
  general_of m = record { id = m; role = role_of m; is_traitor = traitor m; messages = [] }

  Known-after :
      (m : ℕ) (s : ByzantineServer)
      → IsRegistered traitor m s
      → Known (m + 1) traitor (insert m (general_of m) s.generals)
  Known-after m s r i b = elim (Bool-cases (m == i)) [
    | inl e ↦
        let at : m ≡ i = (==_iff m i).0 e in
        (
          general_of m,
          rw (lookup-insert m i (general_of m) s.generals, e) refl,
          ap traitor at,
          ap role_of at,
        )
    | inr e ↦
        let (g, found, t, role) = r.known i (ground (arith, b, ==_iff m i)) in
        (g, rw (lookup-insert m i (general_of m) s.generals, e) found, t, role)
  ]

  no_vote_after :
      (m : ℕ) (s : ByzantineServer)
      → IsRegistered traitor m s
      → (max_rounds : ℕ) (d : Decision) (k : ℕ)
      → votes max_rounds d k (insert m (general_of m) s.generals) ≡ 0
  unfolding votes votes_of
  no_vote_after m s r max_rounds d k = elim (Bool-cases (m == k)) [
    | inl e ↦ rw (lookup-insert m k (general_of m) s.generals, e) (no_votes d max_rounds 1)
    | inr e ↦ rw (lookup-insert m k (general_of m) s.generals, e) (r.no_vote max_rounds d k)
  ]

  register_one :
      (m : ℕ) (s : ByzantineServer)
      → IsRegistered traitor m s
      → let (s', answer) = register_general (registration traitor m) s in
        (answer ≡ registered)
        × IsRegistered traitor (m + 1) s'
        × (s'.num_traitors ≡ s.num_traitors + (if traitor m then 1 else 0))
  unfolding register_general
  register_one m s r =
      let g = general_of m in
      let free = r.fresh m (omega arith) in
      let next : Reachable (register_general (registration traitor m) s).0 =
        step r.reachable (register (registration traitor m) s) in
      (
        rw (free, register_general) refl,
        record {
          known = rw (free, register_general) (Known-after m s r);
          fresh = λ i h.
              rw (free, register_general)
                (ground (
                  arith,
                  lookup-insert m i g s.generals,
                  r.fresh i (omega (arith, h)),
                  ==_iff m i,
                ));
          no_vote =
              λ max_rounds d k. rw (free, register_general) (no_vote_after m s r max_rounds d k);
          not_started = rw (free, register_general) r.not_started;
          rounds = λ h. rw (free, register_general) refl;
          reachable = next;
        },
        ground (arith, free),
      )

  pub register_all-IsRegistered :
      (start left : ℕ) (s : ByzantineServer)
      → IsRegistered traitor start s
      → (s' : ByzantineServer) × (register_all traitor (range start left) s ≡ some s')
        × IsRegistered traitor (start + left) s'
        × (s'.num_traitors ≡ s.num_traitors + count_traitors traitor (range start left))
  unfolding register_all range count_traitors
  register_all-IsRegistered start zero s r =
      (s, refl, subst (λ m. IsRegistered traitor m s) (omega arith) r, omega arith)
  register_all-IsRegistered start (suc left) s r =
      let (ok, r1, t1) = register_one start s r in
      let (s', e, r', t') = register_all-IsRegistered (start + 1) left _ r1 in
      (
        s',
        rw (ok, register_all) e,
        subst (λ m. IsRegistered traitor m s') (omega arith) r',
        ground (arith, t1, t'),
      )

  -- All generals are registered, and the rounds are one more than the traitors.
  pub register_all_new :
      (n : ℕ)
      → 1 ≤ n
      → (s : ByzantineServer) × (register_all traitor (range 0 n) new_byzantine_server ≡ some s)
        × IsRegistered traitor n s
        × (s.max_rounds ≡ count_traitors traitor (range 0 n) + 1)
  register_all_new n some_general =
      let (s, e, r, t) = register_all-IsRegistered 0 n new_byzantine_server new-IsRegistered in
      let r' : IsRegistered traitor n s = subst (λ m. IsRegistered traitor m s) (omega arith) r in
      let none_before : new_byzantine_server.num_traitors ≡ 0 =
        unfold new_byzantine_server in refl in
      (s, e, r', ground (arith, r'.rounds some_general, t, none_before))
