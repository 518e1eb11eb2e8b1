-- ===== src/Byzantine/Client/Validity.antt =====
-- The simulation and the consensus that it prints.
use mathlib.Core.List.{Permᴰ}
use mathlib.Core.Option.{some-injective}
use distributed_systems_iiit.Common.{
  ℕ, zero, suc, ◌+◌, ◌*◌, ◌≤◌, ◌<◌, ◌≡◌, ◌∙◌, ◌⊎◌, refl, sym, ap, inl, inr, Bool, true, false, some,
  List, nat_key, arith, ltb, leb, ◌||◌, Bool-cases,
}
use distributed_systems_iiit.Common.Dict.{lookup}
use distributed_systems_iiit.Byzantine.{Decision, attack, retreat, flip, General, ByzantineServer}
use distributed_systems_iiit.Byzantine.Decisions.{majority, loyal_decision, count_rounds}
use distributed_systems_iiit.Byzantine.Consensus.{AllDecide, get_consensus-Agreed}
use distributed_systems_iiit.Byzantine.Reachable.{Reachable-IsConsistent}
use distributed_systems_iiit.Byzantine.Client.{
  Flags, Choices, is_traitor, range, count_traitors, phases, simulate,
}
use distributed_systems_iiit.Byzantine.Client.Votes.{votes, votes_of, is_counted}
use distributed_systems_iiit.Byzantine.Client.Ahead.{IsAhead, missing_votes, phases-IsAhead}
use distributed_systems_iiit.Byzantine.Client.Phases.{At}
use distributed_systems_iiit.Byzantine.Client.Registered.{register_all_new}

-- The decision of a general with more votes for it.
loyal_decision_majority :
    (d : Decision) (g : General) (s : ByzantineServer)
    → count_rounds (flip d) s.max_rounds 1 g.messages < count_rounds d s.max_rounds 1 g.messages
    → loyal_decision g s ≡ d
unfolding loyal_decision majority
loyal_decision_majority attack g s h = ground arith
loyal_decision_majority retreat g s h = ground arith

votes_found :
    (max_rounds : ℕ) (d : Decision) (k : ℕ) (g : General) (s : ByzantineServer)
    → lookup k s.generals ≡ some g
    → votes max_rounds d k s.generals ≡ count_rounds d max_rounds 1 g.messages
unfolding votes votes_of
votes_found max_rounds d k g s found = rw found refl

some_traitor :
    (traitor : ℕ → Bool) (n : ℕ) → 1 ≤ n → traitor 0 ≡ true → 1 ≤ count_traitors traitor (range 0 n)
unfolding count_traitors range
some_traitor traitor zero h e = absurd (omega (arith, h))
some_traitor traitor (suc n) h e = ground (arith, e)

module _ (flags : Flags) (choices : Choices)
    (served : (round : ℕ) (l : List (ℕ × ℕ)) → Permᴰ (choices.schedule round l) l) where
  -- Each loyal general decides on the order.
  IsAhead-AllDecide :
      (max_rounds round : ℕ) (s : ByzantineServer)
      → At flags.num_generals (is_traitor flags choices) max_rounds round s
      → IsAhead flags choices served 0 max_rounds s
      → AllDecide flags.decision s s.generals
  unfolding votes votes_of
  IsAhead-AllDecide max_rounds round s at ahead id g found loyal =
      elim (Bool-cases (ltb id flags.num_generals)) [
        | inr e ↦ absurd (cc (found, at.others id (ground arith)))
        | inl e ↦
            let b : id < flags.num_generals = ground arith in
            let (g', found', t, _) = at.known id b in
            let same_one : g' ≡ g = some-injective g' g (sym found' ∙ found) in
            let honest : is_traitor flags choices id ≡ false =
              sym t ∙ ap (λ (x : General). x.is_traitor) same_one ∙ loyal in
            loyal_decision_majority flags.decision g s (
              rw at.rounds (
                omega (
                  arith,
                  ahead id b honest,
                  votes_found max_rounds (flip flags.decision) id g s found,
                  votes_found max_rounds flags.decision id g s found,
                )))
      ]

  -- The loyal generals outnumber the traitors and the votes that the first phase may cost.
  enough_loyal :
      (flags.commander_traitor ≡ false) ⊎ (5 ≤ flags.num_generals)
      → 2 ≤ flags.num_generals
      → flags.num_traitors * 3 < flags.num_generals
      → count_traitors (is_traitor flags choices) (range 0 flags.num_generals) ≤ flags.num_traitors
      → (count_traitors (is_traitor flags choices) (range 0 flags.num_generals) * 2
            + missing_votes flags choices served
          < flags.num_generals)
        × ((missing_votes flags choices served ≡ 0)
            ⊎ (1 ≤ count_traitors (is_traitor flags choices) (range 0 flags.num_generals)))
  unfolding is_traitor
  enough_loyal large two below_third bounded = elim (Bool-cases flags.commander_traitor) [
    | inl e ↦
        let some_one =
          some_traitor (is_traitor flags choices) flags.num_generals (omega (arith, two)) e in
        (ground (arith, e, large, some_one), inr some_one)
    | inr e ↦ (ground (arith, e), inl (rw e refl))
  ]

  -- A simulation with a loyal commander or at least five generals, with at least two generals, flags
  -- that the client accepts and no more traitors than the flag says reaches its end and prints a
  -- consensus, and every loyal general of the state it leaves decides on the order, whatever the
  -- traitors send and however the coins fall, when each phase serves its messages in some order.
  pub simulate_reaches_consensus :
      (flags.commander_traitor ≡ false) ⊎ (5 ≤ flags.num_generals)
      → 2 ≤ flags.num_generals
      → flags.num_traitors < 4
      → flags.num_traitors * 3 < flags.num_generals
      → count_traitors (is_traitor flags choices) (range 0 flags.num_generals) ≤ flags.num_traitors
      → (s : ByzantineServer) × (simulate flags choices ≡ some (s, true))
        × AllDecide flags.decision s s.generals
  unfolding simulate
  simulate_reaches_consensus large two below_4 below_third bounded =
      let n = flags.num_generals in
      let (s, registered, r, rounds) =
        register_all_new (is_traitor flags choices) n (omega (arith, two)) in
      let (few, some_one) = enough_loyal large two below_third bounded in
      let made_up : (missing_votes flags choices served ≡ 0)
          ⊎ ((1 ≤ flags.num_traitors) × (is_counted s.max_rounds 2 ≡ true)) =
        elim some_one [
          | inl e ↦ inl e
          | inr t ↦ inr (omega (arith, t, bounded), ground (arith, t, rounds))
        ] in
      let (at, ahead) =
        phases-IsAhead flags choices served s two few made_up r (omega (arith, rounds)) in
      let s' = phases flags choices s in
      let decided = IsAhead-AllDecide s.max_rounds (2 + flags.num_traitors) s' at ahead in
      let (g, found, _, _) = at.known 0 (omega (arith, two)) in
      let reported =
        (get_consensus-Agreed (choices.vote_coin 0) choices.vote_coin 0 g s'
            (Reachable-IsConsistent at.reachable).is_map found).1
          (flags.decision, decided) in
      let accepted : (leb 4 flags.num_traitors || leb n (flags.num_traitors * 3)) ≡ false =
        ground arith in
      let not_too_many : ltb flags.num_traitors
            (count_traitors (is_traitor flags choices) (range 0 n))
          ≡ false =
        ground arith in
      (s', rw (accepted, registered, not_too_many, reported, simulate) refl, decided)
