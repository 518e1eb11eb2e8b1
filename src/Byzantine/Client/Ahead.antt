-- ===== src/Byzantine/Client/Ahead.antt =====
-- The votes of the loyal generals for the commander's order, phase by phase.
use mathlib.Core.List.{Permᴰ}
use distributed_systems_iiit.Common.{
  ℕ, zero, suc, ◌+◌, ◌-◌, ◌*◌, ◌≤◌, ◌<◌, ◌≡◌, ◌⊎◌, refl, inl, inr, Bool, true, false, List, nat_key,
  arith, if◌then◌else◌,
}
use distributed_systems_iiit.Byzantine.{flip, ByzantineServer}
use distributed_systems_iiit.Byzantine.Client.{
  Flags, Choices, is_traitor, range, pairs_from, all_pairs, count_traitors, send_orders,
  exchange_all, exchange_rounds, phases,
}
use distributed_systems_iiit.Byzantine.Client.Votes.{votes, is_counted}
use distributed_systems_iiit.Byzantine.Client.Phases.{At, exchange_all-At, exchange_all-Grows}
use distributed_systems_iiit.Byzantine.Client.Orders.{send_orders_lead}
use distributed_systems_iiit.Byzantine.Client.Pairs.{
  IsRound, Permᴰ-IsRound, IsFirstPhase, Permᴰ-IsFirstPhase,
}
use distributed_systems_iiit.Byzantine.Client.Registered.{IsRegistered}

At-later :
    {n : ℕ} {traitor : ℕ → Bool} {max_rounds : ℕ} (round later : ℕ) (s : ByzantineServer)
    → round ≤ later
    → At n traitor max_rounds round s
    → At n traitor max_rounds later s
At-later round later s h at = record {
  known = at.known;
  others = at.others;
  rounds = at.rounds;
  current = omega (arith, h, at.current);
  reachable = at.reachable;
}

module _ (flags : Flags) (choices : Choices)
    (served : (round : ℕ) (l : List (ℕ × ℕ)) → Permᴰ (choices.schedule round l) l) where
  -- Every loyal general has more votes for the order than against it, with so many votes more.
  abbrev pub IsAhead : ℕ → ℕ → ByzantineServer → Type 0
  IsAhead missing max_rounds s =
      (k : ℕ)
      → k < flags.num_generals
      → is_traitor flags choices k ≡ false
      → votes max_rounds (flip flags.decision) k s.generals
        < votes max_rounds flags.decision k s.generals + missing

  -- A phase makes up for the missing votes, if it is counted.
  exchange_round-IsAhead :
      (missing max_rounds round : ℕ) (s : ByzantineServer)
      → count_traitors (is_traitor flags choices) (range 0 flags.num_generals) * 2 + missing
        < flags.num_generals
      → (missing ≡ 0) ⊎ (is_counted max_rounds round ≡ true)
      → At flags.num_generals (is_traitor flags choices) max_rounds round s
      → IsAhead missing max_rounds s
      → let ids = range 0 flags.num_generals in
        let s' = exchange_all flags choices round (choices.schedule round (all_pairs ids ids)) s in
        At flags.num_generals (is_traitor flags choices) max_rounds round s'
        × IsAhead 0 max_rounds s'
  exchange_round-IsAhead missing max_rounds round s few made_up at ahead =
      let n = flags.num_generals in
      let traitor = is_traitor flags choices in
      let l = choices.schedule round (all_pairs (range 0 n) (range 0 n)) in
      let r : IsRound n traitor l =
        Permᴰ-IsRound n traitor l (served round (all_pairs (range 0 n) (range 0 n))) in
      (
        exchange_all-At flags choices max_rounds round l s r.valid at,
        λ k b loyal.
            let grows = exchange_all-Grows flags choices max_rounds round l s k r.valid at in
            ground (
              arith,
              made_up,
              few,
              grows.for_order,
              grows.against_order,
              ahead k b loyal,
              r.loyals k b loyal,
              r.traitors k b loyal,
            ),
      )

  exchange_rounds-IsAhead :
      (missing max_rounds left round : ℕ) (s : ByzantineServer)
      → count_traitors (is_traitor flags choices) (range 0 flags.num_generals) * 2 + missing
        < flags.num_generals
      → (missing ≡ 0) ⊎ ((1 ≤ left) × (is_counted max_rounds round ≡ true))
      → At flags.num_generals (is_traitor flags choices) max_rounds round s
      → IsAhead missing max_rounds s
      → let s' = exchange_rounds flags choices left round s in
        At flags.num_generals (is_traitor flags choices) max_rounds (round + left) s'
        × IsAhead 0 max_rounds s'
  unfolding exchange_rounds
  exchange_rounds-IsAhead missing max_rounds zero round s few made_up at ahead = (
    At-later round (round + 0) s (omega arith) at,
    λ k b loyal. omega (arith, made_up, ahead k b loyal),
  )
  exchange_rounds-IsAhead missing max_rounds (suc left) round s few made_up at ahead =
      let ids = range 0 flags.num_generals in
      let l = choices.schedule round (all_pairs ids ids) in
      let s1 = exchange_all flags choices round l s in
      let now : (missing ≡ 0) ⊎ (is_counted max_rounds round ≡ true) = elim made_up [
        | inl e ↦ inl e
        | inr (_, c) ↦ inr c
      ] in
      let (at1, ahead1) = exchange_round-IsAhead missing max_rounds round s few now at ahead in
      let (at_end, ahead_end) =
        exchange_rounds-IsAhead 0 max_rounds left (round + 1) s1 (omega (arith, few)) (inl refl)
          (At-later round (round + 1) s1 (omega arith) at1) ahead1 in
      (At-later (round + 1 + left) (round + suc left) _ (omega arith) at_end, ahead_end)

  -- A commander that lies may leave each loyal general one vote behind.
  abbrev pub missing_votes : ℕ
  missing_votes = if flags.commander_traitor then 2 else 0

  pub phases-IsAhead :
      (s : ByzantineServer)
      → 2 ≤ flags.num_generals
      → count_traitors (is_traitor flags choices) (range 0 flags.num_generals) * 2 + missing_votes
        < flags.num_generals
      → (missing_votes ≡ 0) ⊎ ((1 ≤ flags.num_traitors) × (is_counted s.max_rounds 2 ≡ true))
      → IsRegistered (is_traitor flags choices) flags.num_generals s
      → 1 ≤ s.max_rounds
      → let s' = phases flags choices s in
        At flags.num_generals (is_traitor flags choices) s.max_rounds (2 + flags.num_traitors) s'
        × IsAhead 0 s.max_rounds s'
  unfolding phases
  phases-IsAhead s two few made_up r some_round =
      let n = flags.num_generals in
      let traitor = is_traitor flags choices in
      let orders = pairs_from 0 (range 1 (n - 1)) in
      let l = choices.schedule 1 orders in
      let first : IsFirstPhase n traitor l = Permᴰ-IsFirstPhase n traitor l two (served 1 orders) in
      let at : At n traitor s.max_rounds 1 s = record {
        known = r.known;
        others = r.fresh;
        rounds = refl;
        current = omega (arith, r.not_started);
        reachable = r.reachable;
      } in
      let (at1, lead) =
        send_orders_lead flags choices s.max_rounds l s first.valid first.from_commander some_round
          at in
      let s1 = send_orders flags.decision (choices.server_coin 1) l s in
      let same_one : traitor 0 ≡ flags.commander_traitor = unfold is_traitor in refl in
      let ahead : IsAhead missing_votes s.max_rounds s1 = λ k b h.
        let grows = lead k in
        ground (
          arith,
          same_one,
          grows.for_order,
          grows.against_order,
          first.kept k b,
          first.lied k,
          r.no_vote s.max_rounds (flip flags.decision) k,
        ) in
      exchange_rounds-IsAhead missing_votes s.max_rounds flags.num_traitors 2 s1 few made_up
        (At-later 1 2 s1 (omega arith) at1) ahead
