-- ===== src/Byzantine/Client/Orders.antt =====
-- What the commander's orders add to the votes of each general.
use distributed_systems_iiit.Common.{
  ℕ, zero, suc, ◌≤◌, ◌≡◌, ◌∙◌, refl, Bool, false, List, [], ◌∷◌, ◌==◌, ==_iff, nat_key, arith, not,
  ◌&&◌, ◌||◌, if◌then◌else◌,
}
use distributed_systems_iiit.Common.Lists.{All}
use distributed_systems_iiit.Byzantine.{ByzantineServer, altered, deliver, send_order}
use distributed_systems_iiit.Byzantine.Reachable.{step, order}
use distributed_systems_iiit.Byzantine.Client.{Flags, Choices, is_traitor, send_orders}
use distributed_systems_iiit.Byzantine.Client.Votes.{
  Known, deliver-Known, deliver-NoOthers, send_order-generals,
}
use distributed_systems_iiit.Byzantine.Client.Phases.{
  count_if, from_traitor, Valid, At, Grows, deliver-votes,
}

-- An order that the general receives, or that the commander keeps, when the commander is loyal.
abbrev pub kept_by : Bool → ℕ → ℕ × ℕ → Bool
kept_by treason k (i, j) = not treason && ((j == k) || (0 == k))

module _ (flags : Flags) (choices : Choices) (max_rounds : ℕ) where
  order_one :
      (j : ℕ) (s : ByzantineServer)
      → Valid flags.num_generals (0, j)
      → 1 ≤ max_rounds
      → At flags.num_generals (is_traitor flags choices) max_rounds 1 s
      → (k : ℕ)
      → let s' =
          (send_order
            (choices.server_coin 1 0 j)
            (record { sender_id = 0; receiver_id = j; order = flags.decision })
            s).0 in
        At flags.num_generals (is_traitor flags choices) max_rounds 1 s'
        × Grows max_rounds k flags.decision
            (if kept_by (is_traitor flags choices 0) k (0, j) then 1 else 0)
            (if from_traitor (is_traitor flags choices) k (0, j) then 1 else 0)
            s
            s'
  order_one j s v some_round at k =
      let d = flags.decision in
      let (eg, em, ec) =
        send_order-generals flags.num_generals (is_traitor flags choices) s at.known
          (choices.server_coin 1 0 j) d j v.1 in
      let (c, found_c, _, _) = at.known 0 v.0 in
      let t = is_traitor flags choices 0 in
      let w = altered t (choices.server_coin 1 0 j) d in
      let kept = deliver 0 1 0 d s.generals in
      let known : Known flags.num_generals (is_traitor flags choices) kept =
        deliver-Known flags.num_generals (is_traitor flags choices) 0 1 0 d s.generals v.0
          at.known in
      let (g, found, _, _) = known j v.1 in
      let (for_0, against_0) =
        deliver-votes max_rounds 0 1 0 k d d false c s.generals found_c (λ e. refl) in
      let (for_j, against_j) =
        deliver-votes max_rounds j 1 0 k d w t g kept found (λ e. rw e refl) in
      let apart = v.2 in
      (
        record {
          known =
              rw eg (
                deliver-Known flags.num_generals (is_traitor flags choices) j 1 0 w kept v.1 known);
          others = rw eg (
              deliver-NoOthers flags.num_generals j 1 0 w g kept v.1 found
                (deliver-NoOthers flags.num_generals 0 1 0 d c s.generals v.0 found_c at.others));
          rounds = em ∙ at.rounds;
          current = ground (arith, ec, at.current);
          reachable = step at.reachable (order (choices.server_coin 1 0 j) _ s);
        },
        record {
          for_order = rw eg (ground (arith, for_0, for_j, ==_iff j k, ==_iff 0 k));
          against_order = rw eg (ground (arith, against_0, against_j));
        },
      )

  order_from :
      (i j : ℕ) (s : ByzantineServer) (k : ℕ)
      → Valid flags.num_generals (i, j)
      → i ≡ 0
      → 1 ≤ max_rounds
      → At flags.num_generals (is_traitor flags choices) max_rounds 1 s
      → let s' =
          (send_order
            (choices.server_coin 1 i j)
            (record { sender_id = i; receiver_id = j; order = flags.decision })
            s).0 in
        At flags.num_generals (is_traitor flags choices) max_rounds 1 s'
        × Grows max_rounds k flags.decision
            (if kept_by (is_traitor flags choices 0) k (i, j) then 1 else 0)
            (if from_traitor (is_traitor flags choices) k (i, j) then 1 else 0)
            s
            s'
  order_from zero j s k v e some_round at = order_one j s v some_round at k
  order_from (suc i) j s k v e some_round at = absurd (omega (arith, e))

  -- The first phase adds the order once to each general that gets it from a loyal commander, and
  -- anything once for a traitor.
  pub send_orders_lead :
      (l : List (ℕ × ℕ)) (s : ByzantineServer)
      → All (Valid flags.num_generals) l
      → All (λ m. m.0 ≡ 0) l
      → 1 ≤ max_rounds
      → At flags.num_generals (is_traitor flags choices) max_rounds 1 s
      → let s' = send_orders flags.decision (choices.server_coin 1) l s in
        At flags.num_generals (is_traitor flags choices) max_rounds 1 s'
        × ((k : ℕ)
            → Grows max_rounds k flags.decision
                (count_if (kept_by (is_traitor flags choices 0) k) l)
                (count_if (from_traitor (is_traitor flags choices) k) l)
                s
                s')
  unfolding send_orders count_if
  send_orders_lead [] s v c some_round at =
      (at, λ k. record { for_order = ground arith; against_order = ground arith })
  send_orders_lead ((i, j) ∷ l) s v c some_round at =
      let (at', _) = order_from i j s 0 v.0 c.0 some_round at in
      let (at_end, rest) = send_orders_lead l _ v.1 c.1 some_round at' in
      (
        at_end,
        λ k.
            let (_, one) = order_from i j s k v.0 c.0 some_round at in
            let r = rest k in
            record {
              for_order = ground (arith, one.for_order, r.for_order);
              against_order = ground (arith, one.against_order, r.against_order);
            },
      )
