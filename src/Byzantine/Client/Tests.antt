-- ===== src/Byzantine/Client/Tests.antt =====
-- One traitor among four or five generals, and the client's two phases.
use mathlib.Core.List.Permᴰ
use distributed_systems_iiit.Common.{
  ℕ, ◌≡◌, refl, Bool, true, false, Option, none, some, [], ◌∷◌, ◌==◌, nat_key, arith, ◌≤◌, inr,
}
use distributed_systems_iiit.Common.Dict.{lookup, insert}
use distributed_systems_iiit.Byzantine.{
  attack, ByzantineServer, new_byzantine_server, register_general, send_order, exchange_message,
  on_path, deliver, add_message,
}
use distributed_systems_iiit.Byzantine.Decisions.{
  get_consensus, tally, add_vote, all_loyal_agree, make_decision, loyal_decision, majority,
  count_rounds, count_senders, count, infer_order,
}
use distributed_systems_iiit.Byzantine.Consensus.{AllDecide}
use distributed_systems_iiit.Byzantine.Client.{
  Flags, Choices, simulate, is_traitor, among_first, count_traitors, range, register_all, phases,
  send_orders, exchange_rounds, exchange_all, all_pairs, pairs_from,
}
use distributed_systems_iiit.Byzantine.Client.Validity.{simulate_reaches_consensus}

abbrev four : Bool → Flags
four commander_traitor = record {
  num_generals = 4;
  num_traitors = 1;
  decision = attack;
  commander_traitor = commander_traitor;
}

-- The third lieutenant is the traitor where the commander is loyal; every traitor lies where `lies`
-- says so.
abbrev chosen : (ℕ → ℕ → ℕ → Bool) → Choices
chosen lies = record {
  actual_traitors = 1;
  shuffled = 3 ∷ 1 ∷ 2 ∷ [];
  client_coin = λ round i j. false;
  server_coin = lies;
  vote_coin = λ i. false;
  schedule = λ round l. l;
}

abbrev five : Flags
five = record { num_generals = 5; num_traitors = 1; decision = attack; commander_traitor = true }

one_traitor : count_traitors (is_traitor five (chosen (λ round i j. j == 1))) (range 0 5) ≤ 1
unfolding count_traitors is_traitor among_first range
one_traitor = omega arith

simulate_reaches_consensus_example :
    (s : ByzantineServer) × (simulate five (chosen (λ round i j. j == 1)) ≡ some (s, true))
    × AllDecide attack s s.generals
simulate_reaches_consensus_example =
    simulate_reaches_consensus five (chosen (λ round i j. j == 1)) (λ round l. Permᴰ.refl l)
      (inr (omega arith)) (omega arith) (omega arith) (omega arith) one_traitor

abbrev printed : Option (ByzantineServer × Bool) → Option Bool
printed none = none
printed (some (_, reached)) = some reached

-- A traitor for a commander who lies to the first lieutenant in both phases splits the loyal generals.
traitor_splits : printed (simulate (four true) (chosen (λ round i j. j == 1))) ≡ some false
unfolding simulate register_all register_general count_traitors is_traitor among_first range
    new_byzantine_server phases send_orders send_order exchange_rounds exchange_all exchange_message
    on_path all_pairs pairs_from deliver add_message lookup insert get_consensus tally add_vote
    all_loyal_agree make_decision loyal_decision majority count_rounds count_senders count
    infer_order
traitor_splits = refl
