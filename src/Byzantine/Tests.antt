-- ===== src/Byzantine/Tests.antt =====
-- Four generals; the commander is loyal in one group and a traitor in the other.
use distributed_systems_iiit.Common.{
  ℕ, ◌≡◌, ◌↔◌, refl, Bool, true, false, some, [], ◌∷◌, nat_key, if◌then◌else◌,
}
use distributed_systems_iiit.Common.Dict.{lookup, insert, IsMap}
use distributed_systems_iiit.Byzantine.{
  Decision, attack, retreat, Role, commander, lieutenant, General, ByzantineServer,
  new_byzantine_server, OrderRequest, MessageRequest, RegisterRequest, register_general,
  exchange_message, send_order, add_message, deliver, on_path,
}
use distributed_systems_iiit.Byzantine.Decisions.{
  count_senders, count_rounds, count, loyal_decision, majority, make_decision, get_consensus, tally,
  add_vote, all_loyal_agree, infer_order,
}
use distributed_systems_iiit.Byzantine.Consensus.{Agreed, get_consensus-Agreed}
use distributed_systems_iiit.Byzantine.Reachable.{
  register, started, step, IsConsistent, Reachable-IsConsistent,
}

abbrev general : ℕ → Role → Bool → General
general id role is_traitor = record { id = id; role = role; is_traitor = is_traitor; messages = [] }

abbrev group : Bool → ByzantineServer
group treason = record {
  generals =
      (1, general 1 commander treason)
      ∷ (2, general 2 lieutenant false)
      ∷ (3, general 3 lieutenant false)
      ∷ (4, general 4 lieutenant false)
      ∷ [];
  num_generals = 4;
  num_traitors = if treason then 1 else 0;
  max_rounds = if treason then 2 else 1;
  current_round = 0;
}

abbrev loyal_group : ByzantineServer
loyal_group = group false

abbrev order_2 : OrderRequest
order_2 = record { sender_id = 1; receiver_id = 2; order = attack }

abbrev relay : ℕ → ℕ → Decision → MessageRequest
relay sender receiver value = record {
  sender_id = sender;
  receiver_id = receiver;
  round = 2;
  value = value;
  path = 1 ∷ sender ∷ [];
}

group-IsMap : IsMap loyal_group.generals
unfolding lookup
group-IsMap = (refl, (refl, (refl, (refl, tt))))

commander_known : lookup 1 loyal_group.generals ≡ some (general 1 commander false)
unfolding lookup
commander_known = refl

lieutenant_known : lookup 2 loyal_group.generals ≡ some (general 2 lieutenant false)
unfolding lookup
lieutenant_known = refl

get_consensus-Agreed_example :
    ((get_consensus true (λ _. true) 2 loyal_group).consensus_reached ≡ true) ↔ Agreed loyal_group
get_consensus-Agreed_example =
    get_consensus-Agreed true (λ _. true) 2 (general 2 lieutenant false) loyal_group group-IsMap
      lieutenant_known

abbrev recruit : RegisterRequest
recruit = record { id = 7; role = lieutenant; is_traitor = true }

Reachable-IsConsistent_example : IsConsistent (register_general recruit new_byzantine_server).0
Reachable-IsConsistent_example =
    Reachable-IsConsistent (step started (register recruit new_byzantine_server))

-- The orders of a traitor that flips the second and the third one, and what the lieutenants then
-- pass on to each other, all of it.
abbrev ordered : ByzantineServer
ordered =
    let s1 = (send_order false order_2 (group true)).0 in
    let s2 = (send_order true (record order_2 { receiver_id = 3 }) s1).0 in
    (send_order true (record order_2 { receiver_id = 4 }) s2).0

abbrev say : ℕ → ℕ → Decision → ByzantineServer → ByzantineServer
say sender receiver value s = (exchange_message false (relay sender receiver value) s).0

abbrev told : ByzantineServer
told =
    let s1 = say 2 3 attack (say 2 4 attack ordered) in
    let s2 = say 3 2 retreat (say 3 4 retreat s1) in say 4 2 retreat (say 4 3 retreat s2)

-- With one order of each kind passed on to everyone, the loyal lieutenants agree.
agree_after_exchange : (get_consensus true (λ _. true) 2 told).consensus_reached ≡ true
unfolding get_consensus tally add_vote all_loyal_agree majority make_decision loyal_decision
    count_rounds count_senders count infer_order send_order exchange_message deliver add_message
    on_path lookup insert
agree_after_exchange = refl

-- Before the exchange they do not.
split_before_exchange : (get_consensus true (λ _. true) 2 ordered).consensus_reached ≡ false
unfolding get_consensus tally add_vote all_loyal_agree majority make_decision loyal_decision
    count_rounds count_senders count infer_order send_order exchange_message deliver add_message
    on_path lookup insert
split_before_exchange = refl
