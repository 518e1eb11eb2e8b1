-- ===== src/Byzantine/Client.antt =====
-- The simulation that the client drives (Assignment2/P4-ByzantineConsensus/client/main.go). The calls
-- of the server are its handlers. Every random choice is an argument: the number of traitors, the
-- shuffled lieutenants, the coins, and the order in which the goroutines of a phase are served.
pub mod Votes
pub mod Phases
pub mod Orders
pub mod Pairs
pub mod Registered
pub mod Ahead
pub mod Validity
mod Tests
use distributed_systems_iiit.Common.{
  ℕ, zero, suc, ◌+◌, ◌-◌, ◌*◌, Bool, true, false, Option, none, some, List, [], ◌∷◌, ◌++◌, ◌==◌,
  nat_key, ltb, leb, ◌&&◌, ◌||◌, if◌then◌else◌,
}
use distributed_systems_iiit.Byzantine.{
  Decision, Role, commander, lieutenant, ByzantineServer, new_byzantine_server, RegisterRequest,
  registered, register_general, altered, send_order, exchange_message,
}
use distributed_systems_iiit.Byzantine.Decisions.{get_consensus}

-- The flags.
pub record Flags : Type 0 where
  pub num_generals : ℕ
  pub num_traitors : ℕ
  pub decision : Decision
  pub commander_traitor : Bool

-- The choices; a coin is tossed by round, sender and receiver.
pub record Choices : Type 0 where
  pub actual_traitors : ℕ
  pub shuffled : List ℕ
  pub client_coin : ℕ → ℕ → ℕ → Bool
  pub server_coin : ℕ → ℕ → ℕ → Bool
  pub vote_coin : ℕ → Bool
  pub schedule : ℕ → List (ℕ × ℕ) → List (ℕ × ℕ)

-- Whether the id is one of the first ones of the list.
unfoldable pub among_first : ℕ → ℕ → List ℕ → Bool
among_first id zero ids = false
among_first id (suc left) [] = false
among_first id (suc left) (i ∷ rest) = (i == id) || among_first id left rest

-- `traitorMap`, with the commander; a negative number of remaining traitors picks none.
unfoldable pub is_traitor : Flags → Choices → ℕ → Bool
unfolding among_first
is_traitor flags choices id =
    let remaining =
      if flags.commander_traitor then choices.actual_traitors - 1 else choices.actual_traitors in
    if id == 0 then flags.commander_traitor else among_first id remaining choices.shuffled

abbrev pub role_of : ℕ → Role
role_of zero = commander
role_of (suc _) = lieutenant

unfoldable pub range : ℕ → ℕ → List ℕ
range start zero = []
range start (suc left) = start ∷ range (start + 1) left

abbrev pub registration : (ℕ → Bool) → ℕ → RegisterRequest
registration traitor id = record { id = id; role = role_of id; is_traitor = traitor id }

-- The registrations; the client stops at one that fails.
unfoldable pub register_all : (ℕ → Bool) → List ℕ → ByzantineServer → Option ByzantineServer
register_all traitor [] s = some s
register_all traitor (id ∷ rest) s =
    let (s', answer) = register_general (registration traitor id) s in
    let others = register_all traitor rest s' in elim answer [ registered ↦ others | _ ↦ none ]

unfoldable pub count_traitors : (ℕ → Bool) → List ℕ → ℕ
count_traitors traitor [] = 0
count_traitors traitor (id ∷ rest) =
    let n = count_traitors traitor rest in if traitor id then n + 1 else n

-- The pairs of a sender and a receiver that differ.
unfoldable pub pairs_from : ℕ → List ℕ → List (ℕ × ℕ)
pairs_from i [] = []
pairs_from i (j ∷ rest) =
    let others = pairs_from i rest in if i == j then others else (i, j) ∷ others

unfoldable pub all_pairs : List ℕ → List ℕ → List (ℕ × ℕ)
unfolding pairs_from
all_pairs [] receivers = []
all_pairs (i ∷ rest) receivers = pairs_from i receivers ++ all_pairs rest receivers

-- Phase 1.
unfoldable pub send_orders :
    Decision → (ℕ → ℕ → Bool) → List (ℕ × ℕ) → ByzantineServer → ByzantineServer
send_orders order coin [] s = s
send_orders order coin ((i, j) ∷ rest) s =
    send_orders order coin rest
      (send_order (coin i j) (record { sender_id = i; receiver_id = j; order = order }) s).0

-- One later phase.
unfoldable pub exchange_all : Flags → Choices → ℕ → List (ℕ × ℕ) → ByzantineServer → ByzantineServer
exchange_all flags choices round [] s = s
exchange_all flags choices round ((i, j) ∷ rest) s =
    let value =
      altered (is_traitor flags choices i) (choices.client_coin round i j) flags.decision in
    exchange_all flags choices round rest
      (exchange_message (choices.server_coin round i j)
        (record { sender_id = i; receiver_id = j; round = round; value = value; path = i ∷ [] })
        s).0

-- So many phases, from one on.
unfoldable pub exchange_rounds : Flags → Choices → ℕ → ℕ → ByzantineServer → ByzantineServer
unfolding exchange_all range all_pairs
exchange_rounds flags choices zero round s = s
exchange_rounds flags choices (suc left) round s =
    let ids = range 0 flags.num_generals in
    exchange_rounds flags choices left (round + 1)
      (exchange_all flags choices round (choices.schedule round (all_pairs ids ids)) s)

-- The phases, once all are registered.
unfoldable pub phases : Flags → Choices → ByzantineServer → ByzantineServer
unfolding send_orders exchange_rounds
phases flags choices s =
    let orders = pairs_from 0 (range 1 (flags.num_generals - 1)) in
    exchange_rounds flags choices flags.num_traitors 2
      (send_orders flags.decision (choices.server_coin 1) (choices.schedule 1 orders) s)

-- The state that the simulation leaves and the consensus that it prints, which is the first
-- general's; `none` is an exit with an error.
unfoldable pub simulate : Flags → Choices → Option (ByzantineServer × Bool)
unfolding register_all count_traitors phases
simulate flags choices =
    let traitor = is_traitor flags choices in
    let ids = range 0 flags.num_generals in
    if leb 4 flags.num_traitors || leb flags.num_generals (flags.num_traitors * 3)
    then none
    else elim (register_all traitor ids new_byzantine_server) [
      | none ↦ none
      | some s ↦
          if ltb flags.num_traitors (count_traitors traitor ids)
          then none
          else let s' = phases flags choices s in
            some
              (s', (get_consensus (choices.vote_coin 0) choices.vote_coin 0 s').consensus_reached)
    ]
