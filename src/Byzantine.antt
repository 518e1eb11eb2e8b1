-- ===== src/Byzantine.antt =====
-- The server of the Byzantine generals (Assignment2/P4-ByzantineConsensus/server/main.go). Ids and
-- rounds, int32 in the source, are natural numbers. A toss of a coin is an argument. The texts of
-- the responses are constructors, and the fields that nothing reads (`FinalDecision`,
-- `roundCompleted`) are left out.
pub mod Decisions
pub mod Consensus
pub mod Reachable
pub mod Delivery
pub mod Client
mod Tests
use distributed_systems_iiit.Common.{
  ℕ, zero, suc, ◌+◌, Bool, true, false, Option, none, some, List, [], ◌∷◌, ◌++◌, ◌==◌, nat_key, ltb,
  or_else, not, ◌&&◌, if◌then◌else◌,
}
use distributed_systems_iiit.Common.Dict.{Dict, lookup, insert}

pub data Decision : Type 0 where
  attack retreat : Decision

pub data Role : Type 0 where
  commander lieutenant : Role

-- By sender, the values in the order of their arrival.
abbrev pub RoundMessages : Type 0
RoundMessages = Dict ℕ (List Decision)

pub record General : Type 0 where
  pub id : ℕ
  pub role : Role
  pub is_traitor : Bool
  -- by round
  pub messages : Dict ℕ RoundMessages

pub record ByzantineServer : Type 0 where
  pub generals : Dict ℕ General
  pub num_generals : ℕ
  pub num_traitors : ℕ
  pub max_rounds : ℕ
  pub current_round : ℕ

unfoldable pub new_byzantine_server : ByzantineServer
new_byzantine_server = record {
  generals = [];
  num_generals = 0;
  num_traitors = 0;
  max_rounds = 0;
  current_round = 0;
}

pub record RegisterRequest : Type 0 where
  pub id : ℕ
  pub role : Role
  pub is_traitor : Bool

pub record OrderRequest : Type 0 where
  pub sender_id : ℕ
  pub receiver_id : ℕ
  pub order : Decision

pub record MessageRequest : Type 0 where
  pub sender_id : ℕ
  pub receiver_id : ℕ
  pub round : ℕ
  pub value : Decision
  pub path : List ℕ

-- What a response says.
pub data Answer : Type 0 where
  registered already_exists : Answer
  sender_does_not_exist receiver_does_not_exist only_commander order_received : Answer
  does_not_exist previous_round cycle message_received : Answer

unfoldable pub register_general : RegisterRequest → ByzantineServer → ByzantineServer × Answer
register_general req s = elim (lookup req.id s.generals) [
  | some _ ↦ (s, already_exists)
  | none ↦
      let num_traitors = if req.is_traitor then s.num_traitors + 1 else s.num_traitors in
      (
        record s {
          generals =
              insert req.id
                (record {
                  id = req.id;
                  role = req.role;
                  is_traitor = req.is_traitor;
                  messages = [];
                })
                s.generals;
          num_generals = s.num_generals + 1;
          num_traitors = num_traitors;
          max_rounds = num_traitors + 1;
        },
        registered,
      )
]

-- `g.Messages[round][sender] = append(…, value)`
unfoldable pub add_message : ℕ → ℕ → Decision → General → General
add_message round sender value g =
    let senders = or_else [] (lookup round g.messages) in
    let values = or_else [] (lookup sender senders) in
    record g { messages = insert round (insert sender (values ++ (value ∷ [])) senders) g.messages }

-- The same for a general of the map, by its pointer.
unfoldable pub deliver : ℕ → ℕ → ℕ → Decision → Dict ℕ General → Dict ℕ General
deliver receiver round sender value generals = elim (lookup receiver generals) [
  | none ↦ generals
  | some g ↦ insert receiver (add_message round sender value g) generals
]

abbrev pub flip : Decision → Decision
flip attack = retreat
flip retreat = attack

-- A traitor may alter what it sends; `coin` is `rand.Float32() < 0.5`.
abbrev pub altered : Bool → Bool → Decision → Decision
altered is_traitor coin value = if is_traitor && coin then flip value else value

-- The commander keeps its own order before the receiver gets it.
unfoldable pub send_order : Bool → OrderRequest → ByzantineServer → ByzantineServer × Answer
send_order coin req s = elim (lookup req.sender_id s.generals) [
  | none ↦ (s, sender_does_not_exist)
  | some general ↦ elim (lookup req.receiver_id s.generals) [
    | none ↦ (s, receiver_does_not_exist)
    | some _ ↦ elim general.role [
      | lieutenant ↦ (s, only_commander)
      | commander ↦
          let kept = deliver req.sender_id 1 req.sender_id req.order s.generals in
          let value = altered general.is_traitor coin req.order in
          (
            record s {
              generals = deliver req.receiver_id 1 req.sender_id value kept;
              current_round = if s.current_round == 0 then 1 else s.current_round;
            },
            order_received,
          )
    ]
  ]
]

-- The loop over the path of a message.
unfoldable pub on_path : ℕ → List ℕ → Bool
on_path receiver [] = false
on_path receiver (id ∷ rest) = if id == receiver then true else on_path receiver rest

-- The round is advanced before the path is looked at.
unfoldable pub exchange_message : Bool → MessageRequest → ByzantineServer → ByzantineServer × Answer
exchange_message coin req s = elim (lookup req.sender_id s.generals) [
  | none ↦ (s, does_not_exist)
  | some sender ↦ elim (lookup req.receiver_id s.generals) [
    | none ↦ (s, does_not_exist)
    | some _ ↦
        if ltb req.round s.current_round
        then (s, previous_round)
        else let s1 = record s {
          current_round = if ltb s.current_round req.round then req.round else s.current_round;
        } in
          if on_path req.receiver_id req.path then (s1, cycle) else (
            record s1 {
              generals =
                  deliver req.receiver_id req.round req.sender_id
                    (altered sender.is_traitor coin req.value) s1.generals;
            },
            message_received,
          )
  ]
]
