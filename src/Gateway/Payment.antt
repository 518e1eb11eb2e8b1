-- ===== src/Gateway/Payment.antt =====
-- Payments as the client asks for them (gateway/payment/processor.go and balance.go): who may pay,
-- what has been processed already, and which of the two ways a payment goes.
pub mod Mode
pub mod OneStep
mod Tests
pub mod Retry
use Prim.Native.String.{◌++◌}
use distributed_systems_iiit.Common.{
  String, Bool, true, false, Option, none, some, [], ◌∷◌, List, ◌==◌, string_key, ◌&&◌, not,
  if◌then◌else◌,
}
use distributed_systems_iiit.Common.Int.{pos, ◌-ℤ◌, ltb_ℤ}
use distributed_systems_iiit.Protofiles.{PaymentDetails, PaymentResponse, plain_response}
use distributed_systems_iiit.Bank
use distributed_systems_iiit.Bank.{replied}
use distributed_systems_iiit.Gateway.Balances.{
  Balance, BalanceStorage, get_balance, update_balance, save_balances,
}
use distributed_systems_iiit.Gateway.Transactions.{
  Record, simple, two_phase, TwoPhaseTransactionRecord, preparing, committing, committed, aborted,
  get_transaction, has_active_transaction, store_simple_transaction, store_two_phase_transaction,
  cleanup_transaction,
}
use distributed_systems_iiit.Gateway.Banking.{ok, err, rpc, get_account_number, get_bank_client}
use distributed_systems_iiit.Gateway.State.{Gateway, Environment}
use distributed_systems_iiit.Gateway.TwoPhase.{run_two_phase_commit}
use distributed_systems_iiit.Gateway.Auth.{
  Context, invalid_argument, permission_denied, not_found, Reply, responded, failed, first_value,
  extract_username,
}

unfoldable pub extract_transaction_id : Context → Reply String
unfolding first_value
extract_transaction_id =
    first_value invalid_argument "transaction_id" "transaction_id required for idempotency"

abbrev first_save : List Bool → Bool
first_save [] = false
first_save (w ∷ _) = w

-- What a bank's success changes: the balance, its file and the transaction's record. A client with
-- no balance is skipped. The file is written by a goroutine, here at once.
unfoldable pub settle_simple :
    Environment → PaymentDetails → String → Balance → PaymentResponse → Gateway → Gateway
settle_simple env req tx_id balance response g =
    let b = record balance { amount = balance.amount -ℤ req.amount } in
    let balances : BalanceStorage = elim (update_balance req.client_name b g.balances) [
      | none ↦ g.balances
      | some s ↦ (save_balances (first_save env.saves) s).0
    ] in
    record g {
      balances = balances;
      transactions =
          store_simple_transaction
            (record {
              transaction_id = tx_id;
              client_name = req.client_name;
              amount = req.amount;
              processed_at = env.now;
              result = response;
            })
            g.transactions;
    }

-- The call of the bank, and what follows from its answer.
unfoldable pub pay_at :
    Environment
    → PaymentDetails
    → String
    → Balance
    → String
    → String
    → Gateway
    → Gateway × PaymentResponse
pay_at env req tx_id balance bank_name account_number g =
    let (net, r) =
      rpc env.payment env.reason bank_name
        (λ s. replied (
          Bank.process_payment
            (record {
              account_number = account_number;
              amount = req.amount;
              transaction_id = tx_id;
            })
            s))
        g.network in
    let g1 = record g { network = net } in
    elim r [
      | err e ↦ (g1, plain_response false ("Payment processing error: " ++ e))
      | ok resp ↦
          let response = plain_response resp.success resp.message in
          if resp.success
          then (settle_simple env req tx_id balance response g1, response)
          else (g1, response)
    ]

unfoldable pub process_simple_payment :
    Environment → PaymentDetails → String → Balance → Gateway → Gateway × PaymentResponse
process_simple_payment env req tx_id balance g =
    let (banking, bank) = get_bank_client env.dials env.reason req.client_name g.banking in
    let g1 = record g { banking = banking } in
    elim bank [
      | err _ ↦ (g1, plain_response false "Bank not available")
      | ok bank_name ↦ elim (get_account_number req.client_name g1.banking) [
        | err e ↦ (g1, plain_response false ("Account lookup error: " ++ e))
        | ok account_number ↦ pay_at env req tx_id balance bank_name account_number g1
      ]
    ]

abbrev pub new_transaction : Environment → PaymentDetails → String → TwoPhaseTransactionRecord
new_transaction env req tx_id = record {
  id = tx_id;
  sender = req.client_name;
  receiver = req.receiver_name;
  amount = req.amount;
  state = preparing;
  prepare_votes = [];
  commit_votes = [];
  timestamp = env.now;
}

-- A record that says that the transaction is under way.
unfoldable pub in_progress : Option Record → Bool
in_progress none = false
in_progress (some (simple _)) = false
in_progress (some (two_phase tx)) = elim tx.state [
  | preparing ↦ true
  | committing ↦ true
  | _ ↦ false
]

-- The record is registered before the protocol starts; the protocol writes to the same record, and
-- a transaction that failed is forgotten.
unfoldable pub execute_two_phase :
    Environment → PaymentDetails → String → Balance → Gateway → Gateway × PaymentResponse
execute_two_phase env req tx_id balance g =
    let tx = new_transaction env req tx_id in
    let g1 = record g { transactions = store_two_phase_transaction tx_id tx g.transactions } in
    let e = run_two_phase_commit env tx g1 in
    let stored = store_two_phase_transaction tx_id e.tx e.gateway.transactions in
    (
      record e.gateway {
        transactions = if e.success then stored else cleanup_transaction tx_id stored;
      },
      record {
        success = e.success;
        message = e.message;
        transaction_id = tx_id;
        amount = req.amount;
        currency = balance.currency;
      },
    )

unfoldable pub process_two_phase_payment :
    Environment → PaymentDetails → String → Balance → Gateway → Gateway × PaymentResponse
process_two_phase_payment env req tx_id balance g =
    if req.receiver_name == ""
    then (g, plain_response false "Receiver name is required for two-phase commit payment")
    else if has_active_transaction tx_id g.transactions
        && in_progress (get_transaction tx_id g.transactions)
    then (g, plain_response false "Transaction already in progress")
    else execute_two_phase env req tx_id balance g

-- The answer to a transaction that has a record, if the record gives one.
unfoldable pub cached : Bool → PaymentDetails → String → Option Record → Option PaymentResponse
cached uses_two_phase req tx_id none = none
cached true req tx_id (some (simple _)) = none
cached true req tx_id (some (two_phase tx)) = elim tx.state [
  | committed ↦ some (record {
    success = true;
    message = "Transaction already processed successfully";
    transaction_id = tx_id;
    amount = req.amount;
    currency = "";
  })
  | aborted ↦ some (record {
    success = false;
    message = "Transaction was previously aborted";
    transaction_id = tx_id;
    amount = pos 0;
    currency = "";
  })
  | _ ↦ none
]
cached false req tx_id (some (simple r)) = some r.result
cached false req tx_id (some (two_phase _)) = none

-- `ProcessPayment` from the point where the transaction has no answer yet.
unfoldable pub process_new :
    Environment → PaymentDetails → String → Gateway → Gateway × PaymentResponse
process_new env req tx_id g = elim (get_balance req.client_name g.balances) [
  | none ↦ (g, plain_response false "No balance information for client")
  | some balance ↦
      if ltb_ℤ balance.amount req.amount
      then (g, plain_response false "Insufficient funds")
      else if g.uses_two_phase && not (req.receiver_name == "")
      then process_two_phase_payment env req tx_id balance g
      else process_simple_payment env req tx_id balance g
]

unfoldable pub process_payment :
    Environment → Context → PaymentDetails → Gateway → Gateway × Reply PaymentResponse
process_payment env ctx req g = elim (extract_username ctx) [
  | failed c m ↦ (g, failed c m)
  | responded username ↦
      if username == req.client_name
      then elim (extract_transaction_id ctx) [
        | failed c m ↦ (g, failed c m)
        | responded tx_id ↦
            elim (cached g.uses_two_phase req tx_id (get_transaction tx_id g.transactions)) [
              | some response ↦ (g, responded response)
              | none ↦ let (g', response) = process_new env req tx_id g in (g', responded response)
            ]
      ]
      else (g, responded (plain_response false "You can only make payments for your own account"))
]

-- `BalanceService.GetBalance`
unfoldable pub get_client_balance : Context → String → Gateway → Reply Balance
unfolding extract_username
get_client_balance ctx client_name g = elim (extract_username ctx) [
  | failed c m ↦ failed c m
  | responded username ↦
      if username == client_name
      then elim (get_balance client_name g.balances) [
        | none ↦ failed not_found "no balance information found for client"
        | some b ↦ responded b
      ]
      else failed permission_denied "cannot view balance for other clients"
]
