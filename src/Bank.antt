-- ===== src/Bank.antt =====
-- A bank server (Assignment2/P3-Strife/bank/bank_server.go): accounts, balances, and the
-- participant's side of two-phase commit. Each handler is a function from the state and the request
-- to the new state and the response; it runs under the server's lock, so one at a time.
pub mod Requests
pub mod Branches
pub mod TwoPhase
pub mod Money
pub mod Payments
pub mod Loading
mod Tests
use Prim.Native.String.{◌++◌}
use distributed_systems_iiit.Common.{
  String, Bool, true, false, Option, none, some, List, [], ◌∷◌, ◌==◌, if◌then◌else◌, or_else,
  string_key,
}
use distributed_systems_iiit.Common.Int.{ℤ, pos, ◌+ℤ◌, ◌-ℤ◌, ltb_ℤ, leb_ℤ}
use distributed_systems_iiit.Common.Dict.{Dict, lookup, insert}
use distributed_systems_iiit.Protofiles.{
  PaymentRequest, TwoPhaseRequest, TwoPhaseResponse, PaymentResponse, plain_response,
}

-- The strings "prepared", "committed" and "aborted".
pub data TransactionState : Type 0 where
  prepared committed aborted : TransactionState

pub record Transaction : Type 0 where
  pub id : String
  pub client : String
  pub amount : ℤ
  pub state : TransactionState

pub record BankServer : Type 0 where
  pub name : String
  -- account number to client name
  pub clients : Dict String String
  pub transactions : Dict String Transaction
  -- client name to balance
  pub balances : Dict String ℤ

-- A handler replies, or reads through a nil pointer and brings the process down.
pub data Outcome {ℓ} (A : Type ℓ) : Type ℓ where
  replied : A → Outcome A
  panicked : Outcome A

-- The loop over `s.clients` that looks for an account number; "" if there is none.
unfoldable pub find_account : String → Dict String String → String
find_account number [] = ""
find_account number ((acc_num, client) ∷ rest) =
    if acc_num == number then client else find_account number rest

-- The loop over `s.clients` that looks for a client.
unfoldable pub has_client : String → Dict String String → Bool
has_client client_name [] = false
has_client client_name ((_, client) ∷ rest) =
    if client == client_name then true else has_client client_name rest

-- `s.balances[c]`: a missing balance reads as 0.
unfoldable pub balance_of : String → BankServer → ℤ
balance_of client s = or_else (pos 0) (lookup client s.balances)

-- The part of `ProcessPayment` under the lock, with the balance that it found.
unfoldable pub debit_found : String → ℤ → Option ℤ → BankServer → BankServer × PaymentResponse
debit_found client_name amount none s = (s, plain_response false "Client has no balance record")
debit_found client_name amount (some balance) s =
    if ltb_ℤ balance amount then (s, plain_response false "Insufficient funds") else (
      record s { balances = insert client_name (balance -ℤ amount) s.balances },
      plain_response true "Payment processed successfully",
    )

unfoldable pub process_payment : PaymentRequest → BankServer → BankServer × PaymentResponse
unfolding debit_found find_account
process_payment req s =
    if leb_ℤ req.amount (pos 0)
    then (s, plain_response false "Invalid amount")
    else let client_name = find_account req.account_number s.clients in
      if client_name == ""
      then (s, plain_response false "Account not found")
      else debit_found client_name req.amount (lookup client_name s.balances) s

abbrev not_found : TwoPhaseRequest → BankServer → TwoPhaseResponse
not_found req s = record {
  success = false;
  message = "Client " ++ req.client_name ++ " not found in bank " ++ s.name;
}

-- `s.transactions[req.TransactionId] = &Transaction{…, State: "prepared"}`
abbrev pub store_prepared : TwoPhaseRequest → BankServer → BankServer
store_prepared req s = record s {
  transactions =
      insert req.transaction_id
        (record {
          id = req.transaction_id;
          client = req.client_name;
          amount = req.amount;
          state = prepared;
        })
        s.transactions;
}

unfoldable pub prepare_debit : TwoPhaseRequest → BankServer → BankServer × TwoPhaseResponse
unfolding has_client balance_of
prepare_debit req s =
    if has_client req.client_name s.clients
    then (if ltb_ℤ (balance_of req.client_name s) req.amount
        then (s, record { success = false; message = "Insufficient funds" })
        else (store_prepared req s, record { success = true; message = "Debit prepared" }))
    else (s, not_found req s)

unfoldable pub prepare_credit : TwoPhaseRequest → BankServer → BankServer × TwoPhaseResponse
unfolding has_client
prepare_credit req s =
    if has_client req.client_name s.clients
    then (store_prepared req s, record { success = true; message = "Credit prepared" })
    else (s, not_found req s)

abbrev pub set_state : TransactionState → Transaction → Transaction
set_state st tx = record tx { state = st }

-- `s.balances[c] = v` and `tx.State = "committed"`
abbrev pub settle : TwoPhaseRequest → Transaction → ℤ → BankServer → BankServer
settle req tx balance s = record s {
  balances = insert req.client_name balance s.balances;
  transactions = insert req.transaction_id (set_state committed tx) s.transactions;
}

abbrev pub not_prepared : TwoPhaseResponse
not_prepared = record { success = false; message = "Transaction not prepared" }

unfoldable pub commit_found :
    TransactionState
    → TwoPhaseRequest
    → Transaction
    → ℤ
    → String
    → BankServer
    → BankServer × TwoPhaseResponse
commit_found prepared req tx balance message s =
    (settle req tx balance s, record { success = true; message = message })
commit_found committed req tx balance message s = (s, not_prepared)
commit_found aborted req tx balance message s = (s, not_prepared)

-- `log.Println(exists, tx.State)` stands above the test of `exists`.
unfoldable pub commit_debit : TwoPhaseRequest → BankServer → Outcome (BankServer × TwoPhaseResponse)
unfolding commit_found balance_of
commit_debit req s = elim (lookup req.transaction_id s.transactions) [
  | none ↦ panicked
  | some tx ↦ replied (
      commit_found tx.state req tx (balance_of req.client_name s -ℤ req.amount) "Debit committed" s)
]

unfoldable pub commit_credit : TwoPhaseRequest → BankServer → BankServer × TwoPhaseResponse
unfolding commit_found balance_of
commit_credit req s = elim (lookup req.transaction_id s.transactions) [
  | none ↦ (s, not_prepared)
  | some tx ↦
      commit_found tx.state req tx (balance_of req.client_name s +ℤ req.amount) "Credit committed" s
]

unfoldable pub abort : TwoPhaseRequest → BankServer → BankServer × TwoPhaseResponse
abort req s = elim (lookup req.transaction_id s.transactions) [
  | none ↦ (s, record { success = true; message = "Transaction not found, considered aborted" })
  | some tx ↦ (
    record s { transactions = insert req.transaction_id (set_state aborted tx) s.transactions },
    record { success = true; message = "Transaction aborted" },
  )
]

unfoldable pub get_bank_name : TwoPhaseRequest → BankServer → BankServer × TwoPhaseResponse
get_bank_name req s = (s, record { success = true; message = s.name })
