-- ===== src/Gateway/Banking.antt =====
-- The banks as the gateway sees them (gateway/banking/client.go), and the network that its calls
-- cross: the bank processes, and what may happen to one call on the way.
pub mod Directory
pub mod Money
pub mod Setup
mod Tests
use Prim.Native.String.{◌++◌}
use distributed_systems_iiit.Common.{
  String, Bool, true, false, none, some, [], ◌∷◌, string_key, is_some, if◌then◌else◌,
}
use distributed_systems_iiit.Common.Int.{ℤ}
use distributed_systems_iiit.Common.Dict.{Dict, lookup, insert}
use distributed_systems_iiit.Protofiles.{TwoPhaseRequest, TwoPhaseResponse}
use distributed_systems_iiit.Bank
use distributed_systems_iiit.Bank.{BankServer, Outcome, replied, panicked}

-- `banking.Bank`, without its port, which is always 0, and its client, which is there once it is
-- connected.
pub record BankEntry : Type 0 where
  pub name : String
  pub address : String
  -- client name to account number
  pub clients : Dict String String
  pub connected : Bool

-- `DefaultBankService`, the banks in the order of an iteration.
abbrev pub BankService : Type 0
BankService = Dict String BankEntry

-- A Go pair of a value and an error.
pub data Result {ℓ} (A : Type ℓ) : Type ℓ where
  ok : A → Result A
  err : String → Result A

-- The loops of `loadClientMappings`: the accounts of one bank, and the banks of the file.
unfoldable pub add_accounts : Dict String String → Dict String String → Dict String String
add_accounts [] clients = clients
add_accounts ((account_number, client_name) ∷ rest) clients =
    add_accounts rest (insert client_name account_number clients)

unfoldable pub load_client_mappings : Dict String (Dict String String) → BankService → BankService
unfolding add_accounts
load_client_mappings [] banks = banks
load_client_mappings ((bank_name, clients) ∷ rest) banks =
    load_client_mappings rest (elim (lookup bank_name banks) [
      | none ↦ banks
      | some b ↦ insert bank_name (record b { clients = add_accounts clients b.clients }) banks
    ])

unfoldable pub get_bank_name_for_client : String → BankService → Result String
get_bank_name_for_client client_name [] = err ("no bank found for client " ++ client_name)
get_bank_name_for_client client_name ((bank_name, b) ∷ rest) =
    if is_some (lookup client_name b.clients)
    then ok bank_name
    else get_bank_name_for_client client_name rest

unfoldable pub get_account_number : String → BankService → Result String
unfolding get_bank_name_for_client
get_account_number client_name banks = elim (get_bank_name_for_client client_name banks) [
  | err e ↦ err e
  | ok bank_name ↦ elim (lookup bank_name banks) [
    | none ↦ err ("bank " ++ bank_name ++ " not found")
    | some b ↦ elim (lookup client_name b.clients) [
      | none ↦ err ("account not found for client " ++ client_name)
      | some account_number ↦ ok account_number
    ]
  ]
]

-- The connection to a bank: an earlier one is used again, a new one is dialled. `dials` says
-- whether a dial of the bank succeeds, and `reason` is the text of the dial's error.
unfoldable pub connect :
    (String → Bool) → String → String → BankEntry → BankService → BankService × Result String
connect dials reason bank_name b banks =
    if b.connected
    then (banks, ok b.name)
    else if dials b.name
    then (insert bank_name (record b { connected = true }) banks, ok b.name)
    else (banks, err ("failed to connect to bank " ++ bank_name ++ ": " ++ reason))

-- The bank of a client, by the name that the client holds.
unfoldable pub get_bank_for_client :
    (String → Bool) → String → String → BankService → BankService × Result String
unfolding get_bank_name_for_client connect
get_bank_for_client dials reason client_name banks =
    elim (get_bank_name_for_client client_name banks) [
      | err e ↦ (banks, err e)
      | ok bank_name ↦ elim (lookup bank_name banks) [
        | none ↦ (banks, err ("bank " ++ bank_name ++ " not found"))
        | some b ↦ connect dials reason bank_name b banks
      ]
    ]

-- The same for a payment in one step, which calls the bank's client itself. The connection of the
-- second dial, after one that failed, is dropped.
unfoldable pub get_bank_client :
    (String → Bool) → String → String → BankService → BankService × Result String
unfolding get_bank_name_for_client connect
get_bank_client dials reason client_name banks = elim (get_bank_name_for_client client_name banks) [
  | err e ↦ (banks, err e)
  | ok bank_name ↦ elim (lookup bank_name banks) [
    | none ↦ (banks, err ("bank " ++ bank_name ++ " not found"))
    | some b ↦ connect dials reason bank_name b banks
  ]
]

-- The running bank processes, by name.
abbrev pub Network : Type 0
Network = Dict String BankServer

-- What becomes of one call: it is served and its reply arrives, it never arrives, or it is served
-- and the reply is lost.
pub data Delivery : Type 0 where
  delivered lost reply_lost : Delivery

-- Both banks are served by one process (`main` of the bank), so a panic stops both.
unfoldable pub answer {ℓ} :
    {R : Type ℓ} → Bool → String → String → Outcome (BankServer × R) → Network → Network × Result R
answer heard reason bank_name panicked net = ([], err reason)
answer heard reason bank_name (replied (s, r)) net =
    (insert bank_name s net, if heard then ok r else err reason)

-- One remote call; `reason` is the text of the transport's error.
unfoldable pub rpc {ℓ} :
    {R : Type ℓ}
    → Delivery
    → String
    → String
    → (BankServer → Outcome (BankServer × R))
    → Network
    → Network × Result R
unfolding answer
rpc lost reason bank_name handler net = (net, err reason)
rpc delivered reason bank_name handler net = elim (lookup bank_name net) [
  | none ↦ (net, err reason)
  | some s ↦ answer true reason bank_name (handler s) net
]
rpc reply_lost reason bank_name handler net = elim (lookup bank_name net) [
  | none ↦ (net, err reason)
  | some s ↦ answer false reason bank_name (handler s) net
]

-- `GrpcBankClient`: a response without success is an error with its message, so the Boolean that is
-- returned beside an error is always false.
unfoldable pub agreed : Result TwoPhaseResponse → Result (Unit {0})
agreed (err e) = err e
agreed (ok r) = if r.success then ok tt else err r.message

unfoldable pub two_phase_call :
    Delivery
    → String
    → String
    → (BankServer → Outcome (BankServer × TwoPhaseResponse))
    → Network
    → Network × Result (Unit {0})
unfolding rpc agreed
two_phase_call d reason bank_name handler net =
    let (net', r) = rpc d reason bank_name handler net in (net', agreed r)

abbrev pub request : String → String → ℤ → TwoPhaseRequest
request tx_id client_name amount = record {
  transaction_id = tx_id;
  client_name = client_name;
  amount = amount;
}

-- The methods of `GrpcBankClient`.
abbrev pub Call : Type 0
Call = Delivery → String → String → TwoPhaseRequest → Network → Network × Result (Unit {0})

unfoldable pub prepare_debit : Call
unfolding two_phase_call
prepare_debit d reason bank req =
    two_phase_call d reason bank (λ s. replied (Bank.prepare_debit req s))

unfoldable pub prepare_credit : Call
unfolding two_phase_call
prepare_credit d reason bank req =
    two_phase_call d reason bank (λ s. replied (Bank.prepare_credit req s))

unfoldable pub commit_debit : Call
unfolding two_phase_call
commit_debit d reason bank req = two_phase_call d reason bank (Bank.commit_debit req)

unfoldable pub commit_credit : Call
unfolding two_phase_call
commit_credit d reason bank req =
    two_phase_call d reason bank (λ s. replied (Bank.commit_credit req s))

-- The request of an abort names the transaction alone.
unfoldable pub abort : Delivery → String → String → String → Network → Network × Result (Unit {0})
unfolding two_phase_call
abort d reason bank tx_id =
    two_phase_call d reason bank (λ s. replied (Bank.abort (request tx_id "" (ℤ.pos 0)) s))
