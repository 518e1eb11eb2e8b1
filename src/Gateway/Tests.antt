-- ===== src/Gateway/Tests.antt =====
-- A gateway in front of two banks, as in Assignment2/P3-Strife/data.
use distributed_systems_iiit.Common.{
  ◌≡◌, refl, String, true, false, some, [], ◌∷◌, ◌==◌, string_key, if◌then◌else◌,
}
use distributed_systems_iiit.Common.Int.{pos, ◌+ℤ◌, ◌-ℤ◌}
use distributed_systems_iiit.Common.Dict.{lookup, insert, erase}
use distributed_systems_iiit.Protofiles.{PaymentDetails, PaymentResponse}
use distributed_systems_iiit.Bank
use distributed_systems_iiit.Bank.{BankServer}
use distributed_systems_iiit.Gateway.Balances.{get_balance, update_balance, save_balances}
use distributed_systems_iiit.Gateway.Transactions.{
  TwoPhaseTransactionRecord, preparing, get_transaction, store_two_phase_transaction,
  has_active_transaction, cleanup_transaction, store_simple_transaction,
}
use distributed_systems_iiit.Gateway.Banking
use distributed_systems_iiit.Gateway.Banking.{
  BankService, Network, delivered, lost, reply_lost, get_bank_for_client, get_account_number,
}
use distributed_systems_iiit.Gateway.Banking.Money.{accounts, money}
use distributed_systems_iiit.Gateway.State.{Gateway, Environment}
use distributed_systems_iiit.Gateway.TwoPhase.{
  bank_for, both, first_error, prepare_at, with_banks, prepare_phase, commit_at, commit_phase,
  run_two_phase_commit, update_two_phase_balances,
}
use distributed_systems_iiit.Gateway.TwoPhase.Safety.{accounts-prepare_phase}
use distributed_systems_iiit.Gateway.TwoPhase.Transfer.{Transfer, run_two_phase_commit-Transfer}
use distributed_systems_iiit.Gateway.TwoPhase.SameBank.{calm, commit_at_same_bank}
use distributed_systems_iiit.Gateway.Auth.{Context, responded, extract_username}
use distributed_systems_iiit.Gateway.Payment.{
  in_progress, extract_transaction_id, process_payment, process_new, process_two_phase_payment,
  process_simple_payment, execute_two_phase, pay_at, settle_simple, cached,
}

abbrev bank_a : BankServer
bank_a = record {
  name = "BankA";
  clients = ("123456", "Alice") ∷ ("987654", "Charlie") ∷ [];
  transactions = [];
  balances = ("Alice", pos 202) ∷ ("Charlie", pos 453) ∷ [];
}

abbrev bank_b : BankServer
bank_b = record {
  name = "BankB";
  clients = ("654321", "Bob") ∷ [];
  transactions = [];
  balances = ("Bob", pos 160) ∷ [];
}

abbrev directory : BankService
directory =
    (
      "BankA",
      record {
        name = "BankA";
        address = "localhost:50051";
        clients = ("Alice", "123456") ∷ ("Charlie", "987654") ∷ [];
        connected = false;
      },
    )
    ∷ (
      "BankB",
      record {
        name = "BankB";
        address = "localhost:50052";
        clients = ("Bob", "654321") ∷ [];
        connected = false;
      },
    )
    ∷ []

abbrev pub gateway : Gateway
gateway = record {
  balances = record {
    account_balances =
        ("Alice", record { balance = pos 202; currency = "USD" })
        ∷ ("Bob", record { balance = pos 160; currency = "USD" })
        ∷ ("Charlie", record { balance = pos 453; currency = "USD" })
        ∷ [];
    file = [];
  };
  transactions = record { transactions = []; ttl = 100 };
  banking = directory;
  uses_two_phase = true;
  network = ("BankA", bank_a) ∷ ("BankB", bank_b) ∷ [];
}

abbrev pub all_well : Environment
all_well = record {
  now = 5;
  dials = λ _. true;
  reason = "unavailable";
  prepare = calm;
  commit = calm;
  abort_sender = delivered;
  abort_receiver = delivered;
  payment = delivered;
  saves = true ∷ [];
}

-- The receiver's commit is lost.
abbrev pub lossy : Environment
lossy = record all_well { commit = record calm { receiver = lost } }

abbrev pub context : Context
context = some (("username", "Alice" ∷ []) ∷ ("transaction_id", "tx-1" ∷ []) ∷ [])

abbrev pub to_client : String → PaymentDetails
to_client receiver = record {
  client_name = "Alice";
  amount = pos 50;
  receiver_name = receiver;
  currency = "";
  request_id = "Alice_req_0";
}

abbrev transfer : TwoPhaseTransactionRecord
transfer = record {
  id = "tx-1";
  sender = "Alice";
  receiver = "Bob";
  amount = pos 50;
  state = preparing;
  prepare_votes = [];
  commit_votes = [];
  timestamp = 5;
}

-- A transfer between the banks moves the money in both and in the gateway's own balances.
transfer_succeeds :
    let e = run_two_phase_commit all_well transfer gateway in
    (e.success ≡ true)
    × (money "BankA" "Alice" e.gateway.network ≡ pos 152)
    × (money "BankB" "Bob" e.gateway.network ≡ pos 210)
    × (get_balance "Bob" e.gateway.balances ≡ some (record { amount = pos 210; currency = "USD" }))
unfolding run_two_phase_commit prepare_phase commit_phase with_banks prepare_at commit_at both
    first_error bank_for get_bank_for_client Banking.prepare_debit Banking.prepare_credit
    Banking.commit_debit Banking.commit_credit Bank.prepare_debit Bank.prepare_credit
    Bank.commit_debit Bank.commit_credit update_two_phase_balances get_balance update_balance
    save_balances lookup insert ◌+ℤ◌ ◌-ℤ◌
transfer_succeeds = (refl, refl, refl, refl)

transfer_done : (run_two_phase_commit all_well transfer gateway).success ≡ true
transfer_done = transfer_succeeds.0

run_two_phase_commit-Transfer_example :
    Transfer transfer directory gateway.network
      (run_two_phase_commit all_well transfer gateway).gateway.network
run_two_phase_commit-Transfer_example =
    run_two_phase_commit-Transfer all_well transfer gateway transfer_done

accounts-prepare_phase_example :
    accounts "BankA" (prepare_phase lossy transfer gateway).gateway.network
    ≡ accounts "BankA" gateway.network
accounts-prepare_phase_example = accounts-prepare_phase lossy "BankA" transfer gateway

pub named : extract_username context ≡ responded "Alice"
unfolding extract_username lookup
named = refl

pub identified : extract_transaction_id context ≡ responded "tx-1"
unfolding extract_transaction_id lookup
identified = refl

-- The answer to the first request.
abbrev pub succeeded : PaymentResponse
succeeded = record {
  success = true;
  message = "Payment processed successfully";
  transaction_id = "tx-1";
  amount = pos 50;
  currency = "USD";
}

pub first_succeeds :
    (process_payment all_well context (to_client "Bob") gateway).1 ≡ responded succeeded
unfolding process_payment process_new process_two_phase_payment execute_two_phase cached in_progress
    extract_username extract_transaction_id has_active_transaction get_transaction
    store_two_phase_transaction cleanup_transaction run_two_phase_commit prepare_phase commit_phase
    with_banks prepare_at commit_at both first_error bank_for get_bank_for_client
    Banking.prepare_debit Banking.prepare_credit Banking.commit_debit Banking.commit_credit
    Bank.prepare_debit Bank.prepare_credit Bank.commit_debit Bank.commit_credit
    update_two_phase_balances get_balance update_balance save_balances lookup insert ◌+ℤ◌ ◌-ℤ◌
first_succeeds = refl

-- A one-step payment that was made is made again, and the bank takes the money again.
pays_twice :
    let g1 = (process_payment all_well context (to_client "") gateway).0 in
    let g2 = (process_payment all_well context (to_client "") g1).0 in
    (money "BankA" "Alice" g1.network ≡ pos 152) × (money "BankA" "Alice" g2.network ≡ pos 102)
unfolding process_payment process_new process_simple_payment pay_at settle_simple cached
    extract_username extract_transaction_id get_transaction store_simple_transaction
    get_account_number Banking.get_bank_client Banking.rpc Bank.process_payment get_balance
    update_balance save_balances lookup insert ◌+ℤ◌ ◌-ℤ◌
pays_twice = (refl, refl)

-- When the receiver's commit is lost the payment fails and is forgotten, with the sender's money
-- taken; the next request with the same id takes it again.
lossy_takes_twice :
    let (g1, r1) = process_payment lossy context (to_client "Bob") gateway in
    let (g2, r2) = process_payment all_well context (to_client "Bob") g1 in
    (money "BankA" "Alice" g1.network ≡ pos 152)
    × (money "BankA" "Alice" g2.network ≡ pos 102)
    × (money "BankB" "Bob" g2.network ≡ pos 210)
unfolding process_payment process_new process_two_phase_payment execute_two_phase cached in_progress
    extract_username extract_transaction_id has_active_transaction get_transaction
    store_two_phase_transaction cleanup_transaction run_two_phase_commit prepare_phase commit_phase
    with_banks prepare_at commit_at both first_error bank_for get_bank_for_client
    Banking.prepare_debit Banking.prepare_credit Banking.commit_debit Banking.commit_credit
    Bank.prepare_debit Bank.prepare_credit Bank.commit_debit Bank.commit_credit
    update_two_phase_balances get_balance update_balance save_balances lookup insert erase ◌+ℤ◌ ◌-ℤ◌
lossy_takes_twice = (refl, refl, refl)

-- Alice pays Charlie, of her own bank, which has prepared the transfer.
abbrev inside : TwoPhaseTransactionRecord
inside = record transfer { receiver = "Charlie" }

abbrev waiting : Bank.Transaction
waiting = record { id = "tx-1"; client = "Charlie"; amount = pos 50; state = Bank.prepared }

abbrev bank_a' : BankServer
bank_a' = record bank_a { transactions = ("tx-1", waiting) ∷ [] }

abbrev gateway'' : Gateway
gateway'' = record gateway { network = ("BankA", bank_a') ∷ [] }

commit_at_same_bank_example :
    let e = commit_at all_well "BankA" "BankA" inside gateway'' in
    (e.success ≡ false)
    × (money "BankA" "Charlie" e.gateway.network ≡ (
        if ◌==◌ {A = String} "Alice" "Charlie"
        then money "BankA" "Charlie" gateway''.network -ℤ pos 50
        else money "BankA" "Charlie" gateway''.network))
commit_at_same_bank_example =
    commit_at_same_bank all_well "BankA" "Charlie" inside gateway'' bank_a' waiting refl
      (unfold lookup in refl) (unfold lookup in refl) refl
