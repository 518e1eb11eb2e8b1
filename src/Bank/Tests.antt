-- ===== src/Bank/Tests.antt =====
-- A bank with two clients, as in Assignment2/P3-Strife/data.
use distributed_systems_iiit.Common.{
  ◌≡◌, ◌+◌, ◌≤◌, refl, String, true, some, List, [], ◌∷◌, ◌==◌, ==_iff, arith, string_key,
  if◌then◌else◌,
}
use mathlib.Core.Bool.{false≢true}
use distributed_systems_iiit.Common.Int.{pos, negsuc, ◌+ℤ◌, ◌-ℤ◌, ◌<ℤ◌}
use distributed_systems_iiit.Common.Dict.{lookup, insert}
use distributed_systems_iiit.Protofiles.{TwoPhaseRequest, TwoPhaseResponse}
use distributed_systems_iiit.Bank.{
  BankServer, prepared, committed, replied, has_client, prepare_debit, commit_debit, balance_of,
}
use distributed_systems_iiit.Bank.Requests.{run}
use distributed_systems_iiit.Bank.Money.{applied_all, run-applied}
use distributed_systems_iiit.Bank.TwoPhase.{
  state_of, commits, prepares, pending, run-commits, commit_debit-prepare_debit, overdraft_by_two,
  two_debits, all_succeed,
}
use distributed_systems_iiit.Bank.Loading.{BalanceRecord, load_balances_from_common_file}

abbrev bank : BankServer
bank = record {
  name = "BankA";
  clients = ("123456", "Alice") ∷ ("987654", "Charlie") ∷ [];
  transactions = [];
  balances = ("Alice", pos 202) ∷ ("Charlie", pos 453) ∷ [];
}

abbrev debit : TwoPhaseRequest
debit = record { transaction_id = "tx-1"; client_name = "Alice"; amount = pos 150 }

abbrev debit' : TwoPhaseRequest
debit' = record { transaction_id = "tx-2"; client_name = "Alice"; amount = pos 60 }

-- One debit waits for its commit.
abbrev after_one : BankServer
after_one = record bank {
  transactions =
      ("tx-1", record { id = "tx-1"; client = "Alice"; amount = pos 150; state = prepared }) ∷ [];
}

abbrev after_two : BankServer
after_two = record bank {
  transactions =
      ("tx-1", record { id = "tx-1"; client = "Alice"; amount = pos 150; state = committed })
      ∷ ("tx-2", record { id = "tx-2"; client = "Alice"; amount = pos 60; state = committed })
      ∷ [];
  balances = ("Alice", negsuc 7) ∷ ("Charlie", pos 453) ∷ [];
}

run-two_debits :
    run (two_debits debit debit') bank ≡ replied (after_two, all_succeed (two_debits debit debit'))
unfolding run prepare_debit commit_debit lookup insert ◌-ℤ◌
run-two_debits = refl

run-applied_example :
    (balance_of "Alice" after_two
      ≡ applied_all bank.clients "Alice"
          (all_succeed (two_debits debit debit'))
          (balance_of "Alice" bank))
    × (after_two.clients ≡ bank.clients)
run-applied_example =
    run-applied "Alice" (two_debits debit debit') bank after_two
      (all_succeed (two_debits debit debit')) run-two_debits

run-commits_example :
    let trace = all_succeed (two_debits debit debit') in
    commits "tx-1" trace + pending "tx-1" after_two ≤ prepares "tx-1" trace + pending "tx-1" bank
run-commits_example =
    run-commits "tx-1" (two_debits debit debit') bank after_two
      (all_succeed (two_debits debit debit')) run-two_debits

alice_is_known : has_client "Alice" bank.clients ≡ true
unfolding has_client
alice_is_known = refl

commit_debit-prepare_debit_example :
    let (s1, r1) = prepare_debit debit bank in
    (s2 : BankServer) × (r2 : TwoPhaseResponse) × (commit_debit debit s1 ≡ replied (s2, r2))
    × (r1.success ≡ true)
    × (r2.success ≡ true)
    × (state_of "tx-1" s2 ≡ some committed)
    × ((c : String)
        → balance_of c s2
          ≡ (if "Alice" == c then balance_of c bank -ℤ pos 150 else balance_of c bank))
unfolding balance_of lookup
commit_debit-prepare_debit_example =
    commit_debit-prepare_debit debit bank alice_is_known (omega arith)

overdraft_by_two_example :
    (s' : BankServer) × (run (two_debits debit debit') bank
      ≡ replied (s', all_succeed (two_debits debit debit')))
    × (balance_of "Alice" s' <ℤ pos 0)
unfolding balance_of lookup ◌+ℤ◌
overdraft_by_two_example =
    overdraft_by_two debit debit' bank alice_is_known refl
      (λ p. false≢true ((==_iff "tx-1" "tx-2").1 p)) (omega arith) (omega arith) (omega arith)

-- The abort as the gateway sends it names no client.
abbrev aborting : TwoPhaseRequest
aborting = record { transaction_id = "tx-1"; client_name = ""; amount = pos 0 }

abbrev records : List BalanceRecord
records =
    record { client_name = "Dave"; balance = pos 1292; currency = "USD" }
    ∷ record { client_name = "Alice"; balance = pos 202; currency = "USD" }
    ∷ []

loaded : load_balances_from_common_file bank.clients (some records) ≡ ("Alice", pos 202) ∷ []
unfolding load_balances_from_common_file lookup insert
loaded = refl
