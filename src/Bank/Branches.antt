-- ===== src/Bank/Branches.antt =====
-- The handlers branch by branch, as equations for the proofs about sequences of calls.
use distributed_systems_iiit.Common.{
  ◌≡◌, String, true, some, ◌==◌, arith, string_key, if◌then◌else◌,
}
use distributed_systems_iiit.Common.Int.{ℤ, ◌-ℤ◌, ◌+ℤ◌, ◌≤ℤ◌}
use distributed_systems_iiit.Common.Dict.{lookup, lookup-insert}
use distributed_systems_iiit.Protofiles.{TwoPhaseRequest}
use distributed_systems_iiit.Bank.{
  BankServer, Transaction, prepared, committed, replied, prepare_debit, prepare_credit,
  commit_debit, commit_credit, balance_of, has_client, store_prepared, settle,
}

module _ (req : TwoPhaseRequest) (s : BankServer) where
  -- The record that a prepare stores.
  abbrev pub prepared_record : Transaction
  prepared_record = record {
    id = req.transaction_id;
    client = req.client_name;
    amount = req.amount;
    state = prepared;
  }

  pub prepare_debit_known :
      has_client req.client_name s.clients ≡ true
      → req.amount ≤ℤ balance_of req.client_name s
      → prepare_debit req s
        ≡ (store_prepared req s, record { success = true; message = "Debit prepared" })
  unfolding prepare_debit
  prepare_debit_known known funds = ground arith

  pub prepare_credit_known :
      has_client req.client_name s.clients ≡ true
      → prepare_credit req s
        ≡ (store_prepared req s, record { success = true; message = "Credit prepared" })
  unfolding prepare_credit
  prepare_credit_known known = ground arith

  pub commit_debit_prepared :
      (tx : Transaction)
      → lookup req.transaction_id s.transactions ≡ some tx
      → tx.state ≡ prepared
      → commit_debit req s
        ≡ replied (
          settle req tx (balance_of req.client_name s -ℤ req.amount) s,
          record { success = true; message = "Debit committed" },
        )
  unfolding commit_debit
  commit_debit_prepared tx found p = ground arith

  pub commit_credit_prepared :
      (tx : Transaction)
      → lookup req.transaction_id s.transactions ≡ some tx
      → tx.state ≡ prepared
      → commit_credit req s ≡ (
        settle req tx (balance_of req.client_name s +ℤ req.amount) s,
        record { success = true; message = "Credit committed" },
      )
  unfolding commit_credit
  commit_credit_prepared tx found p = ground arith

  pub lookup-store_prepared :
      (id : String)
      → lookup id (store_prepared req s).transactions
        ≡ (if req.transaction_id == id then some prepared_record else lookup id s.transactions)
  lookup-store_prepared id = rw lookup-insert

  pub balance_of-settle :
      (tx : Transaction) (v : ℤ) (c : String)
      → balance_of c (settle req tx v s) ≡ (if req.client_name == c then v else balance_of c s)
  unfolding balance_of
  balance_of-settle tx v c = grind (arith, lookup-insert)

  pub lookup-settle :
      (tx : Transaction) (v : ℤ) (id : String)
      → lookup id (settle req tx v s).transactions ≡ (
          if req.transaction_id == id
          then some (record tx { state = committed })
          else lookup id s.transactions)
  lookup-settle tx v id = rw lookup-insert
