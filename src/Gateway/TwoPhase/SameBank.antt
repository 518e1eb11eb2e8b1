-- ===== src/Gateway/TwoPhase/SameBank.antt =====
-- Two clients of one bank: the bank keeps one record for the transaction, and the first commit
-- uses it up.
use distributed_systems_iiit.Common.{
  ◌≡◌, refl, String, true, false, some, arith, ◌==◌, ==_iff, ==_refl, string_key, if◌then◌else◌,
}
use distributed_systems_iiit.Common.Int.{◌-ℤ◌}
use distributed_systems_iiit.Common.Dict.{lookup, lookup-insert}
use distributed_systems_iiit.Protofiles.{TwoPhaseRequest}
use distributed_systems_iiit.Bank
use distributed_systems_iiit.Bank.{BankServer, Transaction, prepared, committed, settle, balance_of}
use distributed_systems_iiit.Gateway.Transactions.{TwoPhaseTransactionRecord}
use distributed_systems_iiit.Gateway.Banking.{
  ok, err, delivered, Network, commit_debit, commit_credit, request,
}
use distributed_systems_iiit.Gateway.Banking.Money.{money}
use distributed_systems_iiit.Gateway.State.{Gateway, Environment, Phase}
use distributed_systems_iiit.Gateway.TwoPhase.{both, commit_at, first_error}

module _ (reason n : String) (debit credit : TwoPhaseRequest)
    (same : credit.transaction_id ≡ debit.transaction_id) (net : Network) (s : BankServer)
    (t : Transaction) (running : lookup n net ≡ some s)
    (known : lookup debit.transaction_id s.transactions ≡ some t)
    (waiting : t.state ≡ prepared) where
  debit_then_credit :
      let after = commit_debit delivered reason n debit net in
      let final = commit_credit delivered reason n credit after.0 in
      (final.1 ≡ err "Transaction not prepared")
      × (after.1 ≡ ok tt)
      × ((c : String)
          → money n c final.0
            ≡ (if debit.client_name == c then money n c net -ℤ debit.amount else money n c net))
  unfolding commit_debit commit_credit Bank.commit_debit Bank.commit_credit
  debit_then_credit = (
    grind (
      arith,
      lookup-insert,
      ==_refl n,
      ==_refl debit.transaction_id,
      same,
      running,
      known,
      waiting,
    ),
    grind (arith, running, known, waiting),
    λ c. grind (
      arith,
      lookup-insert,
      ==_refl n,
      ==_refl debit.transaction_id,
      ==_iff debit.client_name c,
      same,
      running,
      known,
      waiting,
    ),
  )

-- Both calls of a phase arrive, the sender's first, before the deadline.
abbrev pub calm : Phase
calm = record { sender_first = true; sender = delivered; receiver = delivered; timed_out = false }

-- A transfer between two clients of one bank, which has prepared it: even when both commits arrive
-- in time, the commit phase fails, and the bank has taken the amount from the sender and given it to
-- nobody, if the sender's commit comes first.
pub commit_at_same_bank :
    (env : Environment) (n c : String) (tx : TwoPhaseTransactionRecord) (g : Gateway)
    (s : BankServer) (t : Transaction)
    → env.commit ≡ calm
    → lookup n g.network ≡ some s
    → lookup tx.id s.transactions ≡ some t
    → t.state ≡ prepared
    → let e = commit_at env n n tx g in
      (e.success ≡ false)
      × (money n c e.gateway.network
          ≡ (if tx.sender == c then money n c g.network -ℤ tx.amount else money n c g.network))
unfolding commit_at both first_error
commit_at_same_bank env n c tx g s t quiet running known waiting =
    let after =
      debit_then_credit env.reason n (request tx.id tx.sender tx.amount)
        (request tx.id tx.receiver tx.amount) refl g.network s t running known waiting in
    rw quiet (ground (arith, after.0, after.1, after.2 c))
