-- ===== src/Gateway/Payment/Mode.antt =====
-- No payment changes the way that the gateway pays.
use distributed_systems_iiit.Common.{◌≡◌, ◌∙◌, ◌⊎◌, refl, inl, inr, String, arith, string_key}
use distributed_systems_iiit.Protofiles.{PaymentDetails}
use distributed_systems_iiit.Gateway.Balances.{Balance}
use distributed_systems_iiit.Gateway.Transactions.{
  TwoPhaseTransactionRecord, store_two_phase_transaction,
}
use distributed_systems_iiit.Gateway.Banking.{Result, ok, err, Delivery}
use distributed_systems_iiit.Gateway.State.{Gateway, Environment}
use distributed_systems_iiit.Gateway.TwoPhase.{
  Ended, bank_for, abort_at, abort_client, abort_transaction, prepare_at, commit_at, with_banks,
  prepare_phase, commit_phase, run_two_phase_commit,
}
use distributed_systems_iiit.Gateway.Payment.{
  new_transaction, execute_two_phase, process_two_phase_payment, process_simple_payment,
  settle_simple, pay_at, process_new,
}

Result-cases : {A : Type 0} → (r : Result A) → ((a : A) × (r ≡ ok a)) ⊎ ((e : String) × (r ≡ err e))
Result-cases (ok a) = inl (a, refl)
Result-cases (err e) = inr (e, refl)

abort_client-way :
    (env : Environment) (d : Delivery) (tx_id client_name : String) (g : Gateway)
    → (abort_client env d tx_id client_name g).uses_two_phase ≡ g.uses_two_phase
unfolding abort_client bank_for abort_at
abort_client-way env d tx_id client_name g = ground arith

abort_transaction-way :
    (env : Environment) (tx : TwoPhaseTransactionRecord) (g : Gateway)
    → (abort_transaction env tx g).0.uses_two_phase ≡ g.uses_two_phase
unfolding abort_transaction
abort_transaction-way env tx g =
    let g1 = abort_client env env.abort_sender tx.id tx.sender g in
    abort_client-way env env.abort_receiver tx.id tx.receiver g1
    ∙ abort_client-way env env.abort_sender tx.id tx.sender g

with_banks-way :
    (env : Environment) (during : String)
    (phase : Environment → String → String → TwoPhaseTransactionRecord → Gateway → Ended)
    (tx : TwoPhaseTransactionRecord) (g : Gateway)
    → ((s r : String) (g' : Gateway)
        → (phase env s r tx g').gateway.uses_two_phase ≡ g'.uses_two_phase)
    → (with_banks env during phase tx g).gateway.uses_two_phase ≡ g.uses_two_phase
unfolding with_banks bank_for
with_banks-way env during phase tx g keeps =
    let g1 = (bank_for env tx.sender g).0 in
    let g2 = (bank_for env tx.receiver g1).0 in
    elim (Result-cases (bank_for env tx.sender g).1) [
      | inr (e, p) ↦ ground (arith, abort_transaction-way env tx g1)
      | inl (a, p) ↦ elim (Result-cases (bank_for env tx.receiver g1).1) [
        | inr (e, q) ↦ ground (arith, abort_transaction-way env tx g2)
        | inl (b, q) ↦ ground (arith, keeps a b g2)
      ]
    ]

prepare_at-way :
    (env : Environment) (s r : String) (tx : TwoPhaseTransactionRecord) (g : Gateway)
    → (prepare_at env s r tx g).gateway.uses_two_phase ≡ g.uses_two_phase
unfolding prepare_at
prepare_at-way env s r tx g = grind (arith, abort_transaction-way)

commit_at-way :
    (env : Environment) (s r : String) (tx : TwoPhaseTransactionRecord) (g : Gateway)
    → (commit_at env s r tx g).gateway.uses_two_phase ≡ g.uses_two_phase
unfolding commit_at
commit_at-way env s r tx g = grind (arith, abort_transaction-way)

run_two_phase_commit-way :
    (env : Environment) (tx : TwoPhaseTransactionRecord) (g : Gateway)
    → (run_two_phase_commit env tx g).gateway.uses_two_phase ≡ g.uses_two_phase
unfolding run_two_phase_commit prepare_phase commit_phase
run_two_phase_commit-way env tx g =
    let p = prepare_phase env tx g in
    ground (
      arith,
      with_banks-way env "" prepare_at tx g (λ s r g'. prepare_at-way env s r tx g'),
      with_banks-way env " during commit" commit_at p.tx p.gateway
          (λ s r g'. commit_at-way env s r p.tx g'),
    )

execute_two_phase-way :
    (env : Environment) (req : PaymentDetails) (tx_id : String) (balance : Balance) (g : Gateway)
    → (execute_two_phase env req tx_id balance g).0.uses_two_phase ≡ g.uses_two_phase
unfolding execute_two_phase
execute_two_phase-way env req tx_id balance g =
    let tx = new_transaction env req tx_id in
    let g1 = record g { transactions = store_two_phase_transaction tx_id tx g.transactions } in
    ground (arith, run_two_phase_commit-way env tx g1)

process_simple_payment-way :
    (env : Environment) (req : PaymentDetails) (tx_id : String) (balance : Balance) (g : Gateway)
    → (process_simple_payment env req tx_id balance g).0.uses_two_phase ≡ g.uses_two_phase
unfolding process_simple_payment bank_for pay_at settle_simple
process_simple_payment-way env req tx_id balance g = ground arith

pub process_new-way :
    (env : Environment) (req : PaymentDetails) (tx_id : String) (g : Gateway)
    → (process_new env req tx_id g).0.uses_two_phase ≡ g.uses_two_phase
unfolding process_new process_two_phase_payment
process_new-way env req tx_id g = grind (arith, process_simple_payment-way, execute_two_phase-way)
