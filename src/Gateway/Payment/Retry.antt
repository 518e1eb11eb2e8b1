-- ===== src/Gateway/Payment/Retry.antt =====
-- A payment that is asked for again.
use distributed_systems_iiit.Common.{
  ◌≡◌, ◌≢◌, inl, inr, String, Bool, true, false, Option, none, some, arith, ◌==◌, ==_iff, ==_refl,
  string_key, Option-cases,
}
use distributed_systems_iiit.Common.Dict.{lookup-insert, lookup-erase}
use distributed_systems_iiit.Protofiles.{PaymentDetails, PaymentResponse}
use distributed_systems_iiit.Gateway.Balances.{Balance, get_balance}
use distributed_systems_iiit.Gateway.Transactions.{
  Record, simple, two_phase, committed, get_transaction, store_two_phase_transaction,
  cleanup_transaction,
}
use distributed_systems_iiit.Gateway.State.{Gateway, Environment}
use distributed_systems_iiit.Gateway.Auth.{Context, responded, extract_username}
use distributed_systems_iiit.Gateway.TwoPhase.{run_two_phase_commit}
use distributed_systems_iiit.Gateway.TwoPhase.Transfer.{run_two_phase_commit_committed}
use distributed_systems_iiit.Gateway.Payment.{
  extract_transaction_id, execute_two_phase, new_transaction, process_two_phase_payment,
  process_new, cached, process_payment,
}

-- The records that `ProcessPayment` answers with success.
abbrev pub is_committed : Option Record → Bool
is_committed none = false
is_committed (some (simple _)) = false
is_committed (some (two_phase tx)) = elim tx.state [ committed ↦ true | _ ↦ false ]

-- What a two-phase payment leaves in the records: a committed transaction after a success, and
-- nothing after a failure, so that the next request with its id starts anew.
pub record Recorded (tx_id : String) (success : Bool) (g g' : Gateway) : Type 0 where
  pub committed_record :
      success ≡ true → is_committed (get_transaction tx_id g'.transactions) ≡ true
  pub forgotten : success ≡ false → get_transaction tx_id g'.transactions ≡ none
  pub way : success ≡ true → g'.uses_two_phase ≡ g.uses_two_phase

execute_two_phase-Recorded :
    (env : Environment) (req : PaymentDetails) (tx_id : String) (balance : Balance) (g : Gateway)
    → Recorded tx_id
        (execute_two_phase env req tx_id balance g).1.success
        g
        (execute_two_phase env req tx_id balance g).0
unfolding execute_two_phase get_transaction store_two_phase_transaction cleanup_transaction
execute_two_phase-Recorded env req tx_id balance g =
    let tx = new_transaction env req tx_id in
    let g1 = record g { transactions = store_two_phase_transaction tx_id tx g.transactions } in
    let e = run_two_phase_commit env tx g1 in
    record {
      committed_record = λ h.
          grind
            (arith, lookup-insert, ==_refl tx_id, (run_two_phase_commit_committed env tx g1 h).0);
      forgotten = λ h. grind (arith, lookup-erase, ==_refl tx_id);
      way = λ h. (run_two_phase_commit_committed env tx g1 h).1;
    }

process_new-Recorded :
    (env : Environment) (req : PaymentDetails) (tx_id : String) (g : Gateway)
    → g.uses_two_phase ≡ true
    → (req.receiver_name == "") ≡ false
    → (process_new env req tx_id g).1.success ≡ true
    → (is_committed (get_transaction tx_id (process_new env req tx_id g).0.transactions) ≡ true)
      × ((process_new env req tx_id g).0.uses_two_phase ≡ true)
unfolding process_new process_two_phase_payment
process_new-Recorded env req tx_id g mode named h =
    elim (Option-cases (get_balance req.client_name g.balances)) [
      | inl e ↦ absurd (ground arith)
      | inr (balance, e) ↦
          let r = execute_two_phase-Recorded env req tx_id balance g in
          (ground (arith, r.committed_record), ground (arith, r.way))
    ]

-- The answer to a request whose transaction is committed.
abbrev pub already_processed : PaymentDetails → String → PaymentResponse
already_processed req tx_id = record {
  success = true;
  message = "Transaction already processed successfully";
  transaction_id = tx_id;
  amount = req.amount;
  currency = "";
}

-- A request whose record is committed is answered with success and has no effect.
pub answered :
    (env : Environment) (ctx : Context) (req : PaymentDetails) (tx_id : String) (g : Gateway)
    → extract_username ctx ≡ responded req.client_name
    → extract_transaction_id ctx ≡ responded tx_id
    → g.uses_two_phase ≡ true
    → is_committed (get_transaction tx_id g.transactions) ≡ true
    → process_payment env ctx req g ≡ (g, responded (already_processed req tx_id))
unfolding process_payment cached
answered env ctx req tx_id g user id mode done = ground (arith, ==_refl req.client_name)

pub first_attempt :
    (env : Environment) (ctx : Context) (req : PaymentDetails) (tx_id : String) (g : Gateway)
    (r : PaymentResponse)
    → extract_username ctx ≡ responded req.client_name
    → extract_transaction_id ctx ≡ responded tx_id
    → g.uses_two_phase ≡ true
    → (req.receiver_name == "") ≡ false
    → (process_payment env ctx req g).1 ≡ responded r
    → r.success ≡ true
    → let g' = (process_payment env ctx req g).0 in
      (is_committed (get_transaction tx_id g'.transactions) ≡ true) × (g'.uses_two_phase ≡ true)
unfolding process_payment cached
first_attempt env ctx req tx_id g r user id mode named first ok =
    ground (arith, ==_refl req.client_name, process_new-Recorded env req tx_id g mode named)

-- A payment to a receiver that was answered with success, on a gateway that uses two-phase commit,
-- is answered with success again whenever it is asked for again at once with the same transaction
-- id, whatever the environment does, and the second request changes nothing.
pub process_payment_retry :
    (env env' : Environment) (ctx : Context) (req : PaymentDetails) (tx_id : String) (g : Gateway)
    (r : PaymentResponse)
    → extract_username ctx ≡ responded req.client_name
    → extract_transaction_id ctx ≡ responded tx_id
    → g.uses_two_phase ≡ true
    → req.receiver_name ≢ ""
    → (process_payment env ctx req g).1 ≡ responded r
    → r.success ≡ true
    → let g' = (process_payment env ctx req g).0 in
      process_payment env' ctx req g' ≡ (g', responded (already_processed req tx_id))
process_payment_retry env env' ctx req tx_id g r user id mode named first ok =
    let (done, mode') =
      first_attempt env ctx req tx_id g r user id mode (ground (arith, ==_iff req.receiver_name ""))
        first ok in
    answered env' ctx req tx_id (process_payment env ctx req g).0 user id mode' done
