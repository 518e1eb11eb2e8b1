-- ===== src/Gateway/TwoPhase.antt =====
-- Two-phase commit, the coordinator's side (gateway/payment/processor.go): the phases, the abort
-- and the balances that the gateway keeps for itself.
pub mod Safety
pub mod Commit
pub mod Transfer
pub mod SameBank
use Prim.Native.String.{◌++◌}
use distributed_systems_iiit.Common.{
  String, Bool, true, false, Option, none, some, List, [], ◌∷◌, string_key, ◌&&◌, if◌then◌else◌,
  or_else,
}
use distributed_systems_iiit.Common.Int.{ℤ, ◌+ℤ◌, ◌-ℤ◌}
use distributed_systems_iiit.Common.Dict.{Dict, lookup, insert}
use distributed_systems_iiit.Gateway.Balances.{
  BalanceStorage, get_balance, update_balance, save_balances,
}
use distributed_systems_iiit.Gateway.Transactions.{
  TwoPhaseTransactionRecord, preparing, prepared, committing, committed, aborted,
}
use distributed_systems_iiit.Gateway.Banking
use distributed_systems_iiit.Gateway.Banking.{
  Result, ok, err, Network, Delivery, Call, request, get_bank_for_client,
}
use distributed_systems_iiit.Gateway.State.{Gateway, Environment}

-- What a phase leaves: the gateway, the record that its pointer leads to, and the two results.
pub record Ended : Type 0 where
  pub gateway : Gateway
  pub tx : TwoPhaseTransactionRecord
  pub success : Bool
  pub message : String

-- `GetBankForClient`, with the directory written back.
unfoldable pub bank_for : Environment → String → Gateway → Gateway × Result String
bank_for env client_name g =
    let (banking, r) = get_bank_for_client env.dials env.reason client_name g.banking in
    (record g { banking = banking }, r)

-- The abort of one bank: errors are logged only.
unfoldable pub abort_at : Environment → Delivery → String → Result String → Gateway → Gateway
abort_at env d tx_id (err _) g = g
abort_at env d tx_id (ok bank_name) g = record g {
  network = (Banking.abort d env.reason bank_name tx_id g.network).0;
}

unfoldable pub abort_client : Environment → Delivery → String → String → Gateway → Gateway
abort_client env d tx_id client_name g =
    let (g', bank) = bank_for env client_name g in abort_at env d tx_id bank g'

-- The record ends aborted whatever the banks answer.
unfoldable pub abort_transaction :
    Environment → TwoPhaseTransactionRecord → Gateway → Gateway × TwoPhaseTransactionRecord
abort_transaction env tx g =
    let g1 = abort_client env env.abort_sender tx.id tx.sender g in
    let g2 = abort_client env env.abort_receiver tx.id tx.receiver g1 in
    (g2, record tx { state = aborted })

abbrev pub aborting_end : Environment → TwoPhaseTransactionRecord → Gateway → String → Ended
aborting_end env tx g message =
    let (g', tx') = abort_transaction env tx g in
    record { gateway = g'; tx = tx'; success = false; message = message }

-- The two goroutines of a phase.
unfoldable pub both :
    Bool
    → (Network → Network × Result (Unit {0}))
    → (Network → Network × Result (Unit {0}))
    → Network
    → Network × Result (Unit {0}) × Result (Unit {0})
both true sender receiver net =
    let (net1, s) = sender net in let (net2, r) = receiver net1 in (net2, s, r)
both false sender receiver net =
    let (net1, r) = receiver net in let (net2, s) = sender net1 in (net2, s, r)

-- `prepareErr` and `commitErr`: an error of the sender's bank is kept before one of the receiver's.
unfoldable pub first_error : String → String → Result (Unit {0}) → Result (Unit {0}) → Option String
first_error for_sender for_receiver (err e) _ = some (for_sender ++ e)
first_error for_sender for_receiver (ok _) (err e) = some (for_receiver ++ e)
first_error for_sender for_receiver (ok _) (ok _) = none

abbrev vote : Result (Unit {0}) → Bool
vote (ok _) = true
vote (err _) = false

-- The votes by bank, the later one written last.
abbrev pub votes :
    Bool
    → String
    → String
    → Result (Unit {0})
    → Result (Unit {0})
    → Dict String Bool
    → Dict String Bool
votes true sender_bank receiver_bank s r d =
    insert receiver_bank (vote r) (insert sender_bank (vote s) d)
votes false sender_bank receiver_bank s r d =
    insert sender_bank (vote s) (insert receiver_bank (vote r) d)

abbrev pub all_voted : String → String → Dict String Bool → Bool
all_voted sender_bank receiver_bank d =
    or_else false (lookup sender_bank d) && or_else false (lookup receiver_bank d)

-- `preparePhase` from the point where both banks are known.
unfoldable pub prepare_at :
    Environment → String → String → TwoPhaseTransactionRecord → Gateway → Ended
prepare_at env sender_bank receiver_bank tx g =
    let p = env.prepare in
    let (net, s, r) =
      both p.sender_first
        (Banking.prepare_debit p.sender env.reason sender_bank (request tx.id tx.sender tx.amount))
        (Banking.prepare_credit p.receiver env.reason receiver_bank
          (request tx.id tx.receiver tx.amount))
        g.network in
    let g1 = record g { network = net } in
    let tx1 = record tx {
      state = preparing;
      prepare_votes = votes p.sender_first sender_bank receiver_bank s r tx.prepare_votes;
    } in
    if p.timed_out
    then aborting_end env tx1 g1 "Transaction timed out during prepare phase"
    else elim (first_error "sender bank declined: " "receiver bank declined: " s r) [
      | some e ↦ aborting_end env tx1 g1 ("Prepare phase failed: " ++ e)
      | none ↦
          if all_voted sender_bank receiver_bank tx1.prepare_votes
          then record {
            gateway = g1;
            tx = record tx1 { state = prepared };
            success = true;
            message = "Prepare phase successful";
          }
          else aborting_end env tx1 g1 "One or more banks declined the transaction"
    ]

-- The two lookups at the start of a phase, and the phase when both find a bank.
unfoldable pub with_banks :
    Environment
    → String
    → (Environment → String → String → TwoPhaseTransactionRecord → Gateway → Ended)
    → TwoPhaseTransactionRecord
    → Gateway
    → Ended
with_banks env during phase tx g =
    let (g1, sender_bank) = bank_for env tx.sender g in
    elim sender_bank [
      | err e ↦ aborting_end env tx g1 ("Failed to determine sender's bank" ++ during ++ ": " ++ e)
      | ok s ↦
          let (g2, receiver_bank) = bank_for env tx.receiver g1 in
          elim receiver_bank [
            | err e ↦
                aborting_end env tx g2
                  ("Failed to determine receiver's bank" ++ during ++ ": " ++ e)
            | ok r ↦ phase env s r tx g2
          ]
    ]

unfoldable pub prepare_phase : Environment → TwoPhaseTransactionRecord → Gateway → Ended
prepare_phase env = with_banks env "" prepare_at

-- `SaveBalances` up to three times, until one succeeds.
unfoldable pub save_with_retry : List Bool → BalanceStorage → BalanceStorage × Bool
save_with_retry [] s = (s, false)
save_with_retry (written ∷ rest) s =
    let (s', done) = save_balances written s in
    let again = save_with_retry rest s' in if done then (s', true) else again

-- The first three attempts.
abbrev pub attempts : List Bool → List Bool
attempts (a ∷ b ∷ c ∷ _) = a ∷ b ∷ c ∷ []
attempts saves = saves

-- `updateTwoPhaseBalances`: the first missing balance ends it, with what was written so far.
unfoldable pub change_balance : String → (ℤ → ℤ) → BalanceStorage → Option BalanceStorage
change_balance client_name change s = elim (get_balance client_name s) [
  | none ↦ none
  | some b ↦ update_balance client_name (record b { amount = change b.amount }) s
]

unfoldable pub update_two_phase_balances :
    List Bool → String → String → ℤ → BalanceStorage → BalanceStorage × Bool
unfolding change_balance save_with_retry
update_two_phase_balances saves sender receiver amount s =
    elim (change_balance sender (λ b. b -ℤ amount) s) [
      | none ↦ (s, false)
      | some s1 ↦ elim (change_balance receiver (λ b. b +ℤ amount) s1) [
        | none ↦ (s1, false)
        | some s2 ↦ save_with_retry (attempts saves) s2
      ]
    ]

-- `commitPhase` from the point where both banks are known. A failed commit is not aborted.
unfoldable pub commit_at :
    Environment → String → String → TwoPhaseTransactionRecord → Gateway → Ended
commit_at env sender_bank receiver_bank tx g =
    let p = env.commit in
    let (net, s, r) =
      both p.sender_first
        (Banking.commit_debit p.sender env.reason sender_bank (request tx.id tx.sender tx.amount))
        (Banking.commit_credit p.receiver env.reason receiver_bank
          (request tx.id tx.receiver tx.amount))
        g.network in
    let g1 = record g { network = net } in
    let tx1 = record tx {
      state = committing;
      commit_votes = votes p.sender_first sender_bank receiver_bank s r tx.commit_votes;
    } in
    if p.timed_out
    then aborting_end env tx1 g1 "Transaction timed out during commit phase"
    else elim (first_error "sender bank commit failed: " "receiver bank commit failed: " s r) [
      | some e ↦ record {
        gateway = g1;
        tx = tx1;
        success = false;
        message = "Commit phase failed: " ++ e;
      }
      | none ↦
          if all_voted sender_bank receiver_bank tx1.commit_votes
          then record {
            gateway = record g1 {
              balances =
                  (update_two_phase_balances env.saves tx.sender tx.receiver tx.amount
                    g1.balances).0;
            };
            tx = record tx1 { state = committed };
            success = true;
            message = "Payment successfully processed";
          }
          else record {
            gateway = g1;
            tx = tx1;
            success = false;
            message = "One or more banks failed to commit the transaction";
          }
    ]

unfoldable pub commit_phase : Environment → TwoPhaseTransactionRecord → Gateway → Ended
commit_phase env = with_banks env " during commit" commit_at

unfoldable pub run_two_phase_commit : Environment → TwoPhaseTransactionRecord → Gateway → Ended
run_two_phase_commit env tx g =
    let p = prepare_phase env tx g in
    let c = commit_phase env p.tx p.gateway in
    if p.success
    then (if c.success then record c { message = "Payment processed successfully" } else c)
    else p
