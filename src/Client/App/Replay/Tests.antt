-- ===== src/Client/App/Replay/Tests.antt =====
-- Alice's payment to Bob, of which the first reply is lost.
use mathlib.Core.Bool.{false≢true}
use distributed_systems_iiit.Common.{◌≡◌, refl, false, some, [], ◌∷◌, ==_iff, string_key, arith}
use distributed_systems_iiit.Common.Int.{pos, ◌+ℤ◌, ◌-ℤ◌}
use distributed_systems_iiit.Common.Dict.{lookup, insert, erase}
use distributed_systems_iiit.Bank
use distributed_systems_iiit.Gateway.Auth.{responded, extract_username}
use distributed_systems_iiit.Gateway.State.{Gateway}
use distributed_systems_iiit.Gateway.Balances.{get_balance, update_balance, save_balances}
use distributed_systems_iiit.Gateway.Transactions.{
  cleanup_expired_transactions, expired_ids, mark_all, mark, is_expired, erase_all,
  TwoPhaseTransactionRecord, committed, two_phase, get_transaction, has_active_transaction,
  store_two_phase_transaction, cleanup_transaction,
}
use distributed_systems_iiit.Gateway.Banking.Money.{money}
use distributed_systems_iiit.Gateway.TwoPhase.{
  bank_for, both, first_error, prepare_at, with_banks, prepare_phase, commit_at, commit_phase,
  run_two_phase_commit, update_two_phase_balances,
}
use distributed_systems_iiit.Gateway.Payment.Retry.{already_processed}
use distributed_systems_iiit.Gateway.Payment.{
  in_progress, extract_transaction_id, process_payment, process_new, process_two_phase_payment,
  execute_two_phase, cached,
}
use distributed_systems_iiit.Gateway.Banking
use distributed_systems_iiit.Gateway.Banking.{get_bank_for_client, delivered, lost, reply_lost, err}
use distributed_systems_iiit.Gateway.Tests.{gateway, all_well}
use distributed_systems_iiit.Client.Queue.{PendingPayment, new_payment}
use distributed_systems_iiit.Client.Interceptors.{
  TransactionCache, retry_interceptor, retry_context, ensure_transaction_id,
  add_transaction_id_to_context, extract_retry_info, cache_key, attempt, is_retryable_error,
  get_or_create_transaction_id,
}
use distributed_systems_iiit.Client.Processor.{
  send_payment, authenticate_user, PaymentProcessor, payment_details,
}
use distributed_systems_iiit.Client.App.Replay.{
  cleaned, Round, Outside, services_of, pay_and_replay, pay_rounds, replay, make_payment_through,
}
use distributed_systems_iiit.Client.Interceptors.AtMostOnce.{call, username_context}
use distributed_systems_iiit.Client.App.Replay.Once.{key_of, pay_and_replay-pay_rounds}
use distributed_systems_iiit.Client.App.Replay.Lifetime.{all_cleanups, HasCommitted, replay-cleaned}

abbrev outside : Outside
outside = record {
  format = λ amount. "50.00";
  contains = λ text part. false;
  authenticate = λ username password. err "unknown service";
}

abbrev unanswered : Round
unanswered = record {
  cleanups = 50 ∷ [];
  new_id = "tx-1";
  attempts =
      record { delivery = reply_lost; environment = all_well }
      ∷ record { delivery = lost; environment = all_well }
      ∷ record { delivery = lost; environment = all_well }
      ∷ [];
}

abbrev answered : Round
answered = record {
  cleanups = 100 ∷ [];
  new_id = "tx-2";
  attempts = record { delivery = delivered; environment = all_well } ∷ [];
}

abbrev queued : PendingPayment
queued = new_payment "Alice" (pos 50) "" "Bob" "Alice_req_0" 0

abbrev processor : PaymentProcessor
processor = record { credentials = []; authenticated = [] }

pay_and_replay-pay_rounds_example :
    let req = payment_details (services_of outside unanswered) queued in
    let (cache', id) = get_or_create_transaction_id "tx-1" (key_of outside req) [] in
    (pay_and_replay outside queued unanswered (answered ∷ []) (processor, ([], gateway))).1
    ≡ (cache', pay_rounds req id (unanswered ∷ answered ∷ []) gateway)
pay_and_replay-pay_rounds_example =
    pay_and_replay-pay_rounds outside queued unanswered (answered ∷ []) processor [] gateway refl
      (λ p. false≢true ((==_iff "Bob" "").1 p))

-- The gateway with the record of the payment, made at time 5.
abbrev made : TwoPhaseTransactionRecord
made = record {
  id = "tx-1";
  sender = "Alice";
  receiver = "Bob";
  amount = pos 50;
  state = committed;
  prepare_votes = [];
  commit_votes = [];
  timestamp = 5;
}

abbrev settled : Gateway
settled = record gateway {
  transactions = record { transactions = ("tx-1", two_phase made) ∷ []; ttl = 100 };
}

settled-HasCommitted : HasCommitted "tx-1" 5 settled
unfolding get_transaction lookup
settled-HasCommitted = record {
  tx = made;
  found = refl;
  is_committed = refl;
  made = refl;
  is_map = (refl, tt);
}

abbrev known_cache : TransactionCache
known_cache = (key_of outside (payment_details (services_of outside answered) queued), "tx-1") ∷ []

known_cache-lookup :
    lookup (key_of outside (payment_details (services_of outside answered) queued)) known_cache
    ≡ some "tx-1"
unfolding lookup cache_key
known_cache-lookup = refl

replay-cleaned_example :
    let rounds = answered ∷ unanswered ∷ [] in
    (replay outside queued rounds (processor, (known_cache, settled))).1
    ≡ (known_cache, cleaned (all_cleanups rounds) settled)
replay-cleaned_example =
    replay-cleaned outside queued answered (answered ∷ unanswered ∷ []) 5 processor known_cache
      "tx-1" settled known_cache-lookup refl (λ p. false≢true ((==_iff "Bob" "").1 p))
      settled-HasCommitted (omega arith, (omega arith, tt))

-- After a restart the cache is empty: the queue sends the payment with a new identifier, and it is
-- made twice.
restart_pays_twice :
    let (_, (_, g)) = pay_and_replay outside queued unanswered [] (processor, ([], gateway)) in
    let (_, (_, g')) = replay outside queued (answered ∷ []) (processor, ([], g)) in
    (money "BankA" "Alice" g.network ≡ pos 152) × (money "BankA" "Alice" g'.network ≡ pos 102)
unfolding pay_and_replay make_payment_through replay send_payment authenticate_user
    retry_interceptor cleaned cleanup_expired_transactions expired_ids mark_all mark is_expired
    erase_all retry_context ensure_transaction_id get_or_create_transaction_id
    add_transaction_id_to_context extract_retry_info cache_key attempt call is_retryable_error
    process_payment process_new process_two_phase_payment execute_two_phase cached in_progress
    extract_username extract_transaction_id has_active_transaction get_transaction
    store_two_phase_transaction cleanup_transaction run_two_phase_commit prepare_phase commit_phase
    with_banks prepare_at commit_at both first_error bank_for get_bank_for_client
    Banking.prepare_debit Banking.prepare_credit Banking.commit_debit Banking.commit_credit
    Bank.prepare_debit Bank.prepare_credit Bank.commit_debit Bank.commit_credit
    update_two_phase_balances get_balance update_balance save_balances lookup insert erase ◌+ℤ◌ ◌-ℤ◌
restart_pays_twice = (refl, refl)

-- The queue does not count the request up, so the next payment with the same receiver and amount has
-- the same identifier: it is answered as processed, and nothing is paid.
next_payment_is_not_made :
    let (pp, (cache, g)) =
      pay_and_replay outside queued unanswered (answered ∷ []) (processor, ([], gateway)) in
    let req = payment_details (services_of outside answered) queued in
    let ((_, g'), r) =
      make_payment_through outside answered (username_context "Alice") req (cache, g) in
    (r ≡ responded (already_processed req "tx-1")) × (g' ≡ g)
unfolding pay_and_replay make_payment_through replay send_payment authenticate_user
    retry_interceptor cleaned cleanup_expired_transactions expired_ids mark_all mark is_expired
    erase_all retry_context ensure_transaction_id get_or_create_transaction_id
    add_transaction_id_to_context extract_retry_info cache_key attempt call is_retryable_error
    process_payment process_new process_two_phase_payment execute_two_phase cached in_progress
    extract_username extract_transaction_id has_active_transaction get_transaction
    store_two_phase_transaction cleanup_transaction run_two_phase_commit prepare_phase commit_phase
    with_banks prepare_at commit_at both first_error bank_for get_bank_for_client
    Banking.prepare_debit Banking.prepare_credit Banking.commit_debit Banking.commit_credit
    Bank.prepare_debit Bank.prepare_credit Bank.commit_debit Bank.commit_credit
    update_two_phase_balances get_balance update_balance save_balances lookup insert erase ◌+ℤ◌ ◌-ℤ◌
next_payment_is_not_made = (refl, refl)

-- A day later the gateway has removed the record of the payment, so the payment is made again.
expired_pays_twice :
    let late = record answered { cleanups = 106 ∷ [] } in
    let (_, (_, g)) =
      pay_and_replay outside queued unanswered (late ∷ []) (processor, ([], gateway)) in
    money "BankA" "Alice" g.network ≡ pos 102
unfolding pay_and_replay make_payment_through replay send_payment authenticate_user
    retry_interceptor cleaned cleanup_expired_transactions expired_ids mark_all mark is_expired
    erase_all retry_context ensure_transaction_id get_or_create_transaction_id
    add_transaction_id_to_context extract_retry_info cache_key attempt call is_retryable_error
    process_payment process_new process_two_phase_payment execute_two_phase cached in_progress
    extract_username extract_transaction_id has_active_transaction get_transaction
    store_two_phase_transaction cleanup_transaction run_two_phase_commit prepare_phase commit_phase
    with_banks prepare_at commit_at both first_error bank_for get_bank_for_client
    Banking.prepare_debit Banking.prepare_credit Banking.commit_debit Banking.commit_credit
    Bank.prepare_debit Bank.prepare_credit Bank.commit_debit Bank.commit_credit
    update_two_phase_balances get_balance update_balance save_balances lookup insert erase ◌+ℤ◌ ◌-ℤ◌
expired_pays_twice = refl
