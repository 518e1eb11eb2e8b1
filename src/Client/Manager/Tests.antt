-- ===== src/Client/Manager/Tests.antt =====
-- The queue on concrete payments.
use mathlib.Core.List.{Memᴰ}
use distributed_systems_iiit.Common.{
  ℕ, suc, ◌≡◌, refl, true, false, some, List, [], ◌∷◌, ◌==◌, string_key, leb, if◌then◌else◌,
}
use distributed_systems_iiit.Common.Int.{pos}
use distributed_systems_iiit.Common.Lists.{All}
use distributed_systems_iiit.Client.Queue.{
  PendingPayment, processing, OfflinePaymentManager, load_pending_payments, new_payment, is_pending,
  enqueue, update_payment_status, already_queued, change_first,
}
use distributed_systems_iiit.Client.Queue.Updates.{HasUniqueIds}
use distributed_systems_iiit.Client.Manager.{Processor, process_payments, check_connection}
use distributed_systems_iiit.Client.Manager.Drain.{
  drain, process_payments-drain, check_connection_delivers,
}
use distributed_systems_iiit.Client.Manager.Steps.{
  Reachable, started, step, queued, status_updated, IsConsistent, queue-IsConsistent,
}
use distributed_systems_iiit.Client.Manager.Interrupted.{
  Event, payment_queued, ticked, run, interrupted_stays,
}

-- Accepts the payments until it has seen two, then has no connection.
abbrev two_payments : Processor ℕ
two_payments = record {
  process_payment = λ p n. (suc n, leb n 1, if leb n 1 then "paid" else "unavailable");
  is_connection_error = λ message. message == "unavailable";
}

abbrev accepts_all : Processor ℕ
accepts_all = record {
  process_payment = λ p n. (suc n, true, "paid");
  is_connection_error = λ message. message == "unavailable";
}

-- A client that has no connection queues three payments.
abbrev new_client : OfflinePaymentManager
new_client = load_pending_payments (some [])

abbrev one_queued : OfflinePaymentManager
one_queued = enqueue "alice" (pos 5) "t1" "bob" "alice_req_0" 0 new_client

abbrev two_queued : OfflinePaymentManager
two_queued = enqueue "alice" (pos 6) "t2" "bob" "alice_req_1" 0 one_queued

abbrev three_queued : OfflinePaymentManager
three_queued = enqueue "alice" (pos 7) "t3" "bob" "alice_req_2" 0 two_queued

abbrev third : PendingPayment
third = new_payment "alice" (pos 7) "t3" "bob" "alice_req_2" 0

two_are_sent :
    (process_payments two_payments (three_queued, 0)).0.pending_payments
    ≡ (record third { retry_count = 1 } ∷ [])
unfolding process_payments enqueue load_pending_payments already_queued change_first
two_are_sent = refl

-- A second payment without a transaction id is dropped.
second_is_dropped :
    let m = enqueue "alice" (pos 5) "" "bob" "alice_req_0" 0 new_client in
    enqueue "carol" (pos 9) "" "bob" "carol_req_0" 1 m ≡ m
unfolding enqueue load_pending_payments already_queued
second_is_dropped = refl

three_queued-Reachable : Reachable three_queued
three_queued-Reachable =
    step
      (step (step started (queued "alice" (pos 5) "t1" "bob" "alice_req_0" 0 new_client))
        (queued "alice" (pos 6) "t2" "bob" "alice_req_1" 0 one_queued))
      (queued "alice" (pos 7) "t3" "bob" "alice_req_2" 0 two_queued)

three_queued-HasUniqueIds : HasUniqueIds three_queued.pending_payments
three_queued-HasUniqueIds = (queue-IsConsistent three_queued three_queued-Reachable).unique_ids

queue-IsConsistent_example : IsConsistent three_queued
queue-IsConsistent_example = queue-IsConsistent three_queued three_queued-Reachable

process_payments-drain_example :
    let (m, n) = process_payments two_payments (three_queued, 0) in
    (m.pending_payments ≡ (drain two_payments three_queued.pending_payments 0).0)
    × (n ≡ (drain two_payments three_queued.pending_payments 0).1)
process_payments-drain_example =
    process_payments-drain two_payments three_queued 0 three_queued-HasUniqueIds

check_connection_delivers_example :
    All
      (λ p. is_pending p.status ≡ false)
      (check_connection accepts_all true (three_queued, 0)).0.pending_payments
unfolding enqueue load_pending_payments already_queued
check_connection_delivers_example =
    check_connection_delivers accepts_all three_queued 0 three_queued-HasUniqueIds refl
      (λ p t. refl)

-- The client is stopped while it sends its first payment.
abbrev stopped : OfflinePaymentManager
stopped = update_payment_status "t1" processing three_queued

abbrev interrupted : PendingPayment
interrupted = record (new_payment "alice" (pos 5) "t1" "bob" "alice_req_0" 0) {
  status = processing;
}

abbrev events : List Event
events = ticked true ∷ payment_queued "alice" (pos 8) "t4" "bob" "alice_req_3" 1 ∷ []

interrupted_stays_example :
    Memᴰ interrupted
      (run accepts_all events
        (load_pending_payments (some stopped.queue_file), 0)).0.pending_payments
unfolding enqueue load_pending_payments update_payment_status change_first already_queued
interrupted_stays_example =
    interrupted_stays accepts_all events interrupted stopped 0
      (step three_queued-Reachable (status_updated "t1" processing three_queued)) (Memᴰ.head refl)
      refl
