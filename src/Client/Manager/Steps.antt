-- ===== src/Client/Manager/Steps.antt =====
-- The queue under every interleaving of the client's threads. A step is one section of the code that
-- holds a lock, so a run of `processPayments` is many steps, and others may fall between them.
use distributed_systems_iiit.Common.{
  ◌==◌, nat_key, ℕ, refl, inl, inr, String, Bool, true, false, some, if◌then◌else◌, List, [], ◌∷◌,
  ◌&&◌, not, Bool-cases,
}
use distributed_systems_iiit.Common.Int.{ℤ}
use distributed_systems_iiit.Common.Lists.{List-cases, length}
use distributed_systems_iiit.Client.Queue.{
  active_payments, PaymentStatus, PendingPayment, pending, processing, completed,
  OfflinePaymentManager, enqueue, already_queued, load_pending_payments, update_payment_status,
  update_payment_retry, update_notification, get_notification, cleanup_completed_payments,
  is_pending, with_status, retried,
}
use distributed_systems_iiit.Client.Queue.Updates.{
  HasUniqueIds, queued-HasUniqueIds, active_payments-HasUniqueIds, change_first-HasUniqueIds,
}
use distributed_systems_iiit.Client.Manager.{
  State, Processor, settle_payment, process_one, process_each, process_payments, queue_payment,
  check_connection,
}

-- The status of a payment that was settled.
abbrev pub status_after : Bool → PaymentStatus
status_after success = if success then completed else pending

pub data Step : OfflinePaymentManager → OfflinePaymentManager → Type 0 where
  queued :
      (client_name : String) (amount : ℤ) (id receiver_name request_id : String) (now : ℕ)
      (m : OfflinePaymentManager)
      → Step m (enqueue client_name amount id receiver_name request_id now m)
  status_updated :
      (id : String) (status : PaymentStatus) (m : OfflinePaymentManager)
      → Step m (update_payment_status id status m)
  sent_back : (id : String) (m : OfflinePaymentManager) → Step m (update_payment_retry id m)
  cleaned_up : (m : OfflinePaymentManager) → Step m (cleanup_completed_payments m)
  notification_updated :
      (id : String) (success : Bool) (m : OfflinePaymentManager)
      → Step m (record m { notifier = update_notification id (status_after success) m.notifier })
  notification_read :
      (id : String) (m : OfflinePaymentManager)
      → Step m (record m { notifier = (get_notification id m.notifier).0 })
  notifications_cleared : (m : OfflinePaymentManager) → Step m (record m { notifier = [] })
  connection_checked :
      (connected : Bool) (m : OfflinePaymentManager)
      → Step m (record m { is_connected = connected })
  -- A write of the queue's file that fails: the file can not be opened and stays, or its content was
  -- cut off, so that a start finds no payments in it.
  not_written :
      {m m' : OfflinePaymentManager} → Step m m' → Step m (record m' { queue_file = m.queue_file })
  cut_off : {m m' : OfflinePaymentManager} → Step m m' → Step m (record m' { queue_file = [] })
  -- The client stops at any moment, which may be after a write was cut off, and starts again with the file it left.
  restarted : (m : OfflinePaymentManager) → Step m (load_pending_payments (some m.queue_file))

-- From a client that has no file of payments.
pub data Reachable : OfflinePaymentManager → Type 0 where
  started : Reachable (load_pending_payments (some []))
  step : {m m' : OfflinePaymentManager} → Reachable m → Step m m' → Reachable m'

-- What holds of the queue and of its file at all times.
pub record IsConsistent (m : OfflinePaymentManager) : Type 0 where
  pub unique_ids : HasUniqueIds m.pending_payments
  pub unique_ids_on_file : HasUniqueIds m.queue_file

enqueue-IsConsistent :
    (client_name : String) (amount : ℤ) (id receiver_name request_id : String) (now : ℕ)
    (m : OfflinePaymentManager)
    → IsConsistent m
    → IsConsistent (enqueue client_name amount id receiver_name request_id now m)
unfolding enqueue
enqueue-IsConsistent client_name amount id receiver_name request_id now m c =
    elim (Bool-cases (already_queued client_name id request_id m.pending_payments)) [
      | inl e ↦ rw (e, enqueue) c
      | inr e ↦
          rw (e, enqueue)
            (let unique =
                queued-HasUniqueIds client_name id request_id m.pending_payments _ e refl
                  c.unique_ids in
              record { unique_ids = unique; unique_ids_on_file = unique })
    ]

cleaned_up-IsConsistent :
    (m : OfflinePaymentManager) → IsConsistent m → IsConsistent (cleanup_completed_payments m)
unfolding cleanup_completed_payments
cleaned_up-IsConsistent m c =
    elim (Bool-cases (length m.pending_payments == length (active_payments m.pending_payments))) [
      | inl e ↦
          rw (e, cleanup_completed_payments)
            (record { unique_ids = c.unique_ids; unique_ids_on_file = c.unique_ids_on_file })
      | inr e ↦
          rw (e, cleanup_completed_payments)
            (let unique = active_payments-HasUniqueIds m.pending_payments c.unique_ids in
              record { unique_ids = unique; unique_ids_on_file = unique })
    ]

Step-IsConsistent : {m m' : OfflinePaymentManager} → Step m m' → IsConsistent m → IsConsistent m'
unfolding update_payment_status update_payment_retry load_pending_payments
Step-IsConsistent (queued client_name amount id receiver_name request_id now m) c =
    enqueue-IsConsistent client_name amount id receiver_name request_id now m c
Step-IsConsistent (status_updated id status m) c =
    let unique =
      change_first-HasUniqueIds (with_status status) (λ p. refl) id m.pending_payments
        c.unique_ids in
    record { unique_ids = unique; unique_ids_on_file = unique }
Step-IsConsistent (sent_back id m) c =
    let unique = change_first-HasUniqueIds retried (λ p. refl) id m.pending_payments c.unique_ids in
    record { unique_ids = unique; unique_ids_on_file = unique }
Step-IsConsistent (cleaned_up m) c = cleaned_up-IsConsistent m c
Step-IsConsistent (notification_updated id success m) c = record {
  unique_ids = c.unique_ids;
  unique_ids_on_file = c.unique_ids_on_file;
}
Step-IsConsistent (notification_read id m) c = record {
  unique_ids = c.unique_ids;
  unique_ids_on_file = c.unique_ids_on_file;
}
Step-IsConsistent (notifications_cleared m) c = record {
  unique_ids = c.unique_ids;
  unique_ids_on_file = c.unique_ids_on_file;
}
Step-IsConsistent (connection_checked connected m) c = record {
  unique_ids = c.unique_ids;
  unique_ids_on_file = c.unique_ids_on_file;
}
Step-IsConsistent (not_written s) c = record {
  unique_ids = (Step-IsConsistent s c).unique_ids;
  unique_ids_on_file = c.unique_ids_on_file;
}
Step-IsConsistent (cut_off s) c = record {
  unique_ids = (Step-IsConsistent s c).unique_ids;
  unique_ids_on_file = tt;
}
Step-IsConsistent (restarted m) c = record {
  unique_ids = c.unique_ids_on_file;
  unique_ids_on_file = c.unique_ids_on_file;
}

-- However the threads of the client interleave, whichever writes of its file fail or are cut off, and
-- wherever it stops and starts again, the transaction ids of its queue differ, and so do those of the
-- payments in its file.
pub queue-IsConsistent : (m : OfflinePaymentManager) → Reachable m → IsConsistent m
unfolding load_pending_payments
queue-IsConsistent _ started = record { unique_ids = tt; unique_ids_on_file = tt }
queue-IsConsistent _ (step r s) = Step-IsConsistent s (queue-IsConsistent _ r)

module _ {S : Type 0} (processor : Processor S) where
  process_one-Reachable :
      (p : PendingPayment) (m : OfflinePaymentManager) (s : S)
      → Reachable m
      → Reachable (process_one processor p (m, s)).0.0
  unfolding process_one settle_payment
  process_one-Reachable p m s r =
      let id = p.transaction_id in
      let (s', success, message) = processor.process_payment p s in
      let m1 = update_payment_status id processing m in
      let r1 : Reachable m1 = step r (status_updated id processing m) in
      let settled : (success : Bool)
          → let m2 = update_payment_status id (status_after success) m1 in
            Reachable
              (record m2 { notifier = update_notification id (status_after success) m2.notifier }) =
        λ success.
          step (step r1 (status_updated id (status_after success) m1)) (
            notification_updated id success (update_payment_status id (status_after success) m1)) in
      elim (Bool-cases success) [
        | inl e ↦ rw (e, process_one) (settled true)
        | inr e ↦ elim (Bool-cases (processor.is_connection_error message)) [
          | inl e1 ↦ rw (e, e1, process_one) (step r1 (sent_back id m1))
          | inr e1 ↦ rw (e, e1, process_one) (settled false)
        ]
      ]

  process_each-Reachable :
      (l : List PendingPayment) (m : OfflinePaymentManager) (s : S)
      → Reachable m
      → Reachable (process_each processor l (m, s)).0
  unfolding process_each
  process_each-Reachable [] m s r = r
  process_each-Reachable (p ∷ rest) m s r =
      let one = process_one processor p (m, s) in
      let r1 = process_one-Reachable p m s r in
      elim (Bool-cases (is_pending p.status)) [
        | inr e ↦ rw (e, process_each) (process_each-Reachable rest m s r)
        | inl e ↦ elim (Bool-cases one.1) [
          | inl e1 ↦ rw (e, e1, process_each) (process_each-Reachable rest one.0.0 one.0.1 r1)
          | inr e1 ↦ rw (e, e1, process_each) r1
        ]
      ]

  pub process_payments-Reachable :
      (m : OfflinePaymentManager) (s : S)
      → Reachable m
      → Reachable (process_payments processor (m, s)).0
  unfolding process_payments
  process_payments-Reachable m s r = elim (List-cases m.pending_payments) [
    | inl e ↦ rw (e, process_payments) r
    | inr (x, xs, e) ↦
        rw (e, process_payments)
          (step (process_each-Reachable m.pending_payments m s r)
            (cleaned_up (process_each processor m.pending_payments (m, s)).0))
  ]

  if-Reachable :
      (b : Bool) (x y : State S) → Reachable x.0 → Reachable y.0 → Reachable (if b then x else y).0
  if-Reachable true x y p q = p
  if-Reachable false x y p q = q

  pub queue_payment-Reachable :
      (client_name : String) (amount : ℤ) (id receiver_name request_id : String) (now : ℕ)
      (m : OfflinePaymentManager) (s : S)
      → Reachable m
      → Reachable
          (queue_payment processor client_name amount id receiver_name request_id now (m, s)).0
  unfolding queue_payment
  queue_payment-Reachable client_name amount id receiver_name request_id now m s r =
      let m' = enqueue client_name amount id receiver_name request_id now m in
      let r' : Reachable m' =
        step r (queued client_name amount id receiver_name request_id now m) in
      if-Reachable (already_queued client_name id request_id m.pending_payments) (m, s) _ r
        (if-Reachable m'.is_connected _ (m', s) (process_payments-Reachable m' s r') r')

  pub check_connection-Reachable :
      (connected : Bool) (m : OfflinePaymentManager) (s : S)
      → Reachable m
      → Reachable (check_connection processor connected (m, s)).0
  unfolding check_connection
  check_connection-Reachable connected m s r = elim (Bool-cases (connected && not m.is_connected)) [
    | inl e ↦
        rw (e, check_connection)
          (step (process_payments-Reachable m s r) (connection_checked connected _))
    | inr e ↦ rw (e, check_connection) (step r (connection_checked connected m))
  ]
