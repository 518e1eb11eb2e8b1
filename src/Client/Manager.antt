-- ===== src/Client/Manager.antt =====
-- The replay of the queue and the connection checker (client/payment/manager.go). The processor is
-- an argument: what `ProcessPayment` answers, over a state that it may change, and which messages
-- are connection errors. One run is not interrupted by other methods here.
pub mod Drain
pub mod Steps
pub mod Interrupted
mod Tests
use distributed_systems_iiit.Common.{
  ℕ, String, Bool, true, false, List, [], ◌∷◌, not, ◌&&◌, if◌then◌else◌,
}
use distributed_systems_iiit.Common.Int.{ℤ}
use distributed_systems_iiit.Client.Queue.{
  PendingPayment, pending, processing, completed, OfflinePaymentManager, enqueue, already_queued,
  is_pending, update_notification, update_payment_status, update_payment_retry,
  cleanup_completed_payments,
}

pub record Processor (S : Type 0) : Type 0 where
  pub process_payment : PendingPayment → S → S × Bool × String
  pub is_connection_error : String → Bool

abbrev pub State : Type 0 → Type 0
State S = OfflinePaymentManager × S

module _ {S : Type 0} (processor : Processor S) where
  open processor use {process_payment, is_connection_error}

  -- The status of a payment in the queue and in the notifications.
  unfoldable pub settle_payment : String → Bool → OfflinePaymentManager → OfflinePaymentManager
  unfolding update_payment_status update_notification
  settle_payment transaction_id success m =
      let status = if success then completed else pending in
      let m' = update_payment_status transaction_id status m in
      record m' { notifier = update_notification transaction_id status m'.notifier }

  -- The body of the loop for a payment that is pending in the copy; the Boolean is false at `break`.
  unfoldable pub process_one : PendingPayment → State S → State S × Bool
  unfolding settle_payment update_payment_status update_payment_retry
  process_one p (m, s) =
      let m1 = update_payment_status p.transaction_id processing m in
      let (s', success, message) = process_payment p s in
      if not success && is_connection_error message
      then ((update_payment_retry p.transaction_id m1, s'), false)
      else ((settle_payment p.transaction_id success m1, s'), true)

  unfoldable pub process_each : List PendingPayment → State S → State S
  unfolding process_one
  process_each [] st = st
  process_each (p ∷ rest) st =
      let skipped = process_each rest st in
      let (st', more) = process_one p st in
      let others = process_each rest st' in
      if is_pending p.status then (if more then others else st') else skipped

  -- `processPayments`, over a copy of the list.
  unfoldable pub process_payments : State S → State S
  unfolding process_each cleanup_completed_payments
  process_payments (m, s) = elim m.pending_payments [
    | [] ↦ (m, s)
    | _ ∷ _ ↦
        let (m', s') = process_each m.pending_payments (m, s) in (cleanup_completed_payments m', s')
  ]

  -- `QueuePayment`; the processing that it starts runs at once. A payment that is in the queue already
  -- is left out, and starts none.
  unfoldable pub queue_payment : String → ℤ → String → String → String → ℕ → State S → State S
  unfolding enqueue process_payments
  queue_payment client_name amount transaction_id receiver_name request_id now (m, s) =
      let m' = enqueue client_name amount transaction_id receiver_name request_id now m in
      let processed = process_payments (m', s) in
      if already_queued client_name transaction_id request_id m.pending_payments
      then (m, s)
      else if m'.is_connected
      then processed
      else (m', s)

  -- One tick of `startConnectionChecker`, with what `CheckConnection` finds.
  unfoldable pub check_connection : Bool → State S → State S
  unfolding process_payments
  check_connection connected (m, s) =
      let (m', s') = if connected && not m.is_connected then process_payments (m, s) else (m, s) in
      (record m' { is_connected = connected }, s')
