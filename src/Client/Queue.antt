-- ===== src/Client/Queue.antt =====
-- The queue of offline payments (client/payment/manager.go, models.go, constants.go and
-- notification.go). The operations here are those whose write of the queue's file succeeds. A write that
-- fails, or that a stop cuts off, is a step of its own in Client/Manager/Steps.antt, and
-- Client/Queue/Storage.antt has the file itself. Methods hold a lock, so one runs at a time.
pub mod Updates
pub mod Storage
pub mod Notices
use distributed_systems_iiit.Common.{
  ℕ, ◌+◌, String, Bool, true, false, Option, none, some, List, [], ◌∷◌, ◌++◌, ◌==◌, string_key,
  nat_key, not, ◌&&◌, ◌||◌, if◌then◌else◌,
}
use distributed_systems_iiit.Common.Int.{ℤ}
use distributed_systems_iiit.Common.Dict.{Dict, lookup, insert, erase}
use distributed_systems_iiit.Common.Lists.{length}

-- `StatusPending` to `StatusFailed`.
pub data PaymentStatus : Type 0 where
  pending processing completed failed : PaymentStatus

pub record PendingPayment : Type 0 where
  pub client_name : String
  pub amount : ℤ
  pub transaction_id : String
  pub receiver_name : String
  pub request_id : String
  pub created_at : ℕ
  pub retry_count : ℕ
  pub status : PaymentStatus

-- By transaction id.
abbrev pub NotificationManager : Type 0
NotificationManager = Dict String PendingPayment

unfoldable pub add_notification : PendingPayment → NotificationManager → NotificationManager
add_notification payment nm = insert payment.transaction_id payment nm

unfoldable pub update_notification :
    String → PaymentStatus → NotificationManager → NotificationManager
update_notification transaction_id status nm = elim (lookup transaction_id nm) [
  | none ↦ nm
  | some payment ↦ insert transaction_id (record payment { status = status }) nm
]

unfoldable pub get_notification :
    String → NotificationManager → NotificationManager × Option PendingPayment
get_notification transaction_id nm = elim (lookup transaction_id nm) [
  | none ↦ (nm, none)
  | some payment ↦ (erase transaction_id nm, some payment)
]

unfoldable pub get_all_notifications :
    NotificationManager → NotificationManager × NotificationManager
get_all_notifications nm = ([], nm)

pub record OfflinePaymentManager : Type 0 where
  pub pending_payments : List PendingPayment
  pub is_connected : Bool
  pub notifier : NotificationManager
  -- what the file at `queueFile` holds
  pub queue_file : List PendingPayment

-- `SavePendingPayments(m.pendingPayments)`, after the list was changed, where the file is written. The
-- callers drop its error: what the file holds then is in Client/Manager/Steps.antt.
abbrev pub saved : List PendingPayment → OfflinePaymentManager → OfflinePaymentManager
saved payments m = record m { pending_payments = payments; queue_file = payments }

-- The test of the loop in `QueuePayment`.
unfoldable pub already_queued : String → String → String → List PendingPayment → Bool
already_queued client_name transaction_id request_id [] = false
already_queued client_name transaction_id request_id (p ∷ rest) =
    if (p.transaction_id == transaction_id)
      || ((p.client_name == client_name)
          && ((p.request_id == request_id) && not (request_id == "")))
    then true
    else already_queued client_name transaction_id request_id rest

abbrev pub new_payment : String → ℤ → String → String → String → ℕ → PendingPayment
new_payment client_name amount transaction_id receiver_name request_id now = record {
  client_name = client_name;
  amount = amount;
  transaction_id = transaction_id;
  receiver_name = receiver_name;
  request_id = request_id;
  created_at = now;
  retry_count = 0;
  status = pending;
}

-- `QueuePayment` up to the processing that it starts when the client is connected.
unfoldable pub enqueue :
    String → ℤ → String → String → String → ℕ → OfflinePaymentManager → OfflinePaymentManager
unfolding add_notification
enqueue client_name amount transaction_id receiver_name request_id now m =
    if already_queued client_name transaction_id request_id m.pending_payments
    then m
    else let payment = new_payment client_name amount transaction_id receiver_name request_id now in
      record (saved (m.pending_payments ++ (payment ∷ [])) m) {
        notifier = add_notification payment m.notifier;
      }

abbrev pub is_pending : PaymentStatus → Bool
is_pending pending = true
is_pending _ = false

abbrev pub is_completed : PaymentStatus → Bool
is_completed completed = true
is_completed _ = false

-- The loop that adds the loaded payments to the notifications.
unfoldable pub notify_pending : List PendingPayment → NotificationManager → NotificationManager
unfolding add_notification
notify_pending [] nm = nm
notify_pending (p ∷ rest) nm =
    notify_pending rest (if is_pending p.status then add_notification p nm else nm)

-- `NewOfflinePaymentManager`; `none` is a file that cannot be read or parsed, taken to hold nothing.
unfoldable pub load_pending_payments : Option (List PendingPayment) → OfflinePaymentManager
unfolding notify_pending
load_pending_payments none = record {
  pending_payments = [];
  is_connected = false;
  notifier = [];
  queue_file = [];
}
load_pending_payments (some payments) = record {
  pending_payments = payments;
  is_connected = false;
  notifier = notify_pending payments [];
  queue_file = payments;
}

-- A change of the first payment with an id.
unfoldable pub change_first :
    (PendingPayment → PendingPayment) → String → List PendingPayment → List PendingPayment
change_first change transaction_id [] = []
change_first change transaction_id (p ∷ rest) =
    if p.transaction_id == transaction_id
    then change p ∷ rest
    else p ∷ change_first change transaction_id rest

abbrev pub with_status : PaymentStatus → PendingPayment → PendingPayment
with_status status p = record p { status = status }

abbrev pub retried : PendingPayment → PendingPayment
retried p = record p { retry_count = p.retry_count + 1; status = pending }

unfoldable pub update_payment_status :
    String → PaymentStatus → OfflinePaymentManager → OfflinePaymentManager
update_payment_status transaction_id status m =
    saved (change_first (with_status status) transaction_id m.pending_payments) m

unfoldable pub update_payment_retry : String → OfflinePaymentManager → OfflinePaymentManager
update_payment_retry transaction_id m =
    saved (change_first retried transaction_id m.pending_payments) m

unfoldable pub active_payments : List PendingPayment → List PendingPayment
active_payments [] = []
active_payments (p ∷ rest) =
    let others = active_payments rest in if is_completed p.status then others else p ∷ others

-- The list is saved where a payment was removed; where none was, it is the list as it was.
unfoldable pub cleanup_completed_payments : OfflinePaymentManager → OfflinePaymentManager
unfolding active_payments
cleanup_completed_payments m =
    let active = active_payments m.pending_payments in
    if length m.pending_payments == length active then m else saved active m

unfoldable pub get_pending_payments : OfflinePaymentManager → List PendingPayment
get_pending_payments m = m.pending_payments
