-- ===== src/Client/Queue/Notices.antt =====
-- The notifications as the client shows them (client/payment/notification.go). A printed line is
-- the values that it is made of.
pub mod Shown
mod Tests
use distributed_systems_iiit.Common.{
  ℕ, String, Bool, true, false, Option, none, some, List, [], ◌∷◌, ltb, if◌then◌else◌,
}
use distributed_systems_iiit.Common.Int.{ℤ}
use distributed_systems_iiit.Client.Queue.{
  PaymentStatus, pending, processing, completed, failed, PendingPayment, NotificationManager,
  get_notification, get_all_notifications,
}

-- The words of a line.
pub data Notice : Type 0 where
  succeeded has_failed queued_for_later : Notice

-- The tests of the status; there is no line for another one.
unfoldable pub notice_of : PaymentStatus → Option Notice
notice_of completed = some succeeded
notice_of failed = some has_failed
notice_of pending = some queued_for_later
notice_of processing = none

pub record Line : Type 0 where
  pub notice : Notice
  pub amount : ℤ
  pub client_name : String
  -- shown by `DisplayNotifications` alone
  pub transaction_id : Option String

-- The loop; `shows_id` says which of the two functions prints.
unfoldable pub lines_of : Bool → NotificationManager → List Line
unfolding notice_of
lines_of shows_id [] = []
lines_of shows_id ((id, p) ∷ rest) =
    let lines = lines_of shows_id rest in
    elim (notice_of p.status) [
      | none ↦ lines
      | some notice ↦
          record {
            notice = notice;
            amount = p.amount;
            client_name = p.client_name;
            transaction_id = if shows_id then some id else none;
          }
          ∷ lines
    ]

-- What is printed: nothing, that there is nothing new, or lines below a heading.
pub data Display : Type 0 where
  nothing no_new_notifications : Display
  notifications : List Line → Display

-- The lines, or what stands for none.
abbrev pub display : Bool → Display → NotificationManager → Display
display shows_id otherwise [] = otherwise
display shows_id otherwise (n ∷ rest) = notifications (lines_of shows_id (n ∷ rest))

-- One tick of `StartNotificationChecker`.
unfoldable pub check_notifications : NotificationManager → NotificationManager × Display
unfolding get_all_notifications lines_of
check_notifications nm =
    let (nm', all) = get_all_notifications nm in (nm', display false nothing all)

unfoldable pub display_notifications : NotificationManager → NotificationManager × Display
unfolding get_all_notifications lines_of
display_notifications nm =
    let (nm', all) = get_all_notifications nm in (nm', display true no_new_notifications all)

pub record TransactionStatus : Type 0 where
  pub transaction_id : String
  pub client_name : String
  pub amount : ℤ
  pub status : PaymentStatus
  pub created_at : ℕ
  -- shown when it is not 0
  pub retry_attempts : Option ℕ

-- The result of the source is whether there is a status to print.
unfoldable pub display_transaction_status :
    String → NotificationManager → NotificationManager × Option TransactionStatus
unfolding get_notification
display_transaction_status transaction_id nm =
    let (nm', notification) = get_notification transaction_id nm in
    (
      nm',
      elim notification [
        | none ↦ none
        | some p ↦ some (record {
          transaction_id = transaction_id;
          client_name = p.client_name;
          amount = p.amount;
          status = p.status;
          created_at = p.created_at;
          retry_attempts = if ltb 0 p.retry_count then some p.retry_count else none;
        })
      ],
    )
