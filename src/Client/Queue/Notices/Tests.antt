-- ===== src/Client/Queue/Notices/Tests.antt =====
-- The notifications of a client with one payment.
use mathlib.Core.List.{Memᴰ}
use distributed_systems_iiit.Common.{◌≡◌, refl, none, some, List, [], ◌∷◌}
use distributed_systems_iiit.Common.Int.{pos}
use distributed_systems_iiit.Common.Dict.{insert, lookup}
use distributed_systems_iiit.Common.Lists.{length}
use distributed_systems_iiit.Client.Queue.{
  pending, completed, PendingPayment, OfflinePaymentManager, load_pending_payments, new_payment,
  enqueue, already_queued, update_notification,
}
use distributed_systems_iiit.Client.Queue.Notices.{
  Notice, succeeded, queued_for_later, notice_of, Line, nothing, no_new_notifications,
  notifications, check_notifications, display_notifications, display_transaction_status,
}
use distributed_systems_iiit.Client.Queue.Notices.Shown.{
  line_with_id, display_notifications-Reachable,
}
use distributed_systems_iiit.Client.Manager.Steps.{started, step, queued}

abbrev payment : PendingPayment
payment = new_payment "alice" (pos 5) "t1" "bob" "alice_req_0" 0

abbrev with_payment : OfflinePaymentManager
with_payment = enqueue "alice" (pos 5) "t1" "bob" "alice_req_0" 0 (load_pending_payments (some []))

-- A second display has nothing to show.
displayed_once :
    let (nm, first) = display_notifications with_payment.notifier in
    (first ≡ notifications (line_with_id queued_for_later "t1" payment ∷ []))
    × ((display_notifications nm).1 ≡ no_new_notifications)
    × ((check_notifications nm).1 ≡ nothing)
    × ((display_transaction_status "t1" nm).1 ≡ none)
unfolding enqueue load_pending_payments already_queued display_notifications
    display_transaction_status check_notifications insert lookup
displayed_once = (refl, refl, refl, refl)

-- Once it is sent.
success_is_displayed :
    (display_notifications (update_notification "t1" completed with_payment.notifier)).1
    ≡ notifications (line_with_id succeeded "t1" payment ∷ [])
unfolding enqueue load_pending_payments already_queued display_notifications update_notification
    insert lookup
success_is_displayed = refl

display_notifications-Reachable_example :
    (notice : Notice) × (lines : List Line) × (notice_of pending ≡ some notice)
    × (display_notifications with_payment.notifier ≡ ([], notifications lines))
    × (length lines ≡ length with_payment.notifier)
    × Memᴰ (line_with_id notice "t1" payment) lines
unfolding enqueue load_pending_payments already_queued insert
display_notifications-Reachable_example =
    display_notifications-Reachable with_payment "t1" payment
      (step started (queued "alice" (pos 5) "t1" "bob" "alice_req_0" 0 _)) (Memᴰ.head refl)
