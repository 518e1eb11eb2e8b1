-- ===== src/Client/Queue/Notices/Shown.antt =====
-- What the user learns from the notifications of a client, however its threads interleave.
use mathlib.Core.List.{Memᴰ}
use distributed_systems_iiit.Common.{
  ◌≡◌, refl, sym, ap, ◌∙◌, inl, inr, String, Bool, true, some, List, [], ◌∷◌, ◌==◌, is_some,
  nat_key, string_key, arith, Bool-cases, Option-cases,
}
use distributed_systems_iiit.Common.Dict.{lookup, insert, erase}
use distributed_systems_iiit.Common.Lists.{length, All}
use distributed_systems_iiit.Client.Queue.{
  PaymentStatus, PendingPayment, OfflinePaymentManager, NotificationManager, add_notification,
  update_notification, get_notification, notify_pending, load_pending_payments, enqueue,
  already_queued, is_pending, update_payment_status, update_payment_retry,
  cleanup_completed_payments, active_payments,
}
use distributed_systems_iiit.Client.Queue.Notices.{
  Notice, notice_of, Line, lines_of, notifications, display_notifications,
}
use distributed_systems_iiit.Client.Manager.Steps.{
  Step, queued, status_updated, sent_back, cleaned_up, notification_updated, notification_read,
  notifications_cleared, connection_checked, not_written, cut_off, restarted, Reachable, started,
  step, status_after,
}

-- Every notification has a line.
abbrev pub HasLines : NotificationManager → Type 0
HasLines nm = All (λ (id, p). is_some (notice_of p.status) ≡ true) nm

insert-HasLines :
    (id : String) (p : PendingPayment) (nm : NotificationManager)
    → is_some (notice_of p.status) ≡ true
    → HasLines nm
    → HasLines (insert id p nm)
unfolding insert
insert-HasLines id p [] e h = (e, tt)
insert-HasLines id p ((j, q) ∷ nm) e h = elim (Bool-cases (j == id)) [
  | inl f ↦ rw (f, insert) (e, h.1)
  | inr f ↦ rw (f, insert) (h.0, insert-HasLines id p nm e h.1)
]

erase-HasLines : (id : String) (nm : NotificationManager) → HasLines nm → HasLines (erase id nm)
unfolding erase
erase-HasLines id [] h = tt
erase-HasLines id ((j, q) ∷ nm) h = elim (Bool-cases (j == id)) [
  | inl f ↦ rw (f, erase) (erase-HasLines id nm h.1)
  | inr f ↦ rw (f, erase) (h.0, erase-HasLines id nm h.1)
]

pending-notice : (s : PaymentStatus) → is_pending s ≡ true → is_some (notice_of s) ≡ true
unfolding notice_of
pending-notice s e = ground arith

notify_pending-HasLines :
    (l : List PendingPayment) (nm : NotificationManager)
    → HasLines nm
    → HasLines (notify_pending l nm)
unfolding notify_pending add_notification
notify_pending-HasLines [] nm h = h
notify_pending-HasLines (p ∷ l) nm h = elim (Bool-cases (is_pending p.status)) [
  | inl e ↦
      rw (e, notify_pending)
        (notify_pending-HasLines l _
          (insert-HasLines p.transaction_id p nm (pending-notice p.status e) h))
  | inr e ↦ rw (e, notify_pending) (notify_pending-HasLines l nm h)
]

update_notification-HasLines :
    (id : String) (success : Bool) (nm : NotificationManager)
    → HasLines nm
    → HasLines (update_notification id (status_after success) nm)
unfolding update_notification notice_of
update_notification-HasLines id success nm h = elim (Option-cases (lookup id nm)) [
  | inl e ↦ rw (e, update_notification) h
  | inr (p, e) ↦ rw (e, update_notification) (insert-HasLines id _ nm (ground (arith, success)) h)
]

get_notification-HasLines :
    (id : String) (nm : NotificationManager) → HasLines nm → HasLines (get_notification id nm).0
unfolding get_notification
get_notification-HasLines id nm h = elim (Option-cases (lookup id nm)) [
  | inl e ↦ rw (e, get_notification) h
  | inr (p, e) ↦ rw (e, get_notification) (erase-HasLines id nm h)
]

Step-HasLines :
    {m m' : OfflinePaymentManager} → Step m m' → HasLines m.notifier → HasLines m'.notifier
unfolding update_payment_status update_payment_retry load_pending_payments enqueue
    cleanup_completed_payments notice_of
Step-HasLines (queued client_name amount id receiver_name request_id now m) h =
    elim (Bool-cases (already_queued client_name id request_id m.pending_payments)) [
      | inl e ↦ rw (e, enqueue) h
      | inr e ↦ rw (e, enqueue, add_notification) (insert-HasLines id _ m.notifier refl h)
    ]
Step-HasLines (status_updated id status m) h = h
Step-HasLines (sent_back id m) h = h
Step-HasLines (cleaned_up m) h =
    elim (Bool-cases (length m.pending_payments == length (active_payments m.pending_payments))) [
      | inl e ↦ rw (e, cleanup_completed_payments) h
      | inr e ↦ rw (e, cleanup_completed_payments) h
    ]
Step-HasLines (notification_updated id success m) h =
    update_notification-HasLines id success m.notifier h
Step-HasLines (notification_read id m) h = get_notification-HasLines id m.notifier h
Step-HasLines (notifications_cleared m) h = tt
Step-HasLines (connection_checked connected m) h = h
Step-HasLines (not_written s) h = Step-HasLines s h
Step-HasLines (cut_off s) h = Step-HasLines s h
Step-HasLines (restarted m) h = notify_pending-HasLines m.queue_file [] tt

Reachable-HasLines : (m : OfflinePaymentManager) → Reachable m → HasLines m.notifier
unfolding load_pending_payments notify_pending
Reachable-HasLines _ started = tt
Reachable-HasLines _ (step r s) = Step-HasLines s (Reachable-HasLines _ r)

length-lines_of :
    (shows_id : Bool) (nm : NotificationManager)
    → HasLines nm
    → length (lines_of shows_id nm) ≡ length nm
unfolding lines_of
length-lines_of shows_id [] h = refl
length-lines_of shows_id ((id, p) ∷ nm) h = ground (arith, length-lines_of shows_id nm h.1, h.0)

abbrev pub line_with_id : Notice → String → PendingPayment → Line
line_with_id notice id p = record {
  notice = notice;
  amount = p.amount;
  client_name = p.client_name;
  transaction_id = some id;
}

lines_of-Mem :
    (id : String) (p : PendingPayment) (notice : Notice) (nm : NotificationManager)
    → notice_of p.status ≡ some notice
    → HasLines nm
    → Memᴰ (id, p) nm
    → Memᴰ (line_with_id notice id p) (lines_of true nm)
unfolding lines_of
lines_of-Mem id p notice [] e h i = elim i [ ]
lines_of-Mem id p notice ((j, q) ∷ nm) e h (Memᴰ.tail t) =
    elim (Option-cases (notice_of q.status)) [
      | inl f ↦ ground (arith, f, h.0)
      | inr (n, f) ↦ rw (f, lines_of) (Memᴰ.tail (lines_of-Mem id p notice nm e h.1 t))
    ]
lines_of-Mem id p notice ((j, q) ∷ nm) e h (Memᴰ.head f) =
    let g : p ≡ q = ap (λ (x : String × PendingPayment). x.1) f in
    let same : notice_of q.status ≡ some notice =
      ap (λ (r : PendingPayment). notice_of r.status) (sym g) ∙ e in
    rw (ap (λ (x : String × PendingPayment). x.0) f, g, same, lines_of) (Memᴰ.head refl)

HasLines-Mem :
    (id : String) (p : PendingPayment) (nm : NotificationManager)
    → HasLines nm
    → Memᴰ (id, p) nm
    → is_some (notice_of p.status) ≡ true
HasLines-Mem id p [] h i = elim i [ ]
HasLines-Mem id p (n ∷ nm) h (Memᴰ.tail t) = HasLines-Mem id p nm h.1 t
HasLines-Mem id p (n ∷ nm) h (Memᴰ.head f) =
    ap (λ (x : String × PendingPayment). is_some (notice_of x.1.status)) f ∙ h.0

display_notifications-Mem :
    (id : String) (p : PendingPayment) (nm : NotificationManager)
    → Memᴰ (id, p) nm
    → display_notifications nm ≡ ([], notifications (lines_of true nm))
unfolding display_notifications
display_notifications-Mem id p [] i = elim i [ ]
display_notifications-Mem id p (n ∷ nm) i = refl

-- In every state that a client reaches, a display of the notifications takes them all, and has one
-- line for each, with what its status says.
pub display_notifications-Reachable :
    (m : OfflinePaymentManager) (id : String) (p : PendingPayment)
    → Reachable m
    → Memᴰ (id, p) m.notifier
    → (notice : Notice) × (lines : List Line) × (notice_of p.status ≡ some notice)
      × (display_notifications m.notifier ≡ ([], notifications lines))
      × (length lines ≡ length m.notifier)
      × Memᴰ (line_with_id notice id p) lines
display_notifications-Reachable m id p r i =
    let h = Reachable-HasLines m r in
    elim (Option-cases (notice_of p.status)) [
      | inl e ↦ ground (arith, e, HasLines-Mem id p m.notifier h i)
      | inr (notice, e) ↦ (
        notice,
        lines_of true m.notifier,
        e,
        display_notifications-Mem id p m.notifier i,
        length-lines_of true m.notifier h,
        lines_of-Mem id p notice m.notifier e h i,
      )
    ]
