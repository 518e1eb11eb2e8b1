-- ===== src/Client/Queue/Storage/Restart.antt =====
-- A client that stops and starts again from its file.
use mathlib.Core.List.{Memᴰ}
use distributed_systems_iiit.Common.{
  ℕ, ◌≡◌, refl, sym, ◌∙◌, ap, inl, inr, String, Bool, true, false, Option, some, List, [], ◌∷◌,
  ==_iff, ==_refl, string_key, nat_key, arith, Bool-cases,
}
use distributed_systems_iiit.Common.Int.{ℤ}
use distributed_systems_iiit.Common.Dict.{lookup, lookup-insert}
use distributed_systems_iiit.Client.Queue.{
  PendingPayment, OfflinePaymentManager, NotificationManager, add_notification, get_notification,
  is_pending, notify_pending, load_pending_payments, enqueue, new_payment, already_queued,
}
use distributed_systems_iiit.Client.Queue.Updates.{Fresh, HasUniqueIds}
use distributed_systems_iiit.Client.Queue.Storage.{
  Json, written, load_queue_file, save_pending_payments, start_client,
}
use distributed_systems_iiit.Client.Manager.Steps.{Reachable, queue-IsConsistent}

lookup-notify_pending-Fresh :
    (id : String) (l : List PendingPayment) (nm : NotificationManager)
    → Fresh id l
    → lookup id (notify_pending l nm) ≡ lookup id nm
unfolding notify_pending add_notification
lookup-notify_pending-Fresh id [] nm h = refl
lookup-notify_pending-Fresh id (q ∷ l) nm h = elim (Bool-cases (is_pending q.status)) [
  | inl e ↦
      rw (e, notify_pending, lookup-notify_pending-Fresh id l (add_notification q nm) h.1)
        (ground (arith, lookup-insert q.transaction_id id q nm, ==_iff q.transaction_id id, h.0))
  | inr e ↦ rw (e, notify_pending) (lookup-notify_pending-Fresh id l nm h.1)
]

lookup-notify_pending :
    (p : PendingPayment) (l : List PendingPayment) (nm : NotificationManager)
    → HasUniqueIds l
    → Memᴰ p l
    → is_pending p.status ≡ true
    → lookup p.transaction_id (notify_pending l nm) ≡ some p
unfolding notify_pending add_notification
lookup-notify_pending p [] nm h i e = elim i [ ]
lookup-notify_pending p (q ∷ l) nm h (Memᴰ.tail t) e = lookup-notify_pending p l _ h.1 t e
lookup-notify_pending p (q ∷ l) nm h (Memᴰ.head f) e =
    let g : is_pending q.status ≡ true =
      ap (λ (r : PendingPayment). is_pending r.status) (sym f) ∙ e in
    rw
      (
        f,
        g,
        lookup-notify_pending-Fresh q.transaction_id l (add_notification q nm) h.0,
        add_notification,
      )
      (ground
        (arith, lookup-insert q.transaction_id q.transaction_id q nm, ==_refl q.transaction_id))

-- What was saved is what is loaded.
load_queue_file-save_pending_payments :
    (json : Json) (payments : List PendingPayment) (file : Option (json.Data)) (data_ : json.Data)
    → json.marshal_indent payments ≡ some data_
    → load_queue_file json true (save_pending_payments json written payments file).0
      ≡ (payments, true)
unfolding load_queue_file save_pending_payments
load_queue_file-save_pending_payments json payments file data_ h =
    rw (h, json.len_marshal payments data_ h, save_pending_payments, load_queue_file)
      (json.unmarshal_marshal payments data_ h)

-- A client that starts again, after its last write of the queue succeeded, has the queue that it
-- had, and each payment of it that is pending is among its notifications.
pub start_client-save_pending_payments :
    (json : Json) (m : OfflinePaymentManager) (file : Option (json.Data)) (data_ : json.Data)
    (p : PendingPayment)
    → Reachable m
    → json.marshal_indent m.pending_payments ≡ some data_
    → Memᴰ p m.pending_payments
    → is_pending p.status ≡ true
    → let m' =
        start_client json true (save_pending_payments json written m.pending_payments file).0 in
      (m'.pending_payments ≡ m.pending_payments)
      × ((get_notification p.transaction_id m'.notifier).1 ≡ some p)
unfolding start_client load_pending_payments get_notification
start_client-save_pending_payments json m file data_ p r h i e =
    rw
      (
        load_queue_file-save_pending_payments json m.pending_payments file data_ h,
        lookup-notify_pending p m.pending_payments [] (queue-IsConsistent m r).unique_ids i e,
        get_notification,
        load_pending_payments,
      )
      (refl, refl)

-- A client whose file can not be read or parsed starts with no payment, and the first payment that it
-- queues takes the place of all that the file held.
pub enqueue-start_client_lost :
    (json : Json) (client_name : String) (amount : ℤ)
    (transaction_id receiver_name request_id : String) (now : ℕ) (readable : Bool)
    (file : Option (json.Data)) (data_ : json.Data)
    → (load_queue_file json readable file).1 ≡ false
    → json.marshal_indent
        (new_payment client_name amount transaction_id receiver_name request_id now ∷ [])
      ≡ some data_
    → let m =
        enqueue client_name amount transaction_id receiver_name request_id now
          (start_client json readable file) in
      load_queue_file json true (save_pending_payments json written m.pending_payments file).0
      ≡ (new_payment client_name amount transaction_id receiver_name request_id now ∷ [], true)
unfolding start_client load_pending_payments enqueue already_queued
enqueue-start_client_lost json c a t r q now readable file data_ h e =
    rw (h)
      (load_queue_file-save_pending_payments json (new_payment c a t r q now ∷ []) file data_ e)
