-- ===== src/Client/App/Payments.antt =====
-- What the application's payments do to its counters and its queue.
use mathlib.Core.List.{Memᴰ}
use distributed_systems_iiit.Common.{
  ℕ, ◌+◌, ◌≡◌, refl, ap, String, Bool, true, false, some, List, [], ◌∷◌, ◌==◌, ==_iff, string_key,
  arith, ◌&&◌, if◌then◌else◌,
}
use distributed_systems_iiit.Common.Int.{ℤ}
use distributed_systems_iiit.Common.Dict.{lookup, lookup-insert}
use distributed_systems_iiit.Gateway.Auth.{first_value}
use distributed_systems_iiit.Gateway.Banking.{err}
use distributed_systems_iiit.Client.Queue.{PendingPayment, already_queued, enqueue}
use distributed_systems_iiit.Client.Manager.{queue_payment}
use distributed_systems_iiit.Client.Login.{RequestCounter, counter, increment_counter}
use distributed_systems_iiit.Client.App.{
  Platform, ClientApp, Shown, payment_succeeded, payment_queued, user_context, own_transaction_id,
  payment_request, queue_failed, handle_make_payment,
}

-- What `handleMakePayment` prints when the gateway answers with success.
abbrev pub is_paid : Shown → Bool
is_paid (payment_succeeded _) = true
is_paid _ = false

counter-increment_counter :
    (paid other : String) (rc : RequestCounter)
    → counter other (increment_counter paid rc)
      ≡ counter other rc + (if paid == other then 1 else 0)
unfolding increment_counter
counter-increment_counter paid other rc =
    ground (arith, lookup-insert paid other (counter paid rc + 1) rc.counters, ==_iff paid other)

already_queued-Mem :
    (client id request : String) (p : PendingPayment) (l : List PendingPayment)
    → Memᴰ p l
    → p.transaction_id ≡ id
    → already_queued client id request l ≡ true
unfolding already_queued
already_queued-Mem client id request p [] i e = elim i [ ]
already_queued-Mem client id request p (x ∷ l) (Memᴰ.head h) e =
    ground (arith, ==_iff x.transaction_id id, ap (λ (q : PendingPayment). q.transaction_id) h)
already_queued-Mem client id request p (x ∷ l) (Memᴰ.tail i) e =
    ground (arith, already_queued-Mem client id request p l i e)

module _ {W : Type 0} (platform : Platform W) where
  open platform use {services, parse_amount}

  -- A payment counts one for its user when the user is told that it succeeded, and counts nothing
  -- when it failed or was queued; no payment changes the counter of another user.
  pub counter-handle_make_payment :
      (client_name amount_str transfer_choice receiver : String) (now : ℕ) (app : ClientApp W)
      (other : String)
      → let (app', shown) =
          handle_make_payment platform client_name amount_str transfer_choice receiver now app in
        counter other app'.request_counter
        ≡ counter other app.request_counter
          + (if is_paid shown && (client_name == other) then 1 else 0)
  unfolding handle_make_payment queue_failed
  counter-handle_make_payment client_name amount_str transfer_choice receiver now app other =
      ground (arith, counter-increment_counter client_name other app.request_counter)

  no_transaction_id : (client_name : String) → own_transaction_id (user_context client_name) ≡ ""
  unfolding own_transaction_id first_value lookup
  no_transaction_id client_name = refl

  -- When a payment cannot be sent while the client is offline and its queue holds a payment with an
  -- empty transaction id, the user is told that the payment is queued, with an empty transaction
  -- id, and the queue, its notifications and its file stay as they were: the payment is dropped.
  pub second_failure_is_dropped :
      (client_name amount_str transfer_choice receiver reason : String) (amount : ℤ) (now : ℕ)
      (app : ClientApp W) (p : PendingPayment)
      → parse_amount amount_str ≡ some amount
      → (services.make_payment
          (user_context client_name)
          (payment_request platform client_name amount transfer_choice receiver app.request_counter)
          app.world).1
        ≡ err reason
      → app.offline_manager.is_connected ≡ false
      → Memᴰ p app.offline_manager.pending_payments
      → p.transaction_id ≡ ""
      → let (app', shown) =
          handle_make_payment platform client_name amount_str transfer_choice receiver now app in
        (shown ≡ payment_queued "") × (app'.offline_manager ≡ app.offline_manager)
  unfolding handle_make_payment queue_failed queue_payment enqueue
  second_failure_is_dropped client_name amount_str transfer_choice receiver reason amount now app p
        parsed fails off i e =
      let req =
        payment_request platform client_name amount transfer_choice receiver app.request_counter in
      ground (
        arith,
        no_transaction_id client_name,
        already_queued-Mem req.client_name "" req.request_id p app.offline_manager.pending_payments
            i e,
      )
