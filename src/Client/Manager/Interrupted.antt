-- ===== src/Client/Manager/Interrupted.antt =====
-- A payment that the client was sending when it stopped.
use mathlib.Core.List.{Memᴰ}
use mathlib.Core.List.Memᴰ
use distributed_systems_iiit.Common.{
  if◌then◌else◌, ℕ, ◌≡◌, ap, inl, inr, String, Bool, false, some, List, [], ◌∷◌, ◌&&◌, not,
  Bool-cases, string_key, arith, true,
}
use distributed_systems_iiit.Common.Int.{ℤ}
use distributed_systems_iiit.Client.Queue.{
  PendingPayment, processing, OfflinePaymentManager, enqueue, already_queued, load_pending_payments,
  is_pending, is_completed, active_payments,
}
use distributed_systems_iiit.Client.Manager.{
  Processor, State, process_payments, queue_payment, check_connection,
}
use distributed_systems_iiit.Client.Manager.Drain.{drain, process_payments-drain}
use distributed_systems_iiit.Client.Manager.Steps.{
  Reachable, queue-IsConsistent, queue_payment-Reachable, check_connection-Reachable, queued,
  restarted, step,
}

active_payments-Mem :
    (p : PendingPayment) (l : List PendingPayment)
    → is_completed p.status ≡ false
    → Memᴰ p l
    → Memᴰ p (active_payments l)
unfolding active_payments
active_payments-Mem p [] h i = elim i [ ]
active_payments-Mem p (x ∷ xs) h (Memᴰ.head e) =
    let f : is_completed x.status ≡ false =
      ground (arith, ap (λ (q : PendingPayment). q.status) e) in
    rw (f, active_payments) (Memᴰ.head e)
active_payments-Mem p (x ∷ xs) h (Memᴰ.tail t) = elim (Bool-cases (is_completed x.status)) [
  | inl e ↦ rw (e, active_payments) (active_payments-Mem p xs h t)
  | inr e ↦ rw (e, active_payments) (Memᴰ.tail (active_payments-Mem p xs h t))
]

module _ {S : Type 0} (processor : Processor S) where
  open processor use {process_payment, is_connection_error}

  drain-Mem :
      (p : PendingPayment) (l : List PendingPayment) (s : S)
      → p.status ≡ processing
      → Memᴰ p l
      → Memᴰ p (drain processor l s).0
  unfolding drain
  drain-Mem p [] s h i = elim i [ ]
  drain-Mem p (x ∷ xs) s h (Memᴰ.head e) =
      let f : is_pending x.status ≡ false =
        ground (arith, ap (λ (q : PendingPayment). q.status) e) in
      let g : is_completed x.status ≡ false =
        ground (arith, ap (λ (q : PendingPayment). q.status) e) in
      rw (f, g, drain) (Memᴰ.head e)
  drain-Mem p (x ∷ xs) s h (Memᴰ.tail t) =
      let r = process_payment x s in
      let g : is_completed p.status ≡ false = ground (arith, h) in
      elim (Bool-cases (is_pending x.status)) [
        | inl e0 ↦ elim (Bool-cases r.1) [
          | inl e1 ↦ rw (e0, e1, drain) (drain-Mem p xs r.0 h t)
          | inr e1 ↦ elim (Bool-cases (is_connection_error r.2)) [
            | inl e2 ↦ rw (e0, e1, e2, drain) (Memᴰ.tail (active_payments-Mem p xs g t))
            | inr e2 ↦ rw (e0, e1, e2, drain) (Memᴰ.tail (drain-Mem p xs r.0 h t))
          ]
        ]
        | inr e0 ↦ elim (Bool-cases (is_completed x.status)) [
          | inl e1 ↦ rw (e0, e1, drain) (drain-Mem p xs s h t)
          | inr e1 ↦ rw (e0, e1, drain) (Memᴰ.tail (drain-Mem p xs s h t))
        ]
      ]

-- What happens to the queue of a client that runs.
pub data Event : Type 0 where
  payment_queued :
      (client_name : String) (amount : ℤ) (id receiver_name request_id : String) (now : ℕ) → Event
  ticked : (connected : Bool) → Event

module _ {S : Type 0} (processor : Processor S) where
  unfoldable pub run : List Event → State S → State S
  unfolding queue_payment check_connection
  run [] st = st
  run (payment_queued client_name amount id receiver_name request_id now ∷ events) st =
      run events (queue_payment processor client_name amount id receiver_name request_id now st)
  run (ticked connected ∷ events) st = run events (check_connection processor connected st)

  process_payments-Mem :
      (p : PendingPayment) (m : OfflinePaymentManager) (s : S)
      → p.status ≡ processing
      → Reachable m
      → Memᴰ p m.pending_payments
      → Memᴰ p (process_payments processor (m, s)).0.pending_payments
  process_payments-Mem p m s h r i =
      rw (process_payments-drain processor m s (queue-IsConsistent m r).unique_ids).0
        (drain-Mem processor p m.pending_payments s h i)

  enqueue-Mem :
      (client_name : String) (amount : ℤ) (id receiver_name request_id : String) (now : ℕ)
      (p : PendingPayment) (m : OfflinePaymentManager)
      → Memᴰ p m.pending_payments
      → Memᴰ p (enqueue client_name amount id receiver_name request_id now m).pending_payments
  unfolding enqueue
  enqueue-Mem client_name amount id receiver_name request_id now p m i =
      elim (Bool-cases (already_queued client_name id request_id m.pending_payments)) [
        | inl e ↦ rw (e, enqueue) i
        | inr e ↦ rw (e, enqueue) (Memᴰ.append_left _ i)
      ]

  if-Mem :
      (b : Bool) (p : PendingPayment) (x y : State S)
      → Memᴰ p x.0.pending_payments
      → Memᴰ p y.0.pending_payments
      → Memᴰ p (if b then x else y).0.pending_payments
  if-Mem true p x y i j = i
  if-Mem false p x y i j = j

  queue_payment-Mem :
      (client_name : String) (amount : ℤ) (id receiver_name request_id : String) (now : ℕ)
      (p : PendingPayment) (m : OfflinePaymentManager) (s : S)
      → p.status ≡ processing
      → Reachable m
      → Memᴰ p m.pending_payments
      → Memᴰ p
          (queue_payment processor client_name amount id receiver_name request_id now
            (m, s)).0.pending_payments
  unfolding queue_payment
  queue_payment-Mem client_name amount id receiver_name request_id now p m s h r i =
      let m' = enqueue client_name amount id receiver_name request_id now m in
      let r' : Reachable m' =
        step r (queued client_name amount id receiver_name request_id now m) in
      let i' = enqueue-Mem client_name amount id receiver_name request_id now p m i in
      if-Mem (already_queued client_name id request_id m.pending_payments) p (m, s) _ i
        (if-Mem m'.is_connected p _ (m', s) (process_payments-Mem p m' s h r' i') i')

  check_connection-Mem :
      (connected : Bool) (p : PendingPayment) (m : OfflinePaymentManager) (s : S)
      → p.status ≡ processing
      → Reachable m
      → Memᴰ p m.pending_payments
      → Memᴰ p (check_connection processor connected (m, s)).0.pending_payments
  unfolding check_connection
  check_connection-Mem connected p m s h r i = elim (Bool-cases (connected && not m.is_connected)) [
    | inl e ↦ rw (e, check_connection) (process_payments-Mem p m s h r i)
    | inr e ↦ rw (e, check_connection) i
  ]

  run-Mem :
      (events : List Event) (p : PendingPayment) (m : OfflinePaymentManager) (s : S)
      → p.status ≡ processing
      → Reachable m
      → Memᴰ p m.pending_payments
      → Memᴰ p (run events (m, s)).0.pending_payments
  unfolding run
  run-Mem [] p m s h r i = i
  run-Mem (payment_queued client_name amount id receiver_name request_id now ∷ events) p m s h r i =
      let st = queue_payment processor client_name amount id receiver_name request_id now (m, s) in
      run-Mem events p st.0 st.1 h
        (queue_payment-Reachable processor client_name amount id receiver_name request_id now m s r)
        (queue_payment-Mem client_name amount id receiver_name request_id now p m s h r i)
  run-Mem (ticked connected ∷ events) p m s h r i =
      let st = check_connection processor connected (m, s) in
      run-Mem events p st.0 st.1 h (check_connection-Reachable processor connected m s r)
        (check_connection-Mem connected p m s h r i)

  -- A payment that the client was sending when it stopped stays in its queue: after a restart with the
  -- file that a reachable client left, no new payment and no tick of the connection takes a payment
  -- whose status is `processing` out of the queue or changes it, as long as the client runs.
  pub interrupted_stays :
      (events : List Event) (p : PendingPayment) (m : OfflinePaymentManager) (s : S)
      → Reachable m
      → Memᴰ p m.queue_file
      → p.status ≡ processing
      → Memᴰ p (run events (load_pending_payments (some m.queue_file), s)).0.pending_payments
  unfolding load_pending_payments
  interrupted_stays events p m s r i h =
      run-Mem events p (load_pending_payments (some m.queue_file)) s h (step r (restarted m)) i
