-- ===== src/Client/Manager/Drain.antt =====
-- What a run over the queue does, told of the queue alone.
use mathlib.Core.List.{append_assoc}
use distributed_systems_iiit.Common.{
  ◌≡◌, ◌≢◌, ◌∙◌, refl, sym, ap, inl, inr, String, true, false, List, [], ◌∷◌, ◌++◌, string_key,
  arith, ◌||◌, not, if◌then◌else◌, Bool-cases,
}
use distributed_systems_iiit.Common.Lists.{All, All-append}
use distributed_systems_iiit.Client.Queue.{
  PaymentStatus, PendingPayment, pending, processing, completed, OfflinePaymentManager, is_pending,
  is_completed, with_status, retried, active_payments, update_payment_status, update_payment_retry,
}
use distributed_systems_iiit.Client.Queue.Updates.{
  Fresh, HasUniqueIds, change_first-append, active_payments-append, active_payments-All,
  active_payments-HasUniqueIds, pending-cleanup_completed_payments,
}
use distributed_systems_iiit.Client.Manager.{
  Processor, State, settle_payment, process_one, process_each, process_payments, check_connection,
}

module _ {S : Type 0} (processor : Processor S) where
  open processor use {process_payment, is_connection_error}

  -- The queue in its order. A pending payment is sent: if it succeeds it leaves the queue; if its
  -- connection fails it stays, with one retry more, and nothing after it is sent; if it is refused
  -- it stays as it was. A completed payment leaves the queue, and any other stays unsent.
  unfoldable pub drain : List PendingPayment → S → List PendingPayment × S
  drain [] s = ([], s)
  drain (p ∷ rest) s =
      let unsent = drain rest s in
      let (s', success, message) = process_payment p s in
      let others = drain rest s' in
      if is_pending p.status
      then (if success
          then others
          else (if is_connection_error message
              then (retried p ∷ active_payments rest, s')
              else (p ∷ others.0, others.1)))
      else (if is_completed p.status then unsent else (p ∷ unsent.0, unsent.1))

  -- The ids of the payments to come are not among those that are done.
  Apart : List PendingPayment → List PendingPayment → Type 0
  Apart before rest = All (λ p. Fresh p.transaction_id before) rest

  with_status-pending :
      (p : PendingPayment) → is_pending p.status ≡ true → with_status pending p ≡ p
  with_status-pending p h = ground arith

  -- One step, on a queue whose part `before` is done.
  process_one_at :
      (before rest : List PendingPayment) (p : PendingPayment) (m : OfflinePaymentManager) (s : S)
      → m.pending_payments ≡ before ++ (p ∷ rest)
      → Fresh p.transaction_id before
      → let (s', success, message) = process_payment p s in
        let (st, more) = process_one processor p (m, s) in
        (st.1 ≡ s')
        × (more ≡ (success || not (is_connection_error message)))
        × (st.0.pending_payments
            ≡ before
              ++ ((if success
                    then with_status completed p
                    else (if is_connection_error message then retried p else with_status pending p))
                  ∷ rest))
  unfolding process_one settle_payment update_payment_status update_payment_retry
  process_one_at before rest p m s e fresh =
      let p' = with_status processing p in
      ground (
        arith,
        change_first-append (with_status processing) p before rest fresh,
        change_first-append (with_status completed) p' before rest fresh,
        change_first-append (with_status pending) p' before rest fresh,
        change_first-append retried p' before rest fresh,
      )

  Apart-step :
      (before rest : List PendingPayment) (p q : PendingPayment)
      → q.transaction_id ≡ p.transaction_id
      → Fresh p.transaction_id rest
      → Apart before rest
      → Apart (before ++ (q ∷ [])) rest
  unfolding Apart
  Apart-step before [] p q e f a = tt
  Apart-step before (x ∷ rest) p q e f a = (
    All-append (λ r. r.transaction_id ≢ x.transaction_id) before (q ∷ []) a.0
        ((λ h. f.0 (sym h ∙ e)), tt),
    Apart-step before rest p q e f.1 a.1,
  )

  -- A payment that is done, in front of what the rest leaves.
  active_payments-done :
      (before : List PendingPayment) (q : PendingPayment) (ys : List PendingPayment)
      → active_payments (before ++ (q ∷ [])) ++ ys
        ≡ active_payments before ++ (if is_completed q.status then ys else (q ∷ ys))
  unfolding active_payments
  active_payments-done before q ys =
      ap (λ (l : List PendingPayment). l ++ ys) (active_payments-append before (q ∷ []))
      ∙ append_assoc (active_payments before) (active_payments (q ∷ [])) ys
      ∙ ap (λ (l : List PendingPayment). active_payments before ++ l) (last q.status)
    where
      last :
          (t : PaymentStatus)
          → (if is_completed q.status then [] else (q ∷ [])) ++ ys
            ≡ (if is_completed q.status then ys else (q ∷ ys))
      last t = ground arith

  Left : List PendingPayment → List PendingPayment → S → State S → Type 0
  Left before rest s (m', s') =
      (active_payments m'.pending_payments ≡ active_payments before ++ (drain rest s).0)
      × (s' ≡ (drain rest s).1)

  -- The rest of the loop, once the part `before` is done.
  process_each_at :
      (rest before : List PendingPayment) (m : OfflinePaymentManager) (s : S)
      → m.pending_payments ≡ before ++ rest
      → HasUniqueIds rest
      → Apart before rest
      → Left before rest s (process_each processor rest (m, s))
  unfolding process_each drain Apart Left active_payments
  process_each_at [] before m s e u a =
      (ap active_payments e ∙ active_payments-append before [], refl)
  process_each_at (p ∷ rest) before m s e u a =
      let (at_s, at_more, at_list) = process_one_at before rest p m s e a.0 in
      let r = process_payment p s in
      let st = process_one processor p (m, s) in
      let on : (q : PendingPayment) (m' : OfflinePaymentManager) (s' : S)
          → q.transaction_id ≡ p.transaction_id
          → m'.pending_payments ≡ before ++ (q ∷ rest)
          → Left (before ++ (q ∷ [])) rest s' (process_each processor rest (m', s')) =
        λ q m' s' h l.
          process_each_at rest (before ++ (q ∷ [])) m' s'
            (l ∙ sym (append_assoc before (q ∷ []) rest)) u.1
            (Apart-step before rest p q h u.0 a.1) in
      let left = drain rest r.0 in
      elim (Bool-cases (is_pending p.status)) [
        | inr e0 ↦
            let (x, y) = on p m s refl e in
            ground (arith, x, y, active_payments-done before p (drain rest s).0)
        | inl e0 ↦ elim (Bool-cases r.1) [
          | inl e1 ↦
              let (x, y) = on (with_status completed p) st.0.0 r.0 refl (ground (arith, at_list)) in
              ground (
                arith,
                x,
                y,
                at_s,
                at_more,
                active_payments-done before (with_status completed p) left.0,
              )
          | inr e1 ↦ elim (Bool-cases (is_connection_error r.2)) [
            | inr e2 ↦
                let (x, y) =
                  on p st.0.0 r.0 refl (ground (arith, at_list, with_status-pending p)) in
                ground (arith, x, y, at_s, at_more, active_payments-done before p left.0)
            | inl e2 ↦ ground (
              arith,
              at_s,
              at_more,
              ap active_payments at_list,
              active_payments-append before (retried p ∷ rest),
            )
          ]
        ]
      ]

  nothing_before : (rest : List PendingPayment) → Apart [] rest
  unfolding Apart
  nothing_before [] = tt
  nothing_before (x ∷ rest) = (tt, nothing_before rest)

  -- A run over a queue whose transaction ids differ leaves what `drain` leaves, of the queue and of
  -- the state of the processor: the many updates by id, the notifications and the cleanup together
  -- are one pass over the queue.
  pub process_payments-drain :
      (m : OfflinePaymentManager) (s : S)
      → HasUniqueIds m.pending_payments
      → let (m', s') = process_payments processor (m, s) in
        (m'.pending_payments ≡ (drain m.pending_payments s).0)
        × (s' ≡ (drain m.pending_payments s).1)
  unfolding process_payments Left
  process_payments-drain m s u = go m.pending_payments refl
    where
      go :
          (l : List PendingPayment)
          → m.pending_payments ≡ l
          → let (m', s') = process_payments processor (m, s) in
            (m'.pending_payments ≡ (drain m.pending_payments s).0)
            × (s' ≡ (drain m.pending_payments s).1)
      go [] e = unfold drain in ground arith
      go (p ∷ rest) e =
          let at =
            process_each_at m.pending_payments [] m s refl u (nothing_before m.pending_payments) in
          let st = process_each processor m.pending_payments (m, s) in
          let no_prefix : active_payments [] ≡ [] = unfold active_payments in refl in
          ground (arith, at, no_prefix, pending-cleanup_completed_payments st.0)

  drain-All :
      (P : PendingPayment → Type 0)
      → ((p : PendingPayment) → P p → P (retried p))
      → (l : List PendingPayment) (s : S) → All P l
      → All P (drain l s).0
  unfolding drain
  drain-All P keep [] s h = tt
  drain-All P keep (p ∷ rest) s h =
      let r = process_payment p s in
      elim (Bool-cases (is_pending p.status)) [
        | inl e0 ↦ elim (Bool-cases r.1) [
          | inl e1 ↦ rw (e0, e1, drain) (drain-All P keep rest r.0 h.1)
          | inr e1 ↦ elim (Bool-cases (is_connection_error r.2)) [
            | inl e2 ↦ rw (e0, e1, e2, drain) (keep p h.0, active_payments-All P rest h.1)
            | inr e2 ↦ rw (e0, e1, e2, drain) (h.0, drain-All P keep rest r.0 h.1)
          ]
        ]
        | inr e0 ↦ elim (Bool-cases (is_completed p.status)) [
          | inl e1 ↦ rw (e0, e1, drain) (drain-All P keep rest s h.1)
          | inr e1 ↦ rw (e0, e1, drain) (h.0, drain-All P keep rest s h.1)
        ]
      ]

  drain-Fresh :
      (id : String) (l : List PendingPayment) (s : S) → Fresh id l → Fresh id (drain l s).0
  drain-Fresh id = drain-All (λ p. p.transaction_id ≢ id) (λ p h. h)

  pub drain-HasUniqueIds :
      (l : List PendingPayment) (s : S) → HasUniqueIds l → HasUniqueIds (drain l s).0
  unfolding drain
  drain-HasUniqueIds [] s h = tt
  drain-HasUniqueIds (p ∷ rest) s h =
      let r = process_payment p s in
      elim (Bool-cases (is_pending p.status)) [
        | inl e0 ↦ elim (Bool-cases r.1) [
          | inl e1 ↦ rw (e0, e1, drain) (drain-HasUniqueIds rest r.0 h.1)
          | inr e1 ↦ elim (Bool-cases (is_connection_error r.2)) [
            | inl e2 ↦
                rw (e0, e1, e2, drain)
                  (
                    active_payments-All (λ q. q.transaction_id ≢ p.transaction_id) rest h.0,
                    active_payments-HasUniqueIds rest h.1,
                  )
            | inr e2 ↦
                rw (e0, e1, e2, drain)
                  (drain-Fresh p.transaction_id rest r.0 h.0, drain-HasUniqueIds rest r.0 h.1)
          ]
        ]
        | inr e0 ↦ elim (Bool-cases (is_completed p.status)) [
          | inl e1 ↦ rw (e0, e1, drain) (drain-HasUniqueIds rest s h.1)
          | inr e1 ↦
              rw (e0, e1, drain)
                (drain-Fresh p.transaction_id rest s h.0, drain-HasUniqueIds rest s h.1)
        ]
      ]

  -- Where every payment is accepted, a run leaves no pending payment.
  drain_delivers :
      ((p : PendingPayment) (s : S) → (process_payment p s).1 ≡ true)
      → (l : List PendingPayment) (s : S) → All (λ p. is_pending p.status ≡ false) (drain l s).0
  unfolding drain
  drain_delivers accepts [] s = tt
  drain_delivers accepts (p ∷ rest) s = elim (Bool-cases (is_pending p.status)) [
    | inl e0 ↦ rw (e0, accepts p s, drain) (drain_delivers accepts rest (process_payment p s).0)
    | inr e0 ↦ elim (Bool-cases (is_completed p.status)) [
      | inl e1 ↦ rw (e0, e1, drain) (drain_delivers accepts rest s)
      | inr e1 ↦ rw (e0, e1, drain) (e0, drain_delivers accepts rest s)
    ]
  ]

  -- When the checker finds the connection back and every payment is accepted, no payment of the
  -- queue is pending after that tick, if the transaction ids of the queue differ.
  pub check_connection_delivers :
      (m : OfflinePaymentManager) (s : S)
      → HasUniqueIds m.pending_payments
      → m.is_connected ≡ false
      → ((p : PendingPayment) (t : S) → (process_payment p t).1 ≡ true)
      → All
          (λ p. is_pending p.status ≡ false)
          (check_connection processor true (m, s)).0.pending_payments
  unfolding check_connection
  check_connection_delivers m s u off accepts =
      rw (off, check_connection)
        (rw (process_payments-drain m s u).0 (drain_delivers accepts m.pending_payments s))
