-- ===== src/Client/Queue/Updates.antt =====
-- What a change of one payment does to a queue whose transaction ids differ.
use distributed_systems_iiit.Common.{
  ◌≤◌, ◌≡◌, ◌≢◌, ◌∙◌, refl, sym, inl, inr, String, false, List, [], ◌∷◌, ◌++◌, ◌==◌, ==_iff,
  ==_refl, nat_key, string_key, arith, Bool-cases,
}
use distributed_systems_iiit.Common.Lists.{length, All, All-append}
use distributed_systems_iiit.Client.Queue.{
  PendingPayment, is_completed, OfflinePaymentManager, already_queued, change_first,
  active_payments, cleanup_completed_payments,
}

-- No payment has the id.
abbrev pub Fresh : String → List PendingPayment → Type 0
Fresh id payments = All (λ p. p.transaction_id ≢ id) payments

-- The transaction ids differ.
abbrev pub HasUniqueIds : List PendingPayment → Type 0
HasUniqueIds [] = Unit
HasUniqueIds (p ∷ rest) = Fresh p.transaction_id rest × HasUniqueIds rest

pub change_first-append :
    (change : PendingPayment → PendingPayment) (p : PendingPayment)
    (before rest : List PendingPayment)
    → Fresh p.transaction_id before
    → change_first change p.transaction_id (before ++ (p ∷ rest)) ≡ before ++ (change p ∷ rest)
unfolding change_first
change_first-append change p [] rest h = ground (arith, ==_refl p.transaction_id)
change_first-append change p (q ∷ before) rest h =
    ground (
      arith,
      change_first-append change p before rest h.1,
      ==_iff q.transaction_id p.transaction_id,
    )

pub active_payments-append :
    (xs ys : List PendingPayment)
    → active_payments (xs ++ ys) ≡ active_payments xs ++ active_payments ys
unfolding active_payments
active_payments-append [] ys = refl
active_payments-append (x ∷ xs) ys = ground (arith, active_payments-append xs ys)

length-active_payments-le : (xs : List PendingPayment) → length (active_payments xs) ≤ length xs
unfolding active_payments
length-active_payments-le [] = omega arith
length-active_payments-le (x ∷ xs) = ground (arith, length-active_payments-le xs)

active_payments_same :
    (xs : List PendingPayment) → length xs ≡ length (active_payments xs) → active_payments xs ≡ xs
unfolding active_payments
active_payments_same [] h = refl
active_payments_same (x ∷ xs) h =
    ground (arith, active_payments_same xs, length-active_payments-le xs)

-- The cleanup leaves the active payments, whether it saves or not.
pub pending-cleanup_completed_payments :
    (m : OfflinePaymentManager)
    → (cleanup_completed_payments m).pending_payments ≡ active_payments m.pending_payments
unfolding cleanup_completed_payments
pending-cleanup_completed_payments m = ground (
  arith,
  active_payments_same m.pending_payments,
  ==_iff (length m.pending_payments) (length (active_payments m.pending_payments)),
)

pub active_payments-All :
    (P : PendingPayment → Type 0) (xs : List PendingPayment) → All P xs → All P (active_payments xs)
unfolding active_payments
active_payments-All P [] h = tt
active_payments-All P (x ∷ xs) h = elim (Bool-cases (is_completed x.status)) [
  | inl e ↦ rw (e, active_payments) (active_payments-All P xs h.1)
  | inr e ↦ rw (e, active_payments) (h.0, active_payments-All P xs h.1)
]

pub active_payments-HasUniqueIds :
    (xs : List PendingPayment) → HasUniqueIds xs → HasUniqueIds (active_payments xs)
unfolding active_payments
active_payments-HasUniqueIds [] h = tt
active_payments-HasUniqueIds (x ∷ xs) h = elim (Bool-cases (is_completed x.status)) [
  | inl e ↦ rw (e, active_payments) (active_payments-HasUniqueIds xs h.1)
  | inr e ↦
      rw (e, active_payments)
        (
          active_payments-All (λ p. p.transaction_id ≢ x.transaction_id) xs h.0,
          active_payments-HasUniqueIds xs h.1,
        )
]

already_queued-Fresh :
    (client id request : String) (xs : List PendingPayment)
    → already_queued client id request xs ≡ false
    → Fresh id xs
unfolding already_queued
already_queued-Fresh client id request [] h = tt
already_queued-Fresh client id request (x ∷ xs) h =
    ground (arith, already_queued-Fresh client id request xs, ==_iff x.transaction_id id)

HasUniqueIds-append :
    (xs : List PendingPayment) (p : PendingPayment)
    → Fresh p.transaction_id xs
    → HasUniqueIds xs
    → HasUniqueIds (xs ++ (p ∷ []))
HasUniqueIds-append [] p f h = (tt, tt)
HasUniqueIds-append (x ∷ xs) p f h = (
  All-append (λ q. q.transaction_id ≢ x.transaction_id) xs (p ∷ []) h.0 ((λ e. f.0 (sym e)), tt),
  HasUniqueIds-append xs p f.1 h.1,
)

pub queued-HasUniqueIds :
    (client id request : String) (xs : List PendingPayment) (p : PendingPayment)
    → already_queued client id request xs ≡ false
    → p.transaction_id ≡ id
    → HasUniqueIds xs
    → HasUniqueIds (xs ++ (p ∷ []))
queued-HasUniqueIds client id request xs p h e u =
    HasUniqueIds-append xs p (rw e (already_queued-Fresh client id request xs h)) u

-- A change of one payment keeps what it keeps of each.
change_first-All :
    (P : PendingPayment → Type 0) (change : PendingPayment → PendingPayment)
    → ((p : PendingPayment) → P p → P (change p))
    → (id : String) (xs : List PendingPayment) → All P xs
    → All P (change_first change id xs)
unfolding change_first
change_first-All P change keep id [] h = tt
change_first-All P change keep id (x ∷ xs) h = elim (Bool-cases (x.transaction_id == id)) [
  | inl e ↦ rw (e, change_first) (keep x h.0, h.1)
  | inr e ↦ rw (e, change_first) (h.0, change_first-All P change keep id xs h.1)
]

pub change_first-HasUniqueIds :
    (change : PendingPayment → PendingPayment)
    → ((p : PendingPayment) → (change p).transaction_id ≡ p.transaction_id)
    → (id : String) (xs : List PendingPayment) → HasUniqueIds xs
    → HasUniqueIds (change_first change id xs)
unfolding change_first
change_first-HasUniqueIds change same id [] h = tt
change_first-HasUniqueIds change same id (x ∷ xs) h = elim (Bool-cases (x.transaction_id == id)) [
  | inl e ↦ rw (e, same x, change_first) h
  | inr e ↦
      rw (e, change_first)
        (
          change_first-All (λ q. q.transaction_id ≢ x.transaction_id) change
              (λ p f g. f (sym (same p) ∙ g)) id xs h.0,
          change_first-HasUniqueIds change same id xs h.1,
        )
]
