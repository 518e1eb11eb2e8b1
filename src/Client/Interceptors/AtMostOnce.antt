-- ===== src/Client/Interceptors/AtMostOnce.antt =====
-- The retry of the client against the gateway, through a network that loses requests and replies.
use distributed_systems_iiit.Common.{
  ℕ, zero, suc, ◌≡◌, ◌≢◌, ◌∙◌, refl, inl, inr, String, Bool, true, false, Option, none, some, List,
  [], ◌∷◌, ==_iff, ==_refl, string_key, arith, if◌then◌else◌, Bool-cases,
}
use distributed_systems_iiit.Common.Int.{ℤ}
use distributed_systems_iiit.Common.Dict.{lookup, insert}
use distributed_systems_iiit.Protofiles.{PaymentDetails, PaymentResponse}
use distributed_systems_iiit.Gateway.Auth.{
  Context, Reply, responded, failed, unavailable, deadline_exceeded, extract_username, first_value,
}
use distributed_systems_iiit.Gateway.Banking.{Delivery, delivered, lost, reply_lost}
use distributed_systems_iiit.Gateway.State.{Gateway, Environment}
use distributed_systems_iiit.Gateway.Transactions.{get_transaction}
use distributed_systems_iiit.Gateway.Payment.{
  process_payment, extract_transaction_id, cached, process_new,
}
use distributed_systems_iiit.Gateway.Payment.Mode.{process_new-way}
use distributed_systems_iiit.Gateway.Payment.Retry.{
  is_committed, already_processed, answered, first_attempt,
}
use distributed_systems_iiit.Client.Interceptors.{
  TransactionCache, payment, make_payment, is_retryable_error, attempt, retry_interceptor,
  retry_context, ensure_transaction_id, cache_key, get_or_create_transaction_id,
  add_transaction_id_to_context,
}

-- What becomes of one attempt: its call on the way to the gateway, and what the gateway meets.
pub record Attempt : Type 0 where
  pub delivery : Delivery
  pub environment : Environment

-- The gateway, and the attempts to come.
abbrev pub World : Type 0
World = Gateway × List Attempt

-- One call of `MakePayment`. A lost request is an unavailable gateway, a lost reply a passed deadline.
unfoldable pub call : PaymentDetails → Context → World → World × Reply PaymentResponse
call req ctx (g, []) = ((g, []), failed unavailable "connection refused")
call req ctx (g, a ∷ rest) =
    let (g', r) = process_payment a.environment ctx req g in
    elim a.delivery [
      | delivered ↦ ((g', rest), r)
      | lost ↦ ((g, rest), failed unavailable "connection refused")
      | reply_lost ↦ ((g', rest), failed deadline_exceeded "context deadline exceeded")
    ]

abbrev is_success : Reply PaymentResponse → Bool
is_success (responded r) = r.success
is_success (failed _ _) = false

-- The gateway where requests are served in turn until one is answered with success, and the ones
-- after it never come.
unfoldable pub pay_once : ℕ → PaymentDetails → Context → Gateway → List Attempt → Gateway
pay_once left req ctx g [] = g
pay_once zero req ctx g (a ∷ rest) = elim a.delivery [
  | lost ↦ g
  | _ ↦ (process_payment a.environment ctx req g).0
]
pay_once (suc left) req ctx g (a ∷ rest) =
    let (g', r) = process_payment a.environment ctx req g in
    let later = pay_once left req ctx g' rest in
    let unserved = pay_once left req ctx g rest in
    elim a.delivery [
      | delivered ↦ g'
      | lost ↦ unserved
      | reply_lost ↦ if is_success r then g' else later
    ]

-- The metadata of a payment with its user and its transaction id.
abbrev pub payment_context : String → String → Context
payment_context username transaction_id =
    some (("username", username ∷ []) ∷ ("transaction_id", transaction_id ∷ []) ∷ [])

abbrev pub username_context : String → Context
username_context username = some (("username", username ∷ []) ∷ [])

module _ (req : PaymentDetails) (id : String) where
  abbrev ctx : Context
  ctx = payment_context req.client_name id

  user : extract_username ctx ≡ responded req.client_name
  unfolding extract_username first_value lookup
  user = refl

  identified : extract_transaction_id ctx ≡ responded id
  unfolding extract_transaction_id first_value lookup
  identified = refl

  process_payment_responds :
      (env : Environment) (g : Gateway)
      → (p : PaymentResponse) × ((process_payment env ctx req g).1 ≡ responded p)
  unfolding process_payment
  process_payment_responds env g =
      go (cached g.uses_two_phase req id (get_transaction id g.transactions)) refl
    where
      go :
          (c : Option PaymentResponse)
          → cached g.uses_two_phase req id (get_transaction id g.transactions) ≡ c
          → (p : PaymentResponse) × ((process_payment env ctx req g).1 ≡ responded p)
      go (some response) e = (response, ground (arith, user, identified, ==_refl req.client_name))
      go none e =
          ((process_new env req id g).1, ground (arith, user, identified, ==_refl req.client_name))

  pub process_payment-way :
      (env : Environment) (g : Gateway)
      → (process_payment env ctx req g).0.uses_two_phase ≡ g.uses_two_phase
  unfolding process_payment
  process_payment-way env g =
      ground (arith, user, identified, ==_refl req.client_name, process_new-way env req id g)

  -- The payment is recorded as done.
  abbrev pub Paid : Gateway → Type 0
  Paid g = (is_committed (get_transaction id g.transactions) ≡ true) × (g.uses_two_phase ≡ true)

  process_payment-Paid :
      (env : Environment) (g : Gateway)
      → Paid g
      → process_payment env ctx req g ≡ (g, responded (already_processed req id))
  process_payment-Paid env g h = answered env ctx req id g user identified h.1 h.0

  pub attempt-Paid :
      (left : ℕ) (g : Gateway) (attempts : List Attempt)
      → Paid g
      → (attempt (call req) left ctx (g, attempts)).0.0 ≡ g
  unfolding attempt call is_retryable_error
  attempt-Paid zero g [] h = refl
  attempt-Paid (suc left) g [] h = attempt-Paid left g [] h
  attempt-Paid zero g (a ∷ rest) h = ground (arith, process_payment-Paid a.environment g h)
  attempt-Paid (suc left) g (a ∷ rest) h =
      ground (arith, process_payment-Paid a.environment g h, attempt-Paid left g rest h)

  attempt-pay_once_none : (left : ℕ) (g : Gateway) → (attempt (call req) left ctx (g, [])).0.0 ≡ g
  unfolding attempt call is_retryable_error
  attempt-pay_once_none zero g = refl
  attempt-pay_once_none (suc left) g = attempt-pay_once_none left g

  pub attempt-pay_once :
      (left : ℕ) (g : Gateway) (attempts : List Attempt)
      → g.uses_two_phase ≡ true
      → req.receiver_name ≢ ""
      → (attempt (call req) left ctx (g, attempts)).0.0 ≡ pay_once left req ctx g attempts
  unfolding attempt call is_retryable_error pay_once
  attempt-pay_once zero g [] mode named = refl
  attempt-pay_once (suc left) g [] mode named = attempt-pay_once_none left g
  attempt-pay_once zero g (a ∷ rest) mode named = ground arith
  attempt-pay_once (suc left) g (a ∷ rest) mode named =
      let (g', r) = process_payment a.environment ctx req g in
      let (p, e) = process_payment_responds a.environment g in
      let unserved = attempt-pay_once left g rest mode named in
      elim (Bool-cases p.success) [
        | inl ok ↦
            let paid : Paid g' =
              first_attempt a.environment ctx req id g p user identified mode
                (ground (arith, ==_iff req.receiver_name "")) e ok in
            ground (arith, e, unserved, attempt-Paid left g' rest paid)
        | inr refused ↦
            let later =
              attempt-pay_once left g' rest (process_payment-way a.environment g ∙ mode) named in
            ground (arith, e, unserved, later)
      ]

-- A payment to a receiver that the client sends through the retry, on a gateway that uses two-phase
-- commit, leaves the gateway as if the requests that reached it had been served one by one up to the
-- first that succeeded: whatever requests and replies are lost, one that comes after the success has
-- no effect.
pub retry_interceptor-pay_once :
    (format : ℤ → String) (new_id : String) (req : PaymentDetails) (cache : TransactionCache)
    (g : Gateway) (attempts : List Attempt)
    → g.uses_two_phase ≡ true
    → req.receiver_name ≢ ""
    → let user = username_context req.client_name in
      let ctx = (retry_context format new_id make_payment (payment req) user cache).1 in
      (retry_interceptor
        (call req)
        format
        new_id
        make_payment
        (payment req)
        user
        (cache, (g, attempts))).0.1.0
      ≡ pay_once 2 req ctx g attempts
unfolding retry_interceptor retry_context ensure_transaction_id add_transaction_id_to_context insert
retry_interceptor-pay_once format new_id req cache g attempts mode named =
    let id =
      (get_or_create_transaction_id new_id
        (cache_key (record {
          client_name = req.client_name;
          receiver_name = req.receiver_name;
          amount = format req.amount;
          request_id = req.request_id;
        }))
        cache).1 in
    attempt-pay_once req id 2 g attempts mode named
