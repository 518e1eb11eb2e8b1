-- ===== src/Client/App/Replay.antt =====
-- A payment that the application could not send and that the queue sends again, through the retry and
-- its cache of transaction ids, against the gateway. The library's texts and identifiers, and what
-- the authentication answers, are arguments.
pub mod Once
pub mod Lifetime
mod Tests
use distributed_systems_iiit.Common.{
  ℕ, zero, suc, ◌≡◌, ◌≢◌, ◌∙◌, refl, ap, inl, inr, String, Bool, true, false, Option, none, some,
  List, [], ◌∷◌, ==_iff, ==_refl, string_key, arith, if◌then◌else◌, Bool-cases, Option-cases,
}
use distributed_systems_iiit.Common.Int.{ℤ}
use distributed_systems_iiit.Common.Dict.{lookup, insert, lookup-insert}
use distributed_systems_iiit.Protofiles.{PaymentDetails, PaymentResponse}
use distributed_systems_iiit.Gateway.Auth.{AuthResponse, Context, Reply, responded, failed}
use distributed_systems_iiit.Gateway.Banking.{Result, ok, err}
use distributed_systems_iiit.Gateway.State.{Gateway}
use distributed_systems_iiit.Gateway.Transactions.{get_transaction, cleanup_expired_transactions}
use distributed_systems_iiit.Gateway.Payment.{process_payment}
use distributed_systems_iiit.Gateway.Payment.Retry.{is_committed}
use distributed_systems_iiit.Client.Queue.{PendingPayment}
use distributed_systems_iiit.Client.Interceptors.{
  TransactionCache, payment, make_payment, attempt, retry_interceptor, retry_context,
  ensure_transaction_id, cache_key, get_or_create_transaction_id, add_transaction_id_to_context,
}
use distributed_systems_iiit.Client.Interceptors.AtMostOnce
use distributed_systems_iiit.Client.Interceptors.AtMostOnce.{
  Attempt, World, call, pay_once, username_context, Paid, attempt-Paid, attempt-pay_once,
  process_payment-way,
}
use distributed_systems_iiit.Client.Processor
use distributed_systems_iiit.Client.Processor.{
  PaymentProcessor, Services, send_payment, authenticate_user, payment_details,
}

-- One sending: the times at which the gateway's cleanup has run since the last one, the identifier
-- that would be new, and what becomes of its attempts.
pub record Round : Type 0 where
  pub cleanups : List ℕ
  pub new_id : String
  pub attempts : List Attempt

-- The client's cache, and the gateway.
abbrev pub Connection : Type 0
Connection = TransactionCache × Gateway

abbrev to_result : Reply PaymentResponse → Result PaymentResponse
to_result (responded r) = ok r
to_result (failed _ message) = err message

-- What the client needs from outside.
pub record Outside : Type 0 where
  pub format : ℤ → String
  pub contains : String → String → Bool
  pub authenticate : String → String → Result AuthResponse

-- The gateway after runs of its cleanup at these times.
unfoldable pub cleaned : List ℕ → Gateway → Gateway
unfolding cleanup_expired_transactions
cleaned [] g = g
cleaned (now ∷ times) g =
    cleaned times (record g { transactions = cleanup_expired_transactions now g.transactions })

module _ (out : Outside) where
  -- One call of `MakePayment` through the retry.
  unfoldable pub make_payment_through :
      Round → Context → PaymentDetails → Connection → Connection × Reply PaymentResponse
  unfolding retry_interceptor cleaned
  make_payment_through round ctx req (cache, g) =
      let ((cache', (g', _)), r) =
        retry_interceptor (call req) out.format round.new_id make_payment (payment req) ctx
          (cache, (cleaned round.cleanups g, round.attempts)) in
      ((cache', g'), r)

  -- The services of the processor of the queue.
  abbrev pub services_of : Round → Services Connection
  services_of round = record {
    authenticate = λ username password w. (w, out.authenticate username password);
    make_payment =
        λ ctx req w. let (w', r) = make_payment_through round ctx req w in (w', to_result r);
    contains = out.contains;
  }

  -- The queue sends a payment so many times.
  unfoldable pub replay :
      PendingPayment → List Round → PaymentProcessor × Connection → PaymentProcessor × Connection
  unfolding send_payment
  replay p [] s = s
  replay p (round ∷ rounds) s = replay p rounds (send_payment (services_of round) p s).0

  -- The user's sending of the payment, with no id of a transaction yet, and the queue's after it.
  unfoldable pub pay_and_replay :
      PendingPayment
      → Round
      → List Round
      → PaymentProcessor × Connection
      → PaymentProcessor × Connection
  unfolding make_payment_through replay
  pay_and_replay p first rounds (pp, w) =
      let (w', _) =
        make_payment_through first (username_context p.client_name)
          (payment_details (services_of first) p) w in
      replay p rounds (pp, w')

-- The gateway where the rounds are served in turn, except those that find the payment committed, which
-- never come. The cleanup runs before each.
unfoldable pub pay_rounds : PaymentDetails → String → List Round → Gateway → Gateway
unfolding cleaned
pay_rounds req id [] g = g
pay_rounds req id (round ∷ rounds) g =
    let g0 = cleaned round.cleanups g in
    let g1 = pay_once 2 req (AtMostOnce.payment_context req.client_name id) g0 round.attempts in
    let unserved = pay_rounds req id rounds g0 in
    let served = pay_rounds req id rounds g1 in
    if is_committed (get_transaction id g0.transactions) then unserved else served
