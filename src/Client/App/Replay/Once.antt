-- ===== src/Client/App/Replay/Once.antt =====
-- However often a payment is sent again, it is made once.
use distributed_systems_iiit.Common.{
  ℕ, zero, suc, ◌≡◌, ◌≢◌, ◌∙◌, refl, ap, inl, inr, String, true, some, List, [], ◌∷◌, ==_refl,
  string_key, arith, if◌then◌else◌, Bool-cases,
}
use distributed_systems_iiit.Common.Dict.{lookup, insert, lookup-insert}
use distributed_systems_iiit.Protofiles.{PaymentDetails}
use distributed_systems_iiit.Gateway.State.{Gateway}
use distributed_systems_iiit.Gateway.Transactions.{get_transaction}
use distributed_systems_iiit.Gateway.Payment.{process_payment}
use distributed_systems_iiit.Gateway.Payment.Retry.{is_committed}
use distributed_systems_iiit.Client.Queue.{PendingPayment}
use distributed_systems_iiit.Client.Interceptors.{
  TransactionCache, attempt, retry_interceptor, retry_context, ensure_transaction_id, cache_key,
  get_or_create_transaction_id, add_transaction_id_to_context,
}
use distributed_systems_iiit.Client.Interceptors.AtMostOnce
use distributed_systems_iiit.Client.Interceptors.AtMostOnce.{
  Attempt, World, call, pay_once, username_context, Paid, attempt-Paid, attempt-pay_once,
  process_payment-way,
}
use distributed_systems_iiit.Client.Processor
use distributed_systems_iiit.Client.Processor.{
  PaymentProcessor, Services, send_payment, authenticate_user, payment_details,
}
use distributed_systems_iiit.Client.App.Replay.{
  cleaned, Round, Connection, Outside, make_payment_through, services_of, replay, pay_and_replay,
  pay_rounds,
}

pay_once-way :
    (req : PaymentDetails) (id : String) (left : ℕ) (g : Gateway) (attempts : List Attempt)
    → (pay_once left req (AtMostOnce.payment_context req.client_name id) g attempts).uses_two_phase
      ≡ g.uses_two_phase
unfolding pay_once
pay_once-way req id left g [] = ground arith
pay_once-way req id zero g (a ∷ rest) = ground (arith, process_payment-way req id a.environment g)
pay_once-way req id (suc left) g (a ∷ rest) =
    let g' =
      (process_payment a.environment (AtMostOnce.payment_context req.client_name id) req g).0 in
    ground (
      arith,
      process_payment-way req id a.environment g,
      pay_once-way req id left g' rest,
      pay_once-way req id left g rest,
    )

cleaned-way : (times : List ℕ) (g : Gateway) → (cleaned times g).uses_two_phase ≡ g.uses_two_phase
unfolding cleaned
cleaned-way [] g = refl
cleaned-way (now ∷ times) g = cleaned-way times _

lookup-get_or_create_transaction_id :
    (new_id key : String) (cache : TransactionCache)
    → let (cache', id) = get_or_create_transaction_id new_id key cache in
      lookup key cache' ≡ some id
unfolding get_or_create_transaction_id
lookup-get_or_create_transaction_id new_id key cache =
    ground (arith, lookup-insert key key new_id cache, ==_refl key)

module _ (out : Outside) where
  authenticate_user-world :
      (round : Round) (username : String) (pp : PaymentProcessor) (w : Connection)
      → (authenticate_user (services_of out round) username (pp, w)).0.1 ≡ w
  unfolding authenticate_user
  authenticate_user-world round username pp w = ground arith

  send_payment-world :
      (round : Round) (p : PendingPayment) (pp : PaymentProcessor) (w : Connection)
      → (send_payment (services_of out round) p (pp, w)).0.1
        ≡ (make_payment_through out round
            (Processor.payment_context (services_of out round) p)
            (payment_details (services_of out round) p)
            w).0
  unfolding send_payment
  send_payment-world round p pp w = ground (arith, authenticate_user-world round p.client_name pp w)

  -- The key of the payment in the cache.
  abbrev pub key_of : PaymentDetails → String
  key_of req = cache_key (record {
    client_name = req.client_name;
    receiver_name = req.receiver_name;
    amount = out.format req.amount;
    request_id = req.request_id;
  })

  through-known :
      (round : Round) (p : PendingPayment) (id : String) (cache : TransactionCache) (g : Gateway)
      → let req = payment_details (services_of out round) p in
        lookup (key_of req) cache ≡ some id
        → (make_payment_through out round
            (Processor.payment_context (services_of out round) p)
            req
            (cache, g)).0
          ≡ (
            cache,
            (attempt
                (call req)
                2
                (AtMostOnce.payment_context p.client_name id)
                (cleaned round.cleanups g, round.attempts)).0.0,
          )
  unfolding make_payment_through retry_interceptor retry_context ensure_transaction_id
      get_or_create_transaction_id add_transaction_id_to_context insert
  through-known round p id cache g h = rw (h, get_or_create_transaction_id) refl

  module _ (p : PendingPayment) (id : String) (cache : TransactionCache) (first : Round)
      (named : p.receiver_name ≢ "") where
    abbrev pub req : PaymentDetails
    req = payment_details (services_of out first) p

    -- The gateway after one sending.
    abbrev sent_once : Round → Gateway → Gateway
    sent_once round g =
        (attempt (call req) 2 (AtMostOnce.payment_context p.client_name id)
          (cleaned round.cleanups g, round.attempts)).0.0

    -- The gateway may have the payment already.
    sent_once_lem :
        (round : Round) (g : Gateway)
        → g.uses_two_phase ≡ true
        → let g0 = cleaned round.cleanups g in
          sent_once round g ≡ (
            if is_committed (get_transaction id g0.transactions)
            then g0
            else pay_once 2 req (AtMostOnce.payment_context p.client_name id) g0 round.attempts)
    sent_once_lem round g mode =
        let g0 = cleaned round.cleanups g in
        let mode0 = cleaned-way round.cleanups g ∙ mode in
        elim (Bool-cases (is_committed (get_transaction id g0.transactions))) [
          | inl e ↦ rw (e) (attempt-Paid req id 2 g0 round.attempts (e, mode0))
          | inr e ↦ rw (e) (attempt-pay_once req id 2 g0 round.attempts mode0 named)
        ]

    sent_once-way :
        (round : Round) (g : Gateway)
        → g.uses_two_phase ≡ true
        → (sent_once round g).uses_two_phase ≡ true
    sent_once-way round g mode =
        let g0 = cleaned round.cleanups g in
        let mode0 = cleaned-way round.cleanups g ∙ mode in
        elim (Bool-cases (is_committed (get_transaction id g0.transactions))) [
          | inl e ↦ rw (sent_once_lem round g mode, e) mode0
          | inr e ↦
              rw (sent_once_lem round g mode, e, pay_once-way req id 2 g0 round.attempts) mode0
        ]

    pay_rounds-sent_once :
        (round : Round) (rounds : List Round) (g : Gateway)
        → g.uses_two_phase ≡ true
        → pay_rounds req id rounds (sent_once round g) ≡ pay_rounds req id (round ∷ rounds) g
    unfolding pay_rounds
    pay_rounds-sent_once round rounds g mode =
        elim (Bool-cases
          (is_committed (get_transaction id (cleaned round.cleanups g).transactions))) [
            | inl e ↦ rw (sent_once_lem round g mode, e, pay_rounds) refl
            | inr e ↦ rw (sent_once_lem round g mode, e, pay_rounds) refl
          ]

    pub replay-pay_rounds :
        (rounds : List Round) (pp : PaymentProcessor) (g : Gateway)
        → lookup (key_of req) cache ≡ some id
        → g.uses_two_phase ≡ true
        → (replay out p rounds (pp, (cache, g))).1 ≡ (cache, pay_rounds req id rounds g)
    unfolding replay pay_rounds
    replay-pay_rounds [] pp g h mode = refl
    replay-pay_rounds (round ∷ rounds) pp g h mode =
        let g' = sent_once round g in
        let pp' = (send_payment (services_of out round) p (pp, (cache, g))).0.0 in
        let sent : (send_payment (services_of out round) p (pp, (cache, g))).0.1 ≡ (cache, g') =
          send_payment-world round p pp (cache, g) ∙ through-known round p id cache g h in
        ap (λ (w : Connection). (replay out p rounds (pp', w)).1) sent
        ∙ replay-pay_rounds rounds pp' g' h (sent_once-way round g mode)
        ∙ ap (λ (x : Gateway). (cache, x)) (pay_rounds-sent_once round rounds g mode)

-- A payment to a receiver that the application sends through the retry and that the queue sends
-- again any number of times, to a gateway that uses two-phase commit and serves nothing else in
-- between, but whose cleanup of old records runs before any sending: it leaves the gateway as if the
-- sendings that find the payment committed had never come, and the others had each been served up to
-- its first success. That holds whatever requests and replies are lost, and whatever new identifiers
-- there are, as long as the client runs.
pub pay_and_replay-pay_rounds :
    (out : Outside) (p : PendingPayment) (first : Round) (rounds : List Round)
    (pp : PaymentProcessor) (cache : TransactionCache) (g : Gateway)
    → g.uses_two_phase ≡ true
    → p.receiver_name ≢ ""
    → let req = payment_details (services_of out first) p in
      let (cache', id) = get_or_create_transaction_id first.new_id (key_of out req) cache in
      (pay_and_replay out p first rounds (pp, (cache, g))).1
      ≡ (cache', pay_rounds req id (first ∷ rounds) g)
unfolding pay_and_replay make_payment_through retry_interceptor retry_context ensure_transaction_id
    add_transaction_id_to_context insert
pay_and_replay-pay_rounds out p first rounds pp cache g mode named =
    let req = payment_details (services_of out first) p in
    let (cache', id) = get_or_create_transaction_id first.new_id (key_of out req) cache in
    let known = lookup-get_or_create_transaction_id first.new_id (key_of out req) cache in
    replay-pay_rounds out p id cache' first named rounds pp
      (sent_once out p id cache' first named first g) known
      (sent_once-way out p id cache' first named first g mode)
    ∙ ap (λ (x : Gateway). (cache', x))
        (pay_rounds-sent_once out p id cache' first named first rounds g mode)
