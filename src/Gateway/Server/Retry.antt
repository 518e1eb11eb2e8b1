-- ===== src/Gateway/Server/Retry.antt =====
-- A payment that is asked for again at the server.
use distributed_systems_iiit.Common.{
  ◌≡◌, ◌≢◌, ◌∙◌, refl, sym, ap, String, Bool, true, some, List, Option, string_key, arith,
}
use distributed_systems_iiit.Protofiles.{PaymentDetails, PaymentResponse}
use distributed_systems_iiit.Gateway.Auth.{
  Context, Reply, responded, failed, unary, extract_username,
}
use distributed_systems_iiit.Gateway.State.{Gateway, Environment}
use distributed_systems_iiit.Gateway.Payment.{process_payment, extract_transaction_id}
use distributed_systems_iiit.Gateway.Payment.Retry.{already_processed, process_payment_retry}
use distributed_systems_iiit.Gateway.Monitoring.{Texts}
use distributed_systems_iiit.Gateway.Interceptors.{Ending, returned}
use distributed_systems_iiit.Gateway.Interceptors.Logging.{Entry}
use distributed_systems_iiit.Gateway.Calls.{make_payment_call, Response, paid, Request}
use distributed_systems_iiit.Gateway.Server.{Node, Server, ending_of, handle_call, serve}
use distributed_systems_iiit.Gateway.Server.Chain.{
  admitted_as, admitted_call, serve-admitted, logged,
}

-- A payment with its metadata, from some address.
abbrev pub payment_request : PaymentDetails → Context → Option String → Environment → Request
payment_request details ctx address env = record {
  context = ctx;
  address = address;
  call = make_payment_call details;
  environment = env;
}

ending_of-paid :
    (r : Reply PaymentResponse) (p : PaymentResponse)
    → ending_of paid r ≡ returned (some (paid p))
    → r ≡ responded p
ending_of-paid (responded a) p h = ground (arith, h)
ending_of-paid (failed c m) p h = absurd (cc h)

module _ (texts : Texts) (ctx : Context) (details : PaymentDetails) where
  -- A payment that is answered was admitted, and admitted again it is only processed.
  admitted_payment :
      (address : Option String) (env : Environment) (n : Node) (p : PaymentResponse)
      → let call = make_payment_call details in
        let again = admitted_call texts call (payment_request details ctx address env) in
        (again n).1 ≡ returned (some (paid p))
        → ((process_payment env ctx details n.gateway).1 ≡ responded p)
          × ((b : Bool) × (unary n.auth "/proto.PaymentGateway/MakePayment" ctx (responded true)
                ≡ responded b))
  unfolding admitted_call handle_call
  admitted_payment address env n p h =
      go (unary n.auth "/proto.PaymentGateway/MakePayment" ctx (responded true)) refl
    where
      go :
          (u : Reply Bool)
          → unary n.auth "/proto.PaymentGateway/MakePayment" ctx (responded true) ≡ u
          → ((process_payment env ctx details n.gateway).1 ≡ responded p)
            × ((b : Bool) × (unary n.auth "/proto.PaymentGateway/MakePayment" ctx (responded true)
                  ≡ responded b))
      go (failed c m) e = absurd (cc (e, h))
      go (responded b) e = (
        ending_of-paid _ p (
            sym (
              ap
                (λ x.
                  (admitted_as x n (
                    handle_call texts (make_payment_call details)
                      (payment_request details ctx address env) n)).1)
                e)
            ∙ h),
        (b, e),
      )

  pub admitted_responded :
      (address : Option String) (env : Environment) (n : Node) (b : Bool) (g : Gateway)
      (q : PaymentResponse)
      → unary n.auth "/proto.PaymentGateway/MakePayment" ctx (responded true) ≡ responded b
      → process_payment env ctx details n.gateway ≡ (g, responded q)
      → admitted_call texts (make_payment_call details) (payment_request details ctx address env) n
        ≡ (record n { gateway = g }, returned (some (paid q)))
  unfolding admitted_call handle_call
  admitted_responded address env n b g q allowed processed = rw (allowed, processed) refl

  pub serve_responded :
      (address : Option String) (env : Environment) (log : List Entry) (n n' : Node)
      (r : Ending Response)
      → let req = payment_request details ctx address env in
        admitted_call texts (make_payment_call details) req n ≡ (n', r)
        → serve texts req (log, n) ≡ ((logged texts req r log, n'), r)
  serve_responded address env log n n' r e =
      let req = payment_request details ctx address env in
      serve-admitted texts req log n
      ∙ ap (λ (x : Node × Ending Response). ((logged texts req x.1 log, x.0), x.1)) e

-- A payment to a receiver that the server answered with success, on a gateway that uses two-phase
-- commit, is answered with success again whenever it is asked for again at once with the same
-- metadata, from whatever address and whatever the environment does, and the second call changes
-- nothing but the log.
pub serve_payment_again :
    (texts : Texts) (ctx : Context) (details : PaymentDetails) (address address' : Option String)
    (env env' : Environment) (tx_id : String) (log : List Entry) (n : Node) (p : PaymentResponse)
    → extract_username ctx ≡ responded details.client_name
    → extract_transaction_id ctx ≡ responded tx_id
    → n.gateway.uses_two_phase ≡ true
    → details.receiver_name ≢ ""
    → (serve texts (payment_request details ctx address env) (log, n)).1 ≡ returned (some (paid p))
    → p.success ≡ true
    → let s' = (serve texts (payment_request details ctx address env) (log, n)).0 in
      let (s'', r) = serve texts (payment_request details ctx address' env') s' in
      (r ≡ returned (some (paid (already_processed details tx_id)))) × (s''.1 ≡ s'.1)
serve_payment_again texts ctx details address address' env env' tx_id log n p user id mode named
      first ok =
    let req = payment_request details ctx address env in
    let (processed, (b, allowed)) =
      admitted_payment texts ctx details address env n p (
        sym (ap (λ (x : Server × Ending Response). x.1) (serve-admitted texts req log n))
        ∙ first) in
    let g' = (process_payment env ctx details n.gateway).0 in
    let n' : Node = record n { gateway = g' } in
    let once = serve_responded texts ctx details address env log n n' (returned (some (paid p))) (
      admitted_responded texts ctx details address env n b g' p allowed
        (ap (λ (x : Reply PaymentResponse). (g', x)) processed)) in
    let again =
      process_payment_retry env env' ctx details tx_id n.gateway p user id mode named processed
        ok in
    let q = already_processed details tx_id in
    let twice = λ (log' : List Entry).
      serve_responded texts ctx details address' env' log' n' n' (returned (some (paid q)))
        (admitted_responded texts ctx details address' env' n' b g' q allowed again) in
    rw once (rw (twice _) (refl, refl))
