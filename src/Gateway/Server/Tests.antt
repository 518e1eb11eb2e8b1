-- ===== src/Gateway/Server/Tests.antt =====
-- A server with one user, and calls of others.
use mathlib.Core.Bool.{false≢true}
use distributed_systems_iiit.Common.{
  ◌≡◌, refl, ap, true, false, none, some, List, [], ◌∷◌, ==_iff, string_key,
}
use distributed_systems_iiit.Common.Dict.{lookup}
use distributed_systems_iiit.Gateway.Auth.{Context, responded, unary, has_role, extract_username}
use distributed_systems_iiit.Gateway.Auth.Tests.{service}
use distributed_systems_iiit.Gateway.Payment.{process_payment}
use distributed_systems_iiit.Gateway.Payment.Retry.{already_processed}
use distributed_systems_iiit.Gateway.Monitoring.{Texts}
use distributed_systems_iiit.Gateway.Interceptors.{Ending, returned}
use distributed_systems_iiit.Gateway.Calls.{
  authenticate_call, make_payment_call, paid, Response, Request,
}
use distributed_systems_iiit.Gateway.Server.{Node, Server, serve, run}
use distributed_systems_iiit.Gateway.Server.Safety.{pays_call, run-gateway}
use distributed_systems_iiit.Gateway.Server.Retry.{
  payment_request, admitted_responded, serve_responded, serve_payment_again,
}
use distributed_systems_iiit.Gateway.Tests.{
  gateway, all_well, lossy, context, to_client, named, identified, succeeded, first_succeeds,
}

abbrev texts : Texts
texts = record {
  amount = λ _. "50.00";
  time = λ _. "now";
  since = λ _. "0s";
  votes = λ _. "map[]";
  truth = λ _. "true";
}

abbrev node : Node
node = record { auth = service; gateway = gateway }

-- Bob is not a user of the gateway, and Alice pays as somebody else.
abbrev bob : Context
bob = some (("username", "Bob" ∷ []) ∷ ("transaction_id", "tx-2" ∷ []) ∷ [])

abbrev for_bob : Request
for_bob = record {
  context = bob;
  address = none;
  call = make_payment_call (record (to_client "Alice") { client_name = "Bob" });
  environment = all_well;
}

abbrev login : Request
login = record {
  context = none;
  address = some "127.0.0.1:4000";
  call = authenticate_call "Alice" "alice";
  environment = all_well;
}

abbrev as_bob : Request
as_bob = record {
  context = context;
  address = none;
  call = make_payment_call (record (to_client "Alice") { client_name = "Bob" });
  environment = all_well;
}

abbrev calls : List Request
calls = for_bob ∷ login ∷ as_bob ∷ []

no_call_pays :
    (pays_call service bob for_bob.call ≡ false)
    × (pays_call service none login.call ≡ false)
    × (pays_call service context as_bob.call ≡ false)
unfolding pays_call extract_username has_role lookup
no_call_pays = (refl, refl, refl)

run-gateway_example : (run texts calls ([], node)).0.1.gateway ≡ gateway
run-gateway_example =
    run-gateway texts calls [] node (no_call_pays.0, (no_call_pays.1, (no_call_pays.2, tt)))

alice_may_pay :
    unary service "/proto.PaymentGateway/MakePayment" context (responded true) ≡ responded true
unfolding unary extract_username has_role lookup
alice_may_pay = refl

abbrev first : Request
first = payment_request (to_client "Bob") context none all_well

first_paid : (serve texts first ([], node)).1 ≡ returned (some (paid succeeded))
first_paid =
    let g = (process_payment all_well context (to_client "Bob") gateway).0 in
    ap (λ (x : Server × Ending Response). x.1)
      (serve_responded texts context (to_client "Bob") none all_well [] node
        (record node { gateway = g }) (returned (some (paid succeeded)))
        (admitted_responded texts context (to_client "Bob") none all_well node true g succeeded
          alice_may_pay (ap (λ x. (g, x)) first_succeeds)))

serve_payment_again_example :
    let s' = (serve texts first ([], node)).0 in
    let (s'', r) = serve texts (payment_request (to_client "Bob") context none lossy) s' in
    (r ≡ returned (some (paid (already_processed (to_client "Bob") "tx-1")))) × (s''.1 ≡ s'.1)
serve_payment_again_example =
    serve_payment_again texts context (to_client "Bob") none none all_well lossy "tx-1" [] node
      succeeded named identified refl (λ p. false≢true ((==_iff "Bob" "").1 p)) first_paid refl
