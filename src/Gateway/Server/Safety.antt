-- ===== src/Gateway/Server/Safety.antt =====
-- Which calls change the gateway and the banks.
use distributed_systems_iiit.Common.{
  ◌≡◌, ◌⊎◌, ◌∙◌, refl, sym, inl, inr, String, Bool, true, false, List, [], ◌∷◌, ◌==◌, string_key,
  arith, ◌&&◌, Bool-cases,
}
use distributed_systems_iiit.Common.Lists.{All}
use distributed_systems_iiit.Common.Dict.{lookup}
use distributed_systems_iiit.Gateway.Auth.{
  Code, permission_denied, Context, Reply, responded, failed, Service, authenticate, unary,
  has_role, extract_username,
}
use distributed_systems_iiit.Gateway.Auth.Access.{Reply-cases, has_role-storage}
use distributed_systems_iiit.Gateway.State.{Gateway, Environment}
use distributed_systems_iiit.Protofiles.{PaymentDetails}
use distributed_systems_iiit.Gateway.Payment.{process_payment}
use distributed_systems_iiit.Gateway.Monitoring.{Texts}
use distributed_systems_iiit.Gateway.Interceptors.{Ending}
use distributed_systems_iiit.Gateway.Interceptors.Logging.{Entry}
use distributed_systems_iiit.Gateway.Calls.{
  Call, authenticate_call, make_payment_call, get_balance_call, get_transaction_status_call,
  list_active_transactions_call, Response, Request,
}
use distributed_systems_iiit.Gateway.Server.{Node, handle_call, run}
use distributed_systems_iiit.Gateway.Server.Chain.{
  admitted_as, admitted_call, admitted, serve-admitted,
}

-- Whether a call is a payment that its user may make: the user of its metadata is the client, is known
-- and is a user or an admin.
unfoldable pub pays_call : Service → Context → Call → Bool
pays_call auth ctx (make_payment_call details) = elim (extract_username ctx) [
  | failed _ _ ↦ false
  | responded username ↦
      (username == details.client_name) && has_role username ("user" ∷ "admin" ∷ []) auth
]
pays_call auth ctx _ = false

abbrev pub pays : Service → Request → Bool
pays auth req = pays_call auth req.context req.call

admitted_as-keeps :
    {A : Type 0} (f : Node → A) (u : Reply Bool) (n : Node) (served : Node × Ending Response)
    → f served.0 ≡ f n
    → f (admitted_as u n served).0 ≡ f n
admitted_as-keeps f (failed _ _) n served h = refl
admitted_as-keeps f (responded _) n served h = h

not_paying :
    (auth : Service) (ctx : Context) (details : PaymentDetails)
    → pays_call auth ctx (make_payment_call details) ≡ false
    → (env : Environment) (g : Gateway)
    → ((process_payment env ctx details g).0 ≡ g)
      ⊎ ((c : Code) × (m : String) × (unary auth "/proto.PaymentGateway/MakePayment" ctx
              (responded true)
            ≡ failed c m))
unfolding pays_call process_payment unary lookup
not_paying auth ctx details h env g = elim (Reply-cases (extract_username ctx)) [
  | inl (c, m, e) ↦ inl (ground arith)
  | inr (username, e) ↦ elim (Bool-cases (username == details.client_name)) [
    | inl same ↦ inr (
      permission_denied,
      "insufficient permissions",
      let no_role : has_role username ("user" ∷ "admin" ∷ []) auth ≡ false = ground arith in
          rw (e, no_role) refl,
    )
    | inr other ↦ inl (ground arith)
  ]
]

module _ (texts : Texts) where
  admitted_call-gateway :
      (call : Call) (req : Request) (n : Node)
      → pays_call n.auth req.context call ≡ false
      → (admitted_call texts call req n).0.gateway ≡ n.gateway
  unfolding admitted_call handle_call
  admitted_call-gateway (authenticate_call username password) req n h =
      admitted_as-keeps (λ n'. n'.gateway) (unary n.auth _ req.context (responded true)) n _ refl
  admitted_call-gateway (make_payment_call details) req n h =
      elim (not_paying n.auth req.context details h req.environment n.gateway) [
        | inl same ↦
            admitted_as-keeps (λ n'. n'.gateway) (unary n.auth _ req.context (responded true)) n _
              same
        | inr (c, m, refused) ↦ rw refused refl
      ]
  admitted_call-gateway (get_balance_call client_name) req n h =
      admitted_as-keeps (λ n'. n'.gateway) (unary n.auth _ req.context (responded true)) n _ refl
  admitted_call-gateway (get_transaction_status_call id) req n h =
      admitted_as-keeps (λ n'. n'.gateway) (unary n.auth _ req.context (responded true)) n _ refl
  admitted_call-gateway list_active_transactions_call req n h =
      admitted_as-keeps (λ n'. n'.gateway) (unary n.auth _ req.context (responded true)) n _ refl

  admitted_call-users :
      (call : Call) (req : Request) (n : Node)
      → (admitted_call texts call req n).0.auth.user_storage ≡ n.auth.user_storage
  unfolding admitted_call handle_call authenticate
  admitted_call-users (authenticate_call username password) req n =
      admitted_as-keeps (λ n'. n'.auth.user_storage) (unary n.auth _ req.context (responded true)) n
        _ (ground arith)
  admitted_call-users (make_payment_call details) req n =
      admitted_as-keeps (λ n'. n'.auth.user_storage) (unary n.auth _ req.context (responded true)) n
        _ refl
  admitted_call-users (get_balance_call client_name) req n =
      admitted_as-keeps (λ n'. n'.auth.user_storage) (unary n.auth _ req.context (responded true)) n
        _ refl
  admitted_call-users (get_transaction_status_call id) req n =
      admitted_as-keeps (λ n'. n'.auth.user_storage) (unary n.auth _ req.context (responded true)) n
        _ refl
  admitted_call-users list_active_transactions_call req n =
      admitted_as-keeps (λ n'. n'.auth.user_storage) (unary n.auth _ req.context (responded true)) n
        _ refl

pays_call-users :
    (auth auth' : Service) (ctx : Context) (call : Call)
    → auth.user_storage ≡ auth'.user_storage
    → pays_call auth ctx call ≡ pays_call auth' ctx call
unfolding pays_call
pays_call-users auth auth' ctx (make_payment_call details) same =
    elim (Reply-cases (extract_username ctx)) [
      | inl (c, m, e) ↦ rw (e, pays_call) refl
      | inr (username, e) ↦
          rw (e, pays_call, has_role-storage username ("user" ∷ "admin" ∷ []) auth auth' same) refl
    ]
pays_call-users auth auth' ctx (authenticate_call _ _) same = refl
pays_call-users auth auth' ctx (get_balance_call _) same = refl
pays_call-users auth auth' ctx (get_transaction_status_call _) same = refl
pays_call-users auth auth' ctx list_active_transactions_call same = refl

NonePays : Service → List Request → Type 0
NonePays auth reqs = All (λ req. pays auth req ≡ false) reqs

NonePays-users :
    (auth auth' : Service) (reqs : List Request)
    → auth.user_storage ≡ auth'.user_storage
    → NonePays auth reqs
    → NonePays auth' reqs
unfolding NonePays
NonePays-users auth auth' [] same h = tt
NonePays-users auth auth' (req ∷ rest) same h = (
  sym (pays_call-users auth auth' req.context req.call same) ∙ h.0,
  NonePays-users auth auth' rest same h.1,
)

module _ (texts : Texts) where
  -- Over any calls of the server of which none is a payment that its user may make, the gateway's
  -- balances, records and directory and every bank stay as they are. A user may make a payment whose
  -- client's name is the username in its metadata, if the users' file names that user as a user
  -- or an admin.
  pub run-gateway :
      (reqs : List Request) (log : List Entry) (n : Node)
      → All (λ req. pays n.auth req ≡ false) reqs
      → (run texts reqs (log, n)).0.1.gateway ≡ n.gateway
  unfolding run NonePays
  run-gateway [] log n h = refl
  run-gateway (req ∷ rest) log n h =
      let (n', r) = admitted texts req n in
      let served = serve-admitted texts req log n in
      let later : NonePays n'.auth rest =
        NonePays-users n.auth n'.auth rest (sym (admitted_call-users texts req.call req n)) h.1 in
      rw served (run-gateway rest _ n' later ∙ admitted_call-gateway texts req.call req n h.0)
