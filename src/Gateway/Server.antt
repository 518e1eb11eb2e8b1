-- ===== src/Gateway/Server.antt =====
-- The gateway's server (gateway/server.go): how it starts from its files, its methods, and the chain of
-- interceptors that every call passes.
pub mod Chain
pub mod Safety
pub mod Retry
mod Tests
use distributed_systems_iiit.Common.{
  ℕ, String, Bool, true, Option, none, some, List, [], ◌∷◌, or_else,
}
use distributed_systems_iiit.Common.Int.{ℤ}
use distributed_systems_iiit.Common.Dict.{Dict}
use distributed_systems_iiit.Gateway.Auth.{
  User, Service, load_users, authenticate, unary, Reply, responded, failed,
}
use distributed_systems_iiit.Gateway.Balances.{BalanceData, load_balances}
use distributed_systems_iiit.Gateway.Banking.{Network}
use distributed_systems_iiit.Gateway.Banking.Setup.{BankConnection, new_bank_service}
use distributed_systems_iiit.Gateway.State.{Gateway}
use distributed_systems_iiit.Gateway.Payment.{process_payment, get_client_balance}
use distributed_systems_iiit.Gateway.Monitoring.{
  Texts, get_transaction_status, list_active_transactions,
}
use distributed_systems_iiit.Gateway.Interceptors.{
  Ending, returned, error, Handler, Interceptor, chain_interceptors, recovery_interceptor,
}
use distributed_systems_iiit.Gateway.Interceptors.Logging.{Entry, logging_interceptor}
use distributed_systems_iiit.Gateway.Calls.{
  Call, authenticate_call, make_payment_call, get_balance_call, get_transaction_status_call,
  list_active_transactions_call, full_method, Response, authenticated, paid, balance_found,
  transaction_status, transactions, Request,
}

-- `GatewayServer` with what its pointers lead to.
pub record Node : Type 0 where
  pub auth : Service
  pub gateway : Gateway

-- With what it has logged, from the newest entry on.
abbrev pub Server : Type 0
Server = List Entry × Node

-- What the files hold, as it is parsed; `none` is a file that cannot be read or parsed.
pub record Files : Type 0 where
  pub users : Option (List User)
  pub balances : Option (List BalanceData)
  pub clients : Option (Dict String (Dict String String))

-- `NewGatewayServer`, for the banks beyond the network; `none` where it returns an error.
unfoldable pub new_gateway_server : ℕ → List BankConnection → Files → Network → Option Node
unfolding load_users load_balances new_bank_service
new_gateway_server ttl connections files network = elim files.users [
  | none ↦ none
  | some users ↦
      elim (load_balances files.balances
        (record { account_balances = []; file = or_else [] files.balances })) [
          | none ↦ none
          | some balances ↦ some (record {
            auth = record { user_storage = load_users users []; authenticated_users = [] };
            gateway = record {
              balances = balances;
              transactions = record { transactions = []; ttl = ttl };
              banking = new_bank_service connections files.clients;
              uses_two_phase = true;
              network = network;
            };
          })
        ]
]

-- A reply of a method as the end of its handler.
abbrev pub ending_of : {A : Type 0} → (A → Response) → Reply A → Ending Response
ending_of f (responded a) = returned (some (f a))
ending_of f (failed c message) = error c message

module _ (texts : Texts) where
  -- The methods of the server.
  unfoldable pub handle_call : Call → Request → Node → Node × Ending Response
  unfolding authenticate process_payment get_client_balance get_transaction_status
      list_active_transactions
  handle_call (authenticate_call username password) req n =
      let (auth, r) = authenticate username password n.auth in
      (record n { auth = auth }, returned (some (authenticated r)))
  handle_call (make_payment_call details) req n =
      let (g, r) = process_payment req.environment req.context details n.gateway in
      (record n { gateway = g }, ending_of paid r)
  handle_call (get_balance_call client_name) req n =
      (n, ending_of balance_found (get_client_balance req.context client_name n.gateway))
  handle_call (get_transaction_status_call id) req n =
      let status = get_transaction_status texts id n.gateway.transactions in
      (n, returned (some (transaction_status status)))
  handle_call list_active_transactions_call req n =
      (n, returned (some (transactions (list_active_transactions texts n.gateway.transactions))))

  abbrev pub handle : Handler Request Node Response
  handle req n = handle_call req.call req n

  -- The handler does not log.
  abbrev pub with_log : Handler Request Node Response → Handler Request Server Response
  with_log handler req (log, n) = let (n', r) = handler req n in ((log, n'), r)

-- `auth.NewAuthInterceptor` of the server's service: its decision before the handler runs.
unfoldable pub auth_interceptor : Interceptor Request Server Response
unfolding unary
auth_interceptor method handler req (log, n) =
    elim (unary n.auth method req.context (responded true)) [
      | failed c message ↦ ((log, n), error c message)
      | responded _ ↦ handler req (log, n)
    ]

module _ (texts : Texts) where
  -- The chain that `RunServer` installs.
  abbrev pub interceptors : List (Interceptor Request Server Response)
  interceptors = recovery_interceptor ∷ logging_interceptor texts.amount ∷ auth_interceptor ∷ []

  unfoldable pub serve : Handler Request Server Response
  unfolding chain_interceptors handle_call
  serve req s =
      chain_interceptors interceptors (full_method req.call) (with_log texts (handle texts)) req s

  -- The calls that come one after another, with what each gets.
  unfoldable pub run : List Request → Server → Server × List (Ending Response)
  unfolding serve
  run [] s = (s, [])
  run (req ∷ rest) s =
      let (s', r) = serve req s in let (s'', answers) = run rest s' in (s'', r ∷ answers)
