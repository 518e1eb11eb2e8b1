-- ===== src/Client/App.antt =====
-- The application of the client (client/client.go). What the user types is an argument of an operation
-- and what the operation prints is its result. The gateway's client with its interceptors, and the
-- parsing and printing of numbers, are arguments.
pub mod Payments
pub mod Replay
pub mod Tests
use distributed_systems_iiit.Common.{
  ℕ, String, Bool, true, false, Option, none, some, List, [], ◌∷◌, ◌==◌, string_key, if◌then◌else◌,
}
use distributed_systems_iiit.Common.Int.{ℤ}
use distributed_systems_iiit.Common.Dict.{Dict}
use distributed_systems_iiit.Protofiles.{PaymentDetails, PaymentResponse}
use distributed_systems_iiit.Gateway.Auth.{
  AuthResponse, Context, invalid_argument, first_value, Reply, responded, failed,
}
use distributed_systems_iiit.Gateway.Banking.{Result, ok, err}
use distributed_systems_iiit.Client.Queue.{
  PendingPayment, OfflinePaymentManager, get_pending_payments,
}
use distributed_systems_iiit.Client.Queue.Notices
use distributed_systems_iiit.Client.Queue.Notices.{
  Display, TransactionStatus, display_transaction_status,
}
use distributed_systems_iiit.Client.Processor.{
  PaymentProcessor, Services, is_connection_error, send_payment, store_credentials,
}
use distributed_systems_iiit.Client.Manager.{Processor, State, queue_payment}
use distributed_systems_iiit.Client.Login.{
  AuthManager, RequestCounter, authenticate_users, is_authenticated, get_next_request_id,
  increment_counter,
}

-- The libraries and the calls that the application makes besides those of its queue.
pub record Platform (W : Type 0) : Type 0 where
  pub services : Services W
  -- `PaymentGatewayClient.Authenticate` and `GetBalance`
  pub login : String → String → W → W × Result AuthResponse
  pub get_balance : Context → String → W → W × Result (ℤ × String)
  -- `strconv.ParseFloat` and `%d`
  pub parse_amount : String → Option ℤ
  pub decimal : ℕ → String

-- `ClientApp`, with the world around it. The queue's processor and the queue are one state.
pub record ClientApp (W : Type 0) : Type 0 where
  pub auth_manager : AuthManager
  pub request_counter : RequestCounter
  pub offline_manager : OfflinePaymentManager
  pub processor : PaymentProcessor
  pub world : W

-- What the user types during one visit of the menu.
pub record Typed : Type 0 where
  pub client_name : String
  pub password : String
  pub operation : String
  pub amount : String
  pub transfer_choice : String
  pub receiver : String
  pub transaction_id : String
  pub now : ℕ

-- What the user sees.
pub data Shown : Type 0 where
  invalid_amount not_authenticated invalid_option invalid_operation nothing balance_failed
        not_found :
      Shown
  balance_of : ℤ → String → Shown
  -- with the transaction id
  payment_succeeded payment_queued : String → Shown
  payment_failed : String → String → Shown
  pending_list : List PendingPayment → Shown
  transaction_status : TransactionStatus → Shown
  notification_list : Display → Shown

-- The outgoing metadata of a user.
abbrev pub user_context : String → Context
user_context client_name = some (("username", client_name ∷ []) ∷ [])

-- The transaction id in the application's own context: the interceptors put theirs in a copy.
unfoldable pub own_transaction_id : Context → String
unfolding first_value
own_transaction_id ctx = elim (first_value invalid_argument "transaction_id" "" ctx) [
  | responded id ↦ id
  | failed _ _ ↦ ""
]

module _ {W : Type 0} (platform : Platform W) where
  open platform use {services, login, get_balance, parse_amount, decimal}

  -- The processor of the queue.
  abbrev pub client_processor : Processor (PaymentProcessor × W)
  client_processor = record {
    process_payment = send_payment services;
    is_connection_error = is_connection_error services;
  }

  unfoldable pub authenticate_user : String → String → ClientApp W → ClientApp W × Bool
  unfolding authenticate_users is_authenticated store_credentials
  authenticate_user client_name password app =
      let (am, w) =
        authenticate_users login (record { username = client_name; password = password } ∷ [])
          (app.auth_manager, app.world) in
      let app' = record app { auth_manager = am; world = w } in
      if is_authenticated client_name am
      then (record app' { processor = store_credentials client_name password app'.processor }, true)
      else (app', false)

  unfoldable pub handle_check_balance : String → ClientApp W → ClientApp W × Shown
  handle_check_balance client_name app =
      let (w, r) = get_balance (user_context client_name) client_name app.world in
      (
        record app { world = w },
        elim r [ err _ ↦ balance_failed | ok (balance, currency) ↦ balance_of balance currency ],
      )

  -- The queueing of a payment whose call failed.
  unfoldable pub queue_failed : PaymentDetails → String → ℕ → ClientApp W → ClientApp W
  unfolding queue_payment
  queue_failed req transaction_id now app =
      let (m, (pp, w)) =
        queue_payment client_processor req.client_name req.amount transaction_id req.receiver_name
          req.request_id now (app.offline_manager, (app.processor, app.world)) in
      record app { offline_manager = m; processor = pp; world = w }

  -- The request that is sent.
  unfoldable pub payment_request : String → ℤ → String → String → RequestCounter → PaymentDetails
  unfolding get_next_request_id
  payment_request client_name amount transfer_choice receiver rc = record {
    client_name = client_name;
    amount = amount;
    receiver_name = if transfer_choice == "2" then receiver else "";
    currency = "";
    request_id = get_next_request_id decimal client_name rc;
  }

  -- `handleMakePayment`; `receiver` is read only for a transfer.
  unfoldable pub handle_make_payment :
      String → String → String → String → ℕ → ClientApp W → ClientApp W × Shown
  unfolding queue_failed payment_request own_transaction_id increment_counter
  handle_make_payment client_name amount_str transfer_choice receiver now app =
      elim (parse_amount amount_str) [
        | none ↦ (app, invalid_amount)
        | some amount ↦
            let req =
              payment_request client_name amount transfer_choice receiver app.request_counter in
            let ctx = user_context client_name in
            let (w, r) = services.make_payment ctx req app.world in
            let app' = record app { world = w } in
            let transaction_id = own_transaction_id ctx in
            elim r [
              | err _ ↦ (queue_failed req transaction_id now app', payment_queued transaction_id)
              | ok resp ↦
                  if resp.success
                  then (
                    record app' {
                      request_counter = increment_counter client_name app'.request_counter;
                    },
                    payment_succeeded transaction_id,
                  )
                  else (app', payment_failed transaction_id resp.message)
            ]
      ]

  unfoldable pub display_pending_payments : ClientApp W → Shown
  unfolding get_pending_payments
  display_pending_payments app = pending_list (get_pending_payments app.offline_manager)

  unfoldable pub handle_check_transaction_status : String → ClientApp W → ClientApp W × Shown
  unfolding display_transaction_status
  handle_check_transaction_status transaction_id app =
      let m = app.offline_manager in
      let (notifier, found) = display_transaction_status transaction_id m.notifier in
      (
        record app { offline_manager = record m { notifier = notifier } },
        elim found [ none ↦ not_found | some status ↦ transaction_status status ],
      )

  unfoldable pub display_notifications : ClientApp W → ClientApp W × Shown
  unfolding Notices.display_notifications
  display_notifications app =
      let m = app.offline_manager in
      let (notifier, shown) = Notices.display_notifications m.notifier in
      (record app { offline_manager = record m { notifier = notifier } }, notification_list shown)

  -- The `switch` of the operations.
  unfoldable pub run_operation : Typed → ClientApp W → ClientApp W × Shown
  unfolding handle_check_balance handle_make_payment display_pending_payments
      handle_check_transaction_status display_notifications
  run_operation t app =
      if t.operation == "1"
      then handle_check_balance t.client_name app
      else if t.operation == "2"
      then handle_make_payment t.client_name t.amount t.transfer_choice t.receiver t.now app
      else if t.operation == "3"
      then (app, display_pending_payments app)
      else if t.operation == "4"
      then handle_check_transaction_status t.transaction_id app
      else if t.operation == "5"
      then display_notifications app
      else if t.operation == "6"
      then (app, nothing)
      else (app, invalid_operation)

  unfoldable pub handle_client_operations : Typed → ClientApp W → ClientApp W × Shown
  unfolding authenticate_user run_operation is_authenticated
  handle_client_operations t app =
      if is_authenticated t.client_name app.auth_manager
      then run_operation t app
      else let (app', accepted) = authenticate_user t.client_name t.password app in
        if accepted then run_operation t app' else (app', not_authenticated)
