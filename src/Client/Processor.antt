-- ===== src/Client/Processor.antt =====
-- The payments that the client sends for its queue (client/payment/processing.go). The two remote
-- services are arguments, over a world that a call may change; so is the library's search in a text.
use distributed_systems_iiit.Common.{
  String, Bool, true, false, none, some, [], ◌∷◌, string_key, or_else, ◌||◌, if◌then◌else◌,
}
use distributed_systems_iiit.Common.Dict.{Dict, lookup, insert}
use distributed_systems_iiit.Protofiles.{PaymentDetails, PaymentResponse}
use distributed_systems_iiit.Gateway.Auth.{AuthResponse, Context}
use distributed_systems_iiit.Gateway.Banking.{Result, ok, err}
use distributed_systems_iiit.Client.Queue.{PendingPayment}

pub record PaymentProcessor : Type 0 where
  pub credentials : Dict String String
  pub authenticated : Dict String Bool

-- `AuthServiceClient.Authenticate` and `PaymentGatewayClient.MakePayment`; an error is its message.
pub record Services (W : Type 0) : Type 0 where
  pub authenticate : String → String → W → W × Result AuthResponse
  pub make_payment : Context → PaymentDetails → W → W × Result PaymentResponse
  -- `strings.Contains`
  pub contains : String → String → Bool

unfoldable pub add_credentials : String → String → PaymentProcessor → PaymentProcessor
add_credentials username password pp = record {
  credentials = insert username password pp.credentials;
  authenticated = insert username false pp.authenticated;
}

unfoldable pub store_credentials : String → String → PaymentProcessor → PaymentProcessor
store_credentials username password pp = record pp {
  credentials = insert username password pp.credentials;
}

module _ {W : Type 0} (services : Services W) where
  open services use {authenticate, make_payment, contains}

  unfoldable pub is_connection_error : String → Bool
  is_connection_error message =
      contains message "unavailable"
      || (contains message "deadline exceeded" || contains message "connection refused")

  unfoldable pub authenticate_user : String → PaymentProcessor × W → (PaymentProcessor × W) × Bool
  authenticate_user username (pp, w) =
      if or_else false (lookup username pp.authenticated)
      then ((pp, w), true)
      else elim (lookup username pp.credentials) [
        | none ↦ ((pp, w), false)
        | some password ↦
            let (w', r) = authenticate username password w in
            elim r [
              | err _ ↦ ((pp, w'), false)
              | ok response ↦
                  if response.success
                  then (
                    (record pp { authenticated = insert username true pp.authenticated }, w'),
                    true,
                  )
                  else ((pp, w'), false)
            ]
      ]

  abbrev pub payment_context : PendingPayment → Context
  payment_context p =
      some (("username", p.client_name ∷ []) ∷ ("transaction_id", p.transaction_id ∷ []) ∷ [])

  abbrev pub payment_details : PendingPayment → PaymentDetails
  payment_details p = record {
    client_name = p.client_name;
    amount = p.amount;
    receiver_name = p.receiver_name;
    currency = "";
    request_id = p.request_id;
  }

  -- A failed authentication does not stop the payment.
  unfoldable pub send_payment :
      PendingPayment → PaymentProcessor × W → (PaymentProcessor × W) × Bool × String
  unfolding authenticate_user
  send_payment p s =
      let ((pp, w), _) = authenticate_user p.client_name s in
      let (w', r) = make_payment (payment_context p) (payment_details p) w in
      elim r [
        | err message ↦ ((pp, w'), false, message)
        | ok response ↦ ((pp, w'), response.success, response.message)
      ]
