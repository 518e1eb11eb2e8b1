-- ===== src/Client/Interceptors/Logging.antt =====
-- What the client logs of a call (client/interceptors/logging.go). An entry is its fields; the time is
-- left out, and the library's text of a number is an argument.
use Prim.Native.String.{◌++◌}
use distributed_systems_iiit.Common.{
  String, Bool, none, some, List, [], ◌∷◌, string_key, or_else, if◌then◌else◌,
}
use distributed_systems_iiit.Common.Int.{ℤ}
use distributed_systems_iiit.Common.Dict.{lookup}
use distributed_systems_iiit.Protofiles.{PaymentResponse}
use distributed_systems_iiit.Gateway.Auth.{AuthResponse, Context, Reply, responded, failed}
use distributed_systems_iiit.Client.Interceptors.{
  Request, payment, balance, authentication, registration, other_request,
}

-- The replies that `determineResponseStatus` tells apart.
pub data Response : Type 0 where
  paid : PaymentResponse → Response
  registered : Bool → String → Response
  authenticated : AuthResponse → Response
  balance_found : ℤ → String → Response
  other_response : Response

abbrev first_or_empty : List String → String
first_or_empty [] = ""
first_or_empty (id ∷ _) = id

unfoldable pub extract_logged_id : Context → String
extract_logged_id none = ""
extract_logged_id (some md) = first_or_empty (or_else [] (lookup "transaction_id" md))

-- The client, the amount and the transaction id.
unfoldable pub extract_request_info : (ℤ → String) → Context → Request → String × String × String
unfolding extract_logged_id
extract_request_info format ctx (payment v) =
    (v.client_name, format v.amount, extract_logged_id ctx)
extract_request_info format ctx (balance name) =
    (name, "N/A (Balance Check)", extract_logged_id ctx)
extract_request_info format ctx (authentication name) =
    (name, "N/A (Authentication)", extract_logged_id ctx)
extract_request_info format ctx (registration name) =
    (name, "N/A (Registration)", extract_logged_id ctx)
extract_request_info format ctx other_request = ("unknown", "unknown", extract_logged_id ctx)

abbrev success_or : Bool → String → String
success_or success message = if success then "SUCCESS" else "FAILED: " ++ message

unfoldable pub determine_response_status : (ℤ → String) → Response → String
determine_response_status format (paid v) = success_or v.success v.message
determine_response_status format (registered success message) = success_or success message
determine_response_status format (authenticated v) = success_or v.success v.message
determine_response_status format (balance_found amount currency) =
    "Balance: " ++ (format amount ++ (" " ++ currency))
determine_response_status format other_response = "COMPLETED"

pub data Entry : Type 0 where
  requested : String × String × String → Entry
  error : String × String × String → String → Entry
  answered : String × String × String → String → Entry

-- The entries are listed from the newest on.
unfoldable pub logging_interceptor :
    {W : Type 0}
    → (ℤ → String)
    → (Context → W → W × Reply Response)
    → Request
    → Context
    → List Entry × W
    → (List Entry × W) × Reply Response
unfolding extract_request_info determine_response_status
logging_interceptor format invoker req ctx (log, w) =
    let info = extract_request_info format ctx req in
    let (w', r) = invoker ctx w in
    let entry : Entry = elim r [
      | failed _ message ↦ error info message
      | responded reply ↦ answered info (determine_response_status format reply)
    ] in
    ((entry ∷ requested info ∷ log, w'), r)
