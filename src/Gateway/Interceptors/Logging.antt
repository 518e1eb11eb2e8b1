-- ===== src/Gateway/Interceptors/Logging.antt =====
-- What the gateway logs of a call (gateway/interceptors/logging.go). An entry is its fields without the
-- durations; the library's text of an amount is an argument. The cases of the type switches for
-- messages that no method of the gateway has are left out.
use Prim.Native.String.{◌++◌}
use distributed_systems_iiit.Common.{
  String, Bool, true, false, Option, none, some, List, [], ◌∷◌, ◌++◌ as list_append, string_key,
  or_else, if◌then◌else◌,
}
use distributed_systems_iiit.Common.Int.{ℤ}
use distributed_systems_iiit.Common.Dict.{lookup}
use distributed_systems_iiit.Gateway.Auth.{Code, unavailable, deadline_exceeded, Context}
use distributed_systems_iiit.Gateway.Interceptors.{Ending, returned, error, panicked, Interceptor}
use distributed_systems_iiit.Gateway.Calls.{
  Call, make_payment_call, get_balance_call, Response, authenticated, paid, Request,
}

-- What stands in every entry of a call but the first: the client, the amount and the transaction id.
pub record Subject : Type 0 where
  pub client_name : String
  pub amount : String
  pub transaction_id : String

pub data Entry : Type 0 where
  -- the method, the username, the address, the transaction id and the payload
  request : String → String → String → String → Call → Entry
  failure : String → Subject → Code → String → Entry
  retry_needed : Subject → Code → String → Entry
  -- with the status and the response, which may be nil
  response : String → Subject → String → Option Response → Entry

-- The first value of a key, if there is one.
unfoldable pub first_or : String → String → Context → String
first_or default key none = default
first_or default key (some md) = elim (or_else [] (lookup key md)) [ [] ↦ default | v ∷ _ ↦ v ]

abbrev pub username_of : Context → String
username_of = first_or "anonymous" "username"

abbrev pub transaction_id_of : Context → String
transaction_id_of = first_or "none" "transaction_id"

unfoldable pub subject : (ℤ → String) → Request → Subject
subject format req = elim req.call [
  | make_payment_call v ↦ record {
    client_name = v.client_name;
    amount = format v.amount;
    transaction_id = transaction_id_of req.context;
  }
  | get_balance_call client_name ↦ record {
    client_name = client_name;
    amount = "N/A (Balance Check)";
    transaction_id = transaction_id_of req.context;
  }
  | _ ↦ record {
    client_name = username_of req.context;
    amount = "N/A";
    transaction_id = transaction_id_of req.context;
  }
]

abbrev success_or : Bool → String → String
success_or success message = if success then "SUCCESS" else "FAILED: " ++ message

abbrev pub response_status : Option Response → String
response_status (some (paid v)) = success_or v.success v.message
response_status (some (authenticated v)) = success_or v.success v.message
response_status _ = "COMPLETED"

-- Whether a failed call is logged as one to retry.
abbrev pub needs_retry : Code → Bool
needs_retry deadline_exceeded = true
needs_retry unavailable = true
needs_retry _ = false

unfoldable pub request_entry : String → Request → Entry
unfolding first_or
request_entry method req =
    request method (username_of req.context) (or_else "unknown" req.address)
      (transaction_id_of req.context) req.call

-- The entries after the handler, from the newest on; a panic passes the interceptor by.
unfoldable pub ending_entries : (ℤ → String) → String → Request → Ending Response → List Entry
unfolding subject
ending_entries format method req (returned r) =
    response method (subject format req) (response_status r) r ∷ []
ending_entries format method req (error c message) =
    let failed = failure method (subject format req) c message ∷ [] in
    if needs_retry c then retry_needed (subject format req) c message ∷ failed else failed
ending_entries format method req panicked = []

-- The entries are listed from the newest on.
unfoldable pub logging_interceptor :
    {W : Type 0} → (ℤ → String) → Interceptor Request (List Entry × W) Response
unfolding request_entry ending_entries
logging_interceptor format method handler req (log, w) =
    let ((log', w'), r) = handler req (request_entry method req ∷ log, w) in
    ((list_append (ending_entries format method req r) log', w'), r)
