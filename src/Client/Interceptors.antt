-- ===== src/Client/Interceptors.antt =====
-- The interceptors of the client's calls (client/interceptors): the transaction id of a payment, the
-- retry, and what is logged. What the library makes is an argument: the text of an amount (`%.2f`),
-- a new identifier, and the call itself, over a world that it may change.
pub mod Identity
pub mod AtMostOnce
pub mod Logging
mod Tests
use Prim.Native.String.{◌++◌}
use distributed_systems_iiit.Common.{
  ℕ, zero, suc, String, Bool, true, false, Option, none, some, List, [], ◌∷◌, ◌==◌, string_key,
  ◌&&◌, if◌then◌else◌, or_else,
}
use distributed_systems_iiit.Common.Int.{ℤ}
use distributed_systems_iiit.Common.Dict.{Dict, lookup, insert}
use distributed_systems_iiit.Protofiles.{PaymentDetails}
use distributed_systems_iiit.Gateway.Auth.{
  Context, Code, unavailable, deadline_exceeded, resource_exhausted, Reply, responded, failed,
}

pub record TransactionMetadata : Type 0 where
  pub client_name : String
  pub receiver_name : String
  pub amount : String
  pub request_id : String

-- The requests that the interceptors tell apart, each with the name that it carries.
pub data Request : Type 0 where
  payment : PaymentDetails → Request
  balance authentication registration : String → Request
  other_request : Request

-- `transactionCache`
abbrev pub TransactionCache : Type 0
TransactionCache = Dict String String

unfoldable pub cache_key : TransactionMetadata → String
cache_key metadata =
    metadata.client_name
    ++ (":"
        ++ (metadata.receiver_name ++ (":" ++ (metadata.amount ++ (":" ++ metadata.request_id)))))

-- `new_id` is what `uuid.New` makes, if it is asked.
unfoldable pub get_or_create_transaction_id :
    String → String → TransactionCache → TransactionCache × String
get_or_create_transaction_id new_id key cache = elim (lookup key cache) [
  | some transaction_id ↦ (cache, transaction_id)
  | none ↦ (insert key new_id cache, new_id)
]

unfoldable pub add_transaction_id_to_context : String → Context → Context
add_transaction_id_to_context transaction_id ctx =
    some (insert "transaction_id" (transaction_id ∷ []) (or_else [] ctx))

unfoldable pub ensure_transaction_id :
    String → TransactionMetadata → Context → TransactionCache → TransactionCache × Context
unfolding get_or_create_transaction_id add_transaction_id_to_context cache_key
ensure_transaction_id new_id metadata ctx cache =
    let (cache', id) = get_or_create_transaction_id new_id (cache_key metadata) cache in
    (cache', add_transaction_id_to_context id ctx)

pub record RetryInfo : Type 0 where
  pub client_name : String
  pub is_payment : Bool
  pub amount : String
  pub receiver_name : String
  pub request_id : String

abbrev named : String → RetryInfo
named client_name = record {
  client_name = client_name;
  is_payment = false;
  amount = "";
  receiver_name = "";
  request_id = "";
}

unfoldable pub extract_retry_info : (ℤ → String) → Request → RetryInfo
extract_retry_info format (payment v) = record {
  client_name = v.client_name;
  is_payment = true;
  amount = format v.amount;
  receiver_name = v.receiver_name;
  request_id = v.request_id;
}
extract_retry_info format (balance name) = named name
extract_retry_info format (authentication name) = named name
extract_retry_info format (registration name) = named name
extract_retry_info format other_request = named "unknown"

unfoldable pub is_retryable_error : Code → Bool
is_retryable_error unavailable = true
is_retryable_error deadline_exceeded = true
is_retryable_error resource_exhausted = true
is_retryable_error _ = false

abbrev pub make_payment : String
make_payment = "/proto.PaymentGateway/MakePayment"

-- The metadata of the loop's calls.
unfoldable pub retry_context :
    (ℤ → String)
    → String
    → String
    → Request
    → Context
    → TransactionCache
    → TransactionCache × Context
unfolding extract_retry_info ensure_transaction_id
retry_context format new_id method req ctx cache =
    let info = extract_retry_info format req in
    if info.is_payment && (method == make_payment)
    then ensure_transaction_id new_id
        (record {
          client_name = info.client_name;
          receiver_name = info.receiver_name;
          amount = info.amount;
          request_id = info.request_id;
        })
        ctx cache
    else (cache, ctx)

module _ {W A : Type 0} (invoker : Context → W → W × Reply A) where
  -- One attempt of the loop, and so many more.
  unfoldable pub attempt : ℕ → Context → W → W × Reply A
  unfolding is_retryable_error
  attempt zero ctx w = invoker ctx w
  attempt (suc left) ctx w =
      let (w', r) = invoker ctx w in
      let again = attempt left ctx w' in
      elim r [
        | responded a ↦ (w', responded a)
        | failed c m ↦ if is_retryable_error c then again else (w', failed c m)
      ]

  -- `maxRetries` is 3.
  unfoldable pub retry_interceptor :
      (ℤ → String)
      → String
      → String
      → Request
      → Context
      → TransactionCache × W
      → (TransactionCache × W) × Reply A
  unfolding retry_context attempt
  retry_interceptor format new_id method req ctx (cache, w) =
      let (cache', ctx') = retry_context format new_id method req ctx cache in
      let (w', r) = attempt 2 ctx' w in ((cache', w'), r)
