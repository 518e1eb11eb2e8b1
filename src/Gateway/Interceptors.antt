-- ===== src/Gateway/Interceptors.antt =====
-- The interceptors around every handler (gateway/interceptors): the chain, the retry of payments and
-- the recovery from panics. A handler takes a request and runs on a state; what these
-- interceptors log and how long they sleep is left out, but for the logging interceptor's own entries.
pub mod Attempts
pub mod Logging
mod Tests
use distributed_systems_iiit.Common.{
  ℕ, zero, suc, String, Bool, true, false, Option, none, some, List, [], ◌∷◌, ◌==◌, string_key,
  if◌then◌else◌,
}
use distributed_systems_iiit.Gateway.Auth.{Code, unavailable, deadline_exceeded}

-- What a handler ends with: a response, which may be nil, an error, or a panic.
pub data Ending (A : Type 0) : Type 0 where
  returned : Option A → Ending A
  error : Code → String → Ending A
  panicked : Ending A

abbrev pub make_payment : String
make_payment = "/proto.PaymentGateway/MakePayment"

abbrev pub is_retryable : {A : Type 0} → Ending A → Bool
is_retryable (returned _) = false
is_retryable (error deadline_exceeded _) = true
is_retryable (error unavailable _) = true
is_retryable (error _ _) = false
is_retryable panicked = false

module _ (R S A : Type 0) where
  abbrev pub Handler : Type 0
  Handler = R → S → S × Ending A

  -- The full name of the method is `info.FullMethod`.
  abbrev pub Interceptor : Type 0
  Interceptor = String → Handler → Handler

module _ {R S A : Type 0} where
  -- The first interceptor is the outermost.
  unfoldable pub chain_interceptors :
      List (Interceptor R S A) → String → Handler R S A → Handler R S A
  chain_interceptors [] method handler = handler
  chain_interceptors (current ∷ rest) method handler =
      current method (chain_interceptors rest method handler)

  -- The loop, with the attempts that are left; `resp` and `err` are nil before the first.
  unfoldable pub attempt : ℕ → Handler R S A → Handler R S A
  attempt zero handler req s = (s, returned none)
  attempt (suc left) handler req s =
      let (s', r) = handler req s in
      let again = attempt left handler req s' in
      if is_retryable r then (elim left [ zero ↦ (s', r) | suc _ ↦ again ]) else (s', r)

  unfoldable pub retry_interceptor : Interceptor R S A
  unfolding attempt
  retry_interceptor method handler = if method == make_payment then attempt 3 handler else handler

  -- The deferred function makes an error and drops it, so a panic becomes a nil response and no error.
  unfoldable pub recovery_interceptor : Interceptor R S A
  recovery_interceptor method handler req s =
      let (s', r) = handler req s in
      elim r [
        | returned a ↦ (s', returned a)
        | error c message ↦ (s', error c message)
        | panicked ↦ (s', returned none)
      ]
