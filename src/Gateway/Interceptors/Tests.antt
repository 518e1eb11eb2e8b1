-- ===== src/Gateway/Interceptors/Tests.antt =====
-- A handler that counts its runs and fails twice.
use distributed_systems_iiit.Common.{ℕ, ◌+◌, ◌≡◌, refl, some, ltb, if◌then◌else◌}
use distributed_systems_iiit.Gateway.Auth.{unavailable}
use distributed_systems_iiit.Gateway.Interceptors.{
  returned, error, Handler, attempt, make_payment, retry_interceptor,
}
use distributed_systems_iiit.Gateway.Interceptors.Attempts.{Attempted, retry_interceptor-Attempted}

abbrev flaky : Handler ℕ ℕ ℕ
flaky req runs = (runs + 1, if ltb runs 2 then error unavailable "down" else returned (some req))

third_succeeds : retry_interceptor make_payment flaky 9 0 ≡ (3, returned (some 9))
unfolding retry_interceptor attempt
third_succeeds = refl

retry_interceptor-Attempted_example :
    Attempted 3 flaky 9 0 (retry_interceptor make_payment flaky 9 0)
retry_interceptor-Attempted_example = retry_interceptor-Attempted flaky 9 0
