-- ===== src/Client/Interceptors/Tests.antt =====
-- The interceptors on the requests of Alice, against the gateway and the banks of the data files.
use mathlib.Core.Bool.{false≢true}
use distributed_systems_iiit.Common.{
  ◌≡◌, refl, String, List, [], ◌∷◌, ==_iff, string_key, if◌then◌else◌,
}
use distributed_systems_iiit.Common.Int.{ℤ, pos, ltb_ℤ}
use distributed_systems_iiit.Gateway.Banking.{delivered, lost, reply_lost}
use distributed_systems_iiit.Gateway.Tests.{gateway, all_well, to_client}
use distributed_systems_iiit.Client.Interceptors.{
  TransactionMetadata, cache_key, payment, make_payment, retry_context, retry_interceptor,
}
use distributed_systems_iiit.Client.Interceptors.AtMostOnce.{
  Attempt, call, pay_once, username_context, retry_interceptor-pay_once,
}

abbrev format : ℤ → String
format amount = if ltb_ℤ amount (pos 50) then "5.00" else "50.00"

-- The first reply is lost, then a request, and the third attempt gets through.
abbrev attempts : List Attempt
attempts =
    record { delivery = reply_lost; environment = all_well }
    ∷ record { delivery = lost; environment = all_well }
    ∷ record { delivery = delivered; environment = all_well }
    ∷ []

retry_interceptor-pay_once_example :
    let user = username_context "Alice" in
    let req = to_client "Bob" in
    let ctx = (retry_context format "tx-9" make_payment (payment req) user []).1 in
    (retry_interceptor
      (call req)
      format
      "tx-9"
      make_payment
      (payment req)
      user
      ([], (gateway, attempts))).0.1.0
    ≡ pay_once 2 req ctx gateway attempts
retry_interceptor-pay_once_example =
    retry_interceptor-pay_once format "tx-9" (to_client "Bob") [] gateway attempts refl
      (λ p. false≢true ((==_iff "Bob" "").1 p))

abbrev metadata : String → String → TransactionMetadata
metadata client receiver = record {
  client_name = client;
  receiver_name = receiver;
  amount = "5.00";
  request_id = "0";
}

-- Two payments by two clients share one key, where a name has a colon.
keys_collide : cache_key (metadata "a" "b:c") ≡ cache_key (metadata "a:b" "c")
unfolding cache_key
keys_collide = refl
