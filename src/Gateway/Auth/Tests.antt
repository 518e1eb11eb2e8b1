-- ===== src/Gateway/Auth/Tests.antt =====
-- The users of a small directory.
use distributed_systems_iiit.Common.{◌≡◌, refl, String, true, some, [], ◌∷◌, string_key}
use distributed_systems_iiit.Common.Dict.{lookup}
use distributed_systems_iiit.Gateway.Auth.{
  Context, Reply, responded, User, Service, has_role, unary, extract_username,
}

abbrev alice : User
alice = record { username = "Alice"; password = "alice"; roles = "user" ∷ [] }

abbrev pub service : Service
service = record { user_storage = ("Alice", alice) ∷ []; authenticated_users = [] }

abbrev service' : Service
service' = record service { authenticated_users = ("Alice", true) ∷ [] }

abbrev context : Context
context = some (("username", "Alice" ∷ []) ∷ [])

abbrev answer : Reply String
answer = responded "paid"

admitted : unary service "/proto.PaymentGateway/MakePayment" context answer ≡ answer
unfolding unary extract_username has_role lookup
admitted = refl
