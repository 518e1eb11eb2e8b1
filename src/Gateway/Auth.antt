-- ===== src/Gateway/Auth.antt =====
-- Users, roles and the interceptor in front of the handlers (gateway/auth, gateway/storage/users.go).
pub mod Access
pub mod Users
pub mod Tests
use distributed_systems_iiit.Common.{
  String, Bool, true, false, Option, none, some, List, [], ◌∷◌, ◌==◌, string_key, or_else, not,
  ◌||◌, if◌then◌else◌,
}
use distributed_systems_iiit.Common.Dict.{Dict, lookup, insert}

-- The metadata of a call, a list of values for each key; `none` where a call carries none.
abbrev pub Context : Type 0
Context = Option (Dict String (List String))

-- `codes.Code`, those that this program makes or tests.
pub data Code : Type 0 where
  unauthenticated permission_denied invalid_argument not_found unavailable deadline_exceeded
        resource_exhausted :
      Code

-- What a handler returns: a response, or an error with its status.
pub data Reply {ℓ} (A : Type ℓ) : Type ℓ where
  responded : A → Reply A
  failed : Code → String → Reply A

-- The first value of a key, as `ExtractUsername` and `extractTransactionID` read it.
unfoldable pub first_value : Code → String → String → Context → Reply String
first_value code key missing none = failed code "missing context metadata"
first_value code key missing (some md) = elim (or_else [] (lookup key md)) [
  | [] ↦ failed code missing
  | v ∷ _ ↦ responded v
]

unfoldable pub extract_username : Context → Reply String
unfolding first_value
extract_username = first_value unauthenticated "username" "username required"

pub record User : Type 0 where
  pub username : String
  pub password : String
  pub roles : List String

-- `UserStorage`; its file is in Gateway/Auth/Users.antt.
abbrev pub UserStorage : Type 0
UserStorage = Dict String User

-- The loop of `loadUsers`.
unfoldable pub load_users : List User → UserStorage → UserStorage
load_users [] m = m
load_users (u ∷ rest) m = load_users rest (insert u.username u m)

unfoldable pub get_user : String → UserStorage → Option User
get_user username users = lookup username users

unfoldable pub save_user : User → UserStorage → UserStorage
save_user u users = insert u.username u users

pub record Service : Type 0 where
  pub user_storage : UserStorage
  pub authenticated_users : Dict String Bool

pub record AuthResponse : Type 0 where
  pub success : Bool
  pub message : String
  pub roles : List String

abbrev invalid_credentials : AuthResponse
invalid_credentials = record { success = false; message = "Invalid credentials"; roles = [] }

unfoldable pub authenticate : String → String → Service → Service × AuthResponse
unfolding get_user
authenticate username password s = elim (get_user username s.user_storage) [
  | none ↦ (s, invalid_credentials)
  | some u ↦
      if u.password == password
      then (
        record s { authenticated_users = insert username true s.authenticated_users },
        record { success = true; message = "Authentication successful"; roles = u.roles },
      )
      else (s, invalid_credentials)
]

unfoldable pub is_authenticated : String → Service → Bool
is_authenticated username s = or_else false (lookup username s.authenticated_users)

unfoldable pub contains : String → List String → Bool
contains role [] = false
contains role (r ∷ rest) = if r == role then true else contains role rest

-- The two loops of `HasRole`.
unfoldable pub has_one_of : List String → List String → Bool
unfolding contains
has_one_of [] roles = false
has_one_of (required ∷ rest) roles = if contains required roles then true else has_one_of rest roles

unfoldable pub has_role : String → List String → Service → Bool
unfolding get_user has_one_of
has_role username required_roles s = elim (get_user username s.user_storage) [
  | none ↦ false
  | some u ↦ has_one_of required_roles u.roles
]

abbrev pub method_permissions : Dict String (List String)
method_permissions =
    ("/proto.PaymentGateway/MakePayment", "user" ∷ "admin" ∷ [])
    ∷ ("/proto.PaymentGateway/GetPaymentHistory", "admin" ∷ [])
    ∷ ("/proto.PaymentGateway/GetBalance", "user" ∷ "admin" ∷ [])
    ∷ []

abbrev pub public_methods : Dict String Bool
public_methods = ("/proto.PaymentGateway/Authenticate", true) ∷ []

-- `Unary`: the handler's reply, or a refusal. The test of `IsAuthenticated` is commented out in the
-- source.
unfoldable pub unary {ℓ} : {A : Type ℓ} → Service → String → Context → Reply A → Reply A
unary s method ctx handler =
    if or_else false (lookup method public_methods) then handler else elim (extract_username ctx) [
      | failed c m ↦ failed c m
      | responded username ↦ elim (lookup method method_permissions) [
        | none ↦ handler
        | some required_roles ↦
            if has_role username required_roles s
            then handler
            else failed permission_denied "insufficient permissions"
      ]
    ]
