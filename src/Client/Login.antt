-- ===== src/Client/Login.antt =====
-- The users of the client (client/auth/auth.go) and the counters of their requests
-- (client/payment/request_counter.go). The service that authenticates is an argument.
use Prim.Native.String.{◌++◌}
use distributed_systems_iiit.Common.{
  ℕ, ◌+◌, ◌≡◌, String, Bool, true, false, List, [], ◌∷◌, string_key, or_else, arith, ◌||◌,
  if◌then◌else◌, ==_refl,
}
use distributed_systems_iiit.Common.Dict.{Dict, lookup, insert, lookup-insert}
use distributed_systems_iiit.Gateway.Auth.{AuthResponse}
use distributed_systems_iiit.Gateway.Banking.{Result, ok, err}

pub record User : Type 0 where
  pub username : String
  pub password : String

pub record AuthManager : Type 0 where
  pub authenticated_users : Dict String Bool
  pub user_roles : Dict String (List String)

abbrev pub new_auth_manager : AuthManager
new_auth_manager = record { authenticated_users = []; user_roles = [] }

-- What one reply changes. An error is taken for a service that is offline.
unfoldable pub authenticated : User → Result AuthResponse → AuthManager → AuthManager
authenticated u (err _) am = record am {
  authenticated_users = insert u.username true am.authenticated_users;
}
authenticated u (ok resp) am =
    if resp.success
    then record {
      authenticated_users = insert u.username true am.authenticated_users;
      user_roles = insert u.username resp.roles am.user_roles;
    }
    else am

unfoldable pub authenticate_users :
    {W : Type 0}
    → (String → String → W → W × Result AuthResponse)
    → List User
    → AuthManager × W
    → AuthManager × W
unfolding authenticated
authenticate_users authenticate [] st = st
authenticate_users authenticate (u ∷ rest) (am, w) =
    let (w', r) = authenticate u.username u.password w in
    authenticate_users authenticate rest (authenticated u r am, w')

unfoldable pub is_authenticated : String → AuthManager → Bool
is_authenticated username am = or_else false (lookup username am.authenticated_users)

unfoldable pub get_user_roles : String → AuthManager → List String
get_user_roles username am = or_else [] (lookup username am.user_roles)

unfoldable pub get_authenticated_usernames : AuthManager → List String
get_authenticated_usernames am = keys am.authenticated_users
  where
    keys : Dict String Bool → List String
    keys [] = []
    keys ((username, _) ∷ rest) = username ∷ keys rest

-- The counters, and what their file holds. A write of the file succeeds.
pub record RequestCounter : Type 0 where
  pub counters : Dict String ℕ
  pub counter_file : Dict String ℕ

-- `NewRequestCounter`, with what is read from the file.
abbrev pub new_request_counter : Dict String ℕ → RequestCounter
new_request_counter loaded = record { counters = loaded; counter_file = loaded }

abbrev pub counter : String → RequestCounter → ℕ
counter client_name rc = or_else 0 (lookup client_name rc.counters)

-- `decimal` is the text of a number (`%d`).
unfoldable pub get_next_request_id : (ℕ → String) → String → RequestCounter → String
get_next_request_id decimal client_name rc =
    client_name ++ ("_req_" ++ decimal (counter client_name rc))

unfoldable pub increment_counter : String → RequestCounter → RequestCounter
increment_counter client_name rc =
    let counters = insert client_name (counter client_name rc + 1) rc.counters in
    record { counters = counters; counter_file = counters }

-- Whether a reply lets the user in.
abbrev pub lets_in : Result AuthResponse → Bool
lets_in (err _) = true
lets_in (ok resp) = resp.success

-- A login lets a user in exactly if the user was in before, the service accepts the password, or the
-- service does not answer, whatever the password is then.
pub is_authenticated-authenticate_users :
    {W : Type 0} (authenticate : String → String → W → W × Result AuthResponse) (u : User)
    (am : AuthManager) (w : W)
    → is_authenticated u.username (authenticate_users authenticate (u ∷ []) (am, w)).0
      ≡ (is_authenticated u.username am || lets_in (authenticate u.username u.password w).1)
unfolding is_authenticated authenticate_users
is_authenticated-authenticate_users authenticate u am w =
    go (authenticate u.username u.password w).1
  where
    go :
        (r : Result AuthResponse)
        → is_authenticated u.username (authenticated u r am)
          ≡ (is_authenticated u.username am || lets_in r)
    go (err e) =
        ground (
          arith,
          lookup-insert u.username u.username true am.authenticated_users,
          ==_refl u.username,
        )
    go (ok resp) =
        ground (
          arith,
          lookup-insert u.username u.username true am.authenticated_users,
          ==_refl u.username,
        )
