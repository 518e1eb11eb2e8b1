-- ===== src/Gateway/Auth/Users.antt =====
-- The file of the users (gateway/storage/users.go). Whether a write succeeds is an argument, and the
-- parsed file is a list of users.
use distributed_systems_iiit.Common.{
  ◌≡◌, refl, String, Bool, true, Option, none, some, List, [], ◌∷◌, ◌==◌, ==_iff, string_key, arith,
  if◌then◌else◌,
}
use distributed_systems_iiit.Common.Dict.{
  lookup, insert, lookup-insert, lookup-nil, IsMap, insert-IsMap,
}
use distributed_systems_iiit.Gateway.Auth.{User, UserStorage, load_users, get_user, save_user}

-- The loop that makes a slice of the map.
unfoldable pub user_slice : UserStorage → List User
user_slice [] = []
user_slice ((_, u) ∷ rest) = u ∷ user_slice rest

-- `NewUserStorage`; `none` is a file that can not be read or parsed, which is an error.
unfoldable pub new_user_storage : Option (List User) → Option UserStorage
unfolding load_users
new_user_storage none = none
new_user_storage (some users) = some (load_users users [])

-- `SaveUser` with its file: the map has the user even when the write fails.
unfoldable pub save_user_file :
    Bool → User → UserStorage × List User → (UserStorage × List User) × Bool
unfolding save_user user_slice
save_user_file written u (users, file) =
    let users' = save_user u users in
    ((users', if written then user_slice users' else file), written)

-- Each user is under its own name.
abbrev pub IsNamed : UserStorage → Type 0
IsNamed [] = Unit
IsNamed ((name, u) ∷ rest) = (u.username ≡ name) × IsNamed rest

insert-IsNamed : (u : User) (d : UserStorage) → IsNamed d → IsNamed (insert u.username u d)
unfolding insert
insert-IsNamed u [] h = (refl, tt)
insert-IsNamed u ((j, w) ∷ d) h = ground (arith, insert-IsNamed u d h.1, ==_iff j u.username)

load_users-IsMap : (l : List User) (d : UserStorage) → IsMap d → IsMap (load_users l d)
unfolding load_users
load_users-IsMap [] d h = h
load_users-IsMap (u ∷ l) d h = load_users-IsMap l _ (insert-IsMap u.username u d h)

load_users-IsNamed : (l : List User) (d : UserStorage) → IsNamed d → IsNamed (load_users l d)
unfolding load_users
load_users-IsNamed [] d h = h
load_users-IsNamed (u ∷ l) d h = load_users-IsNamed l _ (insert-IsNamed u d h)

lookup-load_users :
    (c : String) (d m : UserStorage)
    → IsMap d
    → IsNamed d
    → lookup c (load_users (user_slice d) m)
      ≡ (elim (lookup c d) [ none ↦ lookup c m | some u ↦ some u ])
unfolding load_users user_slice lookup
lookup-load_users c [] m h n = refl
lookup-load_users c ((k, u) ∷ d) m h n =
    rw (lookup-load_users c d (insert u.username u m) h.1 n.1)
      (grind (arith, lookup-insert, ==_iff k c, ==_iff u.username c, h.0, n.0))

lookup-user_slice-insert :
    (c : String) (u : User) (d : UserStorage)
    → IsMap d
    → IsNamed d
    → lookup c (load_users (user_slice (insert u.username u d)) [])
      ≡ (if u.username == c then some u else lookup c d)
lookup-user_slice-insert c u d h n =
    rw
      (lookup-load_users c (insert u.username u d) [] (insert-IsMap u.username u d h)
        (insert-IsNamed u d n))
      (grind (arith, lookup-insert u.username c u d, lookup-nil {V = User} c))

-- A gateway that was started from a file of users, saves one and starts again from what was written
-- finds the user that was saved, and every other user as the first file has it.
get_user-save_user_file :
    (l file : List User) (users users' : UserStorage) (u : User) (c : String)
    → new_user_storage (some l) ≡ some users
    → new_user_storage (some (save_user_file true u (users, file)).0.1) ≡ some users'
    → get_user c users' ≡ (if u.username == c then some u else get_user c users)
unfolding new_user_storage save_user_file save_user get_user
get_user-save_user_file l file users users' u c e f = grind (
  arith,
  lookup-user_slice-insert c u (load_users l []) (load_users-IsMap l [] tt)
      (load_users-IsNamed l [] tt),
)
