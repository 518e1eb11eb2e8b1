-- ===== src/Gateway/Auth/Access.antt =====
-- Who gets past the interceptor.
use distributed_systems_iiit.Common.{
  ◌≡◌, ◌↔◌, ◌⊎◌, refl, inl, inr, String, true, some, List, [], ◌∷◌, ◌==◌, ==_iff, ==_refl,
  string_key, arith, if◌then◌else◌, Bool-cases, Option-cases,
}
use distributed_systems_iiit.Common.Dict.{lookup-insert}
use distributed_systems_iiit.Gateway.Auth.{
  Code, Reply, responded, failed, User, Service, get_user, contains, has_one_of, has_role,
  authenticate, is_authenticated,
}

-- The two loops of `HasRole` find a role exactly when the lists share one.
has_one_of_iff :
    (required roles : List String)
    → (has_one_of required roles ≡ true)
      ↔ ((role : String) × (contains role required ≡ true) × (contains role roles ≡ true))
unfolding has_one_of contains
has_one_of_iff required roles = (there required, back required)
  where
    there :
        (rs : List String)
        → has_one_of rs roles ≡ true
        → (role : String) × (contains role rs ≡ true) × (contains role roles ≡ true)
    there [] h = cc
    there (r ∷ rs) h = elim (Bool-cases (contains r roles)) [
      | inl e ↦ (r, ground (arith, ==_refl r), e)
      | inr e ↦ let (role, p, q) = there rs (ground arith) in (role, ground (arith, p), q)
    ]

    back :
        (rs : List String)
        → (role : String) × (contains role rs ≡ true) × (contains role roles ≡ true)
        → has_one_of rs roles ≡ true
    back [] w = cc (w.1)
    back (r ∷ rs) w = elim (Bool-cases (r == w.0)) [
      | inl e ↦ ground (arith, w.2, ==_iff r w.0)
      | inr e ↦ ground (arith, back rs (w.0, ground (arith, w.1), w.2))
    ]

-- A user has a role exactly when the user is known and one of the required roles is the user's.
pub has_role_iff :
    (username : String) (required : List String) (s : Service)
    → (has_role username required s ≡ true) ↔ (
        (u : User) × (role : String) × (get_user username s.user_storage ≡ some u)
        × (contains role required ≡ true)
        × (contains role u.roles ≡ true))
unfolding has_role
has_role_iff username required s = elim (Option-cases (get_user username s.user_storage)) [
  | inl e ↦ (λ h. absurd (ground arith), λ w. absurd (cc (w.2)))
  | inr (u, e) ↦ (
    λ h.
        let (role, p, q) = (has_one_of_iff required u.roles).0 (ground arith) in (u, role, e, p, q),
    λ w. ground (arith, e, w.2, (has_one_of_iff required w.0.roles).1 (w.1, w.3, w.4)),
  )
]

pub Reply-cases :
    (r : Reply String)
    → ((c : Code) × (m : String) × (r ≡ failed c m)) ⊎ ((v : String) × (r ≡ responded v))
Reply-cases (failed c m) = inl (c, m, refl)
Reply-cases (responded v) = inr (v, refl)

pub has_role-storage :
    (username : String) (required : List String) (s s' : Service)
    → s.user_storage ≡ s'.user_storage
    → has_role username required s ≡ has_role username required s'
unfolding has_role
has_role-storage username required s s' same = rw same

-- `Authenticate` marks the user as authenticated exactly when the password is the stored one, and
-- changes nothing for another name or after a wrong password.
pub is_authenticated-authenticate :
    (username password j : String) (s : Service)
    → let (s', r) = authenticate username password s in
      (is_authenticated j s' ≡ (
        if r.success
        then (if username == j then true else is_authenticated j s)
        else is_authenticated j s))
      × ((r.success ≡ true)
          ↔ ((u : User) × (get_user username s.user_storage ≡ some u) × (u.password ≡ password)))
unfolding authenticate is_authenticated
is_authenticated-authenticate username password j s =
    elim (Option-cases (get_user username s.user_storage)) [
      | inl e ↦ (ground arith, (λ h. absurd (ground arith), λ w. absurd (cc (w.1))))
      | inr (u, e) ↦ (
        grind (arith, lookup-insert, ==_iff username j),
        (
          λ h. (u, e, ground (arith, ==_iff u.password password)),
          λ w. ground (arith, e, w.1, w.2, ==_iff u.password password),
        ),
      )
    ]
