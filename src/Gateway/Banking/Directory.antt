-- ===== src/Gateway/Banking/Directory.antt =====
-- Which bank a client is sent to: it does not depend on the connections, and a lookup only changes
-- those.
use distributed_systems_iiit.Common.{
  ◌≡◌, refl, ◌⊎◌, inl, inr, Option-cases, String, Bool, true, Option, none, some, [], ◌∷◌, ==_iff,
  string_key, arith,
}
use distributed_systems_iiit.Common.Dict.{lookup, insert, lookup-insert}
use distributed_systems_iiit.Gateway.Banking.{
  BankEntry, BankService, Result, ok, err, get_bank_name_for_client, get_bank_for_client,
}

pub Result-cases : (r : Result String) → ((e : String) × (r ≡ err e)) ⊎ ((k : String) × (r ≡ ok k))
Result-cases (err e) = inl (e, refl)
Result-cases (ok k) = inr (k, refl)

unfoldable pub named : BankService → Result String → Option String
named banks (err _) = none
named banks (ok key) = elim (lookup key banks) [ none ↦ none | some b ↦ some b.name ]

-- The name of the bank that serves a client, if the directory knows one.
unfoldable pub bank_name_of : String → BankService → Option String
unfolding named
bank_name_of client_name banks = named banks (get_bank_name_for_client client_name banks)

-- Replacing an entry by one with the same clients keeps the bank that the search finds.
get_bank_name-insert :
    (c k : String) (b b' : BankEntry) (banks : BankService)
    → lookup k banks ≡ some b
    → b'.clients ≡ b.clients
    → get_bank_name_for_client c (insert k b' banks) ≡ get_bank_name_for_client c banks
unfolding get_bank_name_for_client insert lookup
get_bank_name-insert c k b b' [] h e = cc
get_bank_name-insert c k b b' ((j, x) ∷ banks) h e =
    ground (arith, get_bank_name-insert c k b b' banks)

named-insert :
    (k : String) (b b' : BankEntry) (banks : BankService)
    → lookup k banks ≡ some b
    → b'.name ≡ b.name
    → (r : Result String) → named (insert k b' banks) r ≡ named banks r
unfolding named
named-insert k b b' banks h n (err _) = refl
named-insert k b b' banks h n (ok key) = grind (arith, lookup-insert, ==_iff k key, h, n)

bank_name_of-insert :
    (c k : String) (b b' : BankEntry) (banks : BankService)
    → lookup k banks ≡ some b
    → b'.clients ≡ b.clients
    → b'.name ≡ b.name
    → bank_name_of c (insert k b' banks) ≡ bank_name_of c banks
unfolding bank_name_of
bank_name_of-insert c k b b' banks h e n =
    rw (get_bank_name-insert c k b b' banks h e)
      (named-insert k b b' banks h n (get_bank_name_for_client c banks))

module _ (dials : String → Bool) (reason c : String) (banks : BankService) where
  pub bank_name_of-get_bank_for_client :
      (j : String)
      → bank_name_of j (get_bank_for_client dials reason c banks).0 ≡ bank_name_of j banks
  unfolding get_bank_for_client
  bank_name_of-get_bank_for_client j = elim (Result-cases (get_bank_name_for_client c banks)) [
    | inl (e, p) ↦ rw (p, get_bank_for_client)
    | inr (key, p) ↦ elim (Option-cases (lookup key banks)) [
      | inl q ↦ ground arith
      | inr (b, q) ↦
          ground
            (arith, bank_name_of-insert j key b (record b { connected = true }) banks q refl refl)
    ]
  ]

  pub get_bank_for_client_found :
      (name : String)
      → (get_bank_for_client dials reason c banks).1 ≡ ok name
      → bank_name_of c banks ≡ some name
  unfolding get_bank_for_client bank_name_of
  get_bank_for_client_found name h = ground arith
