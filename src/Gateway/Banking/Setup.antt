-- ===== src/Gateway/Banking/Setup.antt =====
-- The directory as the gateway starts with it (gateway/banking/client.go): the banks of the
-- configuration, and the clients of the file for those banks. The file is parsed, or not there.
use distributed_systems_iiit.Common.{
  ◌≡◌, ◌∙◌, refl, sym, ap, inl, inr, Option-cases, Bool-cases, String, Bool, true, false, Option,
  none, some, List, [], ◌∷◌, ◌==◌, ==_iff, string_key, arith, is_some, ◌&&◌, ◌||◌,
}
use distributed_systems_iiit.Common.Dict.{
  Dict, IsMap, insert-IsMap, lookup, insert, lookup-insert, lookup-nil,
}
use distributed_systems_iiit.Gateway.Banking.{
  BankEntry, BankService, Result, ok, err, add_accounts, load_client_mappings,
  get_bank_name_for_client,
}

-- `config.BankConnection`
pub record BankConnection : Type 0 where
  pub name : String
  pub address : String

-- A bank before its clients are read.
abbrev pub new_entry : BankConnection → BankEntry
new_entry conn = record {
  name = conn.name;
  address = conn.address;
  clients = [];
  connected = false;
}

-- The loop over the connections. `%s` takes the whole address, so the scan of a port always fails and
-- the address is kept as it is.
unfoldable pub add_banks : List BankConnection → BankService → BankService
add_banks [] banks = banks
add_banks (conn ∷ rest) banks = add_banks rest (insert conn.name (new_entry conn) banks)

-- `NewBankService`
unfoldable pub new_bank_service :
    List BankConnection → Option (Dict String (Dict String String)) → BankService
unfolding add_banks
new_bank_service conns none = add_banks conns []
new_bank_service conns (some mappings) = load_client_mappings mappings (add_banks conns [])

abbrev pub is_configured : String → List BankConnection → Bool
is_configured b [] = false
is_configured b (conn ∷ rest) = (conn.name == b) || is_configured b rest

abbrev pub has_account : String → Dict String String → Bool
has_account c [] = false
has_account c ((_, client) ∷ rest) = (client == c) || has_account c rest

-- Whether the file lists the client for the bank.
abbrev pub is_listed : String → String → Dict String (Dict String String) → Bool
is_listed b c [] = false
is_listed b c ((bank_name, accounts) ∷ rest) =
    ((bank_name == b) && has_account c accounts) || is_listed b c rest

-- Whether the directory has an account of the client at the bank.
abbrev entry_serves : String → Option BankEntry → Bool
entry_serves c none = false
entry_serves c (some b) = is_some (lookup c b.clients)

abbrev serves : String → String → BankService → Bool
serves b c banks = entry_serves c (lookup b banks)

lookup-add_accounts :
    (c : String) (accounts clients : Dict String String)
    → is_some (lookup c (add_accounts accounts clients))
      ≡ (has_account c accounts || is_some (lookup c clients))
unfolding add_accounts
lookup-add_accounts c [] clients = refl
lookup-add_accounts c ((number, client) ∷ rest) clients = ground (
  arith,
  lookup-add_accounts c rest (insert client number clients),
  lookup-insert client c number clients,
)

module _ (b c : String) where
  serves-load_client_mappings :
      (mappings : Dict String (Dict String String)) (banks : BankService)
      → serves b c (load_client_mappings mappings banks)
        ≡ ((is_some (lookup b banks) && is_listed b c mappings) || serves b c banks)
  unfolding load_client_mappings
  serves-load_client_mappings [] banks = ground arith
  serves-load_client_mappings ((bank_name, accounts) ∷ rest) banks =
      elim (Option-cases (lookup bank_name banks)) [
        | inl e ↦
            rw (e, load_client_mappings)
              (serves-load_client_mappings rest banks ∙ elim (Bool-cases (bank_name == b)) [
                | inl q ↦
                    let at : lookup b banks ≡ none =
                      ap (λ x. lookup x banks) (sym ((==_iff bank_name b).0 q)) ∙ e in
                    rw (q, at) refl
                | inr q ↦ rw q refl
              ])
        | inr (entry, e) ↦
            let next : BankEntry = record entry { clients = add_accounts accounts entry.clients } in
            rw (e, load_client_mappings)
              (serves-load_client_mappings rest (insert bank_name next banks)
                ∙ elim (Bool-cases (bank_name == b)) [
                  | inl q ↦
                      let at : lookup b banks ≡ some entry =
                        ap (λ x. lookup x banks) (sym ((==_iff bank_name b).0 q)) ∙ e in
                      rw (lookup-insert bank_name b next banks, q, at)
                        (ground (arith, lookup-add_accounts c accounts entry.clients))
                  | inr q ↦ rw (lookup-insert bank_name b next banks, q) refl
                ])
      ]

  serves-add_banks :
      (conns : List BankConnection) (banks : BankService)
      → serves b c banks ≡ false
      → serves b c (add_banks conns banks) ≡ false
  unfolding add_banks
  serves-add_banks [] banks h = h
  serves-add_banks (conn ∷ rest) banks h =
      serves-add_banks rest _ (elim (Bool-cases (conn.name == b)) [
        | inl q ↦
            rw (lookup-insert conn.name b (new_entry conn) banks, q)
              (rw (lookup-nil {V = String} c) refl)
        | inr q ↦ rw (lookup-insert conn.name b (new_entry conn) banks, q) h
      ])

  lookup-add_banks :
      (conns : List BankConnection) (banks : BankService)
      → is_some (lookup b (add_banks conns banks))
        ≡ (is_configured b conns || is_some (lookup b banks))
  unfolding add_banks
  lookup-add_banks [] banks = refl
  lookup-add_banks (conn ∷ rest) banks =
      lookup-add_banks rest _ ∙ ground (arith, lookup-insert conn.name b (new_entry conn) banks)

add_banks-IsMap :
    (conns : List BankConnection) (banks : BankService)
    → IsMap banks
    → IsMap (add_banks conns banks)
unfolding add_banks
add_banks-IsMap [] banks h = h
add_banks-IsMap (conn ∷ rest) banks h = add_banks-IsMap rest _ (insert-IsMap conn.name _ banks h)

load_client_mappings-IsMap :
    (mappings : Dict String (Dict String String)) (banks : BankService)
    → IsMap banks
    → IsMap (load_client_mappings mappings banks)
unfolding load_client_mappings
load_client_mappings-IsMap [] banks h = h
load_client_mappings-IsMap ((bank_name, accounts) ∷ rest) banks h =
    elim (Option-cases (lookup bank_name banks)) [
      | inl e ↦ rw (e, load_client_mappings) (load_client_mappings-IsMap rest banks h)
      | inr (entry, e) ↦
          rw (e, load_client_mappings)
            (load_client_mappings-IsMap rest _ (insert-IsMap bank_name _ banks h))
    ]

abbrev name_of : Result String → String
name_of (ok name) = name
name_of (err _) = ""

get_bank_name-serves :
    (b c : String) (banks : BankService)
    → IsMap banks
    → get_bank_name_for_client c banks ≡ ok b
    → serves b c banks ≡ true
unfolding get_bank_name_for_client lookup
get_bank_name-serves b c [] m h = cc
get_bank_name-serves b c ((k, e) ∷ rest) m h = elim (Bool-cases (is_some (lookup c e.clients))) [
  | inl q ↦
      let got : ok k ≡ ok b = ground (arith, h, q) in
      let same : k ≡ b = ap name_of got in rw ((==_iff k b).1 same) q
  | inr q ↦
      let later = get_bank_name-serves b c rest m.1 (ground arith) in
      elim (Bool-cases (k == b)) [
        | inl p ↦
            let gone : lookup b rest ≡ none =
              ap (λ x. lookup x rest) (sym ((==_iff k b).0 p)) ∙ m.0 in
            absurd (ground (arith, gone, later))
        | inr p ↦ rw p later
      ]
]

get_bank_name-none :
    (b c reason : String) (banks : BankService)
    → get_bank_name_for_client c banks ≡ err reason
    → serves b c banks ≡ false
unfolding get_bank_name_for_client lookup
get_bank_name-none b c reason [] h = refl
get_bank_name-none b c reason ((k, e) ∷ rest) h = ground (arith, get_bank_name-none b c reason rest)

-- The gateway starts with a directory that finds a client at a bank only if the bank is one of the
-- configuration and the file lists the client for it, and finds no bank for a client only if
-- there is no such bank.
get_bank_name-new_bank_service :
    (conns : List BankConnection) (mappings : Dict String (Dict String String)) (c : String)
    → let found = get_bank_name_for_client c (new_bank_service conns (some mappings)) in
      ((b : String) → found ≡ ok b → (is_configured b conns && is_listed b c mappings) ≡ true)
      × ((reason b : String)
          → found ≡ err reason
          → (is_configured b conns && is_listed b c mappings) ≡ false)
unfolding new_bank_service
get_bank_name-new_bank_service conns mappings c =
    let start = add_banks conns [] in
    let banks = load_client_mappings mappings start in
    let same : (b : String) → serves b c banks ≡ (is_configured b conns && is_listed b c mappings) =
      λ b. ground (
        arith,
        serves-load_client_mappings b c mappings start,
        lookup-add_banks b c conns [],
        lookup-nil {V = BankEntry} b,
        serves-add_banks b c conns [] (ground (arith, lookup-nil {V = BankEntry} b)),
      ) in
    (
      λ b found.
          sym (same b)
          ∙ get_bank_name-serves b c banks
              (load_client_mappings-IsMap mappings start (add_banks-IsMap conns [] tt)) found,
      λ reason b found. sym (same b) ∙ get_bank_name-none b c reason banks found,
    )
