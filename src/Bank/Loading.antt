-- ===== src/Bank/Loading.antt =====
-- The start of a bank server from the two data files. Reading and parsing them is the library's;
-- the parsed values are arguments, and `none` stands for a file that could not be read or parsed.
use distributed_systems_iiit.Common.{
  ◌≡◌, refl, String, Bool, true, false, Option, none, some, List, [], ◌∷◌, ◌==◌, ==_iff, arith,
  string_key, or_else, if◌then◌else◌,
}
use distributed_systems_iiit.Common.Int.{ℤ}
use distributed_systems_iiit.Common.Dict.{Dict, lookup, insert, lookup-insert, lookup-nil}
use distributed_systems_iiit.Bank.{BankServer, has_client}

pub record BalanceRecord : Type 0 where
  pub client_name : String
  pub balance : ℤ
  pub currency : String

-- A file that cannot be read or parsed ends the process, `none`; a bank with no entry has no clients.
unfoldable pub load_bank_clients :
    String → Option (Dict String (Dict String String)) → Option (Dict String String)
load_bank_clients bank_name none = none
load_bank_clients bank_name (some all_clients) = some (or_else [] (lookup bank_name all_clients))

-- `clientSet[clientName] = true` for each client.
unfoldable pub client_set : Dict String String → Dict String Bool → Dict String Bool
client_set [] set = set
client_set ((_, client_name) ∷ rest) set = client_set rest (insert client_name true set)

-- The loop over the records, keeping those of the bank's clients.
unfoldable pub keep_balances : Dict String Bool → List BalanceRecord → Dict String ℤ → Dict String ℤ
keep_balances set [] balances = balances
keep_balances set (r ∷ rest) balances = keep_balances set rest (
    if or_else false (lookup r.client_name set)
    then insert r.client_name r.balance balances
    else balances)

unfoldable pub load_balances_from_common_file :
    Dict String String → Option (List BalanceRecord) → Dict String ℤ
unfolding client_set keep_balances
load_balances_from_common_file clients none = []
load_balances_from_common_file clients (some records) =
    keep_balances (client_set clients []) records []

unfoldable pub new_bank_server :
    String
    → Option (Dict String (Dict String String))
    → Option (List BalanceRecord)
    → Option BankServer
new_bank_server name client_file balance_file = elim (load_bank_clients name client_file) [
  | none ↦ none
  | some clients ↦ some (record {
    name = name;
    clients = clients;
    transactions = [];
    balances = load_balances_from_common_file clients balance_file;
  })
]

-- The balance of the last record of a client.
unfoldable pub last_balance : String → Option ℤ → List BalanceRecord → Option ℤ
last_balance c found [] = found
last_balance c found (r ∷ rest) =
    last_balance c (if r.client_name == c then some r.balance else found) rest

client_set_lem :
    (c : String) (clients : Dict String String) (set : Dict String Bool)
    → or_else false (lookup c (client_set clients set))
      ≡ (if has_client c clients then true else or_else false (lookup c set))
unfolding client_set has_client
client_set_lem c [] set = refl
client_set_lem c ((_, n) ∷ rest) set =
    rw (client_set_lem c rest (insert n true set)) (grind (arith, lookup-insert, ==_iff n c))

keep_balances_lem :
    (c : String) (set : Dict String Bool) (records : List BalanceRecord) (balances : Dict String ℤ)
    → lookup c (keep_balances set records balances) ≡ (
        if or_else false (lookup c set)
        then last_balance c (lookup c balances) records
        else lookup c balances)
unfolding keep_balances last_balance
keep_balances_lem c set [] balances = ground arith
keep_balances_lem c set (r ∷ rest) balances =
    let kept =
      if or_else false (lookup r.client_name set)
      then insert r.client_name r.balance balances
      else balances in
    rw (keep_balances_lem c set rest kept) (grind (arith, lookup-insert, ==_iff r.client_name c))

-- A bank starts with a balance for exactly those of its own clients that have a record, each the
-- balance of the client's last record.
lookup-load_balances :
    (c : String) (clients : Dict String String) (records : List BalanceRecord)
    → lookup c (load_balances_from_common_file clients (some records))
      ≡ (if has_client c clients then last_balance c none records else none)
unfolding load_balances_from_common_file
lookup-load_balances c clients records =
    rw keep_balances_lem (rw client_set_lem (rw lookup-nil (ground (arith, lookup-nil {V = ℤ} c))))
