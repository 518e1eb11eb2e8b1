-- ===== src/Gateway/Balances.antt =====
-- The account balances of the gateway (gateway/storage/balances.go). Writing the file is the
-- library's; whether a write succeeds is an argument, and the parsed file is a list of entries.
pub mod RoundTrip
use distributed_systems_iiit.Common.{
  ◌≡◌, refl, String, Bool, Option, none, some, List, [], ◌∷◌, ◌==◌, ==_iff, string_key, arith,
  if◌then◌else◌,
}
use distributed_systems_iiit.Common.Int.{ℤ}
use distributed_systems_iiit.Common.Dict.{
  Dict, lookup, insert, lookup-insert, lookup-nil, IsMap, insert-IsMap,
}

-- `payment.Balance`
pub record Balance : Type 0 where
  pub amount : ℤ
  pub currency : String

pub record AccountBalance : Type 0 where
  pub balance : ℤ
  pub currency : String

pub record BalanceData : Type 0 where
  pub client_name : String
  pub balance : ℤ
  pub currency : String

pub record BalanceStorage : Type 0 where
  pub account_balances : Dict String AccountBalance
  -- what the file at `filePath` holds
  pub file : List BalanceData

abbrev pub account_of : BalanceData → AccountBalance
account_of b = record { balance = b.balance; currency = b.currency }

abbrev pub data_of : String → AccountBalance → BalanceData
data_of name b = record { client_name = name; balance = b.balance; currency = b.currency }

-- The loop of `LoadBalances`.
unfoldable pub fill : List BalanceData → Dict String AccountBalance → Dict String AccountBalance
fill [] m = m
fill (b ∷ rest) m = fill rest (insert b.client_name (account_of b) m)

-- `none` is a file that could not be read or parsed.
unfoldable pub load_balances : Option (List BalanceData) → BalanceStorage → Option BalanceStorage
unfolding fill
load_balances none s = none
load_balances (some balances) s = some (record s { account_balances = fill balances [] })

unfoldable pub get_balance : String → BalanceStorage → Option Balance
get_balance client_name s = elim (lookup client_name s.account_balances) [
  | none ↦ none
  | some b ↦ some (record { amount = b.balance; currency = b.currency })
]

-- The result is `none` for the error that the client is not known.
unfoldable pub update_balance : String → Balance → BalanceStorage → Option BalanceStorage
update_balance client_name b s = elim (lookup client_name s.account_balances) [
  | none ↦ none
  | some _ ↦ some (record s {
    account_balances =
        insert client_name (record { balance = b.amount; currency = b.currency })
          s.account_balances;
  })
]

-- The loop of `SaveBalances`.
unfoldable pub entries : Dict String AccountBalance → List BalanceData
entries [] = []
entries ((name, b) ∷ rest) = data_of name b ∷ entries rest

-- `written` says whether the write succeeds.
unfoldable pub save_balances : Bool → BalanceStorage → BalanceStorage × Bool
unfolding entries
save_balances written s =
    (if written then record s { file = entries s.account_balances } else s, written)
