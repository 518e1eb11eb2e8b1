-- ===== src/Gateway/Balances/RoundTrip.antt =====
-- What is saved is what is loaded.
use distributed_systems_iiit.Common.{
  ◌≡◌, refl, String, true, none, some, [], ◌∷◌, ◌==◌, ==_iff, string_key, arith, if◌then◌else◌,
}
use distributed_systems_iiit.Common.Dict.{
  Dict, lookup, insert, lookup-insert, lookup-nil, IsMap, insert-IsMap,
}
use distributed_systems_iiit.Gateway.Balances.{
  Balance, AccountBalance, BalanceStorage, fill, load_balances, get_balance, update_balance,
  entries, save_balances,
}

lookup-fill :
    (c : String) (d m : Dict String AccountBalance)
    → IsMap d
    → lookup c (fill (entries d) m) ≡ (elim (lookup c d) [ none ↦ lookup c m | some b ↦ some b ])
unfolding fill entries lookup
lookup-fill c [] m h = refl
lookup-fill c ((k, b) ∷ d) m h =
    rw (lookup-fill c d (insert k b m) h.1) (grind (arith, lookup-insert, ==_iff k c, h.0))

-- A load after a save that succeeded finds the balance of every client as it was, if every client
-- is listed once.
load_balances-save_balances :
    (s s' : BalanceStorage)
    → IsMap s.account_balances
    → load_balances (some (save_balances true s).0.file) (save_balances true s).0 ≡ some s'
    → (c : String) → get_balance c s' ≡ get_balance c s
unfolding load_balances save_balances get_balance
load_balances-save_balances s s' h e c =
    grind (arith, lookup-fill c s.account_balances [] h, lookup-nil {V = AccountBalance} c)

-- An update of a known client is what the next read returns, and no other client's balance changes.
pub get_balance-update_balance :
    (j c : String) (b : Balance) (s s' : BalanceStorage)
    → update_balance c b s ≡ some s'
    → get_balance j s' ≡ (if c == j then some b else get_balance j s)
unfolding update_balance get_balance
get_balance-update_balance j c b s s' e = grind (arith, lookup-insert, ==_iff c j)

pub update_balance-IsMap :
    (c : String) (b : Balance) (s s' : BalanceStorage)
    → IsMap s.account_balances
    → update_balance c b s ≡ some s'
    → IsMap s'.account_balances
unfolding update_balance
update_balance-IsMap c b s s' h e = ground (
  arith,
  insert-IsMap c (record { balance = b.amount; currency = b.currency }) s.account_balances h,
)
