-- ===== src/Bank/Payments.antt =====
-- The one-step payment: what it does to the balances.
use distributed_systems_iiit.Common.{
  ◌≡◌, String, ◌==◌, ==_iff, arith, string_key, if◌then◌else◌, ◌&&◌,
}
use distributed_systems_iiit.Common.Int.{◌-ℤ◌}
use distributed_systems_iiit.Common.Dict.{lookup-insert}
use distributed_systems_iiit.Protofiles.{PaymentRequest}
use distributed_systems_iiit.Bank.{BankServer, process_payment, find_account, balance_of}

pub process_payment-balances :
    (c : String) (req : PaymentRequest) (s : BankServer)
    → let (s', r) = process_payment req s in
      (balance_of c s' ≡ (
        if r.success && (find_account req.account_number s.clients == c)
        then balance_of c s -ℤ req.amount
        else balance_of c s))
      × (s'.transactions ≡ s.transactions)
unfolding process_payment balance_of
process_payment-balances c req s = (
  grind (arith, lookup-insert, ==_iff (find_account req.account_number s.clients) c),
  ground arith,
)
