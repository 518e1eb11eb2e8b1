-- ===== src/Gateway/Payment/OneStep.antt =====
-- How a payment in one step ends.
use distributed_systems_iiit.Common.{
  ◌≡◌, String, true, false, some, ◌==◌, ◌&&◌, string_key, if◌then◌else◌,
}
use distributed_systems_iiit.Common.Int.{◌-ℤ◌}
use distributed_systems_iiit.Common.Dict.{lookup}
use distributed_systems_iiit.Protofiles.{PaymentDetails, PaymentRequest, PaymentResponse}
use distributed_systems_iiit.Bank
use distributed_systems_iiit.Bank.{BankServer, find_account}
use distributed_systems_iiit.Gateway.Balances.{Balance, get_balance}
use distributed_systems_iiit.Gateway.Transactions.{simple, get_transaction}
use distributed_systems_iiit.Gateway.Banking.{Network}
use distributed_systems_iiit.Gateway.Banking.Money.{money}
use distributed_systems_iiit.Gateway.State.{Gateway, Environment}

abbrev asked : PaymentDetails → String → String → PaymentRequest
asked req tx_id account_number = record {
  account_number = account_number;
  amount = req.amount;
  transaction_id = tx_id;
}

-- A bank accepted the payment and took the amount from the account's client, and the gateway took it
-- from its own balance of the payer and keeps the answer.
pub record Paid (env : Environment) (req : PaymentDetails) (tx_id : String) (balance : Balance)
    (net : Network) (g' : Gateway) (response : PaymentResponse) : Type 0 where
  pub bank_name : String
  pub account_number : String
  pub bank : BankServer
  pub running : lookup bank_name net ≡ some bank
  pub accepted : (Bank.process_payment (asked req tx_id account_number) bank).1.success ≡ true
  pub moved :
      (b c : String)
      → money b c g'.network ≡ (
          if (b == bank_name) && (find_account account_number bank.clients == c)
          then money b c net -ℤ req.amount
          else money b c net)
  pub charged :
      get_balance req.client_name g'.balances
      ≡ some (record balance { amount = balance.amount -ℤ req.amount })
  pub kept :
      get_transaction tx_id g'.transactions
      ≡ some (
          simple (record {
            transaction_id = tx_id;
            client_name = req.client_name;
            amount = req.amount;
            processed_at = env.now;
            result = response;
          }))

-- The payment fails, and the gateway's balances and records are as they were.
pub record NotPaid (g g' : Gateway) (response : PaymentResponse) : Type 0 where
  pub refused : response.success ≡ false
  pub same_balances : g'.balances ≡ g.balances
  pub same_transactions : g'.transactions ≡ g.transactions
