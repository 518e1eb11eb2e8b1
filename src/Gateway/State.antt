-- ===== src/Gateway/State.antt =====
-- The state of the gateway with the world around it, and what can happen during one payment.
use distributed_systems_iiit.Common.{ℕ, String, Bool, List}
use distributed_systems_iiit.Gateway.Balances.{BalanceStorage}
use distributed_systems_iiit.Gateway.Transactions.{TransactionManager}
use distributed_systems_iiit.Gateway.Banking.{BankService, Network, Delivery}

-- `payment.Service` with what its pointers lead to, and the banks beyond the network.
pub record Gateway : Type 0 where
  pub balances : BalanceStorage
  pub transactions : TransactionManager
  pub banking : BankService
  pub uses_two_phase : Bool
  pub network : Network

-- One phase: two calls at once, of which either may come first, and a deadline that may pass.
pub record Phase : Type 0 where
  pub sender_first : Bool
  pub sender : Delivery
  pub receiver : Delivery
  pub timed_out : Bool

-- The choices of the environment during one payment.
pub record Environment : Type 0 where
  pub now : ℕ
  pub dials : String → Bool
  -- the text of a dial's error, and of a transport error
  pub reason : String
  pub prepare : Phase
  pub commit : Phase
  pub abort_sender : Delivery
  pub abort_receiver : Delivery
  -- the call of a one-step payment
  pub payment : Delivery
  -- whether the attempts to save the balances succeed
  pub saves : List Bool
