-- ===== src/Gateway/Calls.antt =====
-- The calls that the gateway serves and its responses (Assignment2/P3-Strife/protofiles, the service
-- PaymentGateway), and what comes with a call.
use distributed_systems_iiit.Common.{String, Option, List}
use distributed_systems_iiit.Protofiles.{PaymentDetails, PaymentResponse}
use distributed_systems_iiit.Gateway.Auth.{AuthResponse, Context}
use distributed_systems_iiit.Gateway.Balances.{Balance}
use distributed_systems_iiit.Gateway.State.{Environment}
use distributed_systems_iiit.Gateway.Monitoring.{TransactionStatusResponse, TransactionInfo}

pub data Call : Type 0 where
  -- the name and the password
  authenticate_call : String → String → Call
  make_payment_call : PaymentDetails → Call
  get_balance_call : String → Call
  get_transaction_status_call : String → Call
  list_active_transactions_call : Call

-- `info.FullMethod`
abbrev pub full_method : Call → String
full_method (authenticate_call _ _) = "/proto.PaymentGateway/Authenticate"
full_method (make_payment_call _) = "/proto.PaymentGateway/MakePayment"
full_method (get_balance_call _) = "/proto.PaymentGateway/GetBalance"
full_method (get_transaction_status_call _) = "/proto.PaymentGateway/GetTransactionStatus"
full_method list_active_transactions_call = "/proto.PaymentGateway/ListActiveTransactions"

pub data Response : Type 0 where
  authenticated : AuthResponse → Response
  paid : PaymentResponse → Response
  balance_found : Balance → Response
  transaction_status : TransactionStatusResponse → Response
  transactions : List TransactionInfo → Response

-- A call with its metadata, its peer's address and what the world does while it is served.
pub record Request : Type 0 where
  pub context : Context
  pub address : Option String
  pub call : Call
  pub environment : Environment
