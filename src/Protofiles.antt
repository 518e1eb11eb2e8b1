-- ===== src/Protofiles.antt =====
-- The messages of the payment system (Assignment2/P3-Strife/protofiles). Amounts, `float` in the
-- schema, are whole units of ℤ.
use distributed_systems_iiit.Common.{String, Bool}
use distributed_systems_iiit.Common.Int.{ℤ}

pub record PaymentRequest : Type 0 where
  pub account_number : String
  pub amount : ℤ
  pub transaction_id : String

pub record TwoPhaseRequest : Type 0 where
  pub transaction_id : String
  pub client_name : String
  pub amount : ℤ

pub record TwoPhaseResponse : Type 0 where
  pub success : Bool
  pub message : String

pub record PaymentResponse : Type 0 where
  pub success : Bool
  pub message : String
  pub transaction_id : String
  pub amount : ℤ
  pub currency : String

pub record PaymentDetails : Type 0 where
  pub client_name : String
  pub amount : ℤ
  pub receiver_name : String
  pub currency : String
  pub request_id : String

-- A response with the fields that the code sets, the others at their zero value.
abbrev pub plain_response : Bool → String → PaymentResponse
plain_response success message = record {
  success = success;
  message = message;
  transaction_id = "";
  amount = ℤ.pos 0;
  currency = "";
}
