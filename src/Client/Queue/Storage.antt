-- ===== src/Client/Queue/Storage.antt =====
-- The file of the queue (client/payment/storage.go), and a client that starts from it
-- (`NewOfflinePaymentManager` of client/payment/manager.go). `encoding/json` is an interface.
pub mod Restart
mod Tests
use distributed_systems_iiit.Common.{
  ℕ, ◌≡◌, ◌≢◌, Bool, true, false, Option, none, some, List, [], ◌==◌, nat_key, if◌then◌else◌,
}
use distributed_systems_iiit.Client.Queue.{
  PendingPayment, OfflinePaymentManager, load_pending_payments,
}

-- Go's JSON for lists of payments whose texts are UTF-8. `unmarshal` gives what it has filled in,
-- and whether it ends without an error. What was marshalled is not empty, and is read back.
pub record Json : Type 1 where
  pub Data : Type 0
  pub len : Data → ℕ
  pub marshal_indent : List PendingPayment → Option Data
  pub unmarshal : Data → List PendingPayment × Bool
  pub len_marshal :
      (payments : List PendingPayment) (data_ : Data)
      → marshal_indent payments ≡ some data_
      → (len data_ == 0) ≡ false
  pub unmarshal_marshal :
      (payments : List PendingPayment) (data_ : Data)
      → marshal_indent payments ≡ some data_
      → unmarshal data_ ≡ (payments, true)

-- What becomes of a write: it succeeds, or fails and leaves some file, if any, since the old content
-- is cut off first.
pub data Write (D : Type 0) : Type 0 where
  written : Write D
  write_failed : Option D → Write D

module _ (json : Json) where
  open json use {Data, len, marshal_indent, unmarshal}

  -- `LoadPendingPayments`: the payments, and whether there is no error. `none` is no file, and
  -- `readable` says whether one that is there can be read.
  unfoldable pub load_queue_file : Bool → Option Data → List PendingPayment × Bool
  load_queue_file readable none = ([], true)
  load_queue_file readable (some data_) =
      if readable then if len data_ == 0 then ([], true) else unmarshal data_ else ([], false)

  -- `SavePendingPayments`: the file that is left, and whether there is no error.
  unfoldable pub save_pending_payments :
      Write Data → List PendingPayment → Option Data → Option Data × Bool
  save_pending_payments w payments file = elim (marshal_indent payments) [
    | none ↦ (file, false)
    | some data_ ↦ elim w [ written ↦ (some data_, true) | write_failed left ↦ (left, false) ]
  ]

  -- `NewOfflinePaymentManager` with the file that it finds.
  unfoldable pub start_client : Bool → Option Data → OfflinePaymentManager
  unfolding load_queue_file load_pending_payments
  start_client readable file =
      let (payments, success) = load_queue_file readable file in
      load_pending_payments (if success then some payments else none)
