-- ===== src/Gateway/TransactionStorage.antt =====
-- The storage of processed transactions (gateway/storage/transactions.go), which nothing constructs:
-- the gateway keeps its records in Gateway/Transactions.antt. The ticker of the cleanup is left out.
use distributed_systems_iiit.Common.{
  ◌≡◌, refl, ℕ, String, Bool, Option, none, some, [], ◌∷◌, ◌==◌, ==_iff, string_key, is_some, arith,
  if◌then◌else◌,
}
use distributed_systems_iiit.Common.Int.{ℤ}
use distributed_systems_iiit.Common.Dict.{Dict, lookup, insert, lookup-insert, IsMap, insert-IsMap}
use distributed_systems_iiit.Protofiles.{PaymentResponse}
use distributed_systems_iiit.Gateway.Transactions.{is_old}

pub record TransactionRecord : Type 0 where
  pub transaction_id : String
  pub client_name : String
  pub amount : ℤ
  pub processed_at : ℕ
  pub result : PaymentResponse

pub record TransactionStorage : Type 0 where
  pub processed_transactions : Dict String TransactionRecord
  pub transaction_ttl : ℕ

unfoldable pub new_transaction_storage : ℕ → TransactionStorage
new_transaction_storage ttl = record { processed_transactions = []; transaction_ttl = ttl }

-- The loop of the cleanup.
unfoldable pub unexpired : ℕ → ℕ → Dict String TransactionRecord → Dict String TransactionRecord
unexpired now ttl [] = []
unexpired now ttl ((id, r) ∷ rest) =
    let others = unexpired now ttl rest in
    if is_old now ttl r.processed_at then others else (id, r) ∷ others

unfoldable pub cleanup_expired_transactions : ℕ → TransactionStorage → TransactionStorage
unfolding unexpired
cleanup_expired_transactions now s = record s {
  processed_transactions = unexpired now s.transaction_ttl s.processed_transactions;
}

unfoldable pub store_transaction : TransactionRecord → TransactionStorage → TransactionStorage
store_transaction r s = record s {
  processed_transactions = insert r.transaction_id r s.processed_transactions;
}

unfoldable pub get_transaction : String → TransactionStorage → Option TransactionRecord
get_transaction id s = lookup id s.processed_transactions

unfoldable pub has_transaction : String → TransactionStorage → Bool
has_transaction id s = is_some (lookup id s.processed_transactions)

lookup-unexpired :
    (id : String) (now ttl : ℕ) (d : Dict String TransactionRecord)
    → IsMap d
    → lookup id (unexpired now ttl d) ≡ (elim (lookup id d) [
      | none ↦ none
      | some r ↦ if is_old now ttl r.processed_at then none else some r
    ])
unfolding unexpired lookup
lookup-unexpired id now ttl [] h = refl
lookup-unexpired id now ttl ((j, r) ∷ d) h =
    ground (arith, lookup-unexpired id now ttl d h.1, ==_iff j id, h.0)

-- A record that is stored is found after a cleanup unless it has expired, and a cleanup does the
-- same to every other record.
get_transaction-store_transaction :
    (id : String) (now : ℕ) (r : TransactionRecord) (s : TransactionStorage)
    → IsMap s.processed_transactions
    → get_transaction id (cleanup_expired_transactions now (store_transaction r s))
      ≡ (elim (if r.transaction_id == id then some r else get_transaction id s) [
        | none ↦ none
        | some q ↦ if is_old now s.transaction_ttl q.processed_at then none else some q
      ])
unfolding get_transaction cleanup_expired_transactions store_transaction
get_transaction-store_transaction id now r s h =
    rw
      (
        lookup-unexpired id now s.transaction_ttl _
            (insert-IsMap r.transaction_id r s.processed_transactions h),
        lookup-insert r.transaction_id id r s.processed_transactions,
      )
      refl
