-- ===== src/Gateway/Transactions.antt =====
-- The records of processed transactions (gateway/payment/transaction.go). Times and the lifetime
-- `ttl` are numbers of one unit. The records of two-phase commit are shared by pointer; a handler
-- holds its own and this map shows the same one, so a write to it is a write of the entry.
pub mod Expiry
use distributed_systems_iiit.Common.{
  ℕ, ◌+◌, String, Bool, true, false, Option, none, some, List, [], ◌∷◌, ◌==◌, string_key, ltb,
  is_some, not, ◌&&◌, if◌then◌else◌,
}
use distributed_systems_iiit.Common.Int.{ℤ}
use distributed_systems_iiit.Common.Dict.{Dict, lookup, insert, erase}
use distributed_systems_iiit.Protofiles.{PaymentResponse}

pub record SimpleTransactionRecord : Type 0 where
  pub transaction_id : String
  pub client_name : String
  pub amount : ℤ
  pub processed_at : ℕ
  pub result : PaymentResponse

-- The constants `TransactionPreparing` to `TransactionAborted`.
pub data TransactionState : Type 0 where
  preparing prepared committing committed aborting aborted : TransactionState

pub record TwoPhaseTransactionRecord : Type 0 where
  pub id : String
  pub sender : String
  pub receiver : String
  pub amount : ℤ
  pub state : TransactionState
  -- by the bank's name
  pub prepare_votes : Dict String Bool
  pub commit_votes : Dict String Bool
  pub timestamp : ℕ

-- What the `map[string]interface{}` holds.
pub data Record : Type 0 where
  simple : SimpleTransactionRecord → Record
  two_phase : TwoPhaseTransactionRecord → Record

pub record TransactionManager : Type 0 where
  pub transactions : Dict String Record
  pub ttl : ℕ

unfoldable pub store_simple_transaction :
    SimpleTransactionRecord → TransactionManager → TransactionManager
store_simple_transaction r tm = record tm {
  transactions = insert r.transaction_id (simple r) tm.transactions;
}

unfoldable pub store_two_phase_transaction :
    String → TwoPhaseTransactionRecord → TransactionManager → TransactionManager
store_two_phase_transaction id r tm = record tm {
  transactions = insert id (two_phase r) tm.transactions;
}

unfoldable pub get_transaction : String → TransactionManager → Option Record
get_transaction id tm = lookup id tm.transactions

unfoldable pub has_active_transaction : String → TransactionManager → Bool
has_active_transaction id tm = is_some (lookup id tm.transactions)

unfoldable pub cleanup_transaction : String → TransactionManager → TransactionManager
cleanup_transaction id tm = record tm { transactions = erase id tm.transactions }

-- `now.Sub(timestamp) > tm.ttl`, with no subtraction.
abbrev pub is_old : ℕ → ℕ → ℕ → Bool
is_old now ttl timestamp = ltb (timestamp + ttl) now

unfoldable pub is_expired : ℕ → ℕ → Record → Bool
is_expired now ttl (simple r) = is_old now ttl r.processed_at
is_expired now ttl (two_phase r) = is_old now ttl r.timestamp

-- The states in which a transaction has ended.
abbrev pub is_final : TransactionState → Bool
is_final committed = true
is_final aborted = true
is_final _ = false

-- An expired transaction that is in progress is marked as aborted.
unfoldable pub mark : ℕ → ℕ → Record → Record
mark now ttl (simple r) = simple r
mark now ttl (two_phase r) =
    if is_old now ttl r.timestamp && not (is_final r.state)
    then two_phase (record r { state = aborted })
    else two_phase r

-- The first loop of the cleanup: the map with its marks, and the ids that have expired.
unfoldable pub mark_all : ℕ → ℕ → Dict String Record → Dict String Record
unfolding mark
mark_all now ttl [] = []
mark_all now ttl ((id, r) ∷ rest) = (id, mark now ttl r) ∷ mark_all now ttl rest

unfoldable pub expired_ids : ℕ → ℕ → Dict String Record → List String
unfolding is_expired
expired_ids now ttl [] = []
expired_ids now ttl ((id, r) ∷ rest) =
    let ids = expired_ids now ttl rest in if is_expired now ttl r then id ∷ ids else ids

-- The second loop.
unfoldable pub erase_all : List String → Dict String Record → Dict String Record
erase_all [] d = d
erase_all (id ∷ ids) d = erase_all ids (erase id d)

unfoldable pub cleanup_expired_transactions : ℕ → TransactionManager → TransactionManager
unfolding mark_all expired_ids erase_all
cleanup_expired_transactions now tm = record tm {
  transactions =
      erase_all (expired_ids now tm.ttl tm.transactions) (mark_all now tm.ttl tm.transactions);
}
