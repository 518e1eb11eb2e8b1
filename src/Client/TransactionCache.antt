-- ===== src/Client/TransactionCache.antt =====
-- The client's cache of transaction ids (client/payment/transaction.go). A new UUID is an argument.
use distributed_systems_iiit.Common.{◌≡◌, ◌≢◌, String, none, some, ==_iff, string_key, arith}
use distributed_systems_iiit.Common.Dict.{Dict, lookup, insert, erase, lookup-insert, lookup-erase}

abbrev pub TransactionManager : Type 0
TransactionManager = Dict String String

unfoldable pub get_or_create_transaction_id :
    String → String → TransactionManager → TransactionManager × String
get_or_create_transaction_id uuid cache_key tm = elim (lookup cache_key tm) [
  | some transaction_id ↦ (tm, transaction_id)
  | none ↦ (insert cache_key uuid tm, uuid)
]

unfoldable pub remove_transaction_id : String → TransactionManager → TransactionManager
remove_transaction_id cache_key tm = erase cache_key tm

-- A key keeps its id: whatever other key is asked for or removed in between, it gets the same id
-- again.
get_or_create_transaction_id_again :
    (k j removed uuid uuid' uuid'' : String) (tm : TransactionManager)
    → removed ≢ k
    → let (tm1, id) = get_or_create_transaction_id uuid k tm in
      let tm2 = (get_or_create_transaction_id uuid' j tm1).0 in
      (get_or_create_transaction_id uuid'' k (remove_transaction_id removed tm2)).1 ≡ id
unfolding get_or_create_transaction_id remove_transaction_id
get_or_create_transaction_id_again k j removed uuid uuid' uuid'' tm h =
    grind (arith, lookup-insert, lookup-erase, ==_iff k k, ==_iff j k, ==_iff removed k)

-- After its removal a key gets the new id.
get_or_create_transaction_id-remove_transaction_id :
    (k uuid : String) (tm : TransactionManager)
    → (get_or_create_transaction_id uuid k (remove_transaction_id k tm)).1 ≡ uuid
unfolding get_or_create_transaction_id remove_transaction_id
get_or_create_transaction_id-remove_transaction_id k uuid tm =
    grind (arith, lookup-erase, ==_iff k k)
