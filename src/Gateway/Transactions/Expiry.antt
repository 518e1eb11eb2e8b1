-- ===== src/Gateway/Transactions/Expiry.antt =====
-- What the periodic cleanup keeps.
use distributed_systems_iiit.Common.{
  ◌≡◌, refl, ℕ, String, Bool, true, false, Option, none, some, List, [], ◌∷◌, ◌==◌, ==_iff,
  string_key, arith, if◌then◌else◌,
}
use distributed_systems_iiit.Common.Dict.{Dict, lookup, erase, lookup-erase, IsMap, erase-IsMap}
use distributed_systems_iiit.Gateway.Transactions.{
  Record, simple, two_phase, TransactionManager, is_expired, mark, mark_all, expired_ids, erase_all,
  cleanup_expired_transactions, get_transaction,
}

abbrev contains : String → List String → Bool
contains id [] = false
contains id (j ∷ ids) = if j == id then true else contains id ids

lookup-erase_all :
    (id : String) (ids : List String) (d : Dict String Record)
    → lookup id (erase_all ids d) ≡ (if contains id ids then none else lookup id d)
unfolding erase_all
lookup-erase_all id [] d = refl
lookup-erase_all id (j ∷ ids) d =
    rw (lookup-erase_all id ids (erase j d)) (grind (arith, lookup-erase, ==_iff j id))

lookup-mark_all :
    (id : String) (now ttl : ℕ) (d : Dict String Record)
    → lookup id (mark_all now ttl d)
      ≡ (elim (lookup id d) [ none ↦ none | some r ↦ some (mark now ttl r) ])
unfolding mark_all lookup
lookup-mark_all id now ttl [] = refl
lookup-mark_all id now ttl ((j, r) ∷ d) = ground (arith, lookup-mark_all id now ttl d, ==_iff j id)

contains-expired_ids :
    (id : String) (now ttl : ℕ) (d : Dict String Record)
    → IsMap d
    → contains id (expired_ids now ttl d)
      ≡ (elim (lookup id d) [ none ↦ false | some r ↦ is_expired now ttl r ])
unfolding expired_ids lookup
contains-expired_ids id now ttl [] h = refl
contains-expired_ids id now ttl ((j, r) ∷ d) h =
    ground (arith, contains-expired_ids id now ttl d h.1, ==_iff j id, h.0)

mark_fresh : (now ttl : ℕ) (r : Record) → is_expired now ttl r ≡ false → mark now ttl r ≡ r
unfolding mark is_expired
mark_fresh now ttl (simple r) h = refl
mark_fresh now ttl (two_phase r) h = ground arith

-- After a cleanup exactly the records that have not expired are found, each as it was.
pub get_transaction-cleanup_expired_transactions :
    (id : String) (now : ℕ) (tm : TransactionManager)
    → IsMap tm.transactions
    → get_transaction id (cleanup_expired_transactions now tm) ≡ (elim (get_transaction id tm) [
      | none ↦ none
      | some r ↦ if is_expired now tm.ttl r then none else some r
    ])
unfolding get_transaction cleanup_expired_transactions
get_transaction-cleanup_expired_transactions id now tm h =
    rw (lookup-erase_all, contains-expired_ids id now tm.ttl tm.transactions h, lookup-mark_all)
      (finish (lookup id tm.transactions))
  where
    finish :
        (o : Option Record)
        → (if (elim o [ none ↦ false | some r ↦ is_expired now tm.ttl r ])
            then none
            else (elim o [ none ↦ none | some r ↦ some (mark now tm.ttl r) ]))
          ≡ (elim o [ none ↦ none | some r ↦ if is_expired now tm.ttl r then none else some r ])
    finish none = refl
    finish (some r) = ground (arith, mark_fresh now tm.ttl r)

mark_all-IsMap : (now ttl : ℕ) (d : Dict String Record) → IsMap d → IsMap (mark_all now ttl d)
unfolding mark_all
mark_all-IsMap now ttl [] h = h
mark_all-IsMap now ttl ((id, r) ∷ d) h =
    (rw (lookup-mark_all id now ttl d, h.0) refl, mark_all-IsMap now ttl d h.1)

erase_all-IsMap : (ids : List String) (d : Dict String Record) → IsMap d → IsMap (erase_all ids d)
unfolding erase_all
erase_all-IsMap [] d h = h
erase_all-IsMap (id ∷ ids) d h = erase_all-IsMap ids (erase id d) (erase-IsMap id d h)

pub cleanup_expired_transactions-IsMap :
    (now : ℕ) (tm : TransactionManager)
    → IsMap tm.transactions
    → IsMap (cleanup_expired_transactions now tm).transactions
unfolding cleanup_expired_transactions
cleanup_expired_transactions-IsMap now tm h =
    erase_all-IsMap (expired_ids now tm.ttl tm.transactions) (mark_all now tm.ttl tm.transactions)
      (mark_all-IsMap now tm.ttl tm.transactions h)
