-- ===== src/Client/Interceptors/Identity.antt =====
-- The transaction id of a payment is made once, by requests that run one after another.
use distributed_systems_iiit.Common.{
  ◌≡◌, String, some, List, [], ◌∷◌, ==_iff, ==_refl, string_key, arith,
}
use distributed_systems_iiit.Common.Dict.{lookup, lookup-insert}
use distributed_systems_iiit.Client.Interceptors.{TransactionCache, get_or_create_transaction_id}

-- Requests for ids, each with the key and what the library would make for it.
unfoldable pub get_or_create_all : List (String × String) → TransactionCache → TransactionCache
unfolding get_or_create_transaction_id
get_or_create_all [] cache = cache
get_or_create_all ((key, new_id) ∷ rest) cache =
    get_or_create_all rest (get_or_create_transaction_id new_id key cache).0

get_or_create_all_keeps :
    (asked : List (String × String)) (key id : String) (cache : TransactionCache)
    → lookup key cache ≡ some id
    → lookup key (get_or_create_all asked cache) ≡ some id
unfolding get_or_create_all get_or_create_transaction_id
get_or_create_all_keeps [] key id cache h = h
get_or_create_all_keeps ((k, new_id) ∷ rest) key id cache h =
    get_or_create_all_keeps rest key id (get_or_create_transaction_id new_id k cache).0 kept
  where
    kept : lookup key (get_or_create_transaction_id new_id k cache).0 ≡ some id
    kept = ground (arith, lookup-insert k key new_id cache, ==_iff k key)

lookup-get_or_create_transaction_id :
    (new_id key : String) (cache : TransactionCache)
    → let (cache', id) = get_or_create_transaction_id new_id key cache in
      lookup key cache' ≡ some id
unfolding get_or_create_transaction_id
lookup-get_or_create_transaction_id new_id key cache =
    ground (arith, lookup-insert key key new_id cache, ==_refl key)

-- Once an id was made for a key, every later request with the key gets that id, whatever requests
-- come between, and leaves the cache as it is.
pub transaction_id_is_kept :
    (asked : List (String × String)) (first_id later_id key : String) (cache : TransactionCache)
    → let (cache1, id) = get_or_create_transaction_id first_id key cache in
      let cache2 = get_or_create_all asked cache1 in
      get_or_create_transaction_id later_id key cache2 ≡ (cache2, id)
unfolding get_or_create_transaction_id
transaction_id_is_kept asked first_id later_id key cache =
    let (cache1, id) = get_or_create_transaction_id first_id key cache in
    ground (
      arith,
      get_or_create_all_keeps asked key id cache1
          (lookup-get_or_create_transaction_id first_id key cache),
    )
