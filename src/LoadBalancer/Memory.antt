-- ===== src/LoadBalancer/Memory.antt =====
-- etcd as a list of entries in memory, for the tests.
use mathlib.Core.Option.{some-injective}
use Prim.Native.String.{◌++◌ as string_append}
use distributed_systems_iiit.Common.{
  ℕ, zero, String, string_key, Bool-cases, suc, ◌∙◌, ap, sym, inl, ◌≡◌, ◌⊎◌, inr, Option, some,
  List, [], ◌∷◌, ◌==◌, nat_key, arith,
}
use distributed_systems_iiit.Common.Lists.{get_elem?}
use distributed_systems_iiit.LoadBalancer.{ServerStatus, EtcdClient}
use distributed_systems_iiit.Common.Dict.{Dict, erase}

abbrev pub Entries : Type 0
Entries = Dict String ServerStatus

abbrev pub values : Entries → List (Option ServerStatus)
values [] = []
values ((_, v) ∷ rest) = some v ∷ values rest

-- A status is at some place of the store.
abbrev pub Stored : Entries → ServerStatus → Type 0
Stored s w = (i : ℕ) × (get_elem? (values s) i ≡ some (some w))

abbrev pub put_entry : String → ServerStatus → Entries → Entries
put_entry key v s = (key, v) ∷ erase key s

erase-Stored : (key : String) (w : ServerStatus) (s : Entries) → Stored (erase key s) w → Stored s w
unfolding erase
erase-Stored key w [] h = h
erase-Stored key w ((k, v) ∷ rest) (i, e) = elim (Bool-cases (k == key)) [
  | inl p ↦ let (j, q) = erase-Stored key w rest (i, ground (arith, e)) in (suc j, q)
  | inr p ↦ go (λ j q. erase-Stored key w rest (j, q)) i (ground (arith, e))
]
  where
    go :
        ((j : ℕ) → get_elem? (values (erase key rest)) j ≡ some (some w) → Stored rest w)
        → (i : ℕ) → get_elem? (values ((k, v) ∷ erase key rest)) i ≡ some (some w)
        → Stored ((k, v) ∷ rest) w
    go later zero h = (0, h)
    go later (suc i) h = let (j, q) = later i h in (suc j, q)

pub put_entry-Stored :
    (key : String) (v w : ServerStatus) (s s' : Entries)
    → some (put_entry key v s) ≡ some s'
    → Stored s' w
    → (w ≡ v) ⊎ Stored s w
put_entry-Stored key v w s s' p (i, e) =
    go i (ap (λ l. get_elem? (values l) i) (some-injective _ _ p) ∙ e)
  where
    go : (i : ℕ) → get_elem? (values (put_entry key v s)) i ≡ some (some w) → (w ≡ v) ⊎ Stored s w
    go zero h = inl (sym (some-injective _ _ (some-injective _ _ h)))
    go (suc i) h = inr (erase-Stored key w s (i, h))

pub put_first :
    (key : String) (v : ServerStatus) (s s' : Entries) (kvs : List (Option ServerStatus))
    → some (put_entry key v s) ≡ some s'
    → some (values s') ≡ some kvs
    → get_elem? kvs 0 ≡ some (some v)
put_first key v s s' kvs p q = ground arith

abbrev pub etcd : EtcdClient
etcd = record {
  Store = Entries;
  put = λ key v s. some (put_entry key v s);
  get_with_prefix = λ prefix s. some (values s);
  put_get = λ prefix key v s s' kvs p q. (0, put_first (string_append prefix key) v s s' kvs p q);
  Holds = Stored;
  put_holds = λ key v w s s' p h. put_entry-Stored key v w s s' p h;
  get_holds = λ prefix s kvs i w p h. (i, ap (λ l. get_elem? l i) (some-injective _ _ p) ∙ h);
}
