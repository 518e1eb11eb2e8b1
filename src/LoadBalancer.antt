-- ===== src/LoadBalancer.antt =====
-- The load balancer (Assignment2/P1-LoadBalancer/lb_server/main.go). etcd is an interface: writes of
-- a key and reads by prefix, either of which may fail. A value that is not a status is `none`.
pub mod Policies
pub mod Rounds
pub mod Backend
pub mod Client
pub mod System
mod Memory
mod Tests
use Prim.Native.String.{◌++◌}
use distributed_systems_iiit.Common.{
  ℕ, ◌+◌, ◌%◌, ◌≡◌, ◌⊎◌, String, Bool, true, false, Option, none, some, List, [], ◌∷◌, leb,
  if◌then◌else◌,
}
use distributed_systems_iiit.Common.Lists.{length, get_elem?}
use distributed_systems_iiit.Common.Int.{ℤ, pos, ltb_ℤ}

pub record ServerStatus : Type 0 where
  pub address : String
  pub load : ℤ
  pub available : Bool

abbrev pub etcd_servers_prefix : String
etcd_servers_prefix = "/lb/servers/"

-- The calls of the etcd client; `none` is an error.
pub record EtcdClient : Type 1 where
  pub Store : Type 0
  pub put : String → ServerStatus → Store → Option Store
  pub get_with_prefix : String → Store → Option (List (Option ServerStatus))
  -- A value that was put is among those that a read by a prefix of its key returns.
  pub put_get :
      (prefix key : String) (v : ServerStatus) (s s' : Store) (kvs : List (Option ServerStatus))
      → put (prefix ++ key) v s ≡ some s'
      → get_with_prefix prefix s' ≡ some kvs
      → (i : ℕ) × (get_elem? kvs i ≡ some (some v))
  -- The statuses in the store: a put adds none but its own, and a read returns none but these.
  pub Holds : Store → ServerStatus → Type 0
  pub put_holds :
      (key : String) (v w : ServerStatus) (s s' : Store)
      → put key v s ≡ some s'
      → Holds s' w
      → (w ≡ v) ⊎ Holds s w
  pub get_holds :
      (prefix : String) (s : Store) (kvs : List (Option ServerStatus)) (i : ℕ) (w : ServerStatus)
      → get_with_prefix prefix s ≡ some kvs
      → get_elem? kvs i ≡ some (some w)
      → Holds s w

pub data LoadBalanceStrategy : Type 0 where
  pick_first round_robin least_load : LoadBalanceStrategy

-- `status.Load = int(req.Load)` of the request.
pub record ServerLoad : Type 0 where
  pub address : String
  pub load : ℤ
  pub available : Bool

-- What a selection ends with; an index out of range is Go's panic.
pub data Selection : Type 0 where
  selected : String → Selection
  query_failed no_available_servers index_out_of_range : Selection

-- The loop that keeps the available servers.
unfoldable pub available_servers : List (Option ServerStatus) → List ServerStatus
available_servers [] = []
available_servers (none ∷ rest) = available_servers rest
available_servers (some status ∷ rest) =
    let others = available_servers rest in if status.available then status ∷ others else others

-- The loop of the least load, with the best server so far.
unfoldable pub least_loaded : ServerStatus → List ServerStatus → ServerStatus
least_loaded best [] = best
least_loaded best (s ∷ rest) = least_loaded (if ltb_ℤ s.load best.load then s else best) rest

-- `availableServers[i]`
unfoldable pub server_at : List ServerStatus → ℕ → Selection
server_at servers i = elim (get_elem? servers i) [
  | none ↦ index_out_of_range
  | some s ↦ selected s.address
]

-- The choice among the available servers, and the next round-robin index.
unfoldable pub pick : LoadBalanceStrategy → ℕ → List ServerStatus → ℕ × Selection
unfolding server_at least_loaded
pick strategy rr_index [] = (rr_index, no_available_servers)
pick pick_first rr_index (s ∷ rest) = (rr_index, server_at (s ∷ rest) 0)
pick round_robin rr_index (s ∷ rest) =
    let n = length (s ∷ rest) in
    let i = if leb n rr_index then 0 else rr_index in (i + 1, server_at (s ∷ rest) (i % n))
pick least_load rr_index (s ∷ rest) = (rr_index, selected (least_loaded s (s ∷ rest)).address)

module _ (etcd : EtcdClient) where
  open etcd use {Store, put, get_with_prefix}

  pub record LoadBalancer : Type 0 where
    pub rr_index : ℕ
    pub store : Store

  -- A write of a status; the Boolean says whether it succeeded.
  unfoldable pub put_status : ServerStatus → LoadBalancer → LoadBalancer × Bool
  put_status status lb = elim (put (etcd_servers_prefix ++ status.address) status lb.store) [
    | none ↦ (lb, false)
    | some store ↦ (record lb { store = store }, true)
  ]

  unfoldable pub register_server : String → LoadBalancer → LoadBalancer × Bool
  unfolding put_status
  register_server address =
      put_status (record { address = address; load = pos 0; available = true })

  unfoldable pub report_load : ServerLoad → LoadBalancer → LoadBalancer × Bool
  unfolding put_status
  report_load req =
      put_status (record { address = req.address; load = req.load; available = req.available })

  unfoldable pub get_best_server : LoadBalanceStrategy → LoadBalancer → LoadBalancer × Selection
  unfolding available_servers pick
  get_best_server strategy lb = elim (get_with_prefix etcd_servers_prefix lb.store) [
    | none ↦ (lb, query_failed)
    | some kvs ↦
        let (rr_index, selection) = pick strategy lb.rr_index (available_servers kvs) in
        (record lb { rr_index = rr_index }, selection)
  ]
