-- ===== src/LoadBalancer/System.antt =====
-- The load balancer with its backend servers (Assignment2/P1-LoadBalancer/lb_server/main.go and
-- server/main.go): what happens, in any order. A server registers when it starts and reports its load
-- from time to time; tasks start and end on it; clients ask for a server.
use distributed_systems_iiit.Common.{
  ◌≡◌, ◌∙◌, refl, sym, ap, inl, inr, String, true, List, [], ◌∷◌, string_key, arith, or_else,
  Option-cases,
}
use Prim.Native.String.{◌++◌}
use distributed_systems_iiit.Common.Int.{pos, ltb_ℤ, ◌<ℤ◌}
use distributed_systems_iiit.Common.Dict.{Dict, lookup, insert}
use distributed_systems_iiit.LoadBalancer.{
  ServerStatus, EtcdClient, LoadBalanceStrategy, Selection, selected, LoadBalancer, put_status,
  register_server, report_load, get_best_server, etcd_servers_prefix,
}
use distributed_systems_iiit.LoadBalancer.Policies.{get_best_server_selects}
use distributed_systems_iiit.LoadBalancer.Backend.{BackendServer, start_task, end_task, load_report}

pub data Event : Type 0 where
  registers reports starts ends : String → Event
  asks : LoadBalanceStrategy → Event

-- The backend servers by their addresses.
abbrev pub Backends : Type 0
Backends = Dict String BackendServer

abbrev backend : String → Backends → BackendServer
backend address backends = or_else 0 (lookup address backends)

abbrev address_of : Selection → String
address_of (selected address) = address
address_of _ = ""

module _ (etcd : EtcdClient) where
  open etcd use {Store, Holds, put, put_holds, get_holds, get_with_prefix}

  pub record System : Type 0 where
    pub balancer : LoadBalancer etcd
    pub backends : Backends

  -- `simulateBackendServer`, one call at a time, and the calls of the clients. A server whose
  -- registration fails goes on.
  unfoldable pub happen : Event → System → System
  unfolding register_server report_load get_best_server
  happen (registers address) s = record s {
    balancer = (register_server etcd address s.balancer).0;
    backends = insert address 0 s.backends;
  }
  happen (reports address) s = record s {
    balancer = (report_load etcd (load_report address (backend address s.backends)) s.balancer).0;
  }
  happen (starts address) s = record s {
    backends = insert address (start_task (backend address s.backends)) s.backends;
  }
  happen (ends address) s = record s {
    backends = insert address (end_task (backend address s.backends)) s.backends;
  }
  happen (asks strategy) s = record s { balancer = (get_best_server etcd strategy s.balancer).0 }

  unfoldable pub run_events : List Event → System → System
  unfolding happen
  run_events [] s = s
  run_events (e ∷ rest) s = run_events rest (happen e s)

  -- A status says that its server is available exactly if it runs fewer than five tasks.
  abbrev pub IsHonest : ServerStatus → Type 0
  IsHonest w = w.available ≡ ltb_ℤ w.load (pos 5)

  IsHonestIn : Store → Type 0
  IsHonestIn store = (w : ServerStatus) → Holds store w → IsHonest w

  put_status-IsHonestIn :
      (status : ServerStatus) (lb : LoadBalancer etcd)
      → IsHonest status
      → IsHonestIn lb.store
      → IsHonestIn (put_status etcd status lb).0.store
  unfolding put_status IsHonestIn
  put_status-IsHonestIn status lb h honest =
      elim (Option-cases (put (etcd_servers_prefix ++ status.address) status lb.store)) [
        | inl e ↦ rw (e, put_status) honest
        | inr (store, e) ↦
            rw (e, put_status)
              (λ w held.
                elim (put_holds (etcd_servers_prefix ++ status.address) status w lb.store store e
                  held) [ inl same ↦ rw same h | inr before ↦ honest w before ])
      ]

  happen-IsHonestIn :
      (event : Event) (s : System)
      → IsHonestIn s.balancer.store
      → IsHonestIn (happen event s).balancer.store
  unfolding happen register_server report_load get_best_server
  happen-IsHonestIn (registers address) s honest =
      put_status-IsHonestIn (record { address = address; load = pos 0; available = true })
        s.balancer refl honest
  happen-IsHonestIn (reports address) s honest =
      let report = load_report address (backend address s.backends) in
      put_status-IsHonestIn
        (record { address = address; load = report.load; available = report.available }) s.balancer
        (ground arith) honest
  happen-IsHonestIn (starts address) s honest = honest
  happen-IsHonestIn (ends address) s honest = honest
  happen-IsHonestIn (asks strategy) s honest =
      let same : (get_best_server etcd strategy s.balancer).0.store ≡ s.balancer.store =
        ground arith in
      rw same honest

  run_events-IsHonestIn :
      (events : List Event) (s : System)
      → IsHonestIn s.balancer.store
      → IsHonestIn (run_events events s).balancer.store
  unfolding run_events
  run_events-IsHonestIn [] s honest = honest
  run_events-IsHonestIn (e ∷ rest) s honest =
      run_events-IsHonestIn rest (happen e s) (happen-IsHonestIn e s honest)

  -- After any registrations, reports, tasks and queries, in any order, and whichever writes fail, a
  -- server that any policy selects has a status in the store that reports fewer than five tasks, if
  -- every status in the store at the start is available exactly below five tasks.
  pub get_best_server-run_events :
      (events : List Event) (strategy : LoadBalanceStrategy) (address : String) (s : System)
      → ((w : ServerStatus) → Holds s.balancer.store w → IsHonest w)
      → (get_best_server etcd strategy (run_events events s).balancer).1 ≡ selected address
      → (w : ServerStatus) × Holds (run_events events s).balancer.store w
        × (w.address ≡ address)
        × (w.load <ℤ pos 5)
  unfolding IsHonestIn get_best_server
  get_best_server-run_events events strategy address s honest found =
      let lb = (run_events events s).balancer in
      elim (Option-cases (get_with_prefix etcd_servers_prefix lb.store)) [
        | inl e ↦ absurd (ground (arith, found, e))
        | inr (kvs, e) ↦ elim (get_best_server_selects etcd strategy lb kvs e).0 [
          | inr (nobody, _) ↦ absurd (cc (found, nobody))
          | inl (c, p) ↦
              let held = get_holds etcd_servers_prefix lb.store kvs c.index c.status e c.listed in
              (
                c.status,
                held,
                ap address_of (sym p ∙ found),
                ground (arith, run_events-IsHonestIn events s honest c.status held, c.available),
              )
        ]
      ]
