-- ===== src/LoadBalancer/Tests.antt =====
-- Three servers in a store that holds nothing else.
use distributed_systems_iiit.Common.{
  ℕ, String, string_key, ◌+◌, ◌*◌, ◌≡◌, ◌⊎◌, refl, inr, true, false, Option, none, some, List, [],
  ◌∷◌, ◌++◌, ◌-◌, ◌==◌, ◌&&◌, nat_key, leb, if◌then◌else◌, arith, ◌<◌, ◌≤◌,
}
use distributed_systems_iiit.Common.Lists.{length}
use distributed_systems_iiit.Common.Int.{ℤ, pos, ◌≤ℤ◌, ◌<ℤ◌}
use distributed_systems_iiit.Common.Words.{Word}
use distributed_systems_iiit.LoadBalancer.Backend.{
  fibonacci_prefix, unknown_task, compute, cut_task, cut_parts, split, join,
}
use distributed_systems_iiit.LoadBalancer.{
  ServerStatus, round_robin, least_load, selected, no_available_servers, LoadBalancer,
  register_server, report_load, put_status, get_best_server, pick, available_servers, least_loaded,
}
use distributed_systems_iiit.LoadBalancer.Policies.{
  Candidate, get_best_server_selects, get_best_server_least,
}
use distributed_systems_iiit.LoadBalancer.Client.{
  Trip, LoadTest, run_client, task_of, request_one, compute_at,
}
use distributed_systems_iiit.LoadBalancer.System.{
  System, Event, registers, reports, starts, happen, run_events, get_best_server-run_events,
}
use distributed_systems_iiit.Common.Dict.{lookup, insert, erase}
use distributed_systems_iiit.LoadBalancer.Rounds.{picks, in_order, picks_round}
use distributed_systems_iiit.LoadBalancer.Memory.{etcd, Stored}

abbrev idle : ServerStatus
idle = record { address = "127.0.0.1:50051"; load = pos 0; available = true }

abbrev busy : ServerStatus
busy = record { address = "127.0.0.1:50052"; load = pos 5; available = false }

abbrev loaded : ServerStatus
loaded = record { address = "127.0.0.1:50053"; load = pos 3; available = true }

abbrev balancer : LoadBalancer etcd
balancer = record {
  rr_index = 1;
  store = ("/lb/servers/3", loaded) ∷ ("/lb/servers/2", busy) ∷ ("/lb/servers/1", idle) ∷ [];
}

abbrev kvs : List (Option ServerStatus)
kvs = some loaded ∷ some busy ∷ some idle ∷ []

abbrev first_candidate : Candidate kvs
first_candidate = record { status = loaded; index = 0; listed = refl; available = refl }

get_best_server_selects_example :
    let (lb', selection) = get_best_server etcd round_robin balancer in
    (((c : Candidate kvs) × (selection ≡ selected c.status.address))
      ⊎ ((selection ≡ no_available_servers) × (¬ Candidate kvs)))
    × ((lb'.rr_index ≡ balancer.rr_index)
        ⊎ ((0 < lb'.rr_index) × (lb'.rr_index ≤ length (available_servers kvs))))
get_best_server_selects_example = get_best_server_selects etcd round_robin balancer kvs refl

get_best_server_least_example :
    (c : Candidate kvs) × ((get_best_server etcd least_load balancer).1 ≡ selected c.status.address)
    × (c.status.load ≤ℤ pos 3)
get_best_server_least_example = get_best_server_least etcd balancer kvs first_candidate refl

abbrev newcomer : ServerStatus
newcomer = record { address = "127.0.0.1:50054"; load = pos 0; available = true }

abbrev after : LoadBalancer etcd
after = record balancer { store = ("/lb/servers/127.0.0.1:50054", newcomer) ∷ balancer.store }

registered : register_server etcd "127.0.0.1:50054" balancer ≡ (after, true)
unfolding register_server erase
registered = refl

picks_round_example :
    picks 3 3 (loaded ∷ busy ∷ idle ∷ []) ≡ (3, in_order 3 0 (loaded ∷ busy ∷ idle ∷ []))
picks_round_example = picks_round 3 loaded (busy ∷ idle ∷ []) (inr (omega arith))

-- The least loaded of the available servers.
least : (get_best_server etcd least_load balancer).1 ≡ selected "127.0.0.1:50051"
unfolding get_best_server
least = refl

-- The second available server is at index 1, the busy one being left out.
second :
    get_best_server etcd round_robin balancer
    ≡ (record balancer { rr_index = 2 }, selected "127.0.0.1:50051")
unfolding get_best_server
second = refl

-- Trimming and reading, as far as these tasks need them.
abbrev trim : Word → Word
trim [] = []
trim (c ∷ w) = if c == 32 then w else c ∷ w

abbrev digit : ℕ → Option ℕ
digit c = if leb 48 c && leb c 57 then some (c - 48) else none

-- Numbers of one and of two digits.
abbrev read_number : Word → Option ℤ
read_number (c ∷ []) = elim (digit c) [ none ↦ none | some n ↦ some (pos n) ]
read_number (c ∷ d ∷ []) = elim (digit c) [
  | none ↦ none
  | some n ↦ elim (digit d) [ none ↦ none | some m ↦ some (pos (n * 10 + m)) ]
]
read_number _ = none

-- "9"
abbrev nine : Word
nine = 57 ∷ []

-- A task that itself starts with "fibonacci:" is not served.
bare_task_is_unknown : compute trim read_number (fibonacci_prefix ++ nine) ≡ unknown_task
unfolding compute cut_task cut_parts split join
bare_task_is_unknown = refl

abbrev trips : List Trip
trips =
    record { dials = true; answered = true; latency = 700 }
    ∷ record { dials = true; answered = false; latency = 5 }
    ∷ record { dials = true; answered = true; latency = 800 }
    ∷ []

abbrev start : LoadTest etcd trim read_number
start = record { balancer = balancer; total_requests = 0; total_latency = 0; answers = [] }

-- Two of the three calls get through.
two_are_counted :
    let t = run_client etcd trim read_number least_load (task_of (51 ∷ [])) trips start in
    (t.total_requests ≡ 2) × (t.total_latency ≡ 1500)
unfolding run_client request_one compute_at get_best_server pick available_servers least_loaded
two_are_counted = (refl, refl)

abbrev system : System etcd
system = record { balancer = record { rr_index = 0; store = [] }; backends = [] }

-- Six tasks start on a server before it reports.
abbrev address : String
address = "127.0.0.1:50051"

abbrev crowd : List Event
crowd =
    registers address
    ∷ starts address
    ∷ starts address
    ∷ starts address
    ∷ starts address
    ∷ starts address
    ∷ starts address
    ∷ []

chosen_in_crowd :
    (get_best_server etcd least_load (run_events etcd crowd system).balancer).1 ≡ selected address
unfolding get_best_server run_events happen register_server report_load put_status erase
chosen_in_crowd = refl

-- It is selected with six tasks on it, and no longer once it reports.
six_tasks : lookup address (run_events etcd crowd system).backends ≡ some 6
unfolding run_events happen lookup insert
six_tasks = refl

not_after_report :
    (get_best_server etcd least_load
      (run_events etcd (crowd ++ (reports address ∷ [])) system).balancer).1
    ≡ no_available_servers
unfolding get_best_server run_events happen register_server report_load put_status lookup insert
    erase
not_after_report = refl

get_best_server-run_events_example :
    (w : ServerStatus) × Stored (run_events etcd crowd system).balancer.store w
    × (w.address ≡ address)
    × (w.load <ℤ pos 5)
get_best_server-run_events_example =
    get_best_server-run_events etcd crowd least_load address system (λ w h. cc (h.1))
      chosen_in_crowd
