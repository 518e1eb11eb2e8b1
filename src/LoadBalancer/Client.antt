-- ===== src/LoadBalancer/Client.antt =====
-- The generator of load (Assignment2/P1-LoadBalancer/client/main.go): each of its clients asks the load
-- balancer for a server, sends it a task and counts the answer. What becomes of a call, and how long
-- it takes, is an argument; the time that is left is the number of trips.
use distributed_systems_iiit.Common.{
  ℕ, ◌+◌, String, Bool, Option, List, [], ◌∷◌, ◌++◌, ◌==◌, string_key, if◌then◌else◌,
}
use distributed_systems_iiit.Common.Int.{ℤ}
use distributed_systems_iiit.Common.Words.{Word}
use distributed_systems_iiit.LoadBalancer.{
  EtcdClient, LoadBalanceStrategy, pick_first, round_robin, least_load, selected, query_failed,
  no_available_servers, index_out_of_range, LoadBalancer, get_best_server,
}
use distributed_systems_iiit.LoadBalancer.Backend.{colon, fibonacci_prefix, TaskResult, compute}

-- The `switch` on the flag.
abbrev pub strategy_of : String → LoadBalanceStrategy
strategy_of flag =
    if flag == "pick_first"
    then pick_first
    else if flag == "round_robin"
    then round_robin
    else least_load

-- "Client "
abbrev pub client_name : Word
client_name = 67 ∷ 108 ∷ 105 ∷ 101 ∷ 110 ∷ 116 ∷ 32 ∷ []

-- "40"
abbrev pub forty : Word
forty = 52 ∷ 48 ∷ []

-- The task of a client, with the text of its number: "Client 3: fibonacci:40".
abbrev pub task_of : Word → Word
task_of digits = (client_name ++ digits) ++ (colon ∷ ((32 ∷ []) ++ (fibonacci_prefix ++ forty)))

-- What becomes of one round of a client: whether the server is dialled and its answer arrives, and
-- the milliseconds that this takes.
pub record Trip : Type 0 where
  pub dials : Bool
  pub answered : Bool
  pub latency : ℕ

module _ (etcd : EtcdClient) (trim_space : Word → Word) (atoi : Word → Option ℤ) where
  -- The counters, with the load balancer and the answers from the last one on.
  pub record LoadTest : Type 0 where
    pub balancer : LoadBalancer etcd
    pub total_requests : ℕ
    pub total_latency : ℕ
    pub answers : List TaskResult

  -- The call of the selected server.
  unfoldable pub compute_at : Word → Trip → LoadTest → LoadTest
  unfolding compute
  compute_at task trip t =
      if trip.dials
      then (if trip.answered
          then record t {
            total_requests = t.total_requests + 1;
            total_latency = t.total_latency + trip.latency;
            answers = compute trim_space atoi task ∷ t.answers;
          }
          else t)
      else t

  -- One round of the loop.
  unfoldable pub request_one : LoadBalanceStrategy → Word → Trip → LoadTest → LoadTest
  unfolding get_best_server compute_at
  request_one strategy task trip t =
      let (balancer, selection) = get_best_server etcd strategy t.balancer in
      let t' = record t { balancer = balancer } in
      elim selection [
        | selected _ ↦ compute_at task trip t'
        | query_failed ↦ t'
        | no_available_servers ↦ t'
        | index_out_of_range ↦ t'
      ]

  unfoldable pub run_client : LoadBalanceStrategy → Word → List Trip → LoadTest → LoadTest
  unfolding request_one
  run_client strategy task [] t = t
  run_client strategy task (trip ∷ rest) t =
      run_client strategy task rest (request_one strategy task trip t)
