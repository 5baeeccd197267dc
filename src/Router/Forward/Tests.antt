-- ===== src/Router/Forward/Tests.antt =====
-- Runs of the choice of a worker and of the retries, and the theorems on them.
use oumigo.Prelude.{ℕ, ◌≡◌, refl, String, none, some, [], ◌∷◌, Memᴰ, arith, if◌then◌else◌, ltb}
use oumigo.Prelude.Dict.{get, put, values}
use oumigo.Protocol.{NodeState, RunState, Transport}
use oumigo.Registry.{
  NodeRecord, Registry, Registration, Beat, registers, beats, empty, register, registered, next_seq,
  heartbeat, beaten, list, run, served_name,
}
use oumigo.Router.Pool.{
  Rng, Pool, init, acquire, admit, promote, promote_loop, offer, take, take_any, available, serving,
  routable, capacity, enqueue, healthy_count,
}
use oumigo.Router.Pool.Promote.{HasRoom}
use oumigo.Router.Forward.{
  App, model, served, is_known, request, find_worker, is_model, Sent, response, retryable,
  send_with_retry, send_loop, not_ready,
}
use oumigo.Router.Forward.Choice.{find_worker_serves}
use oumigo.Router.Forward.Sending.{IsSent, send_with_retry_ends}

abbrev first : Rng
first = record { choice = λ n r rs. r; choice_mem = λ n r rs. Memᴰ.head refl }

abbrev joins : String → String → Registration
joins k m = record {
  node_id = k;
  address = "10.0.0.1";
  state = NodeState.registering;
  incarnation = 1;
  capabilities = record { gpu = none; vram_tenths = none };
  port = some 7001;
  model = some m;
  backend = none;
  transport = Transport.direct;
  profile = none;
}

abbrev serves : String → Beat
serves k = record {
  node_id = k;
  state = NodeState.serving;
  run_state = some RunState.idle;
  port = none;
  max_concurrent_requests = some 1;
  tunnel_rtt = none;
}

abbrev fleet : Registry
fleet = run empty ((0, registers (joins "a" "m")) ∷ (0, beats (serves "a")) ∷ [])

abbrev open_fleet : App
open_fleet = record { profiles = []; default_served = none }

abbrev idle_pool : Pool
idle_pool = init fleet 4 first none

abbrev worker_a : NodeRecord
worker_a = beaten (serves "a") (registered (joins "a" "m") none 1 0) 0

find_worker_serves_example :
    (served open_fleet worker_a ≡ some "m")
    × HasRoom
        (promote idle_pool).fleet
        (promote idle_pool).inflight
        (some (λ w. is_model (served open_fleet w) "m"))
        worker_a
unfolding get put values run empty register registered next_seq heartbeat beaten list init acquire
    admit promote promote_loop offer take take_any available serving routable capacity enqueue
    healthy_count served served_name is_known request find_worker not_ready
find_worker_serves_example =
    find_worker_serves open_fleet idle_pool (find_worker open_fleet idle_pool (model "m")).0 "m"
      worker_a refl refl

-- The first connection is dead.
abbrev flaky : ℕ → Sent ℕ
flaky k = if ltb k 1 then retryable else response 200

second_answers : send_with_retry flaky 2 ≡ some (response 200, 2)
unfolding send_with_retry send_loop
second_answers = refl

send_with_retry_ends_example :
    (o : Sent ℕ) × (n : ℕ) × (send_with_retry flaky 2 ≡ some (o, n)) × IsSent flaky 2 0 o n
send_with_retry_ends_example = send_with_retry_ends flaky 2 (omega arith)
