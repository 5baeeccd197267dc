-- ===== src/Worker/Tests.antt =====
-- Runs of the models of src/oumigo/service/worker/, and the theorems on them.
use oumigo.Prelude.{ℕ, ◌≡◌, refl, true, false, none, some, List, [], ◌∷◌, ltb, if◌then◌else◌, arith}
use oumigo.Protocol.{initializing, serving, failed, idle, executing}
use oumigo.Worker.Ports.{
  Bound, bound, in_use, free, unavailable, find_free_port, find_free_port-Answers, Answers,
  max_tries, scan,
}
use oumigo.Worker.Coordinator.{
  select_port, launch, relaunch, come_up, observe, send_heartbeat, Node, Backend, Crash, Effect,
  started, beat, stopped_backend, no_reply, reconcile, on_signals, handle_crash,
}
use oumigo.Worker.Coordinator.Session.{
  Tick, loop, round, act, reregister, adopt_key, adopt_token, wake, RegisterResponse, accepted,
  unreachable, DrainTick, finish, rejoin,
}
use oumigo.Worker.Coordinator.Invariant.{IsSound, loop-IsSound}
use oumigo.Worker.Coordinator.Startup.{Config, start}
use oumigo.Worker.Coordinator.Readiness.{IsStarted, start-IsStarted}
use oumigo.Worker.Coordinator.Edges.{Edge, reconcile-Edge}
use oumigo.Worker.Coordinator.Ending.{IsStopped, finish_stops}
use oumigo.Worker.Coordinator.Rekeying.{rekey_fails}

-- Ports below 8002 are taken.
abbrev taken : ℕ → Bound
taken p = if ltb p 8002 then in_use else bound

third_port : find_free_port taken 8000 ≡ free 8002
unfolding find_free_port scan
third_port = refl

all_taken : find_free_port (λ p. in_use) 8000 ≡ unavailable
unfolding find_free_port scan
all_taken = refl

find_free_port-Answers_example : Answers taken max_tries 8000 (find_free_port taken 8000)
find_free_port-Answers_example = find_free_port-Answers taken 8000

-- A node that loads its model on port 8000.
abbrev loading : Node
loading = record {
  node_state = initializing;
  run_state = none;
  restarts = 0;
  max_restarts = 1;
  interval = 10;
  stop = false;
  force = false;
  spec_port = 8000;
  vllm_port = some 8000;
  supervisor = some 8000;
  token = some "node";
  join_token = some "join";
  metrics = some (record { stamped = false; token = some "node" });
  tunnel = none;
  api_key = some "key";
  raised = false;
  log = started 8000 ∷ [];
}

loading-IsSound : IsSound loading
loading-IsSound = record {
  looping = refl;
  bounded = omega arith;
  quiet = λ e. absurd (cc e);
  stamped = refl;
  launches = omega arith;
}

abbrev healthy_backend : Backend
healthy_backend = record { running = true; healthy = true; load = executing }

abbrev dead_backend : Backend
dead_backend = record { running = false; healthy = false; load = idle }

abbrev calm : Crash
calm = record { signals = 0; bind = taken }

abbrev tick : Backend → Tick
tick b = record {
  signals = 0;
  backend = b;
  crash = calm;
  reply = no_reply;
  first = unreachable;
  second = unreachable;
}

abbrev up_and_down : List Tick
up_and_down =
    tick healthy_backend ∷ tick dead_backend ∷ tick healthy_backend ∷ tick dead_backend ∷ []

-- The backend comes up, dies, comes up on another port, and dies for good.
ends_failed : (loop up_and_down loading).node_state ≡ failed
unfolding find_free_port scan on_signals select_port launch relaunch handle_crash come_up observe
    reconcile send_heartbeat rejoin adopt_token wake adopt_key reregister act round loop
ends_failed = refl

its_log :
    (loop up_and_down loading).log
    ≡ beat failed none
      ∷ beat serving (some executing)
      ∷ beat initializing none
      ∷ started 8002
      ∷ beat serving (some executing)
      ∷ started 8000
      ∷ []
unfolding find_free_port scan on_signals select_port launch relaunch handle_crash come_up observe
    reconcile send_heartbeat rejoin adopt_token wake adopt_key reregister act round loop
its_log = refl

loop-IsSound_example : IsSound (loop up_and_down loading)
loop-IsSound_example = loop-IsSound up_and_down loading loading-IsSound

reconcile-Edge_example :
    Edge dead_backend calm loading (reconcile dead_backend calm loading).node_state
reconcile-Edge_example = reconcile-Edge dead_backend calm loading

abbrev busy : ℕ → DrainTick
busy k = record {
  signals = 0;
  load = if ltb k 2 then executing else idle;
  reply = no_reply;
  took = 1;
}

finish_stops_example :
    (m : Node) × (finish 121 true busy 120 500 no_reply loading ≡ some m) × IsStopped m
finish_stops_example =
    finish_stops 120 true busy 120 500 no_reply loading (omega arith) (omega arith) refl refl

abbrev new_key : RegisterResponse
new_key = record {
  heartbeat_interval = 10;
  node_token = some "node2";
  vllm_api_key = some "key2";
  tunnel_pool_size = none;
}

abbrev worn : Node
worn = record loading { node_state = serving; restarts = 1 }

rekey_fails_example :
    ((before : List Effect) × ((reregister (accepted new_key) unreachable worn).log
        ≡ stopped_backend ∷ before))
    × ((reconcile dead_backend calm (reregister (accepted new_key) unreachable worn)).node_state
        ≡ failed)
rekey_fails_example =
    rekey_fails new_key unreachable dead_backend calm worn 8000 refl refl refl refl (omega arith)

abbrev tunneled_config : Config
tunneled_config = record {
  token = some "join";
  spec_port = 8000;
  vllm_port = some 8000;
  tunneled = true;
  max_restarts = 3;
  metrics_enabled = true;
  api_key = none;
}

abbrev settings : RegisterResponse
settings = record new_key { tunnel_pool_size = some 4 }

start-IsStarted_example :
    IsStarted tunneled_config settings (start tunneled_config (accepted settings))
start-IsStarted_example = start-IsStarted tunneled_config settings
