-- ===== src/Registry/Tests.antt =====
-- A small fleet: two workers register at times 0 and 50, and the first is then silent.
use oumigo.Prelude.{ℕ, ◌≡◌, refl, String, Bool, true, Option, none, some, List, [], ◌∷◌, arith}
use mathlib.Core.Option
use oumigo.Prelude.Dict.{get}
use oumigo.Protocol.{NodeState, RunState, Transport}
use oumigo.Registry.{
  NodeRecord, Registry, Registration, Beat, Capabilities, empty, register, registered, next_seq,
  heartbeat, beaten, reap, Call, registers, beats, step, run,
}
use oumigo.Registry.Reaping.{get-reap}
use oumigo.Registry.Validity.{IsValid}
use oumigo.Registry.Naming.{step-IsValid, run-empty-IsValid, run_keeps_numbers}

abbrev worker : String → Registration
worker k = record {
  node_id = k;
  address = "10.0.0.1";
  state = NodeState.registering;
  incarnation = 1;
  capabilities = record { gpu = none; vram_tenths = some 160 };
  port = some 7001;
  model = some "google/gemma";
  backend = none;
  transport = Transport.direct;
  profile = none;
}

abbrev beat : String → Beat
beat k = record {
  node_id = k;
  state = NodeState.serving;
  run_state = some RunState.idle;
  port = none;
  max_concurrent_requests = some 2;
  tunnel_rtt = none;
}

abbrev history : List (ℕ × Call)
history = (0, registers (worker "a")) ∷ (50, registers (worker "b")) ∷ []

abbrev fleet : Registry
fleet = run empty history

first_is_lost :
    Option.map (λ r. r.state) (get "a" (reap fleet 10 100 60).0.nodes) ≡ some NodeState.lost
unfolding run empty register reap get oumigo.Registry.reap_loop oumigo.Prelude.Dict.put
    oumigo.Registry.reap_entry oumigo.Registry.silent_beyond
first_is_lost = refl

get-reap_example : get "a" (reap fleet 10 50 60).0.nodes ≡ none
unfolding run empty register get oumigo.Prelude.Dict.put
get-reap_example = get-reap fleet 10 50 60 "a" (run-empty-IsValid history).unique

step-IsValid_example : IsValid (step fleet (61, beats (beat "a")))
step-IsValid_example = step-IsValid fleet (61, beats (beat "a")) (run-empty-IsValid history)

run-empty-IsValid_example : IsValid fleet
run-empty-IsValid_example = run-empty-IsValid history

run_keeps_numbers_example : (r : NodeRecord) × (get "a" fleet.nodes ≡ some r) × (r.seq ≡ 1)
unfolding run empty register get oumigo.Prelude.Dict.put heartbeat
run_keeps_numbers_example =
    run_keeps_numbers fleet ((61, beats (beat "a")) ∷ []) "a"
      (beaten (beat "a") (registered (worker "a") none 1 0) 61) (run-empty-IsValid history) refl
      (omega arith)
