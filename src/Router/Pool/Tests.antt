-- ===== src/Router/Pool/Tests.antt =====
-- Two workers of one slot each, which serve the models "m" and "n", and requests for both.
use oumigo.Prelude.{ℕ, ◌≡◌, refl, String, false, none, some, List, [], ◌∷◌, arith, ◌==ₛ◌, All, Memᴰ}
use oumigo.Prelude.Dict.{get, put, values}
use oumigo.Protocol.{NodeState, RunState, Transport}
use oumigo.Registry.{
  NodeRecord, Registry, Registration, next_seq, Beat, Call, registers, beats, run, empty, register,
  registered, heartbeat, beaten, list,
}
use oumigo.Registry.Naming.{run-empty-IsValid}
use oumigo.Registry.Validity.{IsValid}
use oumigo.Router.Pool.{
  Rng, Pool, Waiter, Eligible, init, acquire, admit, promote, promote_loop, offer, take, take_any,
  available, serving, routable, capacity, enqueue, release, free, healthy_count, accepts, taken,
  queued,
}
use oumigo.Router.Pool.Fairness.{promote_fifo}
use oumigo.Router.Pool.Admission.{acquire_no_overtaking, calls_exhaust}
use oumigo.Router.Pool.Capacity.{IsWithin, calls-IsWithin}
use oumigo.Router.Pool.Slots.{World, here, next, arrive, finish}
use oumigo.Router.Pool.Slots.Balance.{slots_accounted}

-- Names what the tests compute with.
opened : Unit {0}
unfolding get put values run empty register registered next_seq heartbeat beaten list init acquire
    admit promote promote_loop offer take take_any available serving routable capacity enqueue
    release free healthy_count
opened = tt

abbrev first : Rng
first = record { choice = λ n r rs. r; choice_mem = λ n r rs. Memᴰ.head refl }

abbrev joins : String → String → Registration
joins k model = record {
  node_id = k;
  address = "10.0.0.1";
  state = NodeState.registering;
  incarnation = 1;
  capabilities = record { gpu = none; vram_tenths = none };
  port = some 7001;
  model = some model;
  backend = none;
  transport = Transport.direct;
  profile = none;
}

abbrev serves : String → Beat
serves k = record {
  node_id = k;
  state = NodeState.serving;
  run_state = some RunState.idle;
  port = none;
  max_concurrent_requests = some 1;
  tunnel_rtt = none;
}

abbrev history : List (ℕ × Call)
history =
    (0, registers (joins "a" "m"))
    ∷ (0, beats (serves "a"))
    ∷ (0, registers (joins "b" "n"))
    ∷ (0, beats (serves "b"))
    ∷ []

abbrev fleet : Registry
fleet = run empty history

fleet-IsValid : IsValid fleet
fleet-IsValid = run-empty-IsValid history

abbrev worker_a : NodeRecord
worker_a = beaten (serves "a") (registered (joins "a" "m") none 1 0) 0

abbrev worker_b : NodeRecord
worker_b = beaten (serves "b") (registered (joins "b" "n") none 2 0) 0

abbrev asks : String → Eligible
asks m = some (λ r. elim r.model [ none ↦ false | some x ↦ x ==ₛ m ])

abbrev idle_pool : Pool
idle_pool = init fleet 4 first none

-- "a" is taken; a second request for "m" waits, then one for any model takes "b".
abbrev busy : Pool
busy = (acquire (acquire idle_pool (asks "m")).0 (asks "m")).0

waits_for_m : (acquire (acquire idle_pool (asks "m")).0 (asks "m")).1 ≡ queued 0
unfolding opened
waits_for_m = refl

any_takes_b : (acquire busy none).1 ≡ taken worker_b
unfolding opened
any_takes_b = refl

acquire_no_overtaking_example :
    All (λ w. accepts w.eligible worker_b ≡ false) (acquire busy none).0.waiters
unfolding opened
acquire_no_overtaking_example =
    (acquire_no_overtaking busy (acquire busy none).0 none worker_b refl).0

calls_exhaust_example : available busy.fleet busy.inflight (asks "m") ≡ []
unfolding opened
calls_exhaust_example = ((calls_exhaust (acquire idle_pool (asks "m")).0).0 (asks "m")).0

within : IsWithin idle_pool.fleet idle_pool.inflight
unfolding opened
within k r h = omega arith

calls-IsWithin_example : let q = (acquire idle_pool (asks "m")).0 in IsWithin q.fleet q.inflight
unfolding opened
calls-IsWithin_example = (calls-IsWithin idle_pool fleet-IsValid within).0 (asks "m")

abbrev first_waiter : Waiter
first_waiter = record { future = 0; eligible = asks "m" }

abbrev second : Waiter
second = record { future = 1; eligible = none }

-- The waiter for "m" stays, and the one behind it gets "b".
promote_fifo_example : accepts (asks "m") worker_b ≡ false
unfolding opened
promote_fifo_example =
    promote_fifo (record busy { waiters = first_waiter ∷ second ∷ [] }) [] (second ∷ [])
      first_waiter second worker_b refl ((λ e. absurd (omega arith)), tt) refl refl refl

abbrev served : World
served = record { pool = release (acquire idle_pool (asks "m")).0 worker_a.node_id; requests = [] }

slots_accounted_example : served.pool.inflight "a" ≡ 0
unfolding opened
slots_accounted_example =
    (slots_accounted fleet 4 first none served
        (next (next here (arrive (asks "m"))) (finish [] [] worker_a refl))).1
      refl "a"
