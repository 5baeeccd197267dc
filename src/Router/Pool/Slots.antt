-- ===== src/Router/Pool/Slots.antt =====
-- The requests behind the slots of a `WorkerPool`, and how their tasks interleave on the event loop:
-- `acquire` and `_forward` of src/oumigo/service/manager/router/server.py.
-- A request waits for a future, or holds a worker until its `_release`, which runs once: the response
-- ended, it failed, or its client went away.
mod Ledger
mod Loop
mod Joining
mod Leaving
pub mod Balance
use oumigo.Prelude.{
  ℕ, zero, suc, ◌+◌, ◌≡◌, String, Bool, true, false, List, [], ◌∷◌, ◌++◌, ◌==◌, ◌==ₛ◌,
  if◌then◌else◌,
}
use oumigo.Registry.{NodeRecord}
use oumigo.Router.Pool.{
  Fleet, Pool, Eligible, Future, pending, cancelled, granted, Acquired, taken, no_workers, queued,
  promote, acquire, release, cancel, give_up,
}

pub data Request : Type 0 where
  waiting : ℕ → Request
  holding : NodeRecord → Request

pub record World : Type 0 where
  pub pool : Pool
  pub requests : List Request

-- What `acquire` leaves of a request.
abbrev pub joined : Acquired → List Request
joined (taken r) = holding r ∷ []
joined no_workers = []
joined (queued f) = waiting f ∷ []

-- One uninterrupted run of some task.
pub data Step (w : World) : World → Type 0 where
  arrive :
      (e : Eligible)
      → Step w (record {
        pool = (acquire w.pool e).0;
        requests = joined (acquire w.pool e).1 ++ w.requests;
      })
  -- The wait of `acquire` returns the record that its future was given.
  resume :
      (xs ys : List Request) (f : ℕ) (r : NodeRecord)
      → w.requests ≡ xs ++ waiting f ∷ ys
      → w.pool.futures f ≡ granted r
      → Step w (record { pool = w.pool; requests = xs ++ holding r ∷ ys })
  -- A time-out, or the client going away, while the request waits.
  stop_waiting : (f : ℕ) → Step w (record { pool = cancel w.pool f; requests = w.requests })
  -- The handler of `acquire`, some time after.
  abandon :
      (xs ys : List Request) (f : ℕ)
      → w.requests ≡ xs ++ waiting f ∷ ys
      → Step w (record { pool = give_up w.pool f; requests = xs ++ ys })
  finish :
      (xs ys : List Request) (r : NodeRecord)
      → w.requests ≡ xs ++ holding r ∷ ys
      → Step w (record { pool = release w.pool r.node_id; requests = xs ++ ys })
  -- `run_promoter`.
  tick : Step w (record { pool = promote w.pool; requests = w.requests })
  -- Registrations, heartbeats, tunnels.
  fleet_changes :
      (t : Fleet) → Step w (record { pool = record (w.pool) { fleet = t }; requests = w.requests })

pub data Reach (start : World) : World → Type 0 where
  here : Reach start start
  next : {v w : World} → Reach start v → Step v w → Reach start w

abbrev pub one_if : Bool → ℕ
one_if true = 1
one_if false = 0

-- The slots on `n` that a future stands for, once it is granted.
abbrev pub granted_on : String → Future → ℕ
granted_on n (granted r) = one_if (r.node_id ==ₛ n)
granted_on n _ = 0

-- The slots on the node `n` that requests own: those of the workers that they hold, and those that
-- they were given and have not picked up.
pub owned : (ℕ → Future) → String → List Request → ℕ
owned futures n [] = 0
owned futures n (holding r ∷ qs) = one_if (r.node_id ==ₛ n) + owned futures n qs
owned futures n (waiting f ∷ qs) = granted_on n (futures f) + owned futures n qs

-- How many requests wait for the future `f`.
pub times : ℕ → List Request → ℕ
times f [] = 0
times f (holding r ∷ qs) = times f qs
times f (waiting g ∷ qs) = one_if (g == f) + times f qs
