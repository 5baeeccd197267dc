-- ===== src/Router/Pool.antt =====
-- `WorkerPool` of src/oumigo/service/manager/router/server.py: FIFO admission control over the
-- SERVING workers.
-- The pool runs on one event loop and awaits nothing inside a method, but for `acquire`, which waits
-- for a future. `acquire` is modelled as what it does up to the wait, and `give_up` as its handler
-- for a wait that failed; a wait that succeeds only returns the future's record.
pub mod Promote
pub mod Fairness
pub mod Admission
pub mod Capacity
pub mod Slots
mod Tests
use oumigo.Prelude.{
  ℕ, ◌+◌, ◌-◌, ◌<◌, ◌≡◌, String, Bool, true, false, ◌&&◌, Option, none, some, List, [], ◌∷◌, ◌++◌,
  Memᴰ, ltb, ◌==◌, ◌==ₛ◌, if◌then◌else◌, filter, any, length, max,
}
use oumigo.Protocol.{NodeState, Transport, tunnel}
use oumigo.Registry.{NodeRecord, Registry, list}

-- `random.Random.choice` from a list that is not empty; the state of the generator is the number of
-- draws made. It returns a member of the list.
pub record Rng : Type 0 where
  pub choice : ℕ → NodeRecord → List NodeRecord → NodeRecord
  pub choice_mem : (n : ℕ) (r : NodeRecord) (rs : List NodeRecord) → Memᴰ (choice n r rs) (r ∷ rs)

-- Which workers a request accepts; `none` accepts all.
abbrev pub Eligible : Type 0
Eligible = Option (NodeRecord → Bool)

abbrev pub accepts : Eligible → NodeRecord → Bool
accepts none r = true
accepts (some f) r = f r

-- A waiter's future. Nothing sets an exception.
pub data Future : Type 0 where
  pending cancelled : Future
  granted : NodeRecord → Future

abbrev pub is_done : Future → Bool
is_done pending = false
is_done _ = true

pub record Waiter : Type 0 where
  pub future : ℕ
  pub eligible : Eligible

-- What the pool reads and other parts write. `tunnels` counts the live connections of a node.
pub record Fleet : Type 0 where
  pub registry : Registry
  pub tunnels : Option (String → ℕ)
  pub default_capacity : ℕ

pub record Pool : Type 0 where
  pub fleet : Fleet
  pub rng : Rng
  pub draws : ℕ
  pub inflight : String → ℕ
  pub waiters : List Waiter
  pub futures : ℕ → Future
  pub next_future : ℕ

unfoldable pub init : Registry → ℕ → Rng → Option (String → ℕ) → Pool
init registry default_capacity rng tunnels = record {
  fleet = record {
    registry = registry;
    tunnels = tunnels;
    default_capacity = max 1 default_capacity;
  };
  rng = rng;
  draws = 0;
  inflight = λ _. 0;
  waiters = [];
  futures = λ _. pending;
  next_future = 0;
}

unfoldable pub capacity : Fleet → NodeRecord → ℕ
capacity t r = elim r.max_concurrent_requests [ none ↦ t.default_capacity | some cap ↦ cap ]

abbrev is_serving : NodeState → Bool
is_serving NodeState.serving = true
is_serving _ = false

abbrev has_tunnel : Option (String → ℕ) → NodeRecord → Bool
has_tunnel none r = false
has_tunnel (some connected) r = ltb 0 (connected r.node_id)

unfoldable pub routable : Fleet → NodeRecord → Bool
routable t r =
    if is_serving r.state
    then elim r.transport [ tunnel ↦ has_tunnel t.tunnels r | _ ↦ true ]
    else false

unfoldable pub serving : Fleet → Eligible → List NodeRecord
serving t e = filter (λ r. routable t r && accepts e r) (list t.registry)

-- `_available`: `inflight` is the pool's.
unfoldable pub available : Fleet → (String → ℕ) → Eligible → List NodeRecord
available t inflight e = filter (λ r. ltb (inflight r.node_id) (capacity t r)) (serving t e)

unfoldable pub healthy_count : Fleet → Eligible → ℕ
healthy_count t e = length (serving t e)

abbrev pub set_count : (String → ℕ) → String → ℕ → String → ℕ
set_count f k v j = if k ==ₛ j then v else f j

abbrev pub set_future : (ℕ → Future) → ℕ → Future → ℕ → Future
set_future f k v j = if k == j then v else f j

-- `_take`.
unfoldable pub take : Pool → NodeRecord → Pool
take p r = record p { inflight = set_count p.inflight r.node_id (p.inflight r.node_id + 1) }

-- `_take(rng.choice([r, *rs]))`.
unfoldable pub take_any : Pool → NodeRecord → List NodeRecord → Pool × NodeRecord
unfolding take
take_any p r rs =
    let c = p.rng.choice p.draws r rs in (take (record p { draws = p.draws + 1 }) c, c)

-- One round of the loop of `_promote`: the pool, and whether the waiter stays in the queue.
unfoldable pub offer : Pool → Waiter → Pool × Bool
unfolding take_any
offer p w =
    if is_done (p.futures w.future)
    then (p, false)
    else elim (available p.fleet p.inflight w.eligible) [
      | [] ↦ (p, true)
      | r ∷ rs ↦
          let (q, c) = take_any p r rs in
          (record q { futures = set_future q.futures w.future (granted c) }, false)
    ]

-- The pool, and the waiters that stay.
unfoldable pub promote_loop : Pool → List Waiter → Pool × List Waiter
promote_loop p [] = (p, [])
promote_loop p (w ∷ ws) =
    let (q, stays) = offer p w in
    let (z, kept) = promote_loop q ws in (z, if stays then w ∷ kept else kept)

-- `_promote`. On an empty queue the loop does nothing either.
unfoldable pub promote : Pool → Pool
promote p = let (q, kept) = promote_loop p p.waiters in record q { waiters = kept }

pub data Acquired : Type 0 where
  taken : NodeRecord → Acquired
  no_workers : Acquired
  queued : ℕ → Acquired

unfoldable pub enqueue : Pool → Eligible → Pool × Acquired
enqueue p e = (
  record p {
    waiters = p.waiters ++ record { future = p.next_future; eligible = e } ∷ [];
    futures = set_future p.futures p.next_future pending;
    next_future = p.next_future + 1;
  },
  queued p.next_future,
)

-- `acquire`, once it has promoted the earlier waiters.
unfoldable pub admit : Pool → Eligible → Pool × Acquired
unfolding take_any enqueue
admit p e = elim (available p.fleet p.inflight e) [
  | r ∷ rs ↦ let (q, c) = take_any p r rs in (q, taken c)
  | [] ↦ if healthy_count p.fleet e == 0 then (p, no_workers) else enqueue p e
]

unfoldable pub acquire : Pool → Eligible → Pool × Acquired
acquire p e = admit (promote p) e

-- The part of `release` above its call of `_promote`.
pub free : Pool → String → Pool
free p k =
    if ltb 0 (p.inflight k)
    then record p { inflight = set_count p.inflight k (p.inflight k - 1) }
    else p

pub release : Pool → String → Pool
release p k = promote (free p k)

-- The wait of `acquire` times out, or its task is cancelled: a future that is done stays as it is.
pub cancel : Pool → ℕ → Pool
cancel p f = elim (p.futures f) [
  | pending ↦ record p { futures = set_future p.futures f cancelled }
  | _ ↦ p
]

-- The `except BaseException` of `acquire`.
pub give_up : Pool → ℕ → Pool
give_up p f =
    if any (λ w. w.future == f) p.waiters
    then record p { waiters = filter (λ w. if w.future == f then false else true) p.waiters }
    else elim (p.futures f) [ granted r ↦ release p r.node_id | _ ↦ p ]
