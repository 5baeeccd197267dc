-- ===== src/Router/Pool/Slots/Balance.antt =====
-- The slots of a `WorkerPool` in use, and the requests that own them.
use oumigo.Prelude.{ℕ, ◌≡◌, refl, ap, ◌∙◌, subst, String, [], ◌++◌, All-map, Option}
use oumigo.Registry.{Registry}
use oumigo.Router.Pool.{Rng, promote, acquire, free, release, init}
use oumigo.Router.Pool.Slots.{
  holding, World, Step, arrive, resume, stop_waiting, abandon, finish, tick, fleet_changes, Reach,
  here, next, owned, times,
}
use oumigo.Router.Pool.Slots.Loop.{Balanced, IsBalanced, promote-IsBalanced}
use oumigo.Router.Pool.Slots.Joining.{admit-IsBalanced, resume-IsBalanced, cancel-IsBalanced}
use oumigo.Router.Pool.Slots.Leaving.{free-IsBalanced, abandon-IsBalanced}

Step-IsBalanced :
    {w v : World} → Step w v → IsBalanced w.pool w.requests → IsBalanced v.pool v.requests
unfolding acquire release
Step-IsBalanced {w} (arrive e) b =
    admit-IsBalanced (promote w.pool) e w.requests (promote-IsBalanced w.pool w.requests b)
Step-IsBalanced {w} (resume xs ys f r q g) b =
    resume-IsBalanced w.pool xs ys f r g (subst (IsBalanced w.pool) q b)
Step-IsBalanced {w} (stop_waiting f) b = cancel-IsBalanced w.pool f w.requests b
Step-IsBalanced {w} (abandon xs ys f q) b =
    abandon-IsBalanced w.pool xs ys f (subst (IsBalanced w.pool) q b)
Step-IsBalanced {w} (finish xs ys r q) b = promote-IsBalanced (free w.pool r.node_id) (xs ++ ys) (
    free-IsBalanced w.pool xs ys (holding r) r.node_id (λ n. refl)
      (All-map (λ u l. refl) w.pool.waiters b.live) (subst (IsBalanced w.pool) q b))
Step-IsBalanced {w} tick b = promote-IsBalanced w.pool w.requests b
Step-IsBalanced {w} (fleet_changes t) b = record {
  balanced = b.balanced;
  unused = b.unused;
  live = b.live;
  distinct = b.distinct;
}

abbrev pub start : Registry → ℕ → Rng → Option (String → ℕ) → World
start registry default_capacity rng tunnels = record {
  pool = init registry default_capacity rng tunnels;
  requests = [];
}

start-IsBalanced :
    (registry : Registry) (default_capacity : ℕ) (rng : Rng) (tunnels : Option (String → ℕ))
    → let w = start registry default_capacity rng tunnels in IsBalanced w.pool w.requests
unfolding init owned times
start-IsBalanced registry default_capacity rng tunnels = record {
  balanced = λ n. refl;
  unused = λ f h. refl;
  live = tt;
  distinct = tt;
}

Reach-IsBalanced :
    {s w : World} → IsBalanced s.pool s.requests → Reach s w → IsBalanced w.pool w.requests
Reach-IsBalanced b here = b
Reach-IsBalanced b (next r st) = Step-IsBalanced st (Reach-IsBalanced b r)

-- From the start of the router, whatever requests come, wait, time out, are served and end, in any
-- order, and whatever happens to the fleet meanwhile: the count of requests in flight on a worker is
-- the number of slots on it that requests hold or were handed; and it is 0 once all requests ended.
pub slots_accounted :
    (registry : Registry) (default_capacity : ℕ) (rng : Rng) (tunnels : Option (String → ℕ))
    (w : World)
    → Reach (start registry default_capacity rng tunnels) w
    → Balanced w.pool.inflight w.pool.futures w.requests
      × (w.requests ≡ [] → (n : String) → w.pool.inflight n ≡ 0)
unfolding owned
slots_accounted registry default_capacity rng tunnels w r =
    let b =
      (Reach-IsBalanced (start-IsBalanced registry default_capacity rng tunnels) r).balanced in
    (b, λ e n. b n ∙ ap (owned w.pool.futures n) e)
