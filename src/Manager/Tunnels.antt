-- ===== src/Manager/Tunnels.antt =====
-- The connections that a node's worker parks at the manager: `TunnelRegistry` of
-- src/oumigo/service/manager/tunnel.py, at one node: each method reads and changes only the entries
-- of its node. A connection and a future are numbers; whether a connection is closed is an argument
-- of each call. All calls are on one event loop, and `acquire` waits only once its future is queued.
pub mod Lending
mod Tests
use oumigo.Prelude.{
  ℕ, zero, suc, ◌+◌, Bool, true, false, ◌&&◌, not, Option, none, some, List, [], ◌∷◌, ◌++◌,
  if◌then◌else◌, ◌==◌, any, filter, length,
}

pub data Future : Type 0 where
  waiting cancelled : Future
  granted : ℕ → Future

-- The entries of one node in `_idle`, `_all` and `_waiters`, the futures, and the connections whose
-- `borrowed` is set.
pub record Tunnels : Type 0 where
  pub idle : List ℕ
  pub all : List ℕ
  pub waiters : List ℕ
  pub futures : ℕ → Future
  pub borrowed : List ℕ

pub no_tunnels : Tunnels
no_tunnels = record { idle = []; all = []; waiters = []; futures = λ f. cancelled; borrowed = [] }

abbrev pub set : ℕ → Future → (ℕ → Future) → ℕ → Future
set f v futures g = if g == f then v else futures g

-- `set.add`, `deque.remove` and `set.discard`.
add_once : ℕ → List ℕ → List ℕ
add_once k ks = if any (λ j. j == k) ks then ks else ks ++ k ∷ []

pub remove_first : ℕ → List ℕ → List ℕ
remove_first k [] = []
remove_first k (j ∷ ks) = if j == k then ks else j ∷ remove_first k ks

-- The loop of `add` over the waiters: those left, the futures, and whether one got the connection.
pub hand : ℕ → List ℕ → (ℕ → Future) → List ℕ × (ℕ → Future) × Bool
hand k [] futures = ([], futures, false)
hand k (f ∷ waiters) futures = elim (futures f) [
  | waiting ↦ (waiters, set f (granted k) futures, true)
  | cancelled ↦ hand k waiters futures
  | granted j ↦ hand k waiters futures
]

pub add : ℕ → Tunnels → Tunnels
add k t =
    let (waiters, futures, handed) = hand k t.waiters t.futures in
    record {
      idle = if handed then t.idle else t.idle ++ k ∷ [];
      all = add_once k t.all;
      waiters = waiters;
      futures = futures;
      borrowed = if handed then k ∷ t.borrowed else t.borrowed;
    }

-- An entry without connections is dropped, and read as empty again.
unfoldable pub remove : ℕ → Tunnels → Tunnels
remove k t = record t {
  all = remove_first k t.all;
  idle = if any (λ j. not (j == k)) t.all then remove_first k t.idle else [];
}

-- The loop of `acquire` over the parked connections.
pub pop_open : (ℕ → Bool) → List ℕ → List ℕ × Option ℕ
pop_open is_closed [] = ([], none)
pop_open is_closed (k ∷ idle) = if is_closed k then pop_open is_closed idle else (idle, some k)

-- `acquire` after the loop, up to its wait on the future `f`.
pub acquire_from : List ℕ → Option ℕ → ℕ → Tunnels → Tunnels × Option ℕ
acquire_from idle (some k) f t = (record t { idle = idle; borrowed = k ∷ t.borrowed }, some k)
acquire_from idle none f t = (
  record t { idle = idle; waiters = t.waiters ++ f ∷ []; futures = set f waiting t.futures },
  none,
)

unfoldable pub acquire : (ℕ → Bool) → ℕ → Tunnels → Tunnels × Option ℕ
acquire is_closed f t = let (idle, found) = pop_open is_closed t.idle in acquire_from idle found f t

-- The end of the wait, by a time-out or by its result: the future is cancelled unless it is done, and
-- leaves the queue.
abbrev cancel_waiting : Future → Future
cancel_waiting waiting = cancelled
cancel_waiting cancelled = cancelled
cancel_waiting (granted k) = granted k

unfoldable pub finish : ℕ → Tunnels → Tunnels
finish f t = record t {
  futures = set f (cancel_waiting (t.futures f)) t.futures;
  waiters = remove_first f t.waiters;
}

pub connected : (ℕ → Bool) → Tunnels → ℕ
connected is_closed t = length (filter (λ k. not (is_closed k)) t.all)

-- `stats`: the open connections, and those of them that are not borrowed.
stats : (ℕ → Bool) → Tunnels → ℕ × ℕ
stats is_closed t = (
  connected is_closed t,
  length (filter (λ k. not (is_closed k) && not (any (λ j. j == k) t.borrowed)) t.all),
)

-- What the endpoint and the router do.
pub data TunnelStep : Type 0 where
  adds removes : ℕ → TunnelStep
  acquires : (ℕ → Bool) → ℕ → TunnelStep
  finishes : ℕ → TunnelStep
