-- ===== src/Router/Forward.antt =====
-- The way of a request to a worker: the inner functions of `create_router_app` and
-- `_send_with_retry` of src/oumigo/service/manager/router/server.py.
-- The body's `model` is read as nothing, a text, a list or dict, or another value, which names no
-- model. The JSON of the answers, headers, and HTTP itself are left out.
pub mod Choice
pub mod Sending
mod Tests
use oumigo.Prelude.{
  ℕ, zero, suc, ◌+◌, ◌≡◌, String, Bool, true, false, ◌&&◌, ◌||◌, not, Option, none, some, List, [],
  ◌∷◌, if◌then◌else◌, ltb, leb, ◌==◌, ◌==ₛ◌, any, filter,
}
use oumigo.Protocol.{NodeState}
use oumigo.Registry.{NodeRecord, Registry, served_name, list}
use oumigo.Router.Pool.{
  Pool, Fleet, Eligible, Acquired, accepts, taken, no_workers, queued, acquire, routable,
}

-- What `create_router_app` closes over: the ids of the catalog, and the fleet's default model.
pub record App : Type 0 where
  pub profiles : List String
  pub default_served : Option String

pub data Requested : Type 0 where
  unnamed : Requested
  model : String → Requested
  no_text unhashable : Requested

abbrev pub is_model : Option String → String → Bool
is_model none m = false
is_model (some s) m = s ==ₛ m

-- `a or b` on optional texts.
abbrev or_default : Option String → Option String → Option String
or_default none d = d
or_default (some s) d = if s ==ₛ "" then d else some s

pub served : App → NodeRecord → Option String
served a r = or_default (served_name r) a.default_served

-- Membership in `_known()`, for a text that is not empty.
pub is_known : App → Registry → String → Bool
is_known a g m =
    any (λ p. p ==ₛ m) a.profiles
    || (any (λ r. is_model (served a r) m) (list g) || is_model a.default_served m)

abbrev any_model : String
any_model = "any-model"

-- Whether the request names a model: `requested not in (None, "", ANY_MODEL)`.
abbrev pub names : String → Bool
names m = not (m ==ₛ "" || m ==ₛ any_model)

-- The error answers: their codes.
pub data Error : Type 0 where
  model_not_found model_loading model_unavailable : Error

abbrev is_starting_state : NodeState → Bool
is_starting_state NodeState.registering = true
is_starting_state NodeState.initializing = true
is_starting_state _ = false

abbrev is_serving_state : NodeState → Bool
is_serving_state NodeState.serving = true
is_serving_state _ = false

-- A worker that is on its way.
abbrev starts_up : Fleet → NodeRecord → Bool
starts_up t r = is_starting_state r.state || (is_serving_state r.state && not (routable t r))

pub not_ready : Fleet → Eligible → Error
not_ready t e =
    let records = filter (accepts e) (list t.registry) in
    elim (filter (starts_up t) records) [ [] ↦ model_unavailable | r ∷ rs ↦ model_loading ]

-- `_forward` up to the worker, or to the wait for one.
pub data Found : Type 0 where
  refused : Error → Found
  raises : Found
  worker : NodeRecord → Found
  waits : ℕ → Found

abbrev pub found : Fleet → Eligible → Acquired → Found
found t e (taken r) = worker r
found t e no_workers = refused (not_ready t e)
found t e (queued f) = waits f

pub request : Pool → Eligible → Pool × Found
request p e = let (q, x) = acquire p e in (q, found q.fleet e x)

-- A list or a dict cannot be looked up in the set of the known models: the look-up raises.
pub find_worker : App → Pool → Requested → Pool × Found
find_worker a p unnamed = request p none
find_worker a p no_text = (p, refused model_not_found)
find_worker a p unhashable = (p, raises)
find_worker a p (model m) =
    if names m
    then if is_known a p.fleet.registry m
      then request p (some (λ r. is_model (served a r) m))
      else (p, refused model_not_found)
    else request p none

-- What `client.send` gives: a response, one of `_RETRYABLE`, or another exception.
pub data Sent {ℓ} (A : Type ℓ) : Type ℓ where
  response : A → Sent A
  retryable : Sent A
  failed : Sent A

-- The loop of `_send_with_retry` from the attempt `k` on: what it returns or raises, and how often it
-- sent. `none` where it runs past its range.
pub send_loop {ℓ} : {A : Type ℓ} → ℕ → (ℕ → Sent A) → ℕ → ℕ → Option (Sent A × ℕ)
send_loop zero send attempts k = none
send_loop (suc left) send attempts k =
    let rest = send_loop left send attempts (k + 1) in
    elim (send k) [
      | response a ↦ some (response a, k + 1)
      | failed ↦ some (failed, k + 1)
      | retryable ↦ if leb attempts (k + 1) then some (retryable, k + 1) else rest
    ]

pub send_with_retry {ℓ} : {A : Type ℓ} → (ℕ → Sent A) → ℕ → Option (Sent A × ℕ)
send_with_retry send attempts = send_loop attempts send attempts 0
