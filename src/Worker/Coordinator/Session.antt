-- ===== src/Worker/Coordinator/Session.antt =====
-- The loop of `WorkerCoordinator`, its registrations, and its end.
use oumigo.Prelude.{
  ℕ, zero, suc, ◌+◌, ◌-◌, String, Bool, true, false, ◌&&◌, ◌||◌, not, Option, none, some, List, [],
  ◌∷◌, if◌then◌else◌, ltb, min, max, is_some, ◌==◌, ◌==ₛ◌,
}
use oumigo.Protocol.{draining, stopped, RunState, idle, executing, WorkerCommand}
use oumigo.Worker.Coordinator.{
  stopped_backend, woke_tunnels, Metrics, Tunnel, Node, Backend, Crash, on_signals, reconcile,
  HeartbeatResponse, Reply, send_heartbeat, is_failed,
}

pub record RegisterResponse : Type 0 where
  pub heartbeat_interval : ℕ
  pub node_token : Option String
  pub vllm_api_key : Option String
  pub tunnel_pool_size : Option ℕ

-- `client.register`: a response, an HTTP error, or any other exception.
pub data RegisterReply : Type 0 where
  accepted : RegisterResponse → RegisterReply
  http_error : ℕ → RegisterReply
  unreachable : RegisterReply

-- Python's truth of an optional text.
abbrev pub is_set : Option String → Bool
is_set none = false
is_set (some s) = not (s ==ₛ "")

abbrev pub same_text : Option String → Option String → Bool
same_text none none = true
same_text (some a) (some b) = a ==ₛ b
same_text _ _ = false

-- The calls of `client.register` in `_reregister`: with the node token, and once with the join token.
unfoldable pub rejoin : Node → RegisterReply → RegisterReply → Option RegisterResponse
rejoin n (accepted r) second = some r
rejoin n (http_error code) second =
    if code == 401 && not (same_text n.token n.join_token)
    then elim second [ accepted r ↦ some r | _ ↦ none ]
    else none
rejoin n unreachable second = none

abbrev pub retoken : Option String → Option Metrics → Option Metrics
retoken t none = none
retoken t (some m) = some (record m { token = t })

-- `_adopt_token`, where the response has one.
unfoldable pub adopt_token : Option String → Node → Node
adopt_token t n = if is_set t then record n { token = t; metrics = retoken t n.metrics } else n

unfoldable pub wake : Node → Node
wake n = elim n.tunnel [ none ↦ n | some _ ↦ record n { log = woke_tunnels ∷ n.log } ]

-- A new backend key: the backend is stopped, and `_reconcile` restarts it.
unfoldable pub adopt_key : Option String → Node → Node
adopt_key key n =
    if is_set key && not (same_text key n.api_key)
    then elim n.supervisor [
      | none ↦ record n { api_key = key }
      | some _ ↦ record n { api_key = key; log = stopped_backend ∷ n.log }
    ]
    else n

-- `_reregister`, with the answers to its calls.
unfoldable pub reregister : RegisterReply → RegisterReply → Node → Node
reregister first second n = elim (rejoin n first second) [
  | none ↦ n
  | some r ↦ adopt_key r.vllm_api_key (wake (adopt_token r.node_token n))
]

-- What one round of `_loop` meets: signals during the wait, the backend, the manager.
pub record Tick : Type 0 where
  pub signals : ℕ
  pub backend : Backend
  pub crash : Crash
  pub reply : Reply
  pub first : RegisterReply
  pub second : RegisterReply

abbrev pub resize : Option ℕ → Option Tunnel → Option Tunnel
resize size none = none
resize none (some t) = some t
resize (some size) (some t) = some (record t { pool_size = max 1 size })

-- What a round does with the answer to its heartbeat: the node, and whether the loop goes on.
unfoldable pub act : Tick → Option HeartbeatResponse → Node → Node × Bool
act t none n = (n, true)
act t (some resp) n =
    let m = record n { tunnel = resize resp.tunnel_pool_size n.tunnel } in
    if resp.known
    then elim resp.command [
      | none ↦ (m, true)
      | some WorkerCommand.stop ↦ (record m { stop = true }, false)
    ]
    else (reregister t.first t.second m, true)

-- The body of `_loop`.
unfoldable pub round : Tick → Node → Node × Bool
round t n =
    let m = reconcile t.backend t.crash n in
    if m.raised
    then (m, false)
    else if is_failed m.node_state
    then ((send_heartbeat t.reply m).0, false)
    else let (sent, resp) = send_heartbeat t.reply m in act t resp sent

-- `_loop` over the rounds that the node meets; after those it still runs.
unfoldable pub loop : List Tick → Node → Node
loop [] n = n
loop (t ∷ ts) n =
    let woken = on_signals t.signals n in
    let (m, goes_on) = round t woken in
    let rest = loop ts m in if woken.stop then woken else if goes_on then rest else m

-- What one round of the loop of `_drain_and_stop` meets.
pub record DrainTick : Type 0 where
  pub signals : ℕ
  pub load : RunState
  pub reply : Reply
  pub took : ℕ

abbrev pub is_executing : RunState → Bool
is_executing executing = true
is_executing idle = false

-- The loop of `_drain_and_stop` from its round `k` on, at the time `now`. `none`: out of fuel.
unfoldable pub drain_loop : ℕ → (ℕ → DrainTick) → ℕ → ℕ → ℕ → Node → Option Node
drain_loop zero env k deadline now n = none
drain_loop (suc fuel) env k deadline now n =
    let m = on_signals (env k).signals n in
    let sent = (send_heartbeat (env k).reply (record m { run_state = some executing })).0 in
    let later = now + (env k).took in
    let rest =
      drain_loop fuel env (k + 1) deadline (later + min m.interval (deadline - later)) sent in
    if not m.force && (ltb now deadline && is_executing (env k).load) then rest else some m

-- The end of `_drain_and_stop`, with and without a backend to stop.
unfoldable pub settle : Reply → Node → Node
settle r n = (send_heartbeat r (record n { node_state = stopped; run_state = none })).0

pub halt_backend : Node → Node
halt_backend n = record n { log = stopped_backend ∷ n.log }

-- `_drain_and_stop`: whether the backend runs, the rounds of the drain, and the answer to the last
-- heartbeat. `none`: out of fuel.
unfoldable pub drain_and_stop : ℕ → Bool → (ℕ → DrainTick) → ℕ → ℕ → Reply → Node → Option Node
drain_and_stop fuel running env drain_timeout now last n =
    if is_some n.supervisor && running
    then elim (drain_loop fuel env 0 (now + drain_timeout) now
        (record n { node_state = draining })) [
          | none ↦ none
          | some m ↦ some (settle last (halt_backend m))
        ]
    else some (settle last n)

-- What `run` does after `_loop`.
unfoldable pub finish : ℕ → Bool → (ℕ → DrainTick) → ℕ → ℕ → Reply → Node → Option Node
finish fuel running env drain_timeout now last n =
    if n.raised || is_failed n.node_state
    then some n
    else drain_and_stop fuel running env drain_timeout now last n
