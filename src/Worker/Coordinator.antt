-- ===== src/Worker/Coordinator.antt =====
-- The node state machine of src/oumigo/service/worker/coordinator.py: `WorkerCoordinator`.
-- What the node meets outside is an argument of each step: the state of the backend process, the
-- answers of the manager, signals, and free ports. What it does outside is recorded in `log`, the
-- newest first. Times are whole numbers of one unit, at least as fine as the heartbeat interval.
-- The message formats, logging, and the metrics thread but for its stamp and token are left out.
pub mod Session
pub mod Invariant
pub mod Edges
pub mod Startup
pub mod Readiness
pub mod Ending
pub mod Rekeying
use oumigo.Prelude.{
  ℕ, ◌+◌, ◌*◌, ◌≡◌, String, Bool, true, false, ◌&&◌, ◌||◌, not, Option, none, some, List, [], ◌∷◌,
  if◌then◌else◌, leb, ltb, min, is_some, or_else,
}
use oumigo.Protocol.{
  NodeState, registering, initializing, serving, draining, stopped, failed, lost, RunState, idle,
  executing, WorkerCommand,
}
use oumigo.Worker.Ports.{Bound, Found, free, unavailable, os_error, find_free_port}

-- What the node does outside.
pub data Effect : Type 0 where
  started : ℕ → Effect
  stopped_backend : Effect
  beat : NodeState → Option RunState → Effect
  woke_tunnels : Effect

-- The metrics collector: whether `vllm:start_timestamp` is stamped, and its token.
pub record Metrics : Type 0 where
  pub stamped : Bool
  pub token : Option String

pub record Tunnel : Type 0 where
  pub backend_port : ℕ
  pub pool_size : ℕ

pub record Node : Type 0 where
  pub node_state : NodeState
  pub run_state : Option RunState
  pub restarts : ℕ
  pub max_restarts : ℕ
  pub interval : ℕ
  pub stop : Bool
  pub force : Bool
  pub spec_port : ℕ
  pub vllm_port : Option ℕ
  pub supervisor : Option ℕ
  pub token : Option String
  pub join_token : Option String
  pub metrics : Option Metrics
  pub tunnel : Option Tunnel
  pub api_key : Option String
  pub raised : Bool
  pub log : List Effect

-- The process as `_ServerProcess` observes it.
pub record Backend : Type 0 where
  pub running : Bool
  pub healthy : Bool
  pub load : RunState

-- What `_handle_crash` meets: a stop during the backoff, and which ports are free.
pub record Crash : Type 0 where
  pub signals : ℕ
  pub bind : ℕ → Bound

-- The handler of `_install_signals`, once for each signal.
unfoldable pub on_signals : ℕ → Node → Node
on_signals ℕ.zero n = n
on_signals (ℕ.suc k) n =
    on_signals k (if n.stop then record n { force = true } else record n { stop = true })

abbrev pub stamp : Bool → Option Metrics → Option Metrics
stamp b none = none
stamp b (some m) = some (record m { stamped = b })

abbrev aim : ℕ → Option Tunnel → Option Tunnel
aim port none = none
aim port (some t) = some (record t { backend_port = port })

abbrev pub preferred_port : Node → ℕ
preferred_port n = elim n.vllm_port [ none ↦ n.spec_port | some port ↦ port ]

-- `_select_port`. Another `OSError` than EADDRINUSE is caught nowhere.
unfoldable pub select_port : (ℕ → Bound) → Node → Node × Option ℕ
select_port bind n = elim (find_free_port bind (preferred_port n)) [
  | free port ↦ (record n { vllm_port = some port }, some port)
  | unavailable ↦ (record n { node_state = failed }, none)
  | os_error ↦ (record n { raised = true }, none)
]

-- `self.supervisor = self._make_process(...)` and `start()`.
unfoldable pub launch : ℕ → Node → Node
launch port n = record n { supervisor = some port; log = started port ∷ n.log }

-- The end of `_handle_crash`, after the backoff.
unfoldable pub relaunch : Crash → Node → Node
relaunch c n =
    let (m, found) = select_port c.bind n in
    elim found [ none ↦ m | some port ↦ launch port (record m { tunnel = aim port m.tunnel }) ]

unfoldable pub handle_crash : Crash → Node → Node
handle_crash c n =
    let left = record n { run_state = none; metrics = stamp false n.metrics } in
    if leb n.max_restarts n.restarts
    then record left { node_state = failed }
    else let again =
        on_signals c.signals
          (record left { restarts = n.restarts + 1; node_state = initializing }) in
      if again.stop then again else relaunch c again

abbrev pub is_initializing : NodeState → Bool
is_initializing initializing = true
is_initializing _ = false

abbrev pub is_serving : NodeState → Bool
is_serving serving = true
is_serving _ = false

abbrev pub is_failed : NodeState → Bool
is_failed failed = true
is_failed _ = false

-- The edge INITIALIZING -> SERVING of `_reconcile`.
unfoldable pub come_up : Backend → Node → Node
come_up b n =
    if is_initializing n.node_state && b.healthy
    then record n { node_state = serving; metrics = stamp true n.metrics }
    else n

-- The part of `_reconcile` for a backend that runs.
unfoldable pub observe : Backend → Node → Node
observe b n =
    let m = come_up b n in
    if is_serving m.node_state then record m { run_state = some b.load } else m

unfoldable pub reconcile : Backend → Crash → Node → Node
reconcile b c n = elim n.supervisor [
  | none ↦ n
  | some _ ↦ if b.running then observe b n else handle_crash c n
]

pub record HeartbeatResponse : Type 0 where
  pub known : Bool
  pub command : Option WorkerCommand
  pub tunnel_pool_size : Option ℕ

-- The response, a 403, or any other failure.
pub data Reply : Type 0 where
  acked : HeartbeatResponse → Reply
  forbidden : Reply
  no_reply : Reply

unfoldable pub send_heartbeat : Reply → Node → Node × Option HeartbeatResponse
send_heartbeat r n =
    let sent = record n { log = beat n.node_state n.run_state ∷ n.log } in
    elim r [
      | acked resp ↦ (sent, some resp)
      | forbidden ↦ (record sent { stop = true }, none)
      | no_reply ↦ (sent, none)
    ]
