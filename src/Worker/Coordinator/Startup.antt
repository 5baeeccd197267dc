-- ===== src/Worker/Coordinator/Startup.antt =====
-- The start of a node: the constructor of `WorkerCoordinator`, and `run` up to its loop.
use oumigo.Prelude.{ℕ, String, Bool, false, ◌||◌, not, Option, none, some, [], if◌then◌else◌, ◌==◌}
use oumigo.Protocol.{registering, initializing, failed}
use oumigo.Worker.Coordinator.{Node, launch}
use oumigo.Worker.Coordinator.Session.{
  RegisterResponse, RegisterReply, accepted, http_error, unreachable, is_set,
}

-- The arguments of the constructor that the state machine reads.
pub record Config : Type 0 where
  pub token : Option String
  pub spec_port : ℕ
  pub vllm_port : Option ℕ
  pub tunneled : Bool
  pub max_restarts : ℕ
  pub metrics_enabled : Bool
  pub api_key : Option String

-- Why a start ends in `SystemExit`, or in the assertion of `_start_tunnel`.
pub data Exit : Type 0 where
  status : ℕ → Exit
  no_manager : Exit
  no_tunnel_settings : Exit
  no_port : Exit

pub data Outcome {ℓ} (A : Type ℓ) : Type ℓ where
  exits : Exit → Outcome A
  goes_on : A → Outcome A

unfoldable pub create : Config → Node
create c = record {
  node_state = registering;
  run_state = none;
  restarts = 0;
  max_restarts = c.max_restarts;
  interval = 10;
  stop = false;
  force = false;
  spec_port = c.spec_port;
  vllm_port = c.vllm_port;
  supervisor = none;
  token = c.token;
  join_token = c.token;
  metrics = none;
  tunnel = none;
  api_key = c.api_key;
  raised = false;
  log = [];
}

-- `_register`, with the answer to its call.
unfoldable pub register : RegisterReply → Node → Outcome (Node × RegisterResponse)
register (http_error code) n = exits (status code)
register unreachable n = exits no_manager
register (accepted r) n =
    let cadence = if r.heartbeat_interval == 0 then 10 else r.heartbeat_interval in
    let token = if is_set r.node_token then r.node_token else n.token in
    goes_on (record n { interval = cadence; token = token }, r)

abbrev pub size_of : Option ℕ → ℕ
size_of none = 0
size_of (some k) = k

unfoldable pub start_tunnel : RegisterResponse → Node → Outcome Node
start_tunnel r n =
    if not (is_set r.vllm_api_key) || size_of r.tunnel_pool_size == 0
    then exits no_tunnel_settings
    else elim n.vllm_port [
      | none ↦ exits no_port
      | some port ↦ goes_on (record n {
        api_key = r.vllm_api_key;
        tunnel = some (record { backend_port = port; pool_size = size_of r.tunnel_pool_size });
      })
    ]

unfoldable pub start_vllm : Node → Node
start_vllm n = elim n.vllm_port [
  | none ↦ record n { node_state = failed }
  | some port ↦ launch port (record n { node_state = initializing })
]

unfoldable pub start_metrics : Bool → Node → Node
start_metrics enabled n =
    if enabled then record n { metrics = some (record { stamped = false; token = n.token }) } else n

unfoldable pub connect : Bool → Node → RegisterResponse → Outcome Node
connect tunneled n r = if tunneled then start_tunnel r n else goes_on n

-- `run` from `_start_vllm` up to its call of `_loop`, unless the start has ended.
unfoldable pub equip : Config → Outcome Node → Outcome Node
equip c (exits e) = exits e
equip c (goes_on n) = goes_on (start_metrics c.metrics_enabled (start_vllm n))

unfoldable pub proceed : Config → Outcome (Node × RegisterResponse) → Outcome Node
proceed c (exits e) = exits e
proceed c (goes_on (n, r)) = equip c (connect c.tunneled n r)

-- `run` up to its call of `_loop`.
unfoldable pub start : Config → RegisterReply → Outcome Node
start c reply = proceed c (register reply (create c))
