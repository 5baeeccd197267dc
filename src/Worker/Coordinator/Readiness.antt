-- ===== src/Worker/Coordinator/Readiness.antt =====
-- What the start of a node leaves.
use oumigo.Prelude.{
  ℕ, ◌≤◌, ◌≡◌, ◌⊎◌, inl, inr, Option-cases, Bool-cases, ltb, refl, sym, ap, subst, ◌∙◌, Bool, true,
  false, ◌&&◌, ◌||◌, not, none, some, [], if◌then◌else◌, ◌==◌, is_some, arith,
}
use oumigo.Protocol.{registering, initializing, failed}
use oumigo.Worker.Coordinator.{Node, launch}
use oumigo.Worker.Coordinator.Session.{RegisterResponse, accepted, is_set}
use oumigo.Worker.Coordinator.Invariant.{IsSound}
use oumigo.Worker.Coordinator.Startup.{
  Config, Exit, no_tunnel_settings, no_port, Outcome, exits, goes_on, create, register, size_of,
  start_tunnel, start_vllm, start_metrics, connect, equip, proceed, start,
}

-- Whether the manager handed out what a tunnel needs, and a port was chosen for it.
abbrev can_tunnel : Config → RegisterResponse → Bool
can_tunnel c r =
    is_set r.vllm_api_key && (ltb 0 (size_of r.tunnel_pool_size) && is_some c.vllm_port)

-- A node on which no backend was started yet.
record IsFresh (c : Config) (m : Node) : Type 0 where
  state : m.node_state ≡ registering
  silent : m.run_state ≡ none
  count : m.restarts ≡ 0
  meters : m.metrics ≡ none
  process : m.supervisor ≡ none
  port : m.vllm_port ≡ c.vllm_port
  effects : m.log ≡ []
  cadence : 1 ≤ m.interval

registered-IsFresh :
    (c : Config) (r : RegisterResponse)
    → (m : Node) × (register (accepted r) (create c) ≡ goes_on (m, r))
      × IsFresh c m
      × (m.tunnel ≡ none)
unfolding register create
registered-IsFresh c r = (_, refl, ground arith, refl)

-- What a start leaves: a sound node, with its backend starting on the port that was chosen, or
-- FAILED where none was.
pub record IsReady (c : Config) (n : Node) : Type 0 where
  pub sound : IsSound n
  pub process : n.supervisor ≡ c.vllm_port
  pub port : n.vllm_port ≡ c.vllm_port
  pub state : n.node_state ≡ (if is_some c.vllm_port then initializing else failed)
  pub cadence : 1 ≤ n.interval

started-IsReady :
    (c : Config) (b : Bool) (m : Node) → IsFresh c m → IsReady c (start_metrics b (start_vllm m))
unfolding start_metrics start_vllm launch
started-IsReady c b m f = ground arith

-- The node with its tunnel to the port.
abbrev tunneling : RegisterResponse → ℕ → Node → Node
tunneling r port n = record n {
  api_key = r.vllm_api_key;
  tunnel = some (record { backend_port = port; pool_size = size_of r.tunnel_pool_size });
}

start_tunnel_lem :
    (c : Config) (r : RegisterResponse) (n : Node)
    → IsFresh c n
    → ((e : Exit) × (start_tunnel r n ≡ exits e) × (can_tunnel c r ≡ false))
      ⊎ ((m : Node) × (start_tunnel r n ≡ goes_on m)
          × (can_tunnel c r ≡ true)
          × IsFresh c m
          × (is_some m.tunnel ≡ true))
unfolding start_tunnel
start_tunnel_lem c r n f = elim (Option-cases n.vllm_port) [
  | inl e ↦ elim (Bool-cases (not (is_set r.vllm_api_key) || size_of r.tunnel_pool_size == 0)) [
    | inl h ↦ inl (no_tunnel_settings, ground (arith, h), ground (arith, h))
    | inr h ↦ inl (no_port, ground (arith, e, h), ground (arith, e, f.port))
  ]
  | inr (p, e) ↦
      elim (Bool-cases (not (is_set r.vllm_api_key) || size_of r.tunnel_pool_size == 0)) [
        | inl h ↦ inl (no_tunnel_settings, ground (arith, h), ground (arith, h))
        | inr h ↦ inr (
          tunneling r p n,
          ground (arith, e, h),
          ground (arith, e, h, f.port),
          ground arith,
          refl,
        )
      ]
]

ready_tunnel : (b : Bool) (m : Node) → (start_metrics b (start_vllm m)).tunnel ≡ m.tunnel
unfolding start_metrics start_vllm launch
ready_tunnel b m = ground arith

-- What the start of a node may give whose registration was accepted.
abbrev pub IsStarted : Config → RegisterResponse → Outcome Node → Type 0
IsStarted c r (exits e) = (c.tunneled ≡ true) × (can_tunnel c r ≡ false)
IsStarted c r (goes_on n) =
    IsReady c n × (is_some n.tunnel ≡ c.tunneled) × (c.tunneled ≡ true → can_tunnel c r ≡ true)

connect-IsStarted :
    (c : Config) (r : RegisterResponse) (n : Node)
    → IsFresh c n
    → n.tunnel ≡ none
    → IsStarted c r (equip c (connect c.tunneled n r))
unfolding connect equip
connect-IsStarted c r n f t = elim (Bool-cases c.tunneled) [
  | inr d ↦
      let same : connect c.tunneled n r ≡ goes_on n = ground (arith, d) in
      subst (λ o. IsStarted c r (equip c o)) (sym same)
        (
          started-IsReady c c.metrics_enabled n f,
          ap is_some (ready_tunnel c.metrics_enabled n ∙ t) ∙ sym d,
          λ y. absurd (cc (sym y ∙ d)),
        )
  | inl d ↦ elim (start_tunnel_lem c r n f) [
    | inl (e, q, h) ↦
        let same : connect c.tunneled n r ≡ exits e = ground (arith, d, q) in
        subst (λ o. IsStarted c r (equip c o)) (sym same) (d, h)
    | inr (m, q, h, g, k) ↦
        let same : connect c.tunneled n r ≡ goes_on m = ground (arith, d, q) in
        subst (λ o. IsStarted c r (equip c o)) (sym same)
          (
            started-IsReady c c.metrics_enabled m g,
            ap is_some (ready_tunnel c.metrics_enabled m) ∙ k ∙ sym d,
            λ y. h,
          )
  ]
]

-- A start whose registration was accepted exits just where a tunnel is asked for and the manager
-- handed out no key or no pool, or no port was chosen; and otherwise it leaves a sound node, which
-- starts its backend on the port that was chosen or is FAILED where none was, with a tunnel just
-- where one is asked for, and with an interval of at least one unit.
pub start-IsStarted : (c : Config) (r : RegisterResponse) → IsStarted c r (start c (accepted r))
unfolding start proceed
start-IsStarted c r =
    let (n, e, f, t) = registered-IsFresh c r in
    subst (λ o. IsStarted c r (proceed c o)) (sym e) (connect-IsStarted c r n f t)
