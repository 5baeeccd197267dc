-- ===== src/Manager/Control.antt =====
-- The control plane's worker-facing endpoints: `create_app` of
-- src/oumigo/service/manager/control/server.py. A handler is a function of what the request carries;
-- it gives the reply, or the status that it raises. FastAPI's parsing and its answer to an exception,
-- 500, logging, mDNS, the servers and their start are left out. The handlers run on one event loop,
-- and each has no `await` between its first access of the state and its last.
pub mod Refusal
pub mod Rejoin
pub mod Revocation
use oumigo.Prelude.{
  ℕ, ◌+◌, String, Bool, true, false, ◌&&◌, ◌||◌, not, Option, none, some, List, [], ◌∷◌,
  if◌then◌else◌, ◌==ₛ◌, is_some, filter, length, ◌==◌, ◌⊎◌, inl, inr,
}
use oumigo.Prelude.Dict.{Dict, get, values}
use oumigo.Protocol.{Transport}
use oumigo.Registry.{
  list as registry_list, Registry, NodeRecord, Registration, Beat, register, heartbeat, forget,
  find,
}
use oumigo.Catalog.{
  NodeSpec, Profile, FleetCatalog, node_spec, profile_of, default_profile, default_to,
}
use oumigo.Manager.Credentials.{Platform, AuthStore, is_node_revoked, node_token, vllm_api_key}
use oumigo.Manager.Credentials.Authenticator.{
  Authenticator, may_read_spec, may_register, may_act_as, tunnel_node,
}
use oumigo.Manager.Access.{FailureLimiter, blocked, note}
use oumigo.Manager.Store.{Table, ingest}

-- The arguments of `create_app` that the handlers read.
pub record Setup : Type 0 where
  pub fleet_spec : Option NodeSpec
  pub catalog : Option FleetCatalog
  pub vllm_port : Option ℕ
  pub allows : Option String → Bool
  pub heartbeat_interval : ℕ
  pub tunnel_enabled : Bool
  pub tunnel_pool_spare : ℕ
  pub provider_name : String

-- What the handlers share and change.
pub record Control (V : Type 0) : Type 0 where
  pub auth : Authenticator
  pub registry : Registry
  pub limiter : FailureLimiter
  pub metrics : Table V

-- When and from where a request comes: `time.time()`, `time.monotonic()`, the source, and the header.
pub record Request : Type 0 where
  pub now : ℕ
  pub tick : ℕ
  pub host : Option String
  pub authorization : Option String

abbrev pub is_tunnel : Transport → Bool
is_tunnel Transport.direct = false
is_tunnel Transport.tunnel = true

-- `if x:`, of a text that may be absent.
abbrev is_given : Option String → Bool
is_given none = false
is_given (some t) = not (t ==ₛ "")

module _ (S : Setup) where
  port_hint : ℕ
  port_hint = elim S.vllm_port [
    | some p ↦ p
    | none ↦ elim S.fleet_spec [ none ↦ 7001 | some s ↦ s.port ]
  ]

  -- The catalog, where it has profiles: `_closed`.
  unfoldable pub closed : Option FleetCatalog
  closed = elim S.catalog [ none ↦ none | some c ↦ if length c.profiles == 0 then none else some c ]

  abbrev forbid_absent : Option Profile → ℕ ⊎ Option NodeSpec
  forbid_absent none = inl 403
  forbid_absent (some p) = inr (some (node_spec port_hint p))

  -- The one profile of a list.
  abbrev only : List Profile → Option Profile
  only [] = none
  only (p ∷ []) = some p
  only (p ∷ (q ∷ ps)) = none

  -- `catalog.default_profile`, which may raise.
  abbrev default_or_raise : Option (Option Profile) → ℕ ⊎ Option NodeSpec
  default_or_raise none = inl 500
  default_or_raise (some o) = forbid_absent o

  resolve_in : FleetCatalog → Option String → Option String → ℕ ⊎ Option NodeSpec
  resolve_in c profile model =
      if is_given profile
      then forbid_absent (profile_of c (default_to "" profile))
      else if is_given model
      then forbid_absent (only (filter (λ p. p.model ==ₛ default_to "" model) (values c.profiles)))
      else default_or_raise (default_profile c)

  -- `_resolve_spec`.
  pub resolve_spec : Option String → Option String → ℕ ⊎ Option NodeSpec
  resolve_spec profile model = elim closed [
    | none ↦ inr S.fleet_spec
    | some c ↦ resolve_in c profile model
  ]

  -- `_pool_size`.
  unfoldable pub pool_size : Option ℕ → ℕ
  pool_size capacity =
      let default_capacity : ℕ = elim S.fleet_spec [
        | none ↦ 4
        | some s ↦ s.max_concurrent_requests
      ] in
      default_to default_capacity capacity + S.tunnel_pool_spare

  -- Whether the weights that a worker loads are not those of the profile.
  abbrev other_model : Option String → NodeSpec → Bool
  other_model none s = false
  other_model (some m) s = not (s.model ==ₛ m)

  abbrev pub fits : Registration → ℕ ⊎ Option NodeSpec → ℕ ⊎ (Option NodeSpec × Option String)
  fits q (inl status) = inl status
  fits q (inr none) = inl 500
  fits q (inr (some s)) = if other_model q.model s then inl 403 else inr (some s, s.profile)

  -- The specification and the profile of a registration: the middle of the handler of `/register`.
  unfoldable pub choose : Registration → ℕ ⊎ (Option NodeSpec × Option String)
  choose q = elim closed [
    | none ↦ inr (S.fleet_spec, q.profile)
    | some c ↦ if is_given q.profile then fits q (resolve_spec q.profile none) else inl 403
  ]

pub record RegisterResponse : Type 0 where
  pub accepted : Bool
  pub node_id : String
  pub heartbeat_interval_s : ℕ
  pub spec : Option NodeSpec
  pub token : String
  pub api_key : Option String
  pub tunnel_pool_size : Option ℕ

pub record HeartbeatResponse : Type 0 where
  pub ok : Bool
  pub known : Bool
  pub tunnel_pool_size : Option ℕ

unfoldable pub welcome :
    Platform → Setup → AuthStore → Registration → Option NodeSpec → RegisterResponse
welcome P S store q s =
    let tunneled = is_tunnel q.transport in
    let transformer : Bool = elim q.backend [ none ↦ false | some b ↦ b ==ₛ "transformer" ] in
    record {
      accepted = true;
      node_id = q.node_id;
      heartbeat_interval_s = S.heartbeat_interval;
      spec = s;
      token = node_token P store q.node_id;
      api_key = if tunneled then some (vllm_api_key P store q.node_id) else none;
      tunnel_pool_size =
          if tunneled then some (pool_size S (if transformer then some 1 else none)) else none;
    }

-- The reply to a heartbeat, once the registry has seen it.
pub answer : Setup → Beat → Registry × Bool → HeartbeatResponse
answer S b (g, known) =
    let size : Option ℕ = elim (if known then find g b.node_id else none) [
      | none ↦ none
      | some n ↦
          if is_tunnel n.transport then some (pool_size S n.max_concurrent_requests) else none
    ] in
    record { ok = true; known = known; tunnel_pool_size = size }

abbrev is_tunnel_node : Option NodeRecord → Bool
is_tunnel_node none = false
is_tunnel_node (some n) = is_tunnel n.transport

abbrev known_record : Registry → Option String → Option NodeRecord
known_record g none = none
known_record g (some n) = find g n

module _ {V : Type 0} where
  -- `_deny`, which counts the failure of the source.
  unfoldable pub deny : {A : Type 0} → Request → Option String → Control V → Control V × (ℕ ⊎ A)
  deny r node_id c = (
    record c { limiter = note r.host r.tick c.limiter },
    inl (elim node_id [
      | none ↦ 401
      | some n ↦ if is_node_revoked n c.auth.store then 403 else 401
    ]),
  )

  -- `worker_source`, before a handler.
  unfoldable pub worker_source :
      {A : Type 0}
      → Setup
      → Request
      → (Control V → Control V × (ℕ ⊎ A))
      → Control V
      → Control V × (ℕ ⊎ A)
  worker_source S r handler c =
      if not (S.allows r.host)
      then (c, inl 403)
      else let (l, b) = blocked r.host r.tick c.limiter in
        if b then (record c { limiter = l }, inl 429) else handler (record c { limiter = l })

  module _ (P : Platform) (S : Setup) where
    -- `GET /spec`; the reply has the specification and the provider.
    spec_handler :
        Option String
        → Option String
        → Request
        → Control V
        → Control V × (ℕ ⊎ (Option NodeSpec × String))
    spec_handler profile model r c =
        if not (may_read_spec P r.authorization r.now c.auth) then deny r none c else (
          c,
          elim (resolve_spec S profile model) [
            | inl status ↦ inl status
            | inr s ↦ inr (s, S.provider_name)
          ],
        )

    -- The end of the handler of `/register`, from `may_register` on.
    unfoldable pub admit :
        Request
        → Registration
        → Option NodeSpec × Option String
        → Control V
        → Control V × (ℕ ⊎ RegisterResponse)
    admit r q (s, profile) c =
        let (a, ok) = may_register P r.authorization q.node_id r.now c.auth in
        if ok
        then (
          record c {
            auth = a;
            registry = (register c.registry (record q { profile = profile }) r.now).0;
          },
          inr (welcome P S a.store q s),
        )
        else deny r (some q.node_id) (record c { auth = a })

    abbrev pub admit_chosen :
        Request
        → Registration
        → ℕ ⊎ (Option NodeSpec × Option String)
        → Control V
        → Control V × (ℕ ⊎ RegisterResponse)
    admit_chosen r q (inl status) c = (c, inl status)
    admit_chosen r q (inr chosen) c = admit r q chosen c

    -- `POST /register`.
    unfoldable pub register_handler :
        Registration → Request → Control V → Control V × (ℕ ⊎ RegisterResponse)
    register_handler q r c =
        if is_tunnel q.transport && not S.tunnel_enabled
        then (c, inl 400)
        else if not (may_read_spec P r.authorization r.now c.auth)
        then deny r (some q.node_id) c
        else admit_chosen r q (choose S q) c

    -- `POST /heartbeat`.
    pub heartbeat_handler : Beat → Request → Control V → Control V × (ℕ ⊎ HeartbeatResponse)
    heartbeat_handler b r c =
        if not (may_act_as P r.authorization b.node_id c.auth)
        then deny r (some b.node_id) c
        else let (g, known) = heartbeat c.registry b r.now in
          (record c { registry = g }, inr (answer S b (g, known)))

    -- `POST /metrics`; the cutoff comes from the clock.
    metrics_handler :
        String → List (String × String × V) → String → Request → Control V → Control V × (ℕ ⊎ ℕ)
    metrics_handler node_id points cutoff r c =
        if not (may_act_as P r.authorization node_id c.auth)
        then deny r (some node_id) c
        else let (rows, written) = ingest node_id points cutoff c.metrics in
          (record c { metrics = rows }, inr written)

    -- The admission of `/tunnel`: the node whose connection is accepted.
    tunnel_handler : Request → Control V → Control V × Option String
    tunnel_handler r c =
        if not (S.allows r.host)
        then (c, none)
        else let (l, b) = blocked r.host r.tick c.limiter in
          let c' = record c { limiter = l } in
          if b
          then (c', none)
          else let node_id = tunnel_node P r.authorization c.auth in
            if S.tunnel_enabled && is_tunnel_node (known_record c.registry node_id)
            then (c', node_id)
            else (record c { limiter = if is_some node_id then l else note r.host r.tick l }, none)

-- One pass of `_revocation_loop` over a copy of the records; it also closes the tunnels of the nodes
-- that it forgets.
pub revoke_loop : AuthStore → List NodeRecord → Registry → List String → Registry × List String
revoke_loop store [] g dropped = (g, dropped)
revoke_loop store (r ∷ records) g dropped =
    if is_node_revoked r.node_id store
    then revoke_loop store records (forget g r.node_id).0 (r.node_id ∷ dropped)
    else revoke_loop store records g dropped

pub revoke_pass : AuthStore → Registry → Registry × List String
revoke_pass store g = revoke_loop store (registry_list g) g []
