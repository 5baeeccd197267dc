-- ===== src/Manager/Control/Rejoin.antt =====
-- A node that was let in may act: the registration and the heartbeat that follows it.
use oumigo.Prelude.{
  ℕ, ◌≡◌, refl, sym, ap, subst, String, true, false, ◌&&◌, not, Option, none, some, ◌⊎◌, inl, inr,
  arith, Bool-cases, is_some,
}
use oumigo.Prelude.Dict.{get, get-put_self}
use oumigo.Catalog.{NodeSpec}
use oumigo.Registry.{Registration, Beat, register, heartbeat}
use oumigo.Manager.Credentials.{Platform, bearer, node_token, is_node_revoked, check_join_token}
use oumigo.Manager.Credentials.Tokens.{IsNamed}
use oumigo.Manager.Credentials.Authenticator.{
  Authenticator, may_register, may_read_spec, may_act_as, may_act_as_iff, join_with,
}
use oumigo.Manager.Access.{blocked}
use oumigo.Manager.Control.{
  Setup, Control, Request, worker_source, admit, admit_chosen, register_handler, heartbeat_handler,
  choose, RegisterResponse, HeartbeatResponse, is_tunnel, welcome, answer, deny,
}

module _ (P : Platform) where
  join_with-revoked :
      (now : ℕ) (token : Option String) (a : Authenticator) (n : String)
      → is_node_revoked n (join_with P true now token a).0.store ≡ is_node_revoked n a.store
  unfolding join_with check_join_token is_node_revoked
  join_with-revoked now none a n = refl
  join_with-revoked now (some t) a n = ground arith

  may_register-allowed :
      (authorization : Option String) (n : String) (now : ℕ) (a : Authenticator)
      → (may_register P authorization n now a).1 ≡ true
      → is_node_revoked n (may_register P authorization n now a).0.store ≡ false
  unfolding may_register
  may_register-allowed authorization n now a h =
      ground (arith, h, join_with-revoked now (bearer P authorization) a n)

module _ {V : Type 0} where
  -- What holds after an accepted registration of the node `n`.
  record IsIn (P : Platform) (n : String) (d : Control V) (x : RegisterResponse) : Type 0 where
    live : is_node_revoked n d.auth.store ≡ false
    token : x.token ≡ node_token P d.auth.store n
    known : is_some (get n d.registry.nodes) ≡ true

  module _ (P : Platform) (S : Setup) where
    admit-IsIn :
        (r : Request) (q : Registration) (y : Option NodeSpec × Option String) (c : Control V)
        (x : RegisterResponse)
        → (admit P S r q y c).1 ≡ inr x
        → IsIn P q.node_id (admit P S r q y c).0 x
    unfolding admit deny welcome register
    admit-IsIn r q (s, profile) c x e =
        let (a, ok) = may_register P r.authorization q.node_id r.now c.auth in
        elim (Bool-cases ok) [
          | inr h ↦ absurd (ground (arith, e, h))
          | inl h ↦
              let same : welcome P S a.store q s ≡ x = ground (arith, e, h) in
              rw h (record {
                live = may_register-allowed P r.authorization q.node_id r.now c.auth h;
                token = ap (λ z. z.token) (sym same);
                known = ap is_some (get-put_self q.node_id _ c.registry.nodes);
              })
        ]

    register_handler-IsIn :
        (r : Request) (q : Registration) (c : Control V) (x : RegisterResponse)
        → (register_handler P S q r c).1 ≡ inr x
        → IsIn P q.node_id (register_handler P S q r c).0 x
    unfolding register_handler deny
    register_handler-IsIn r q c x e =
        elim (Bool-cases (is_tunnel q.transport && not S.tunnel_enabled)) [
          | inl h ↦ absurd (ground (arith, e, h))
          | inr h ↦ elim (Bool-cases (may_read_spec P r.authorization r.now c.auth)) [
            | inr k ↦ absurd (ground (arith, e, h, k))
            | inl k ↦ rw (h, k) (chosen (choose S q) (ground (arith, e, h, k)))
          ]
        ]
      where
        chosen :
            (o : ℕ ⊎ (Option NodeSpec × Option String))
            → (admit_chosen P S r q o c).1 ≡ inr x
            → IsIn P q.node_id (admit_chosen P S r q o c).0 x
        chosen (inl y) f = absurd (cc f)
        chosen (inr y) f = admit-IsIn r q y c x f

    register-IsIn :
        (r : Request) (q : Registration) (c : Control V) (x : RegisterResponse)
        → (worker_source S r (register_handler P S q r) c).1 ≡ inr x
        → IsIn P q.node_id (worker_source S r (register_handler P S q r) c).0 x
    unfolding worker_source
    register-IsIn r q c x e = elim (Bool-cases (S.allows r.host)) [
      | inr h ↦ absurd (ground (arith, e, h))
      | inl h ↦
          let l = (blocked r.host r.tick c.limiter).0 in
          elim (Bool-cases (blocked r.host r.tick c.limiter).1) [
            | inl k ↦ absurd (ground (arith, e, h, k))
            | inr k ↦
                rw (h, k)
                  (register_handler-IsIn r q (record c { limiter = l }) x (ground (arith, e, h, k)))
          ]
    ]

    heartbeat_handler-known :
        (b : Beat) (r : Request) (c : Control V)
        → may_act_as P r.authorization b.node_id c.auth ≡ true
        → is_some (get b.node_id c.registry.nodes) ≡ true
        → (y : HeartbeatResponse) × ((heartbeat_handler P S b r c).1 ≡ inr y) × (y.known ≡ true)
    unfolding heartbeat_handler heartbeat answer
    heartbeat_handler-known b r c h k =
        (answer S b (heartbeat c.registry b r.now), rw h refl, ground (arith, k))

    heartbeat-known :
        (b : Beat) (s : Request) (d : Control V)
        → may_act_as P s.authorization b.node_id d.auth ≡ true
        → is_some (get b.node_id d.registry.nodes) ≡ true
        → S.allows s.host ≡ true
        → (blocked s.host s.tick d.limiter).1 ≡ false
        → (y : HeartbeatResponse) × ((worker_source S s (heartbeat_handler P S b s) d).1 ≡ inr y)
          × (y.known ≡ true)
    unfolding worker_source
    heartbeat-known b s d h k a f =
        let l = (blocked s.host s.tick d.limiter).0 in
        rw (a, f) (heartbeat_handler-known b s (record d { limiter = l }) h k)

    -- A worker that was registered is in: while its source is allowed and not throttled, its first
    -- heartbeat with the token that the reply gave it is accepted, and the manager knows the node, so
    -- that it does not ask it to register again. The node's id is not empty and has no dot.
    pub register-heartbeat :
        (q : Registration) (b : Beat) (r s : Request) (c : Control V) (x : RegisterResponse)
        → (worker_source S r (register_handler P S q r) c).1 ≡ inr x
        → IsNamed q.node_id
        → b.node_id ≡ q.node_id
        → bearer P s.authorization ≡ some x.token
        → S.allows s.host ≡ true
        → (blocked s.host s.tick (worker_source S r (register_handler P S q r) c).0.limiter).1
          ≡ false
        → (y : HeartbeatResponse) × ((worker_source S s
              (heartbeat_handler P S b s)
              (worker_source S r (register_handler P S q r) c).0).1
            ≡ inr y)
          × (y.known ≡ true)
    register-heartbeat q b r s c x e n same t a f =
        let i = register-IsIn r q c x e in
        let d = (worker_source S r (register_handler P S q r) c).0 in
        let N : String → Type 0 = λ k.
          (is_node_revoked k d.auth.store ≡ false)
          × (x.token ≡ node_token P d.auth.store k)
          × (is_some (get k d.registry.nodes) ≡ true)
          × IsNamed k in
        let (live, token, known, named) = subst N (sym same) (i.live, i.token, i.known, n) in
        let act =
          (may_act_as_iff P d.auth s.authorization b.node_id).1
            (live, inr (x.token, t, inr (token, named))) in
        heartbeat-known b s d act known a f
