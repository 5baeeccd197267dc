-- ===== src/Manager/Control/Refusal.antt =====
-- What a refused request leaves as it was.
use oumigo.Prelude.{ℕ, ◌≡◌, refl, String, ◌&&◌, not, Option, some, ◌⊎◌, inl, inr, arith, Bool-cases}
use oumigo.Catalog.{NodeSpec}
use oumigo.Registry.{Registration}
use oumigo.Manager.Credentials.{Platform}
use oumigo.Manager.Credentials.Authenticator.{may_register, may_read_spec, may_register-refused}
use oumigo.Manager.Access.{blocked}
use oumigo.Manager.Control.{
  Setup, Control, Request, deny, worker_source, admit, admit_chosen, register_handler, choose,
  RegisterResponse, is_tunnel,
}

module _ {V : Type 0} where
  -- All but the count of the failures is as it was.
  pub record IsKept (c d : Control V) : Type 0 where
    pub auth : d.auth ≡ c.auth
    pub registry : d.registry ≡ c.registry
    pub metrics : d.metrics ≡ c.metrics

  IsKept-refl : (c : Control V) → IsKept c c
  IsKept-refl c = record { auth = refl; registry = refl; metrics = refl }

  deny-IsKept :
      (A : Type 0) (r : Request) (n : Option String) (c : Control V)
      → IsKept c (deny {A = A} r n c).0
  unfolding deny
  deny-IsKept A r n c = record { auth = refl; registry = refl; metrics = refl }

  module _ (P : Platform) (S : Setup) where
    admit-refused :
        (r : Request) (q : Registration) (x : Option NodeSpec × Option String) (c : Control V)
        (status : ℕ)
        → (admit P S r q x c).1 ≡ inl status
        → IsKept c (admit P S r q x c).0
    unfolding admit deny
    admit-refused r q x c status e =
        elim (Bool-cases (may_register P r.authorization q.node_id r.now c.auth).1) [
          | inl h ↦ absurd (ground (arith, e, h))
          | inr h ↦
              let same = may_register-refused P c.auth r.authorization q.node_id r.now h in
              rw h (record { auth = same; registry = refl; metrics = refl })
        ]

    register_handler-refused :
        (q : Registration) (r : Request) (c : Control V) (status : ℕ)
        → (register_handler P S q r c).1 ≡ inl status
        → IsKept c (register_handler P S q r c).0
    unfolding register_handler
    register_handler-refused q r c status e =
        elim (Bool-cases (is_tunnel q.transport && not S.tunnel_enabled)) [
          | inl h ↦ rw h (IsKept-refl c)
          | inr h ↦ elim (Bool-cases (may_read_spec P r.authorization r.now c.auth)) [
            | inr k ↦ rw (h, k) (deny-IsKept RegisterResponse r (some q.node_id) c)
            | inl k ↦ rw (h, k) (chosen (choose S q) (ground (arith, e, h, k)))
          ]
        ]
      where
        chosen :
            (o : ℕ ⊎ (Option NodeSpec × Option String))
            → (admit_chosen P S r q o c).1 ≡ inl status
            → IsKept c (admit_chosen P S r q o c).0
        chosen (inl x) f = IsKept-refl c
        chosen (inr x) f = admit-refused r q x c status f

    -- A registration that is refused, by whatever check and with whatever status, changes neither the
    -- registry nor the store of metrics, and spends no use of a join token: but for the count of the
    -- source's failures the state is as it was.
    pub register-refused :
        (q : Registration) (r : Request) (c : Control V) (status : ℕ)
        → (worker_source S r (register_handler P S q r) c).1 ≡ inl status
        → IsKept c (worker_source S r (register_handler P S q r) c).0
    unfolding worker_source
    register-refused q r c status e = elim (Bool-cases (S.allows r.host)) [
      | inr h ↦ rw h (IsKept-refl c)
      | inl h ↦
          let l = (blocked r.host r.tick c.limiter).0 in
          elim (Bool-cases (blocked r.host r.tick c.limiter).1) [
            | inl k ↦ rw (h, k) (record { auth = refl; registry = refl; metrics = refl })
            | inr k ↦
                let x =
                  register_handler-refused q r (record c { limiter = l }) status
                    (ground (arith, e, h, k)) in
                rw (h, k) (record { auth = x.auth; registry = x.registry; metrics = x.metrics })
          ]
    ]
