-- ===== src/Manager/Credentials/Authenticator.antt =====
-- Who may call the worker-facing endpoints: `Authenticator` of
-- src/oumigo/service/manager/credentials.py. `hmac.compare_digest` raises on a text that is not
-- ASCII; such credentials are left out.
use oumigo.Prelude.{
  ℕ, ◌≡◌, refl, sym, ap, ◌∙◌, ◌↔◌, ◌⊎◌, inl, inr, String, Bool, true, false, ◌&&◌, ◌||◌, not,
  Option, none, some, if◌then◌else◌, ◌==ₛ◌, ==ₛ_iff, is_some, arith, Bool-cases,
}
use oumigo.Manager.Credentials.{
  Platform, AuthStore, bearer, check_join_token, node_from_token, node_token, is_node_revoked,
}
use oumigo.Manager.Credentials.Tokens.{IsNamed, Option-inj, node_from_token_iff}

pub record Authenticator : Type 0 where
  pub store : AuthStore
  pub reusable_token : Option String
  pub enforced : Bool

-- `Authenticator.__init__`.
unfoldable pub init : AuthStore → Option String → Bool → Authenticator
init store reusable_token wan = record {
  store = store;
  reusable_token = reusable_token;
  enforced = wan || is_some reusable_token;
}

-- `token == other`, of two texts that may be absent, where neither is.
unfoldable pub same_text : Option String → Option String → Bool
same_text none _ = false
same_text (some a) none = false
same_text (some a) (some b) = a ==ₛ b

unfoldable pub is_reusable : Authenticator → Option String → Bool
is_reusable a token = same_text token a.reusable_token

unfoldable pub unless_revoked : AuthStore → Option String → Option String
unless_revoked s none = none
unless_revoked s (some node_id) = if is_node_revoked node_id s then none else some node_id

module _ (P : Platform) where
  unfoldable pub valid_node : Authenticator → Option String → Option String
  valid_node a none = none
  valid_node a (some token) = unless_revoked a.store (node_from_token P a.store token)

  -- `token is not None and self.store.check_join_token(token, consume)`.
  unfoldable pub join_with : Bool → ℕ → Option String → Authenticator → Authenticator × Bool
  join_with consume now none a = (a, false)
  join_with consume now (some token) a =
      let (s, ok) = check_join_token P token consume now a.store in (record a { store = s }, ok)

  unfoldable pub may_read_spec : Option String → ℕ → Authenticator → Bool
  may_read_spec authorization now a =
      let token = bearer P authorization in
      not a.enforced
      || (is_reusable a token || ((join_with false now token a).1 || is_some (valid_node a token)))

  unfoldable pub may_register : Option String → String → ℕ → Authenticator → Authenticator × Bool
  may_register authorization node_id now a =
      let token = bearer P authorization in
      if is_node_revoked node_id a.store
      then (a, false)
      else if not a.enforced
      then (a, true)
      else if is_reusable a token || same_text (valid_node a token) (some node_id)
      then (a, true)
      else join_with true now token a

  unfoldable pub may_act_as : Option String → String → Authenticator → Bool
  may_act_as authorization node_id a =
      let token = bearer P authorization in
      not (is_node_revoked node_id a.store)
      && (not a.enforced || (is_reusable a token || same_text (valid_node a token) (some node_id)))

  pub tunnel_node : Option String → Authenticator → Option String
  tunnel_node authorization a = valid_node a (bearer P authorization)

same_text_iff :
    (x y : Option String) → (same_text x y ≡ true) ↔ ((t : String) × (x ≡ some t) × (y ≡ some t))
unfolding same_text
same_text_iff none y = (λ h. absurd (cc h), λ (t, e, f). absurd (cc e))
same_text_iff (some a) none = (λ h. absurd (cc h), λ (t, e, f). absurd (cc f))
same_text_iff (some a) (some b) =
    (λ h. (a, refl, ap some (sym ((==ₛ_iff a b).0 h))), λ (t, e, f). (==ₛ_iff a b).1 (cc (e, f)))

unless_revoked_lem :
    (s : AuthStore) (o : Option String) (node_id : String)
    → (unless_revoked s o ≡ some node_id) ↔ ((o ≡ some node_id) × is_node_revoked node_id s ≡ false)
unfolding unless_revoked
unless_revoked_lem s none node_id = (λ h. absurd (cc h), λ (e, r). absurd (cc e))
unless_revoked_lem s (some n) node_id = ground arith

-- What a credential `t` must be to act as the node `node_id`.
abbrev pub Grants : Platform → Authenticator → String → String → Type 0
Grants P a node_id t =
    (a.reusable_token ≡ some t) ⊎ ((t ≡ node_token P a.store node_id) × IsNamed node_id)

module _ (P : Platform) (a : Authenticator) where
  valid_node_iff :
      (t node_id : String)
      → (same_text (valid_node P a (some t)) (some node_id) ≡ true) ↔ (
          (t ≡ node_token P a.store node_id)
          × IsNamed node_id
          × is_node_revoked node_id a.store ≡ false)
  unfolding valid_node
  valid_node_iff t node_id =
      let named = node_from_token P a.store t in
      (
        λ h.
            let (u, e, f) = (same_text_iff (unless_revoked a.store named) (some node_id)).0 h in
            let (x, r) = (unless_revoked_lem a.store named node_id).0 (e ∙ sym f) in
            let (y, n) = (node_from_token_iff P a.store t node_id).0 x in (y, n, r),
        λ (f, n, r).
            let x = (node_from_token_iff P a.store t node_id).1 (f, n) in
            (same_text_iff (unless_revoked a.store named) (some node_id)).1
              (node_id, (unless_revoked_lem a.store named node_id).1 (x, r), refl),
      )

  is_reusable_iff : (t : String) → (is_reusable a (some t) ≡ true) ↔ (a.reusable_token ≡ some t)
  unfolding is_reusable
  is_reusable_iff t = (
    λ h. let (u, e, f) = (same_text_iff (some t) a.reusable_token).0 h in f ∙ sym e,
    λ e. (same_text_iff (some t) a.reusable_token).1 (t, refl, e),
  )

  may_act_iff :
      (token : Option String) (node_id : String)
      → is_node_revoked node_id a.store ≡ false
      → ((is_reusable a token || same_text (valid_node P a token) (some node_id)) ≡ true)
        ↔ ((t : String) × (token ≡ some t) × Grants P a node_id t)
  unfolding is_reusable valid_node same_text
  may_act_iff none node_id r = (λ h. absurd (cc h), λ (t, e, g). absurd (cc e))
  may_act_iff (some t) node_id r = (
    λ h. (
      t,
      refl,
      elim (Bool-cases (is_reusable a (some t))) [
        | inl e ↦ inl ((is_reusable_iff t).0 e)
        | inr e ↦ let (y, n, z) = (valid_node_iff t node_id).0 (ground (arith, h, e)) in inr (y, n)
      ],
    ),
    λ (u, e, g). elim g [
      | inl f ↦ ground (arith, (is_reusable_iff t).1 (f ∙ sym e))
      | inr (f, n) ↦ ground (arith, (valid_node_iff t node_id).1 (Option-inj t u e ∙ f, n, r))
    ],
  )

  -- A caller may act as a node, with a heartbeat or with metrics, just where the node is not revoked
  -- and either authentication is off or the call has a bearer credential that is the reusable token of
  -- the fleet or the very token issued to that node, whose id is then not empty and has no dot.
  pub may_act_as_iff :
      (authorization : Option String) (node_id : String)
      → (may_act_as P authorization node_id a ≡ true) ↔ (
          (is_node_revoked node_id a.store ≡ false)
          × ((a.enforced ≡ false)
              ⊎ ((t : String) × (bearer P authorization ≡ some t) × Grants P a node_id t)))
  unfolding may_act_as
  may_act_as_iff authorization node_id = (
    λ h.
        let r : is_node_revoked node_id a.store ≡ false = ground (arith, h) in
        (
          r,
          elim (Bool-cases a.enforced) [
            | inr e ↦ inl e
            | inl e ↦
                inr ((may_act_iff (bearer P authorization) node_id r).0 (ground (arith, h, e)))
          ],
        ),
    λ (r, g). elim g [
      | inl e ↦ ground (arith, r, e)
      | inr x ↦ ground (arith, r, (may_act_iff (bearer P authorization) node_id r).1 x)
    ],
  )

  join_with-refused :
      (now : ℕ) (token : Option String)
      → (join_with P true now token a).1 ≡ false
      → (join_with P true now token a).0 ≡ a
  unfolding join_with check_join_token
  join_with-refused now none h = refl
  join_with-refused now (some t) h = ground (arith, h)

  -- A registration that the authenticator refuses spends no use of a join token and changes nothing
  -- else of its state.
  pub may_register-refused :
      (authorization : Option String) (node_id : String) (now : ℕ)
      → (may_register P authorization node_id now a).1 ≡ false
      → (may_register P authorization node_id now a).0 ≡ a
  unfolding may_register
  may_register-refused authorization node_id now h =
      ground (arith, h, join_with-refused now (bearer P authorization))
