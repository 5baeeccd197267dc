-- ===== src/Manager/Credentials/Keys.antt =====
-- Client API keys that the manager's operator revoked.
use Prim.Native.String.{◌++◌ as ◌++ₛ◌}
use oumigo.Prelude.{
  ℕ, ◌≡◌, ◌≢◌, refl, sym, ap, ◌∙◌, String, Bool, true, false, ◌&&◌, ◌||◌, not, Option, none, some,
  List, [], ◌∷◌, ◌++◌, map, if◌then◌else◌, ◌==ₛ◌, ==ₛ_iff, any, is_some, arith, Bool-cases, inl,
  inr,
}
use oumigo.Manager.Credentials.{
  Platform, AuthStore, ApiKey, check_api_key, find_key, revoke_api_key, create_api_key,
  create_join_token, check_join_token, revoke_join_token, revoke_node, unrevoke_node, after_prefix,
  key_prefix,
}
use oumigo.Manager.Credentials.Calls.{
  AuthCall, mints, checks, revokes_token, issues_key, revokes_key, revokes_node, restores_node,
  auth_step, auth_run, created,
}

-- The key `id` is there, and each row of it is revoked.
taken : String → List ApiKey → Bool
taken id rs = any (λ r. r.id ==ₛ id) rs

all_revoked : String → List ApiKey → Bool
all_revoked id [] = true
all_revoked id (r ∷ rs) = (not (r.id ==ₛ id) || r.revoked) && all_revoked id rs

record IsRevoked (id : String) (s : AuthStore) : Type 0 where
  there : taken id s.api_keys ≡ true
  revoked : all_revoked id s.api_keys ≡ true

same-IsRevoked :
    (id : String) (s t : AuthStore) → s.api_keys ≡ t.api_keys → IsRevoked id s → IsRevoked id t
same-IsRevoked id s t e i = record {
  there = ap (taken id) (sym e) ∙ i.there;
  revoked = ap (all_revoked id) (sym e) ∙ i.revoked;
}

revoke-row :
    (id j : String) (rs : List ApiKey)
    → let rs' = map (λ r. if r.id ==ₛ j then record r { revoked = true } else r) rs in
      (taken id rs' ≡ taken id rs)
      × (all_revoked id rs ≡ true → all_revoked id rs' ≡ true)
      × all_revoked j rs' ≡ true
unfolding taken all_revoked
revoke-row id j [] = (refl, λ h. h, refl)
revoke-row id j (r ∷ rs) =
    let (a, b, c) = revoke-row id j rs in
    (ground (arith, a), λ h. ground (arith, h, b), ground (arith, c))

append-row :
    (id : String) (rs : List ApiKey) (q : ApiKey)
    → (q.id ==ₛ id) ≡ false
    → (taken id (rs ++ q ∷ []) ≡ taken id rs) × (all_revoked id (rs ++ q ∷ []) ≡ all_revoked id rs)
unfolding taken all_revoked
append-row id [] q e = (ground (arith, e), ground (arith, e))
append-row id (r ∷ rs) q e =
    let (a, b) = append-row id rs q e in (ground (arith, a), ground (arith, b))

-- An insertion that passes the PRIMARY KEY has another id.
taken-other :
    (id j g : String) (rs : List ApiKey)
    → taken id rs ≡ true
    → any (λ r. r.id ==ₛ j || r.key_hash ==ₛ g) rs ≡ false
    → (j ==ₛ id) ≡ false
unfolding taken
taken-other id j g [] h e = absurd (cc h)
taken-other id j g (r ∷ rs) h e =
    ground (arith, h, e, ==ₛ_iff r.id id, ==ₛ_iff r.id j, ==ₛ_iff j id, taken-other id j g rs)

find_key_lem :
    (h id : String) (rs : List ApiKey) → all_revoked id rs ≡ true → find_key h rs ≢ some id
unfolding all_revoked find_key
find_key_lem h id [] e f = absurd (cc f)
find_key_lem h id (r ∷ rs) e f = ground (arith, e, f, ==ₛ_iff r.id id, find_key_lem h id rs)

module _ (P : Platform) where
  look_lem :
      (token : String) (consume : Bool) (now : ℕ) (s : AuthStore)
      → s.api_keys ≡ (check_join_token P token consume now s).0.api_keys
  unfolding check_join_token
  look_lem token consume now s = ground arith

  mint_lem :
      (random id : String) (now : ℕ) (ttl uses : Option ℕ) (label : Option String) (s : AuthStore)
      → s.api_keys ≡ (created s (create_join_token P random id now ttl uses label s)).api_keys
  unfolding create_join_token
  mint_lem random id now ttl uses label s = ground arith

  issue-IsRevoked :
      (k random j : String) (now : ℕ) (label : Option String) (s : AuthStore)
      → IsRevoked k s
      → IsRevoked k (created s (create_api_key P random j now label s))
  unfolding create_api_key
  issue-IsRevoked k random j now label s i =
      let g = P.sha256 (key_prefix ++ₛ random) in
      elim (Bool-cases (any (λ r. r.id ==ₛ j || r.key_hash ==ₛ g) s.api_keys)) [
        | inl a ↦ rw a i
        | inr a ↦ rw a (
            let (x, y) = append-row k s.api_keys _ (taken-other k j g s.api_keys i.there a) in
            record { there = x ∙ i.there; revoked = y ∙ i.revoked })
      ]

  step-IsRevoked :
      (id : String) (s : AuthStore) (c : AuthCall) → IsRevoked id s → IsRevoked id (auth_step P s c)
  step-IsRevoked id s (mints random j now ttl uses label) i =
      same-IsRevoked id s _ (mint_lem random j now ttl uses label s) i
  step-IsRevoked id s (checks token consume now) i =
      same-IsRevoked id s _ (look_lem token consume now s) i
  step-IsRevoked id s (revokes_token j) i =
      same-IsRevoked id s _ (unfold revoke_join_token in refl) i
  step-IsRevoked id s (issues_key random j now label) i = issue-IsRevoked id random j now label s i
  step-IsRevoked id s (revokes_key j) i =
      let (a, b, c) = revoke-row id j s.api_keys in
      unfold revoke_api_key in record { there = a ∙ i.there; revoked = b i.revoked }
  step-IsRevoked id s (revokes_node n now) i = same-IsRevoked id s _ (unfold revoke_node in refl) i
  step-IsRevoked id s (restores_node n) i = same-IsRevoked id s _ (unfold unrevoke_node in refl) i

  run-IsRevoked :
      (id : String) (s : AuthStore) (cs : List AuthCall)
      → IsRevoked id s
      → IsRevoked id (auth_run P s cs)
  unfolding auth_run
  run-IsRevoked id s [] i = i
  run-IsRevoked id s (c ∷ cs) i = run-IsRevoked id (auth_step P s c) cs (step-IsRevoked id s c i)

  check_api_key_lem :
      (id : String) (s : AuthStore) (key : Option String)
      → IsRevoked id s
      → check_api_key P key s ≢ some id
  unfolding check_api_key
  check_api_key_lem id s none i = λ e. absurd (cc e)
  check_api_key_lem id s (some key) i = elim (Bool-cases (is_some (after_prefix key_prefix key))) [
    | inl a ↦ rw a (find_key_lem (P.sha256 key) id s.api_keys i.revoked)
    | inr a ↦ rw a (λ e. absurd (cc e))
  ]

  -- A client API key that the operator revoked, of an id that is there, is never valid again, whatever
  -- calls of the manager and of its command line follow: no credential is answered with its id.
  pub revoked_key-stays :
      (id : String) (s : AuthStore) (cs : List AuthCall) (key : Option String)
      → (revoke_api_key id s).1 ≡ true
      → check_api_key P key (auth_run P (revoke_api_key id s).0 cs) ≢ some id
  unfolding revoke_api_key taken
  revoked_key-stays id s cs key h =
      let (a, b, c) = revoke-row id id s.api_keys in
      check_api_key_lem id _ key (run-IsRevoked id _ cs (record { there = a ∙ h; revoked = c }))
