-- ===== src/Manager/Credentials/Uses.antt =====
-- How often a minted join token may be used.
use Prim.Native.String.{◌++◌ as ◌++ₛ◌}
use oumigo.Prelude.{
  ℕ, ◌+◌, ◌≤◌, ◌≡◌, refl, sym, ap, ◌∙◌, subst, String, Bool, true, false, ◌&&◌, ◌||◌, not, Option,
  none, some, List, [], ◌∷◌, ◌++◌, map, if◌then◌else◌, ◌==ₛ◌, ==ₛ_iff, any, is_some, arith,
  Bool-cases, inl, inr,
}
use oumigo.Manager.Credentials.{
  Platform, AuthStore, JoinToken, usable, spend, limited, unlimited, check_join_token,
  create_join_token, revoke_join_token, after_prefix, join_prefix, create_api_key, revoke_api_key,
  revoke_node, unrevoke_node,
}
use oumigo.Manager.Credentials.Calls.{
  AuthCall, mints, checks, revokes_token, issues_key, revokes_key, revokes_node, restores_node,
  auth_step, created,
}

-- The uses left of the tokens whose hash is `h`.
abbrev uses_of : Option ℕ → ℕ
uses_of none = 0
uses_of (some n) = n

pub left : String → List JoinToken → ℕ
left h [] = 0
left h (r ∷ rs) = (if r.token_hash ==ₛ h then uses_of r.uses_left else 0) + left h rs

-- Every token whose hash is `h` has a limit; and there is one.
unfoldable pub has : String → List JoinToken → Bool
has h [] = false
has h (r ∷ rs) = r.token_hash ==ₛ h || has h rs

unfoldable pub all_limited : String → List JoinToken → Bool
all_limited h [] = true
all_limited h (r ∷ rs) = (not (r.token_hash ==ₛ h) || is_some r.uses_left) && all_limited h rs

module _ (P : Platform) where
  spend_if : ℕ → String → JoinToken → JoinToken
  spend_if now h r = if limited P now h r then spend r else r

  -- To spend a use of the tokens with another hash, or none, changes nothing here.
  left-spend :
      (now : ℕ) (g h : String) (rs : List JoinToken)
      → left h (map (λ r. if limited P now g r then spend r else r) rs)
          + (if any (limited P now g) rs && g ==ₛ h then 1 else 0)
        ≤ left h rs
  unfolding left usable
  left-spend now g h [] = omega arith
  left-spend now g h (r ∷ rs) =
      ground
        (arith, left-spend now g h rs, ==ₛ_iff r.token_hash g, ==ₛ_iff r.token_hash h, ==ₛ_iff g h)

  has-spend :
      (now : ℕ) (g h : String) (rs : List JoinToken)
      → has h (map (λ r. if limited P now g r then spend r else r) rs) ≡ has h rs
  unfolding has usable
  has-spend now g h [] = refl
  has-spend now g h (r ∷ rs) = ground (arith, has-spend now g h rs)

  all_limited-spend :
      (now : ℕ) (g h : String) (rs : List JoinToken)
      → all_limited h (map (λ r. if limited P now g r then spend r else r) rs) ≡ all_limited h rs
  unfolding all_limited usable
  all_limited-spend now g h [] = refl
  all_limited-spend now g h (r ∷ rs) = ground (arith, all_limited-spend now g h rs)

  -- A token that is limited is in no row without a limit.
  limited_no_unlimited :
      (now : ℕ) (h : String) (rs : List JoinToken)
      → all_limited h rs ≡ true
      → any (unlimited P now h) rs ≡ false
  unfolding all_limited usable
  limited_no_unlimited now h [] e = refl
  limited_no_unlimited now h (r ∷ rs) e = ground (arith, limited_no_unlimited now h rs, e)

-- Where the tokens with the hash `h` are all limited, and one is there.
pub record IsLimited (h : String) (s : AuthStore) : Type 0 where
  pub present : has h s.join_tokens ≡ true
  pub all : all_limited h s.join_tokens ≡ true

-- What a step may do to them, when `b` tells that it admitted their holder.
record Spends (h : String) (s t : AuthStore) (b : Bool) : Type 0 where
  limits : IsLimited h t
  less : left h t.join_tokens + (if b then 1 else 0) ≤ left h s.join_tokens

same-Spends :
    (h : String) (s t : AuthStore)
    → s.join_tokens ≡ t.join_tokens
    → IsLimited h s
    → Spends h s t false
same-Spends h s t e l = record {
  limits = record {
    present = ap (has h) (sym e) ∙ l.present;
    all = ap (all_limited h) (sym e) ∙ l.all;
  };
  less = omega (arith, ap (left h) e);
}

revoke-row :
    (h id : String) (rs : List JoinToken)
    → let rs' = map (λ r. if r.id ==ₛ id then record r { revoked = true } else r) rs in
      (left h rs' ≡ left h rs) × (has h rs' ≡ has h rs) × (all_limited h rs' ≡ all_limited h rs)
unfolding left has all_limited
revoke-row h id [] = (refl, refl, refl)
revoke-row h id (r ∷ rs) = ground (arith, revoke-row h id rs)

append-row :
    (h : String) (rs : List JoinToken) (q : JoinToken)
    → (q.token_hash ==ₛ h) ≡ false
    → (left h (rs ++ q ∷ []) ≡ left h rs)
      × (has h (rs ++ q ∷ []) ≡ has h rs)
      × (all_limited h (rs ++ q ∷ []) ≡ all_limited h rs)
unfolding left has all_limited
append-row h [] q e = ground (arith, e)
append-row h (r ∷ rs) q e = ground (arith, append-row h rs q e)

taken-has :
    (h id : String) (rs : List JoinToken)
    → has h rs ≡ true
    → any (λ r. r.id ==ₛ id || r.token_hash ==ₛ h) rs ≡ true
unfolding has
taken-has h id [] e = e
taken-has h id (r ∷ rs) e = ground (arith, taken-has h id rs, e)

module _ (P : Platform) where
  -- Whether a call is a registration with a token of the hash `h`, and is let in.
  abbrev admits : String → AuthStore → AuthCall → Bool
  admits h s (checks token true now) =
      P.sha256 token ==ₛ h && (check_join_token P token true now s).1
  admits h s _ = false

  spent-Spends :
      (h g : String) (now : ℕ) (s : AuthStore)
      → any (limited P now g) s.join_tokens ≡ true
      → IsLimited h s
      → Spends h s
          (record s {
            join_tokens = map (λ r. if limited P now g r then spend r else r) s.join_tokens;
          })
          (g ==ₛ h && true)
  spent-Spends h g now s a l = record {
    limits = record {
      present = has-spend P now g h s.join_tokens ∙ l.present;
      all = all_limited-spend P now g h s.join_tokens ∙ l.all;
    };
    less = ground (arith, left-spend P now g h s.join_tokens, a);
  }

  kept-Spends :
      (h g : String) (now : ℕ) (s : AuthStore)
      → IsLimited h s
      → Spends h s s (g ==ₛ h && any (unlimited P now g) s.join_tokens)
  kept-Spends h g now s l = subst (Spends h s s) (sym none_let_in) (same-Spends h s s refl l)
    where
      none_let_in : (g ==ₛ h && any (unlimited P now g) s.join_tokens) ≡ false
      none_let_in = elim (Bool-cases (g ==ₛ h)) [
        | inl e ↦ rw (e, (==ₛ_iff g h).0 e) (limited_no_unlimited P now h s.join_tokens l.all)
        | inr e ↦ rw e refl
      ]

  check-Spends :
      (h token : String) (now : ℕ) (s : AuthStore)
      → IsLimited h s
      → Spends h s
          (check_join_token P token true now s).0
          (P.sha256 token ==ₛ h && (check_join_token P token true now s).1)
  unfolding check_join_token
  check-Spends h token now s l =
      let g = P.sha256 token in
      elim (Bool-cases (is_some (after_prefix join_prefix token))) [
        | inr p ↦ rw p (ground (arith, l.present, l.all))
        | inl p ↦ elim (Bool-cases (any (limited P now g) s.join_tokens)) [
          | inl a ↦ rw (p, a) (spent-Spends h g now s a l)
          | inr a ↦ rw (p, a) (kept-Spends h g now s l)
        ]
      ]

  added-Spends :
      (h : String) (s : AuthStore) (q : JoinToken)
      → (q.token_hash ==ₛ h) ≡ false
      → IsLimited h s
      → Spends h s (record s { join_tokens = s.join_tokens ++ q ∷ [] }) false
  added-Spends h s q e l =
      let (a, b, c) = append-row h s.join_tokens q e in
      record {
        limits = record { present = b ∙ l.present; all = c ∙ l.all };
        less = omega (arith, a);
      }

  revoke-Spends :
      (h id : String) (s : AuthStore) → IsLimited h s → Spends h s (revoke_join_token id s).0 false
  unfolding revoke_join_token
  revoke-Spends h id s l =
      let (a, b, c) = revoke-row h id s.join_tokens in
      record {
        limits = record { present = b ∙ l.present; all = c ∙ l.all };
        less = omega (arith, a);
      }

  look_lem :
      (token : String) (now : ℕ) (s : AuthStore)
      → s.join_tokens ≡ (check_join_token P token false now s).0.join_tokens
  unfolding check_join_token
  look_lem token now s = ground arith

  issue_lem :
      (random id : String) (now : ℕ) (label : Option String) (s : AuthStore)
      → s.join_tokens ≡ (created s (create_api_key P random id now label s)).join_tokens
  unfolding create_api_key
  issue_lem random id now label s = ground arith

  mint-Spends :
      (h random id : String) (now : ℕ) (ttl uses : Option ℕ) (label : Option String) (s : AuthStore)
      → IsLimited h s
      → Spends h s (created s (create_join_token P random id now ttl uses label s)) false
  unfolding create_join_token
  mint-Spends h random id now ttl uses label s l =
      let g = P.sha256 (join_prefix ++ₛ random) in
      elim (Bool-cases (any (λ r. r.id ==ₛ id || r.token_hash ==ₛ g) s.join_tokens)) [
        | inl a ↦ rw a (same-Spends h s s refl l)
        | inr a ↦ rw a (added-Spends h s _ (fresh g a) l)
      ]
    where
      fresh :
          (g : String)
          → any (λ r. r.id ==ₛ id || r.token_hash ==ₛ g) s.join_tokens ≡ false
          → (g ==ₛ h) ≡ false
      fresh g a = elim (Bool-cases (g ==ₛ h)) [
        | inr e ↦ e
        | inl e ↦
            absurd (cc (sym a ∙ taken-has g id s.join_tokens (rw ((==ₛ_iff g h).0 e) l.present)))
      ]

  -- Every call keeps the limits, and takes a use for each registration that it lets in.
  step-Spends :
      (h : String) (s : AuthStore) (c : AuthCall)
      → IsLimited h s
      → Spends h s (auth_step P s c) (admits h s c)
  step-Spends h s (mints random id now ttl uses label) l =
      mint-Spends h random id now ttl uses label s l
  step-Spends h s (checks token true now) l = check-Spends h token now s l
  step-Spends h s (checks token false now) l = same-Spends h s _ (look_lem token now s) l
  step-Spends h s (revokes_token id) l = revoke-Spends h id s l
  step-Spends h s (issues_key random id now label) l =
      same-Spends h s _ (issue_lem random id now label s) l
  step-Spends h s (revokes_key id) l = same-Spends h s _ (unfold revoke_api_key in refl) l
  step-Spends h s (revokes_node n now) l = same-Spends h s _ (unfold revoke_node in refl) l
  step-Spends h s (restores_node n) l = same-Spends h s _ (unfold unrevoke_node in refl) l

  -- How many registrations the calls let in with tokens of the hash `h`.
  unfoldable pub admissions : String → AuthStore → List AuthCall → ℕ
  admissions h s [] = 0
  admissions h s (c ∷ cs) = (if admits h s c then 1 else 0) + admissions h (auth_step P s c) cs

  -- A minted token that is limited to some uses lets in at most as many registrations, whatever calls
  -- of the manager and of its command line come, in any order: more tokens, keys, looks at the token
  -- that do not use it, and revocations.
  pub admissions-le-left :
      (h : String) (s : AuthStore) (cs : List AuthCall)
      → IsLimited h s
      → admissions h s cs ≤ left h s.join_tokens
  unfolding admissions
  admissions-le-left h s [] l = omega arith
  admissions-le-left h s (c ∷ cs) l =
      let x = step-Spends h s c l in
      omega (arith, x.less, admissions-le-left h (auth_step P s c) cs x.limits)
