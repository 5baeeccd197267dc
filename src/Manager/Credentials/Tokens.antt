-- ===== src/Manager/Credentials/Tokens.antt =====
-- Node tokens: what `node_token` issues and `node_from_token` accepts.
use Prim.Native.Char.{Char, code}
use Prim.Native.String.append
use Prim.Native.String.{◌∷◌ as ◌∷ₛ◌, [] as []ₛ, ◌++◌ as ◌++ₛ◌}
use text.Mathlib.TextEquality.{Char-path}
use oumigo.Prelude.{
  ℕ, ◌≡◌, ◌≢◌, refl, sym, ap, ◌∙◌, subst, String, true, false, ◌||◌, not, none, some, ◌⊎◌, inl, inr,
  ◌↔◌, ◌==◌, ==_iff, ◌==ₛ◌, ==ₛ_iff, ==ₛ_refl, ==ₛ_of_ne, Bool-cases, Option-cases, arith,
}
use oumigo.Manager.Credentials.{
  Platform, AuthStore, after_prefix, partition, node_prefix, mac, read_token, signed, node_token,
  node_from_token,
}

-- No character of the text has the code `s`.
abbrev Lacks : ℕ → String → Type 0
Lacks s []ₛ = Unit
Lacks s (c ∷ₛ t) = ((code c == s) ≡ false) × Lacks s t

after_prefix-append : (p t : String) → after_prefix p (p ++ₛ t) ≡ some t
unfolding after_prefix
after_prefix-append []ₛ t = rw (append.nil t) refl
after_prefix-append (c ∷ₛ p) t =
    rw (append.cons c p t, (==_iff (code c) (code c)).1 refl) (after_prefix-append p t)

pub Option-inj : (s t : String) → some s ≡ some t → s ≡ t
Option-inj s t e = ground (arith, e)

after_prefix_ne :
    (c d : Char) (p t : String) → (code c == code d) ≡ false → after_prefix (c ∷ₛ p) (d ∷ₛ t) ≡ none
unfolding after_prefix
after_prefix_ne c d p t q = rw q refl

after_prefix_eq :
    (c d : Char) (p t : String)
    → (code c == code d) ≡ true
    → after_prefix (c ∷ₛ p) (d ∷ₛ t) ≡ after_prefix p t
unfolding after_prefix
after_prefix_eq c d p t q = rw q refl

after_prefix-some : (p t r : String) → after_prefix p t ≡ some r → t ≡ p ++ₛ r
unfolding after_prefix
after_prefix-some []ₛ t r e = rw (append.nil r) (Option-inj t r e)
after_prefix-some (c ∷ₛ p) []ₛ r e = absurd (cc e)
after_prefix-some (c ∷ₛ p) (d ∷ₛ t) r e = elim (Bool-cases (code c == code d)) [
  | inl q ↦
      rw (append.cons c p r, Char-path c d ((==_iff _ _).0 q))
        (ap (λ u. d ∷ₛ u) (after_prefix-some p t r (sym (after_prefix_eq c d p t q) ∙ e)))
  | inr q ↦ absurd (cc (sym (after_prefix_ne c d p t q) ∙ e))
]

partition-append :
    (s : ℕ) (before after : String) (c : Char)
    → code c ≡ s
    → Lacks s before
    → partition s (before ++ₛ (c ∷ₛ after)) ≡ (before, after)
unfolding partition
partition-append s []ₛ after c e l = rw (append.nil (c ∷ₛ after), (==_iff (code c) s).1 e) refl
partition-append s (d ∷ₛ before) after c e l =
    rw (append.cons d before (c ∷ₛ after), l.0, partition-append s before after c e l.1) refl

-- What a partition gives: the text before, which lacks the separator, and the rest behind it, which
-- is empty where there is no separator.
abbrev IsSplit : ℕ → String → String × String → Type 0
IsSplit s t (before, after) =
    Lacks s before × ((after ≡ "") ⊎ ((c : Char) × (code c ≡ s) × (t ≡ before ++ₛ (c ∷ₛ after))))

extend-IsSplit :
    (s : ℕ) (c : Char) (t : String) (r : String × String)
    → (code c == s) ≡ false
    → IsSplit s t r
    → IsSplit s (c ∷ₛ t) (c ∷ₛ r.0, r.1)
extend-IsSplit s c t (before, after) e (l, inl h) = ((e, l), inl h)
extend-IsSplit s c t (before, after) e (l, inr (d, q, h)) =
    ((e, l), inr (d, q, rw (append.cons c before (d ∷ₛ after)) (ap (λ u. c ∷ₛ u) h)))

partition-IsSplit : (s : ℕ) (t : String) → IsSplit s t (partition s t)
unfolding partition
partition-IsSplit s []ₛ = (tt, inl refl)
partition-IsSplit s (c ∷ₛ t) = elim (Bool-cases (code c == s)) [
  | inl e ↦ rw e (tt, inr (c, (==_iff (code c) s).0 e, sym (append.nil (c ∷ₛ t))))
  | inr e ↦ rw e (extend-IsSplit s c t (partition s t) e (partition-IsSplit s t))
]

-- A node id that a token can carry.
abbrev pub IsNamed : String → Type 0
IsNamed node_id = (node_id ≢ "") × Lacks 46 node_id

dot_append : (m : String) → "." ++ₛ m ≡ "." ∷ₛ m
dot_append m = append.cons "." "" m ∙ ap (λ t. "." ∷ₛ t) (append.nil m)

module _ (P : Platform) (s : AuthStore) where
  signed_lem :
      (node_id : String)
      → node_id ≢ ""
      → signed P s (node_id, mac P s "node" node_id) ≡ some node_id
  unfolding signed
  signed_lem node_id n = rw (==ₛ_of_ne node_id "" n, ==ₛ_refl (mac P s "node" node_id)) refl

  node_from_token-node_token :
      (node_id : String)
      → IsNamed node_id
      → node_from_token P s (node_token P s node_id) ≡ some node_id
  unfolding node_from_token node_token read_token
  node_from_token-node_token node_id (n, l) =
      let m = mac P s "node" node_id in
      ap (read_token P s) (after_prefix-append node_prefix (node_id ++ₛ ("." ++ₛ m)))
      ∙ ap (λ t. signed P s (partition 46 (node_id ++ₛ t))) (dot_append m)
      ∙ ap (signed P s) (partition-append 46 node_id m "." refl l)
      ∙ signed_lem node_id n

  signed-some :
      (before after node_id : String)
      → signed P s (before, after) ≡ some node_id
      → (before ≡ node_id) × (node_id ≢ "") × (after ≡ mac P s "node" node_id)
  unfolding signed
  signed-some before after node_id e =
      elim (Bool-cases (before ==ₛ "" || not (after ==ₛ mac P s "node" before))) [
        | inl h ↦ absurd (ground (arith, e, h))
        | inr h ↦
            let same : before ≡ node_id = ground (arith, e, h) in
            (
              same,
              λ z. ground (arith, h, same, z, ==ₛ_iff before ""),
              ground (arith, h, same, ==ₛ_iff after (mac P s "node" before)),
            )
      ]

  split_token :
      (rest node_id : String)
      → signed P s (partition 46 rest) ≡ some node_id
      → (rest ≡ node_id ++ₛ ("." ++ₛ mac P s "node" node_id)) × IsNamed node_id
  unfolding mac
  split_token rest node_id e =
      let (same, n, m) = signed-some (partition 46 rest).0 (partition 46 rest).1 node_id e in
      let (lacks, ending) = partition-IsSplit 46 rest in
      (
        elim ending [
          | inl h ↦ absurd (P.hmac-ne s.secret _ (sym m ∙ h))
          | inr (c, q, h) ↦ whole c q h same m
        ],
        (n, subst (Lacks 46) same lacks),
      )
    where
      whole :
          (c : Char)
          → code c ≡ 46
          → rest ≡ (partition 46 rest).0 ++ₛ (c ∷ₛ (partition 46 rest).1)
          → (partition 46 rest).0 ≡ node_id
          → (partition 46 rest).1 ≡ mac P s "node" node_id
          → rest ≡ node_id ++ₛ ("." ++ₛ mac P s "node" node_id)
      whole c q h a b =
          h
          ∙ ap (λ t. t ++ₛ (c ∷ₛ (partition 46 rest).1)) a
          ∙ ap (λ t. node_id ++ₛ (c ∷ₛ t)) b
          ∙ ap (λ d. node_id ++ₛ (d ∷ₛ mac P s "node" node_id)) (Char-path c "." q)
          ∙ ap (λ t. node_id ++ₛ t) (sym (dot_append (mac P s "node" node_id)))

  node_from_token-some :
      (token node_id : String)
      → node_from_token P s token ≡ some node_id
      → (token ≡ node_token P s node_id) × IsNamed node_id
  unfolding node_from_token node_token read_token
  node_from_token-some token node_id e = elim (Option-cases (after_prefix node_prefix token)) [
    | inl q ↦ absurd (cc (sym e ∙ ap (read_token P s) q))
    | inr (rest, q) ↦
        let (h, n) = split_token rest node_id (sym (ap (read_token P s) q) ∙ e) in
        (after_prefix-some node_prefix token rest q ∙ ap (λ t. node_prefix ++ₛ t) h, n)
  ]

  -- A token names a node just where it is the one that is issued for the node, and the node's id is not
  -- empty and has no dot.
  pub node_from_token_iff :
      (token node_id : String)
      → (node_from_token P s token ≡ some node_id)
        ↔ ((token ≡ node_token P s node_id) × IsNamed node_id)
  node_from_token_iff token node_id = (
    node_from_token-some token node_id,
    λ (e, n). ap (node_from_token P s) e ∙ node_from_token-node_token node_id n,
  )
