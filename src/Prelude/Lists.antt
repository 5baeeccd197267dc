-- ===== src/Prelude/Lists.antt =====
-- Lists measured by native numbers, Boolean filters, and predicates that hold of each member.
use Prim.Native.Nat.{ℕ, suc, ◌+◌, ◌≤◌}
use mathlib.Core.Path.{◌≡◌, refl, sym, subst, ap, ◌∙◌}
use mathlib.Core.Logic.{◌⊎◌, inl, inr}
use mathlib.Core.Bool.{Bool, true, false}
use mathlib.Core.List.{List, [], ◌∷◌, ◌++◌, Memᴰ}
use native.Mathlib.Omega.{arith}
use oumigo.Prelude.Tests.{Bool-cases, if◌then◌else◌}

module _ {ℓ} {A : Type ℓ} where
  abbrev pub length : List A → ℕ
  length [] = 0
  length (x ∷ xs) = suc (length xs)

  abbrev pub filter : (A → Bool) → List A → List A
  filter p [] = []
  filter p (x ∷ xs) = if p x then x ∷ filter p xs else filter p xs

  -- `any(p(x) for x in xs)`.
  abbrev pub any : (A → Bool) → List A → Bool
  any p [] = false
  any p (x ∷ xs) = if p x then true else any p xs

  -- A list is empty or has a first entry.
  pub List-cases : (xs : List A) → (xs ≡ []) ⊎ ((x : A) × (r : List A) × (xs ≡ x ∷ r))
  List-cases [] = inl refl
  List-cases (x ∷ r) = inr (x, r, refl)

  pub length-append : (xs ys : List A) → length (xs ++ ys) ≡ length xs + length ys
  length-append [] ys = omega arith
  length-append (x ∷ xs) ys = omega (arith, length-append xs ys)

  length-filter-le : (p : A → Bool) (xs : List A) → length (filter p xs) ≤ length xs
  length-filter-le p [] = omega arith
  length-filter-le p (x ∷ xs) = ground (arith, length-filter-le p xs)

  pub filter-append :
      (p : A → Bool) (xs ys : List A) → filter p (xs ++ ys) ≡ filter p xs ++ filter p ys
  filter-append p [] ys = refl
  filter-append p (x ∷ xs) ys = elim (Bool-cases (p x)) [
    | inl e ↦ rw e (ap (λ r. x ∷ r) (filter-append p xs ys))
    | inr e ↦ rw e (filter-append p xs ys)
  ]

  -- Every member satisfies `P`.
  abbrev pub All {κ} : (A → Type κ) → List A → Type κ
  All P [] = Unit
  All P (x ∷ xs) = P x × All P xs

  pub All-map {κ μ} :
      {P : A → Type κ} {Q : A → Type μ}
      → ((x : A) → P x → Q x)
      → (xs : List A) → All P xs
      → All Q xs
  All-map f [] h = tt
  All-map f (x ∷ xs) h = (f x h.0, All-map f xs h.1)

  pub All-append-left {κ} : (P : A → Type κ) (xs ys : List A) → All P (xs ++ ys) → All P xs
  All-append-left P [] ys h = tt
  All-append-left P (x ∷ xs) ys h = (h.0, All-append-left P xs ys h.1)

  pub All-append-last {κ} : (P : A → Type κ) (xs : List A) (y : A) → All P (xs ++ y ∷ []) → P y
  All-append-last P [] y h = h.0
  All-append-last P (x ∷ xs) y h = All-append-last P xs y h.1

  pub All-append-one {κ} :
      (P : A → Type κ) (xs : List A) {y : A} → All P xs → P y → All P (xs ++ y ∷ [])
  All-append-one P [] h k = (k, tt)
  All-append-one P (x ∷ xs) h k = (h.0, All-append-one P xs h.1 k)

  pub filter-keeps {κ} :
      (P : A → Type κ) (t : A → Bool) (xs : List A) → All P xs → All P (filter t xs)
  filter-keeps P t [] h = tt
  filter-keeps P t (x ∷ xs) h = ground (arith, filter-keeps P t xs h.1, h.0)

  pub All-map₂ {κ μ ν} :
      {P : A → Type κ} {Q : A → Type μ} {R : A → Type ν}
      → ((x : A) → P x → Q x → R x)
      → (xs : List A) → All P xs
      → All Q xs
      → All R xs
  All-map₂ f [] h k = tt
  All-map₂ f (x ∷ xs) h k = (f x h.0 k.0, All-map₂ f xs h.1 k.1)

  All-Memᴰ {κ} : (P : A → Type κ) {a : A} (xs : List A) → All P xs → Memᴰ a xs → P a
  All-Memᴰ P [] h m = elim m [ ]
  All-Memᴰ P (x ∷ xs) h (Memᴰ.head e) = subst P (sym e) h.0
  All-Memᴰ P (x ∷ xs) h (Memᴰ.tail m) = All-Memᴰ P xs h.1 m

  pub filter-All : (p : A → Bool) (xs : List A) → All (λ x. p x ≡ true) (filter p xs)
  filter-All p [] = tt
  filter-All p (x ∷ xs) = ground (arith, filter-All p xs)

  mem-filter_cons :
      (p : A → Bool) (x : A) (xs : List A) {a : A} (b : Bool)
      → p x ≡ b
      → (Memᴰ a (filter p xs) → (p a ≡ true) × Memᴰ a xs)
      → Memᴰ a (if b then x ∷ filter p xs else filter p xs)
      → (p a ≡ true) × Memᴰ a (x ∷ xs)
  mem-filter_cons p x xs true e rest (Memᴰ.head f) = (ap p f ∙ e, Memᴰ.head f)
  mem-filter_cons p x xs true e rest (Memᴰ.tail m) = let (h, m') = rest m in (h, Memᴰ.tail m')
  mem-filter_cons p x xs false e rest m = let (h, m') = rest m in (h, Memᴰ.tail m')

  -- The library's `mem-filter`, for a Boolean test and for membership with its position.
  pub mem-filter :
      (p : A → Bool) (xs : List A) {a : A} → Memᴰ a (filter p xs) → (p a ≡ true) × Memᴰ a xs
  mem-filter p [] m = elim m [ ]
  mem-filter p (x ∷ xs) m = mem-filter_cons p x xs (p x) refl (λ m'. mem-filter p xs m') m

  filter-mem_cons :
      (p : A → Bool) (x : A) (xs : List A) {a : A} (b : Bool)
      → p x ≡ b
      → p a ≡ true
      → (Memᴰ a xs → Memᴰ a (filter p xs))
      → Memᴰ a (x ∷ xs)
      → Memᴰ a (if b then x ∷ filter p xs else filter p xs)
  filter-mem_cons p x xs true e h rest (Memᴰ.head f) = Memᴰ.head f
  filter-mem_cons p x xs true e h rest (Memᴰ.tail m) = Memᴰ.tail (rest m)
  filter-mem_cons p x xs false e h rest (Memᴰ.head f) = absurd (cc (ap p f))
  filter-mem_cons p x xs false e h rest (Memᴰ.tail m) = rest m

  pub filter-mem :
      (p : A → Bool) (xs : List A) {a : A} → p a ≡ true → Memᴰ a xs → Memᴰ a (filter p xs)
  filter-mem p [] h m = elim m [ ]
  filter-mem p (x ∷ xs) h m = filter-mem_cons p x xs (p x) refl h (λ m'. filter-mem p xs h m') m
