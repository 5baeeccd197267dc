-- ===== src/Worker/Metrics/Sublists.antt =====
-- Lists with some entries left out, for the rows of src/oumigo/service/worker/metrics.py.
use oumigo.Prelude.{◌≡◌, refl, sym, ap, subst, List, [], ◌∷◌, ◌++◌, inl, inr, ◌⊎◌, All, append-nil}

-- `xs` is `ys` with some of its entries left out.
abbrev pub IsSub {ℓ} : {A : Type ℓ} → List A → List A → Type ℓ
IsSub xs [] = xs ≡ []
IsSub {A = A} xs (y ∷ ys) = IsSub xs ys ⊎ ((rest : List A) × (xs ≡ y ∷ rest) × IsSub rest ys)

module _ {ℓ} {A : Type ℓ} where
  pub IsSub-refl : (xs : List A) → IsSub xs xs
  IsSub-refl [] = refl
  IsSub-refl (x ∷ xs) = inr (xs, refl, IsSub-refl xs)

  pub IsSub-trans : (xs ys zs : List A) → IsSub xs ys → IsSub ys zs → IsSub xs zs
  IsSub-trans xs ys [] s t = subst (IsSub xs) t s
  IsSub-trans xs ys (z ∷ zs) s (inl t) = inl (IsSub-trans xs ys zs s t)
  IsSub-trans xs ys (z ∷ zs) s (inr (rest, e, t)) = elim (subst (IsSub xs) e s) [
    | inl u ↦ inl (IsSub-trans xs rest zs u t)
    | inr (more, f, u) ↦ inr (more, f, IsSub-trans more rest zs u t)
  ]

  pub IsSub-left : (zs xs ys : List A) → IsSub xs ys → IsSub (zs ++ xs) (zs ++ ys)
  IsSub-left [] xs ys s = s
  IsSub-left (z ∷ zs) xs ys s = inr (zs ++ xs, refl, IsSub-left zs xs ys s)

  pub IsSub-right : (xs ys zs : List A) → IsSub xs ys → IsSub (xs ++ zs) (ys ++ zs)
  IsSub-right xs [] zs s = subst (λ t. IsSub (t ++ zs) zs) (sym s) (IsSub-refl zs)
  IsSub-right xs (y ∷ ys) zs (inl s) = inl (IsSub-right xs ys zs s)
  IsSub-right xs (y ∷ ys) zs (inr (rest, e, s)) =
      inr (rest ++ zs, ap (λ t. t ++ zs) e, IsSub-right rest ys zs s)

  IsSub-nil : (ys : List A) → IsSub [] ys
  IsSub-nil [] = refl
  IsSub-nil (y ∷ ys) = inl (IsSub-nil ys)

  pub IsSub-suffix : (old xs : List A) → IsSub xs (old ++ xs)
  IsSub-suffix [] xs = IsSub-refl xs
  IsSub-suffix (o ∷ old) xs = inl (IsSub-suffix old xs)

  pub IsSub-prefix : (xs new : List A) → IsSub xs (xs ++ new)
  IsSub-prefix xs new =
      subst (λ t. IsSub t (xs ++ new)) (append-nil xs) (IsSub-left xs [] new (IsSub-nil new))

module _ {ℓ κ} {A : Type ℓ} where
  pub All-append-right : (Q : A → Type κ) (xs ys : List A) → All Q (xs ++ ys) → All Q ys
  All-append-right Q [] ys h = h
  All-append-right Q (x ∷ xs) ys h = All-append-right Q xs ys h.1

  pub All-append : (Q : A → Type κ) (xs ys : List A) → All Q xs → All Q ys → All Q (xs ++ ys)
  All-append Q [] ys h k = k
  All-append Q (x ∷ xs) ys h k = (h.0, All-append Q xs ys h.1 k)
