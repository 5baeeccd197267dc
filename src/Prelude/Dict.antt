-- ===== src/Prelude/Dict.antt =====
-- Python's `dict` with text keys: the entries in the order of their first insertion. An
-- assignment to a key that is there keeps its place, any other goes to the end.
use Prim.Native.String.{String}
use mathlib.Core.Path.{◌≡◌, refl}
use mathlib.Core.Logic.{◌≢◌, inl, inr}
use mathlib.Core.Option.{Option, none, some}
use mathlib.Core.List.{List, [], ◌∷◌, Memᴰ}
use native.Mathlib.Omega.{arith}
use oumigo.Prelude.Tests.{if◌then◌else◌, Bool-cases}
use oumigo.Prelude.Texts.{◌==ₛ◌, ==ₛ_iff, ==ₛ_refl, ==ₛ_of_ne}

abbrev pub Dict {ℓ} : Type ℓ → Type ℓ
Dict V = List (String × V)

module _ {ℓ} {V : Type ℓ} where
  -- `d.get(k)`.
  unfoldable pub get : String → Dict V → Option V
  get k [] = none
  get k ((j, v) ∷ d) = if j ==ₛ k then some v else get k d

  -- `d[k] = v`.
  unfoldable pub put : String → V → Dict V → Dict V
  put k v [] = (k, v) ∷ []
  put k v ((j, w) ∷ d) = if j ==ₛ k then (j, v) ∷ d else (j, w) ∷ put k v d

  -- `del d[k]`, `d.pop(k, None)`.
  pub remove : String → Dict V → Dict V
  remove k [] = []
  remove k ((j, w) ∷ d) = if j ==ₛ k then d else (j, w) ∷ remove k d

  -- `list(d.values())`.
  unfoldable pub values : Dict V → List V
  values [] = []
  values ((k, v) ∷ d) = v ∷ values d

  -- No key stands twice.
  abbrev pub IsDict : Dict V → Type ℓ
  IsDict [] = Unit
  IsDict ((k, v) ∷ d) = (get k d ≡ none) × IsDict d

  pub get-put :
      (k j : String) (v : V) (d : Dict V)
      → get j (put k v d) ≡ (if k ==ₛ j then some v else get j d)
  unfolding get put
  get-put k j v [] = refl
  get-put k j v ((i, w) ∷ d) =
      ground (arith, ==ₛ_iff k j, ==ₛ_iff i k, ==ₛ_iff i j, get-put k j v d)

  pub get-put_self : (k : String) (v : V) (d : Dict V) → get k (put k v d) ≡ some v
  get-put_self k v d = rw (get-put k k v d, ==ₛ_refl k)

  get-put_ne : (k j : String) (v : V) (d : Dict V) → k ≢ j → get j (put k v d) ≡ get j d
  get-put_ne k j v d h = rw (get-put k j v d, ==ₛ_of_ne k j h)

  pub get-remove :
      (k j : String) (d : Dict V)
      → IsDict d
      → get j (remove k d) ≡ (if k ==ₛ j then none else get j d)
  unfolding get remove
  get-remove k j [] u = ground arith
  get-remove k j ((i, w) ∷ d) u =
      ground (arith, ==ₛ_iff k j, ==ₛ_iff i k, ==ₛ_iff i j, get-remove k j d u.1)

  pub put-IsDict : (k : String) (v : V) (d : Dict V) → IsDict d → IsDict (put k v d)
  unfolding get put
  put-IsDict k v [] u = (refl, tt)
  put-IsDict k v ((i, w) ∷ d) u = elim (Bool-cases (i ==ₛ k)) [
    | inl e ↦ rw e u
    | inr e ↦
        rw e (rw (get-put k i v d) (ground (arith, ==ₛ_iff k i, ==ₛ_iff i k)), put-IsDict k v d u.1)
  ]

  pub remove-IsDict : (k : String) (d : Dict V) → IsDict d → IsDict (remove k d)
  unfolding get remove
  remove-IsDict k [] u = tt
  remove-IsDict k ((i, w) ∷ d) u = elim (Bool-cases (i ==ₛ k)) [
    | inl e ↦ rw e u.1
    | inr e ↦ rw e (
      rw (get-remove k i d u.1) (ground (arith, ==ₛ_iff k i, ==ₛ_iff i k)),
      remove-IsDict k d u.1,
    )
  ]

  -- A value stands under some key.
  pub values-get :
      (d : Dict V) (v : V) → IsDict d → Memᴰ v (values d) → (k : String) × (get k d ≡ some v)
  unfolding get values
  values-get [] v u m = elim m [ ]
  values-get ((k, w) ∷ d) v u (Memᴰ.head e) = (k, rw (==ₛ_refl k, e))
  values-get ((k, w) ∷ d) v u (Memᴰ.tail m) =
      let (j, h) = values-get d v u.1 m in (j, ground (arith, ==ₛ_iff k j))
