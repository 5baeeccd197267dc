-- ===== src/Worker/Metrics/Rate.antt =====
-- Which sample the request rate is measured from.
use oumigo.Prelude.{
  ◌+◌, ◌↔◌, ◌&&◌, leb, ℕ, ◌-◌, ◌≤◌, ◌≡◌, refl, sym, ap, ◌∙◌, Bool, true, false, Option, none, some,
  List, [], ◌∷◌, ◌++◌, if◌then◌else◌, ltb, arith, Bool-cases, inl, inr, or_else,
}
use oumigo.Worker.Metrics.{Floats, window_max, pop_before, rate_from, update}

module _ {V : Type 0} where
  -- The oldest sample at or after `cutoff`, of all that were taken.
  pub first_since : ℕ → List (ℕ × Option V) → Option (ℕ × V)
  first_since cutoff [] = none
  first_since cutoff ((e, none) ∷ slots) = first_since cutoff slots
  first_since cutoff ((e, some v) ∷ slots) =
      if ltb e cutoff then first_since cutoff slots else some (e, v)

  -- The slots do not go back, from `first` to `last`.
  abbrev pub IsTimed : ℕ → ℕ → List (ℕ × Option V) → Type 0
  IsTimed first last [] = first ≤ last
  IsTimed first last ((t, v) ∷ slots) = (first ≤ t) × IsTimed t last slots

  -- The oldest kept sample at or after `cutoff`.
  kept_since : ℕ → List (ℕ × V) → Option (ℕ × V)
  kept_since cutoff [] = none
  kept_since cutoff ((e, v) ∷ samples) =
      if ltb e cutoff then kept_since cutoff samples else some (e, v)

  IsTimed-le :
      (first last : ℕ) (slots : List (ℕ × Option V)) → IsTimed first last slots → first ≤ last
  IsTimed-le first last [] h = h
  IsTimed-le first last ((t, v) ∷ slots) h = omega (arith, h.0, IsTimed-le t last slots h.1)

  kept_since-append :
      (c e : ℕ) (v : V) (samples : List (ℕ × V))
      → kept_since c (samples ++ (e, v) ∷ [])
        ≡ or_else (kept_since c samples) (if ltb e c then none else some (e, v))
  unfolding kept_since
  kept_since-append c e v [] = ground arith
  kept_since-append c e v ((d, w) ∷ samples) = elim (Bool-cases (ltb d c)) [
    | inl h ↦ rw h (kept_since-append c e v samples)
    | inr h ↦ rw h refl
  ]

  -- The rate against a sample.
  abbrev rate_since : Floats V → ℕ → V → Option (ℕ × V) → Option V
  rate_since F now cumulative none = none
  rate_since F now cumulative (some (e, v)) = rate_from F now cumulative ((e, v) ∷ [])

  module _ (F : Floats V) where
    unfoldable pub tracked : List (ℕ × V) → List (ℕ × Option V) → List (ℕ × V)
    tracked samples [] = samples
    tracked samples ((t, v) ∷ slots) = tracked (update F t v samples).0 slots

    kept_since-pop_before :
        (c d : ℕ) (samples : List (ℕ × V))
        → d ≤ c
        → kept_since c (pop_before F d samples) ≡ kept_since c samples
    unfolding kept_since pop_before
    kept_since-pop_before c d [] h = refl
    kept_since-pop_before c d ((e, v) ∷ samples) h = elim (Bool-cases (ltb e d)) [
      | inr k ↦ rw k refl
      | inl k ↦
          let old : ltb e c ≡ true = ground (arith, k, h) in
          rw (k, old) (kept_since-pop_before c d samples h)
    ]

    rate_from-pop_before :
        (c now : ℕ) (v : V) (samples : List (ℕ × V))
        → rate_from F now v (pop_before F c samples) ≡ rate_since F now v (kept_since c samples)
    unfolding kept_since pop_before rate_from
    rate_from-pop_before c now v [] = refl
    rate_from-pop_before c now v ((e, w) ∷ samples) = elim (Bool-cases (ltb e c)) [
      | inl h ↦ rw h (rate_from-pop_before c now v samples)
      | inr h ↦ rw h refl
    ]

    -- While the samples are as old as the window allows, nothing is missing.
    tracked-first_since :
        (c last first : ℕ) (samples : List (ℕ × V)) (slots : List (ℕ × Option V))
        → IsTimed first last slots
        → last - window_max ≤ c
        → kept_since c (tracked samples slots)
          ≡ or_else (kept_since c samples) (first_since c slots)
    unfolding tracked first_since update
    tracked-first_since c last first samples [] h l = sym (or_else-none (kept_since c samples))
      where
        or_else-none : (o : Option (ℕ × V)) → or_else o none ≡ o
        or_else-none none = refl
        or_else-none (some x) = refl
    tracked-first_since c last first samples ((t, none) ∷ slots) h l =
        tracked-first_since c last t samples slots h.1 l
    tracked-first_since c last first samples ((t, some v) ∷ slots) h l =
        let kept = pop_before F (t - window_max) samples in
        let d : t - window_max ≤ c = omega (arith, IsTimed-le t last slots h.1, l) in
        tracked-first_since c last t (kept ++ (t, v) ∷ []) slots h.1 l
        ∙ ap (λ o. or_else o (first_since c slots)) (kept_since-append c t v kept)
        ∙ assoc (kept_since c kept) (ltb t c) (first_since c slots)
        ∙ ap (λ o. or_else o (if ltb t c then first_since c slots else some (t, v)))
            (kept_since-pop_before c (t - window_max) samples d)
      where
        assoc :
            (o : Option (ℕ × V)) (b : Bool) (p : Option (ℕ × V))
            → or_else (or_else o (if b then none else some (t, v))) p
              ≡ or_else o (if b then p else some (t, v))
        assoc none true p = refl
        assoc none false p = refl
        assoc (some x) b p = refl

    picked :
        (a b : Bool) (p rate : V)
        → (if a && b then some p else none) ≡ some rate
        → (a ≡ true) × (b ≡ true) × (rate ≡ p)
    picked true true p rate h = (refl, refl, cc h)
    picked true false p rate h = absurd (cc h)
    picked false b p rate h = absurd (cc h)

    rate_since_iff :
        (now : ℕ) (cumulative rate : V) (o : Option (ℕ × V))
        → (rate_since F now cumulative o ≡ some rate) ↔ (
            (e : ℕ) × (v : V) × (o ≡ some (e, v))
            × (e + 60 ≤ now)
            × (F.grown v cumulative ≡ true)
            × (rate ≡ F.per_minute v cumulative (now - e)))
    unfolding rate_from
    rate_since_iff now cumulative rate none =
        (λ h. absurd (cc h), λ (e, v, h, old, grown, r). absurd (cc h))
    rate_since_iff now cumulative rate (some (e, v)) = (
      λ h.
          let (old, grown, r) = picked (leb 60 (now - e)) (F.grown v cumulative) _ rate h in
          (e, v, refl, ground (arith, old), grown, r),
      λ (d, w, q, old, grown, r).
          let p : e ≡ d = cc q in
          let p' : v ≡ w = cc q in
          let long : leb 60 (now - e) ≡ true = ground (arith, old, p) in
          let more : F.grown v cumulative ≡ true = rw p' grown in
          rw (long, more) (rw (r, p, p') refl),
    )

    update-rate_since :
        (now : ℕ) (cumulative : V) (slots : List (ℕ × Option V))
        → IsTimed 0 now slots
        → (update F now (some cumulative) (tracked [] slots)).1
          ≡ rate_since F now cumulative (first_since (now - window_max) slots)
    unfolding update kept_since
    update-rate_since now cumulative slots h =
        rate_from-pop_before (now - window_max) now cumulative (tracked [] slots)
        ∙ ap (rate_since F now cumulative)
            (tracked-first_since (now - window_max) now 0 [] slots h (omega arith))

    -- A rate is measured against the oldest of all the counts that the slots of the last 180 seconds
    -- gave, where slots without a count leave no trace. There is a rate just where that count is
    -- there, is at least 60 seconds old, and is not greater than the new one; the rate is then the
    -- growth since, for the seconds since. The slots do not go back in time.
    pub update-first_since :
        (now : ℕ) (cumulative : V) (slots : List (ℕ × Option V)) (rate : V)
        → IsTimed 0 now slots
        → ((update F now (some cumulative) (tracked [] slots)).1 ≡ some rate) ↔ (
            (e : ℕ) × (v : V) × (first_since (now - 180) slots ≡ some (e, v))
            × (e + 60 ≤ now)
            × (F.grown v cumulative ≡ true)
            × (rate ≡ F.per_minute v cumulative (now - e)))
    update-first_since now cumulative slots rate h =
        let (to, from) = rate_since_iff now cumulative rate (first_since (now - 180) slots) in
        let same = update-rate_since now cumulative slots h in
        (λ r. to (sym same ∙ r), λ x. same ∙ from x)
