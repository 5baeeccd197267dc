-- ===== src/Worker/Metrics/Eviction.antt =====
-- What the buffer keeps.
use oumigo.Prelude.{
  ℕ, zero, suc, ◌+◌, ◌-◌, ◌≤◌, ◌<◌, ◌≡◌, refl, sym, ap, ◌∙◌, true, false, List, [], ◌∷◌, ◌++◌, ◌==◌,
  length, arith, Bool-cases, inl, inr, append_assoc,
}
use oumigo.Worker.Metrics.{MetricRow, count_before, skip, overflows, first_epoch, evict_loop, evict}

module _ {V : Type 0} where
  length-skip : (n : ℕ) (rows : List (MetricRow V)) → length (skip n rows) ≡ length rows - n
  unfolding skip
  length-skip zero rows = omega arith
  length-skip (suc n) [] = omega arith
  length-skip (suc n) (r ∷ rows) = omega (arith, length-skip n rows)

  skip-suffix :
      (n : ℕ) (rows : List (MetricRow V)) → (old : List (MetricRow V)) × (rows ≡ old ++ skip n rows)
  unfolding skip
  skip-suffix zero rows = ([], refl)
  skip-suffix (suc n) [] = ([], refl)
  skip-suffix (suc n) (r ∷ rows) = let (old, e) = skip-suffix n rows in (r ∷ old, ap (λ t. r ∷ t) e)

  module _ (capacity chunk : ℕ) where
    -- A turn of the loop drops the oldest row.
    drops :
        (r : MetricRow V) (rows : List (MetricRow V))
        → 0 < chunk
        → 0 < count_before (r.grid_epoch + chunk) (r ∷ rows)
    unfolding count_before
    drops r rows h = ground (arith, h)

    turn :
        (fuel : ℕ) (r : MetricRow V) (rows : List (MetricRow V))
        → 0 < chunk
        → overflows capacity chunk (r ∷ rows) ≡ true
        → evict_loop capacity chunk (suc fuel) (r ∷ rows)
          ≡ evict_loop capacity chunk fuel
              (skip (count_before (r.grid_epoch + chunk) (r ∷ rows)) (r ∷ rows))
    unfolding evict_loop
    turn fuel r rows h e =
        let some_dropped : (count_before (r.grid_epoch + chunk) (r ∷ rows) == 0) ≡ false =
          ground (arith, drops r rows h) in
        rw (e, some_dropped) refl

    rest :
        (fuel : ℕ) (rows : List (MetricRow V))
        → overflows capacity chunk rows ≡ false
        → evict_loop capacity chunk fuel rows ≡ rows
    unfolding evict_loop
    rest zero rows e = refl
    rest (suc fuel) rows e = rw e refl

    evict_loop-fits :
        (fuel : ℕ) (rows : List (MetricRow V))
        → 0 < chunk
        → length rows ≤ fuel
        → overflows capacity chunk (evict_loop capacity chunk fuel rows) ≡ false
    evict_loop-fits zero [] h l = unfold overflows evict_loop in refl
    evict_loop-fits (suc fuel) [] h l = unfold overflows evict_loop in refl
    evict_loop-fits zero (r ∷ rows) h l = absurd (omega (arith, l))
    evict_loop-fits (suc fuel) (r ∷ rows) h l =
        elim (Bool-cases (overflows capacity chunk (r ∷ rows))) [
          | inr e ↦ ap (overflows capacity chunk) (rest (suc fuel) (r ∷ rows) e) ∙ e
          | inl e ↦
              let drop = count_before (r.grid_epoch + chunk) (r ∷ rows) in
              ap (overflows capacity chunk) (turn fuel r rows h e)
              ∙ evict_loop-fits fuel (skip drop (r ∷ rows)) h
                  (omega (arith, length-skip drop (r ∷ rows), drops r rows h, l))
        ]

    evict_loop-suffix :
        (fuel : ℕ) (rows : List (MetricRow V))
        → (old : List (MetricRow V)) × (rows ≡ old ++ evict_loop capacity chunk fuel rows)
    unfolding evict_loop
    evict_loop-suffix zero rows = ([], refl)
    evict_loop-suffix (suc fuel) rows = elim (Bool-cases (overflows capacity chunk rows)) [
      | inr e ↦ rw e ([], refl)
      | inl e ↦
          let drop = count_before (first_epoch capacity chunk rows + chunk) rows in
          elim (Bool-cases (drop == 0)) [
            | inl f ↦ rw (e, f) ([], refl)
            | inr f ↦
                let (old, p) = skip-suffix drop rows in
                let (older, q) = evict_loop-suffix fuel (skip drop rows) in
                rw (e, f) (old ++ older, p ∙ ap (λ t. old ++ t) q ∙ sym (append_assoc old older _))
          ]
    ]

    pub evict-suffix :
        (rows : List (MetricRow V))
        → (old : List (MetricRow V)) × (rows ≡ old ++ evict capacity chunk rows)
    unfolding evict
    evict-suffix rows = evict_loop-suffix (length rows) rows

    pub evict_rest :
        (rows : List (MetricRow V))
        → overflows capacity chunk rows ≡ false
        → evict capacity chunk rows ≡ rows
    unfolding evict
    evict_rest rows = rest (length rows) rows

    -- Eviction ends, with a buffer whose span is less than the capacity, where the chunk is not 0; it
    -- drops only the oldest rows, and none where the span is less than the capacity already.
    evict-fits :
        (rows : List (MetricRow V))
        → 0 < chunk
        → (overflows capacity chunk (evict capacity chunk rows) ≡ false)
          × ((old : List (MetricRow V)) × (rows ≡ old ++ evict capacity chunk rows))
          × (overflows capacity chunk rows ≡ false → evict capacity chunk rows ≡ rows)
    unfolding evict
    evict-fits rows h =
        (evict_loop-fits (length rows) rows h (omega arith), evict-suffix rows, evict_rest rows)
