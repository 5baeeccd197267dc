-- ===== src/Router/Shaping/Wav.antt =====
-- The scan of a WAV header: its end, and what it measures.
use oumigo.Prelude.{
  ℕ, zero, suc, ◌+◌, ◌-◌, ◌%◌, ◌≤◌, ◌≡◌, refl, ◌⊎◌, inl, inr, Bool, true, false, ◌&&◌, ◌||◌, not,
  Option, none, some, List, if◌then◌else◌, ltb, leb, ◌==◌, length, arith, Bool-cases,
}
use oumigo.Router.Shaping.{
  Platform, slice, same, little, riff, wave, data_seconds, wav_loop, wav_seconds,
}

module _ (P : Platform) where
  -- No duration, none at all, or that of some bytes of a payload of `total` bytes.
  abbrev pub IsMeasured : ℕ → Option P.Seconds → Type 0
  IsMeasured total none = Unit
  IsMeasured total (some s) =
      (s ≡ P.nought)
      ⊎ ((bytes : ℕ) × (rate : ℕ) × (bytes ≤ total) × (1 ≤ rate) × (s ≡ P.quotient bytes rate))

  measured :
      (rate bytes total : ℕ)
      → bytes ≤ total
      → 1 ≤ rate
      → (positive : Bool)
      → IsMeasured total (some (if positive then P.quotient bytes rate else P.nought))
  measured rate bytes total h p true = inr (bytes, rate, h, p, refl)
  measured rate bytes total h p false = inl refl

  data_seconds-IsMeasured :
      (rate size available total : ℕ)
      → available ≤ total
      → IsMeasured total (data_seconds P rate size available)
  unfolding data_seconds
  data_seconds-IsMeasured rate size available total h = elim (Bool-cases (rate == 0)) [
    | inl e ↦ rw e tt
    | inr e ↦ rw e (measured rate _ total (ground (arith, h)) (ground (arith, e)) _)
  ]

  IsDone : ℕ → Option (Option P.Seconds) → Type 0
  IsDone total o = (r : Option P.Seconds) × (o ≡ some r) × IsMeasured total r

  round-IsDone :
      (total : ℕ) (d : Option P.Seconds) (rest : Option (Option P.Seconds))
      (fits is_data is_zero : Bool)
      → IsMeasured total d
      → IsDone total rest
      → IsDone total (
          if fits
          then (if is_data then some d else if is_zero then some none else rest)
          else some none)
  unfolding IsDone
  round-IsDone total d rest false is_data is_zero m r = (none, refl, tt)
  round-IsDone total d rest true true is_zero m r = (d, refl, m)
  round-IsDone total d rest true false true m r = (none, refl, tt)
  round-IsDone total d rest true false false m r = r

  wav_loop-IsDone :
      (fuel : ℕ) (head : List ℕ) (total rate pos : ℕ)
      → length head ≤ pos + fuel
      → IsDone total (wav_loop P (suc fuel) head total rate pos)
  unfolding wav_loop IsDone
  wav_loop-IsDone zero head total rate pos h = (none, ground (arith, h), tt)
  wav_loop-IsDone (suc fuel) head total rate pos h =
      let size = little (slice (pos + 4) 4 head) in
      round-IsDone total _ _ (leb (pos + 8) (length head)) _ (size == 0)
        (data_seconds-IsMeasured rate size (total - (pos + 8)) total (omega arith))
        (wav_loop-IsDone fuel head total _ (pos + 8 + size + size % 2) (omega (arith, h)))

  -- The scan of a header ends, whatever its bytes are, and gives no duration, no seconds, or those of
  -- some number of bytes, no more than the payload has, at a byte rate that is not 0.
  pub wav_seconds_ends :
      (head : List ℕ) (total : ℕ)
      → (r : Option P.Seconds) × (wav_seconds P head total ≡ some r) × IsMeasured total r
  unfolding wav_seconds IsDone
  wav_seconds_ends head total =
      elim (Bool-cases
        (ltb (length head) 12 || not (same (slice 0 4 head) riff && same (slice 8 4 head) wave))) [
          | inl e ↦ (none, rw e refl, tt)
          | inr e ↦ rw e (wav_loop-IsDone (length head) head total 0 12 (omega arith))
        ]
