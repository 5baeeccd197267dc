-- ===== src/Router/Shaping/Clamp.antt =====
-- `clamp_output_tokens` of src/oumigo/service/manager/router/shaping.py.
use oumigo.Prelude.{
  ℕ, ◌≤◌, ◌≡◌, ◌⊎◌, inl, refl, min, Bool, true, false, ◌||◌, not, Option, none, some, if◌then◌else◌,
  ltb, ◌==◌, arith,
}

-- A field of the payload: absent, a whole number that is positive or not, a float that is whole
-- (Python's `==` takes it for that number), or any other value. A boolean is 0 or 1, as in Python.
pub data Field : Type 0 where
  absent : Field
  whole : ℕ → Field
  below_zero : ℕ → Field
  whole_float : ℕ → Field
  other : ℕ → Field

-- `payload.get(field) != capped`.
abbrev differs : Field → ℕ → Bool
differs (whole n) c = not (n == c)
differs (whole_float n) c = not (n == c)
differs _ c = true

abbrev capped : ℕ → Field → ℕ
capped ceiling (whole n) = if ltb 0 n then min n ceiling else ceiling
capped ceiling _ = ceiling

-- The body of the loop for a field: the field, and whether it changed.
unfoldable pub clamp_field : ℕ → Field → Field × Bool
clamp_field ceiling f =
    if differs f (capped ceiling f) then (whole (capped ceiling f), true) else (f, false)

pub record Payload : Type 0 where
  pub max_tokens : Field
  pub max_completion_tokens : Field

abbrev pub is_absent : Field → Bool
is_absent absent = true
is_absent _ = false

-- The body for the newer spelling, which is left out where the client did not use it.
abbrev clamp_used : ℕ → Field → Field × Bool
clamp_used ceiling f = if is_absent f then (f, false) else clamp_field ceiling f

-- `clamp_output_tokens`, for a `ceiling` that is none, 0 (which stands for those below 0) or more.
unfoldable pub clamp_output_tokens : Payload → Option ℕ → Payload × Bool
clamp_output_tokens p none = (p, false)
clamp_output_tokens p (some ceiling) =
    if ceiling == 0
    then (p, false)
    else let (f, a) = clamp_field ceiling p.max_tokens in
      let (g, b) = clamp_used ceiling p.max_completion_tokens in
      (record { max_tokens = f; max_completion_tokens = g }, a || b)

-- A field that names a limit of at least 1 and at most `ceiling`.
abbrev pub IsBounded : ℕ → Field → Type 0
IsBounded ceiling (whole n) = (1 ≤ n) × (n ≤ ceiling)
IsBounded ceiling (whole_float n) = n ≡ ceiling
IsBounded ceiling _ = ⊥

clamp_field-IsBounded : (c : ℕ) (f : Field) → 1 ≤ c → IsBounded c (clamp_field c f).0
unfolding clamp_field
clamp_field-IsBounded c f h = ground arith

clamp_field_again :
    (c : ℕ) (f : Field) → clamp_field c (clamp_field c f).0 ≡ ((clamp_field c f).0, false)
unfolding clamp_field
clamp_field_again c f = ground arith

clamp_field_changed : (c : ℕ) (f : Field) → (clamp_field c f).1 ≡ false → (clamp_field c f).0 ≡ f
unfolding clamp_field
clamp_field_changed c f h = ground arith

clamp_used_lem :
    (c : ℕ) (f : Field)
    → 1 ≤ c
    → ((f ≡ absent) ⊎ IsBounded c (clamp_used c f).0)
      × (is_absent (clamp_used c f).0 ≡ is_absent f)
      × (clamp_used c (clamp_used c f).0 ≡ ((clamp_used c f).0, false))
      × ((clamp_used c f).1 ≡ false → (clamp_used c f).0 ≡ f)
unfolding clamp_field
clamp_used_lem c absent h = (inl refl, refl, refl, λ e. refl)
clamp_used_lem c (whole n) h = ground arith
clamp_used_lem c (below_zero n) h = ground arith
clamp_used_lem c (whole_float n) h = ground arith
clamp_used_lem c (other n) h = ground arith

-- With a ceiling, the payload that leaves names a reply length of at least 1 and at most the
-- ceiling, whatever it named before, and so does the newer spelling where the client used it, and
-- it is left out where the client did not; to clamp again changes nothing; and where no change is
-- reported the payload is as it was.
pub clamp_bounds :
    (p : Payload) (c : ℕ)
    → 1 ≤ c
    → let (q, changed) = clamp_output_tokens p (some c) in
      IsBounded c q.max_tokens
      × ((p.max_completion_tokens ≡ absent) ⊎ IsBounded c q.max_completion_tokens)
      × (is_absent q.max_completion_tokens ≡ is_absent p.max_completion_tokens)
      × (clamp_output_tokens q (some c) ≡ (q, false))
      × (changed ≡ false → q ≡ p)
unfolding clamp_output_tokens
clamp_bounds p c h =
    let first = clamp_field-IsBounded c p.max_tokens h in
    let (used, there, again, same) = clamp_used_lem c p.max_completion_tokens h in
    (
      ground (arith, h, first),
      ground (arith, h, used),
      ground (arith, h, there),
      ground (arith, h, again, clamp_field_again c p.max_tokens),
      ground (arith, h, same, clamp_field_changed c p.max_tokens),
    )
