-- ===== src/Router/Shaping.antt =====
-- The capability shaping of chat requests: src/oumigo/service/manager/router/shaping.py.
-- A text is the list of its character codes, and bytes are numbers. Python's floats, `str.isspace`
-- and `base64.b64decode` are the parameter `Platform`. Of a message `cap_audio` reads the content
-- alone; what else it has is kept, as a text. Log lines and header texts are left out.
pub mod Capping
pub mod Clamp
pub mod Cut
pub mod Budget
pub mod Wav
mod Tests
use oumigo.Prelude.{
  ℕ, zero, suc, ◌+◌, ◌-◌, ◌*◌, ◌/◌, ◌%◌, ◌≡◌, min, Bool, true, false, ◌&&◌, ◌||◌, not, Option, none,
  some, List, [], ◌∷◌, ◌++◌, if◌then◌else◌, ltb, leb, ◌==◌, any, filter, length, is_some,
}

abbrev pub Text : Type 0
Text = List ℕ

-- Seconds as floats, with `<=`, `+` and the quotient of two integers; and the two library calls.
pub record Platform : Type 1 where
  pub Seconds : Type 0
  pub nought : Seconds
  pub ceiling : Seconds
  pub plus : Seconds → Seconds → Seconds
  pub at_most : Seconds → Seconds → Bool
  pub quotient : ℕ → ℕ → Seconds
  pub is_space : ℕ → Bool
  pub b64decode : Text → Option (List ℕ)

-- A content part. `input_audio` has the text under "data", and `audio_url` the URL, where that is
-- a text. `other` is a part of another type, or not a dict.
pub data Part (P : Platform) : Type 0 where
  input_audio : Option Text → Part P
  audio_url : Option Text → Part P
  other : Text → Part P
  note : P.Seconds → ℕ → ℕ → P.Seconds → Part P

-- A message with a list as its content, or anything else.
pub data Message (P : Platform) : Type 0 where
  parts : Text → List (Part P) → Message P
  opaque : Text → Message P

-- Slices, as Python takes them.
unfoldable pub take : ℕ → Text → Text
take zero xs = []
take (suc n) [] = []
take (suc n) (x ∷ xs) = x ∷ take n xs

pub drop : ℕ → Text → Text
drop zero xs = xs
drop (suc n) [] = []
drop (suc n) (x ∷ xs) = drop n xs

abbrev pub slice : ℕ → ℕ → Text → Text
slice from count xs = take count (drop from xs)

pub same : Text → Text → Bool
same [] [] = true
same (x ∷ xs) (y ∷ ys) = x == y && same xs ys
same _ _ = false

-- `int.from_bytes(..., "little")`.
pub little : List ℕ → ℕ
little [] = 0
little (b ∷ bs) = b + 256 * little bs

abbrev pub riff : Text
riff = 82 ∷ 73 ∷ 70 ∷ 70 ∷ []

abbrev pub wave : Text
wave = 87 ∷ 65 ∷ 86 ∷ 69 ∷ []

abbrev fmt_id : Text
fmt_id = 102 ∷ 109 ∷ 116 ∷ 32 ∷ []

abbrev data_id : Text
data_id = 100 ∷ 97 ∷ 116 ∷ 97 ∷ []

module _ (P : Platform) where
  pub strip_ws : Text → Text
  strip_ws t =
      if any (λ c. c == 32 || (c == 10 || c == 13)) t then filter (λ c. not (P.is_space c)) t else t

  -- The quotient is exact as the source writes it; `count` starts two characters before the end.
  pub b64_byte_len : Text → ℕ
  b64_byte_len t =
      let n = length t in
      if ltb n 4 then 0 else (n / 4) * 3 - length (filter (λ c. c == 61) (drop (n - 2) t))

  abbrev header_chars : ℕ
  header_chars = 768

  pub b64_head : Text → List ℕ
  b64_head t = elim (P.b64decode (take ((min (length t) header_chars / 4) * 4) t)) [
    | none ↦ []
    | some bytes ↦ bytes
  ]

  -- The duration that a data chunk gives.
  pub data_seconds : ℕ → ℕ → ℕ → Option P.Seconds
  data_seconds byte_rate chunk_size available =
      if byte_rate == 0
      then none
      else let data_bytes =
          if ltb 0 chunk_size && ltb chunk_size available then chunk_size else available in
        some (if ltb 0 data_bytes then P.quotient data_bytes byte_rate else P.nought)

  -- The loop of `_wav_seconds` at `pos`, within `fuel` rounds: outer `none` where they run out.
  pub wav_loop : ℕ → List ℕ → ℕ → ℕ → ℕ → Option (Option P.Seconds)
  wav_loop zero head total byte_rate pos = none
  wav_loop (suc fuel) head total byte_rate pos =
      let chunk_id = slice pos 4 head in
      let chunk_size = little (slice (pos + 4) 4 head) in
      let body = pos + 8 in
      let is_fmt = same chunk_id fmt_id && leb (body + 12) (length head) in
      let rate = if is_fmt then little (slice (body + 8) 4 head) else byte_rate in
      let rest = wav_loop fuel head total rate (body + chunk_size + chunk_size % 2) in
      if leb body (length head)
      then if not is_fmt && same chunk_id data_id
        then some (data_seconds byte_rate chunk_size (total - body))
        else if chunk_size == 0
        then some none
        else rest
      else some none

  pub wav_seconds : List ℕ → ℕ → Option (Option P.Seconds)
  wav_seconds head total =
      if ltb (length head) 12 || not (same (slice 0 4 head) riff && same (slice 8 4 head) wave)
      then some none
      else wav_loop (suc (length head)) head total 0 12
