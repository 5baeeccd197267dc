-- ===== src/Router/Shaping/Tests.antt =====
-- Runs of the request shaping, with whole seconds, and the theorems on them.
use oumigo.Prelude.{
  ℕ, ◌+◌, ◌/◌, ◌≡◌, ◌⊎◌, refl, true, false, Option, none, some, List, [], ◌∷◌, ◌++◌, leb, ◌==◌,
  length, arith,
}
use oumigo.Router.Shaping.{Platform, Part, input_audio, other, Message, parts, wav_seconds}
use oumigo.Router.Shaping.Capping.{cap_audio, Tally}
use oumigo.Router.Shaping.Clamp.{
  Field, absent, whole, IsBounded, is_absent, Payload, clamp_output_tokens, clamp_bounds,
}
use oumigo.Router.Shaping.Cut.{audio, others, total}
use oumigo.Router.Shaping.Budget.{content, content_of, cap_audio_keeps_front}
use oumigo.Router.Shaping.Wav.{IsMeasured, wav_seconds_ends}

-- Whole seconds, and a decoder that takes each text for its bytes.
abbrev clock : Platform
clock = record {
  Seconds = ℕ;
  nought = 0;
  ceiling = 30;
  plus = λ a b. a + b;
  at_most = leb;
  quotient = λ a b. a / b;
  is_space = λ c. c == 32;
  b64decode = λ t. some t;
}

abbrev asked : Payload
asked = record { max_tokens = absent; max_completion_tokens = whole 9000 }

is_clamped :
    clamp_output_tokens asked (some 4096)
    ≡ (record { max_tokens = whole 4096; max_completion_tokens = whole 4096 }, true)
unfolding clamp_output_tokens oumigo.Router.Shaping.Clamp.clamp_field
is_clamped = refl

clamp_bounds_example :
    let (q, changed) = clamp_output_tokens asked (some 4096) in
    IsBounded 4096 q.max_tokens
    × ((whole 9000 ≡ absent) ⊎ IsBounded 4096 q.max_completion_tokens)
    × (is_absent q.max_completion_tokens ≡ false)
    × (clamp_output_tokens q (some 4096) ≡ (q, false))
    × (changed ≡ false → q ≡ asked)
clamp_bounds_example = clamp_bounds asked 4096 (omega arith)

-- Two messages with three clips of unknown containers, each billed at 30 seconds.
abbrev clip : Part clock
clip = input_audio none

abbrev said : List (Message clock)
said = parts [] (other (1 ∷ []) ∷ clip ∷ []) ∷ parts [] (clip ∷ other (2 ∷ []) ∷ clip ∷ []) ∷ []

abbrev capped_run : Tally clock × Option (List (Message clock))
capped_run = cap_audio clock (some 60) (some said)

cap_audio_keeps_front_example :
    let (t, after) = capped_run in
    (leb t.kept_s 60 ≡ true)
    × ((lost : List (Part clock)) × (audio clock (content clock said)
          ≡ audio clock (content_of clock after) ++ lost)
        × (t.dropped ≡ length lost))
    × (t.items ≡ length (audio clock (content clock said)))
    × (t.kept_s ≡ total clock 0 (audio clock (content_of clock after)))
    × (t.seconds ≡ total clock 0 (audio clock (content clock said)))
    × (others clock (content_of clock after) ≡ others clock (content clock said))
cap_audio_keeps_front_example = cap_audio_keeps_front clock 60 said refl

one_dropped : capped_run.0.dropped ≡ 1
unfolding cap_audio oumigo.Router.Shaping.Capping.cap_messages
    oumigo.Router.Shaping.Capping.cap_message oumigo.Router.Shaping.Capping.cap_parts
    oumigo.Router.Shaping.Capping.cap_part oumigo.Router.Shaping.Capping.audio_part_seconds
    oumigo.Router.Shaping.Capping.part_b64
one_dropped = refl

-- "RIFF", a size, "WAVE", a format chunk of 12 bytes with the byte rate 4, and 8 bytes of data.
abbrev header : List ℕ
header =
    82 ∷ 73 ∷ 70 ∷ 70 ∷ 0 ∷ 0 ∷ 0 ∷ 0 ∷ 87 ∷ 65 ∷ 86 ∷ 69 ∷ 102 ∷ 109 ∷ 116 ∷ 32 ∷ 12 ∷ 0 ∷ 0 ∷ 0
    ∷ 1 ∷ 0 ∷ 1 ∷ 0 ∷ 4 ∷ 0 ∷ 0 ∷ 0 ∷ 4 ∷ 0 ∷ 0 ∷ 0 ∷ 100 ∷ 97 ∷ 116 ∷ 97 ∷ 8 ∷ 0 ∷ 0 ∷ 0 ∷ []

two_seconds : wav_seconds clock header 48 ≡ some (some 2)
unfolding wav_seconds oumigo.Router.Shaping.same oumigo.Router.Shaping.take
    oumigo.Router.Shaping.drop oumigo.Router.Shaping.wav_loop oumigo.Router.Shaping.little
    oumigo.Router.Shaping.data_seconds
two_seconds = refl

wav_seconds_ends_example :
    (r : Option ℕ) × (wav_seconds clock header 48 ≡ some r) × IsMeasured clock 48 r
wav_seconds_ends_example = wav_seconds_ends clock header 48
