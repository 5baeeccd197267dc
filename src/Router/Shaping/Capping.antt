-- ===== src/Router/Shaping/Capping.antt =====
-- `cap_audio` and `clamp_output_tokens` of src/oumigo/service/manager/router/shaping.py.
use oumigo.Prelude.{
  ℕ, ◌+◌, Bool, true, false, ◌&&◌, ◌||◌, not, Option, none, some, List, [], ◌∷◌, map, if◌then◌else◌,
  ltb, ◌==◌, is_some,
}
use oumigo.Router.Shaping.{
  Text, Platform, Part, input_audio, audio_url, note, Message, parts, opaque, take, same, strip_ws,
  b64_byte_len, b64_head, wav_seconds,
}

-- `url.startswith("data:")`.
abbrev data_prefix : Text
data_prefix = 100 ∷ 97 ∷ 116 ∷ 97 ∷ 58 ∷ []

-- `url.split(",", 1)[1]`, where there is a comma.
pub after_comma : Text → Option Text
after_comma [] = none
after_comma (c ∷ cs) = if c == 44 then some cs else after_comma cs

abbrev filled : Option Text → Option Text
filled none = none
filled (some []) = none
filled (some (c ∷ cs)) = some (c ∷ cs)

module _ (P : Platform) where
  unfoldable pub part_b64 : Part P → Option Text
  part_b64 (input_audio t) = t
  part_b64 (audio_url none) = none
  part_b64 (audio_url (some url)) = if same (take 5 url) data_prefix then after_comma url else none
  part_b64 _ = none

  abbrev pub is_audio_part : Part P → Bool
  is_audio_part (input_audio t) = true
  is_audio_part (audio_url t) = true
  is_audio_part _ = false

  -- What is billed for a measured duration.
  abbrev billed : Option (Option P.Seconds) → P.Seconds
  billed (some (some s)) =
      if P.at_most s P.nought then P.ceiling else if P.at_most s P.ceiling then s else P.ceiling
  billed _ = P.ceiling

  unfoldable pub audio_part_seconds : Part P → P.Seconds
  audio_part_seconds p = elim (filled (part_b64 p)) [
    | none ↦ P.ceiling
    | some t ↦
        let bare = strip_ws P t in billed (wav_seconds P (b64_head P bare) (b64_byte_len P bare))
  ]

  -- The local variables of the loops of `cap_audio`.
  pub record Tally : Type 0 where
    pub seconds : P.Seconds
    pub items : ℕ
    pub dropped : ℕ
    pub kept_s : P.Seconds
    pub budget_spent : Bool

  abbrev over : P.Seconds → Option P.Seconds → Bool
  over s none = false
  over s (some limit) = not (P.at_most s limit)

  -- One round of the inner loop: the tally, and whether the part is kept.
  unfoldable pub cap_part : Option P.Seconds → Part P → Tally → Tally × Bool
  cap_part limit p t =
      let span = audio_part_seconds p in
      let seen = record t { items = t.items + 1; seconds = P.plus t.seconds span } in
      if is_audio_part p
      then if is_some limit && (t.budget_spent || over (P.plus t.kept_s span) limit)
        then (record seen { budget_spent = true; dropped = t.dropped + 1 }, false)
        else (record seen { kept_s = P.plus t.kept_s span }, true)
      else (t, true)

  -- The inner loop: the tally, the parts kept, and whether one was lost.
  unfoldable pub cap_parts : Option P.Seconds → List (Part P) → Tally → Tally × List (Part P) × Bool
  cap_parts limit [] t = (t, [], false)
  cap_parts limit (p ∷ ps) t =
      let (u, stays) = cap_part limit p t in
      let (v, kept, lost) = cap_parts limit ps u in
      (v, (if stays then p ∷ kept else kept), not stays || lost)

  unfoldable pub cap_message : Option P.Seconds → Message P → Tally → Tally × Message P × Bool
  cap_message limit (opaque m) t = (t, opaque m, false)
  cap_message limit (parts m ps) t =
      let (u, kept, lost) = cap_parts limit ps t in (u, parts m (if lost then kept else ps), lost)

  -- The outer loop: of each message also whether it lost parts.
  unfoldable pub cap_messages :
      Option P.Seconds → List (Message P) → Tally → Tally × List (Message P × Bool)
  cap_messages limit [] t = (t, [])
  cap_messages limit (m ∷ ms) t =
      let (u, n, lost) = cap_message limit m t in
      let (v, ns) = cap_messages limit ms u in (v, (n, lost) ∷ ns)

  abbrev with_note : Part P → Message P → Message P
  with_note n (opaque m) = opaque m
  with_note n (parts m ps) = parts m (n ∷ ps)

  -- The note stands before the content of the first message that lost parts.
  unfoldable pub annotate : Part P → List (Message P × Bool) → List (Message P)
  annotate n [] = []
  annotate n ((m, lost) ∷ ms) =
      let rest = annotate n ms in if lost then with_note n m ∷ map (λ x. x.0) ms else m ∷ rest

  abbrev pub fresh : Tally
  fresh = record {
    seconds = P.nought;
    items = 0;
    dropped = 0;
    kept_s = P.nought;
    budget_spent = false;
  }

  abbrev limit_or_nought : Option P.Seconds → P.Seconds
  limit_or_nought none = P.nought
  limit_or_nought (some l) = l

  -- `cap_audio` of a payload whose `messages` is a list (`none`: it is not).
  unfoldable pub cap_audio :
      Option P.Seconds → Option (List (Message P)) → Tally × Option (List (Message P))
  cap_audio limit none = (fresh, none)
  cap_audio limit (some ms) =
      let (t, ns) = cap_messages limit ms fresh in
      (t, some (annotate (note t.kept_s t.dropped t.items (limit_or_nought limit)) ns))

  abbrev trimmed : Tally → Bool
  trimmed t = ltb 0 t.dropped
