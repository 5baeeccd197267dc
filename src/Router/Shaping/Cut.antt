-- ===== src/Router/Shaping/Cut.antt =====
-- The cut that `cap_audio` makes in a row of content parts.
use oumigo.Prelude.{
  ◌+◌, ◌≡◌, refl, sym, ◌∙◌, inl, inr, Bool, true, false, ◌||◌, not, some, List, [], ◌∷◌, ◌++◌,
  if◌then◌else◌, filter, filter-append, length, arith, Bool-cases, append_assoc, append-nil,
  length-append,
}
use oumigo.Router.Shaping.{Platform, Part, input_audio, audio_url, other, note}
use oumigo.Router.Shaping.Capping.{is_audio_part, audio_part_seconds, Tally, cap_part}

module _ (P : Platform) where
  abbrev pub audio : List (Part P) → List (Part P)
  audio ps = filter (is_audio_part P) ps

  -- The sum of the durations of the parts, from `s` on.
  abbrev pub total : P.Seconds → List (Part P) → P.Seconds
  total s [] = s
  total s (p ∷ ps) = total (P.plus s (audio_part_seconds P p)) ps

  abbrev pub is_plain : Part P → Bool
  is_plain (other t) = true
  is_plain _ = false

  -- What is neither audio nor a note of `cap_audio`.
  abbrev pub others : List (Part P) → List (Part P)
  others ps = filter is_plain ps

  audio_not_plain : (p : Part P) → is_audio_part P p ≡ true → is_plain p ≡ false
  audio_not_plain (input_audio t) e = refl
  audio_not_plain (audio_url t) e = refl
  audio_not_plain (other t) e = absurd (cc e)
  audio_not_plain (note s m n l) e = absurd (cc e)

  total-append :
      (s : P.Seconds) (xs ys : List (Part P)) → total s (xs ++ ys) ≡ total (total s xs) ys
  total-append s [] ys = refl
  total-append s (x ∷ xs) ys = total-append (P.plus s (audio_part_seconds P x)) xs ys

  -- From the tally `t` on, the parts `ps` are cut to `kept`: the tally `u` is the one after.
  pub record IsCut (limit : P.Seconds) (t : Tally P) (ps kept : List (Part P)) (u : Tally P)
      : Type 0 where
    pub lost : List (Part P)
    pub front : audio ps ≡ audio kept ++ lost
    pub rest : others kept ≡ others ps
    pub spent : t.budget_spent ≡ true → (audio kept ≡ []) × (u.budget_spent ≡ true)
    unspent : u.budget_spent ≡ false → lost ≡ []
    pub counted : u.dropped ≡ t.dropped + length lost
    pub seen : u.items ≡ t.items + length (audio ps)
    pub kept_total : u.kept_s ≡ total t.kept_s (audio kept)
    pub all_total : u.seconds ≡ total t.seconds (audio ps)
    pub within : P.at_most t.kept_s limit ≡ true → P.at_most u.kept_s limit ≡ true

  pub IsCut-none : (limit : P.Seconds) (t : Tally P) → IsCut limit t [] [] t
  IsCut-none limit t = record {
    lost = [];
    front = refl;
    rest = refl;
    spent = λ e. (refl, e);
    unspent = λ e. refl;
    counted = omega arith;
    seen = omega arith;
    kept_total = refl;
    all_total = refl;
    within = λ h. h;
  }

  front-append :
      (xs k l : List (Part P)) (ys m n : List (Part P)) (b : Bool)
      → xs ≡ k ++ l
      → ys ≡ m ++ n
      → (b ≡ true → m ≡ [])
      → (b ≡ false → l ≡ [])
      → xs ++ ys ≡ (k ++ m) ++ (l ++ n)
  front-append xs k l ys m n true e f h g = rw (e, f, h refl, append-nil k) (append_assoc k l n)
  front-append xs k l ys m n false e f h g =
      rw (e, f, g refl, append-nil k) (sym (append_assoc k m n))

  spent-append :
      (k m : List (Part P)) (b c : Bool)
      → (b ≡ true → (m ≡ []) × (c ≡ true))
      → (k ≡ []) × (b ≡ true)
      → (k ++ m ≡ []) × (c ≡ true)
  spent-append k m b c h (e, f) = (rw (e, (h f).0) refl, (h f).1)

  unspent-append :
      (l n m : List (Part P)) (b c : Bool)
      → (b ≡ true → (m ≡ []) × (c ≡ true))
      → (b ≡ false → l ≡ [])
      → (c ≡ false → n ≡ [])
      → c ≡ false
      → l ++ n ≡ []
  unspent-append l n m true c h f g e = absurd (cc (sym e ∙ (h refl).1))
  unspent-append l n m false c h f g e = rw (f refl, g e) refl

  pub IsCut-append :
      (limit : P.Seconds) (t u v : Tally P) (ps k qs l : List (Part P))
      → IsCut limit t ps k u
      → IsCut limit u qs l v
      → IsCut limit t (ps ++ qs) (k ++ l) v
  IsCut-append limit t u v ps k qs l a b = record {
    lost = a.lost ++ b.lost;
    front =
        rw (filter-append (is_audio_part P) ps qs, filter-append (is_audio_part P) k l)
          (front-append (audio ps) (audio k) a.lost (audio qs) (audio l) b.lost u.budget_spent
            a.front b.front (λ e. (b.spent e).0) a.unspent);
    rest = rw (filter-append is_plain ps qs, filter-append is_plain k l, a.rest, b.rest) refl;
    spent = λ e.
        rw (filter-append (is_audio_part P) k l)
          (spent-append (audio k) (audio l) u.budget_spent v.budget_spent b.spent (a.spent e));
    unspent =
        unspent-append a.lost b.lost (audio l) u.budget_spent v.budget_spent b.spent a.unspent
          b.unspent;
    counted = omega (arith, a.counted, b.counted, length-append a.lost b.lost);
    seen =
        rw (filter-append (is_audio_part P) ps qs)
          (omega (arith, a.seen, b.seen, length-append (audio ps) (audio qs)));
    kept_total =
        rw
          (
            filter-append (is_audio_part P) k l,
            total-append t.kept_s (audio k) (audio l),
            sym a.kept_total,
          )
          b.kept_total;
    all_total =
        rw
          (
            filter-append (is_audio_part P) ps qs,
            total-append t.seconds (audio ps) (audio qs),
            sym a.all_total,
          )
          b.all_total;
    within = λ h. b.within (a.within h);
  }

  -- The tally when the audio part `p` was counted.
  abbrev counting : Part P → Tally P → Tally P
  counting p t = record t {
    items = t.items + 1;
    seconds = P.plus t.seconds (audio_part_seconds P p);
  }

  stays-IsCut :
      (limit : P.Seconds) (p : Part P) (t : Tally P)
      → is_audio_part P p ≡ false
      → IsCut limit t (p ∷ []) (p ∷ []) t
  stays-IsCut limit p t e = record {
    lost = [];
    front = rw e refl;
    rest = refl;
    spent = λ s. (rw e refl, s);
    unspent = λ s. refl;
    counted = omega arith;
    seen = rw e (omega arith);
    kept_total = rw e refl;
    all_total = rw e refl;
    within = λ h. h;
  }

  drops-IsCut :
      (limit : P.Seconds) (p : Part P) (t : Tally P)
      → is_audio_part P p ≡ true
      → IsCut limit t
          (p ∷ [])
          []
          (record (counting p t) { budget_spent = true; dropped = t.dropped + 1 })
  drops-IsCut limit p t e = record {
    lost = p ∷ [];
    front = rw e refl;
    rest = rw (audio_not_plain p e) refl;
    spent = λ s. (refl, refl);
    unspent = λ s. absurd (cc s);
    counted = omega arith;
    seen = rw e (omega arith);
    kept_total = refl;
    all_total = rw e refl;
    within = λ h. h;
  }

  keeps-IsCut :
      (limit : P.Seconds) (p : Part P) (t : Tally P)
      → is_audio_part P p ≡ true
      → (t.budget_spent || not (P.at_most (P.plus t.kept_s (audio_part_seconds P p)) limit)) ≡ false
      → IsCut limit t
          (p ∷ [])
          (p ∷ [])
          (record (counting p t) { kept_s = P.plus t.kept_s (audio_part_seconds P p) })
  keeps-IsCut limit p t e c = record {
    lost = [];
    front = rw e refl;
    rest = refl;
    spent = λ s. absurd (ground (arith, s, c));
    unspent = λ s. refl;
    counted = omega arith;
    seen = rw e (omega arith);
    kept_total = rw e refl;
    all_total = rw e refl;
    within = λ h. ground (arith, c);
  }

  pub cap_part-IsCut :
      (limit : P.Seconds) (p : Part P) (t : Tally P)
      → let (u, stays) = cap_part P (some limit) p t in
        IsCut limit t (p ∷ []) (if stays then p ∷ [] else []) u
  unfolding cap_part
  cap_part-IsCut limit p t = elim (Bool-cases (is_audio_part P p)) [
    | inr e ↦ rw e (stays-IsCut limit p t e)
    | inl e ↦
        elim (Bool-cases
          (t.budget_spent || not (P.at_most (P.plus t.kept_s (audio_part_seconds P p)) limit))) [
            | inl c ↦ rw (e, c) (drops-IsCut limit p t e)
            | inr c ↦ rw (e, c) (keeps-IsCut limit p t e c)
          ]
  ]
