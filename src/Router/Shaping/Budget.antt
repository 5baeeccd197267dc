-- ===== src/Router/Shaping/Budget.antt =====
-- What `cap_audio` keeps of a request, and what it counts.
use oumigo.Prelude.{
  ◌≡◌, refl, ap, ◌∙◌, subst, Bool, true, false, ◌||◌, not, Option, none, some, List, [], ◌∷◌, ◌++◌,
  map, if◌then◌else◌, filter, filter-append, length, arith,
}
use oumigo.Router.Shaping.{Platform, Part, note, Message, parts, opaque}
use oumigo.Router.Shaping.Capping.{
  is_audio_part, Tally, cap_part, cap_parts, cap_message, cap_messages, annotate, fresh, cap_audio,
}
use oumigo.Router.Shaping.Cut.{
  audio, others, is_plain, total, IsCut, IsCut-none, IsCut-append, cap_part-IsCut,
}

module _ (P : Platform) where
  joined-IsCut :
      (limit : P.Seconds) (t u v : Tally P) (p : Part P) (ps kept : List (Part P))
      (stays lost : Bool)
      → IsCut P limit t (p ∷ []) (if stays then p ∷ [] else []) u
      → IsCut P limit u ps kept v × (lost ≡ false → kept ≡ ps)
      → IsCut P limit t (p ∷ ps) (if stays then p ∷ kept else kept) v
        × ((not stays || lost) ≡ false → (if stays then p ∷ kept else kept) ≡ p ∷ ps)
  joined-IsCut limit t u v p ps kept true lost a (b, same) =
      (IsCut-append P limit t u v (p ∷ []) (p ∷ []) ps kept a b, λ e. ap (λ r. p ∷ r) (same e))
  joined-IsCut limit t u v p ps kept false lost a (b, same) =
      (IsCut-append P limit t u v (p ∷ []) [] ps kept a b, λ e. absurd (cc e))

  cap_parts-IsCut :
      (limit : P.Seconds) (ps : List (Part P)) (t : Tally P)
      → let (u, kept, lost) = cap_parts P (some limit) ps t in
        IsCut P limit t ps kept u × (lost ≡ false → kept ≡ ps)
  unfolding cap_parts
  cap_parts-IsCut limit [] t = (IsCut-none P limit t, λ e. refl)
  cap_parts-IsCut limit (p ∷ ps) t =
      let u = (cap_part P (some limit) p t).0 in
      joined-IsCut limit t u _ p ps _ (cap_part P (some limit) p t).1 _ (cap_part-IsCut P limit p t)
        (cap_parts-IsCut limit ps u)

  -- The content of a message, and of a list of messages.
  abbrev parts_of : Message P → List (Part P)
  parts_of (parts m ps) = ps
  parts_of (opaque m) = []

  abbrev pub content : List (Message P) → List (Part P)
  content [] = []
  content (m ∷ ms) = parts_of m ++ content ms

  kept_or_same :
      (limit : P.Seconds) (t u : Tally P) (ps kept : List (Part P)) (lost : Bool)
      → IsCut P limit t ps kept u × (lost ≡ false → kept ≡ ps)
      → IsCut P limit t ps (if lost then kept else ps) u
  kept_or_same limit t u ps kept true (c, same) = c
  kept_or_same limit t u ps kept false (c, same) = subst (λ k. IsCut P limit t ps k u) (same refl) c

  cap_message-IsCut :
      (limit : P.Seconds) (m : Message P) (t : Tally P)
      → let (u, n, lost) = cap_message P (some limit) m t in
        IsCut P limit t (parts_of m) (parts_of n) u × (lost ≡ false → n ≡ m)
  unfolding cap_message
  cap_message-IsCut limit (opaque m) t = (IsCut-none P limit t, λ e. refl)
  cap_message-IsCut limit (parts m ps) t =
      (kept_or_same limit t _ ps _ _ (cap_parts-IsCut limit ps t), λ e. rw e refl)

  cap_messages-IsCut :
      (limit : P.Seconds) (ms : List (Message P)) (t : Tally P)
      → let (u, ns) = cap_messages P (some limit) ms t in
        IsCut P limit t (content ms) (content (map (λ x. x.0) ns)) u
  unfolding cap_messages
  cap_messages-IsCut limit [] t = IsCut-none P limit t
  cap_messages-IsCut limit (m ∷ ms) t =
      let (first, same) = cap_message-IsCut limit m t in
      IsCut-append P limit t _ _ (parts_of m) _ (content ms) _ first (cap_messages-IsCut limit ms _)

  -- The note adds nothing that a test tells which it does not pass.
  annotate_lem :
      (q : Part P → Bool) (n : Part P)
      → q n ≡ false
      → (ns : List (Message P × Bool))
      → filter q (content (annotate P n ns)) ≡ filter q (content (map (λ x. x.0) ns))
  unfolding annotate
  annotate_lem q n h [] = refl
  annotate_lem q n h ((opaque m, true) ∷ ns) = refl
  annotate_lem q n h ((parts m ps, true) ∷ ns) = rw h refl
  annotate_lem q n h ((m, false) ∷ ns) =
      rw
        (
          filter-append q (parts_of m) (content (annotate P n ns)),
          filter-append q (parts_of m) (content (map (λ x. x.0) ns)),
          annotate_lem q n h ns,
        )
        refl

  abbrev pub content_of : Option (List (Message P)) → List (Part P)
  content_of none = []
  content_of (some ms) = content ms

  -- With a limit of at least no seconds, the audio kept is within the limit, and it is what comes
  -- first: the audio of the request is the audio kept and then the parts dropped, in the order of
  -- the messages, and as many as are counted. The totals are the sums of the durations of the audio
  -- submitted and of the audio kept, and every part that is not audio stays, in its order.
  pub cap_audio_keeps_front :
      (limit : P.Seconds) (ms : List (Message P))
      → P.at_most P.nought limit ≡ true
      → let (t, after) = cap_audio P (some limit) (some ms) in
        (P.at_most t.kept_s limit ≡ true)
        × ((lost : List (Part P)) × (audio P (content ms) ≡ audio P (content_of after) ++ lost)
            × (t.dropped ≡ length lost))
        × (t.items ≡ length (audio P (content ms)))
        × (t.kept_s ≡ total P P.nought (audio P (content_of after)))
        × (t.seconds ≡ total P P.nought (audio P (content ms)))
        × (others P (content_of after) ≡ others P (content ms))
  unfolding cap_audio
  cap_audio_keeps_front limit ms h =
      let (t, ns) = cap_messages P (some limit) ms (fresh P) in
      let c = cap_messages-IsCut limit ms (fresh P) in
      let n : Part P = note t.kept_s t.dropped t.items limit in
      let same = annotate_lem (is_audio_part P) n refl ns in
      (
        c.within h,
        (c.lost, rw same c.front, omega (arith, c.counted)),
        omega (arith, c.seen),
        rw same c.kept_total,
        c.all_total,
        annotate_lem (is_plain P) n refl ns ∙ c.rest,
      )
