-- ===== src/Manager/Store/Upsert.antt =====
-- The table as a map from keys to values, and what a batch of points does to it.
use oumigo.Prelude.{
  ◌≡◌, refl, sym, ap, subst, ◌∙◌, String, Bool, true, false, Option, none, some, List, [], ◌∷◌,
  if◌then◌else◌, ==ₛ_iff, ==ₛ_refl, or_else, arith, Bool-cases, inl, inr, ◌↔◌,
}
use oumigo.Manager.Store.{Key, same_key, before, Table, upsert, upsert_all, prune, ingest}

same_key_iff : (a b : Key) → (same_key a b ≡ true) ↔ (a ≡ b)
same_key_iff a b = (
  λ h.
      let n = (==ₛ_iff a.node_id b.node_id).0 (ground (arith, h)) in
      let m = (==ₛ_iff a.metric b.metric).0 (ground (arith, h)) in
      let t = (==ₛ_iff a.timestamp b.timestamp).0 (ground (arith, h)) in
      ap (λ x. record { node_id = x; metric = a.metric; timestamp = a.timestamp }) n
      ∙ ap (λ x. record { node_id = b.node_id; metric = x; timestamp = a.timestamp }) m
      ∙ ap (λ x. record { node_id = b.node_id; metric = b.metric; timestamp = x }) t,
  λ e.
      subst (λ k. same_key a k ≡ true) e
        (rw (==ₛ_refl a.node_id, ==ₛ_refl a.metric, ==ₛ_refl a.timestamp) refl),
)

module _ {V : Type 0} where
  -- The value at a key.
  pub at : Key → Table V → Option V
  at k [] = none
  at k ((j, v) ∷ rows) = if same_key j k then some v else at k rows

  -- The last value that a batch gives for a key.
  pub given : String → List (String × String × V) → Key → Option V
  given node_id [] k = none
  given node_id ((metric, timestamp, value) ∷ points) k = or_else (given node_id points k) (
      if same_key (record { node_id = node_id; metric = metric; timestamp = timestamp }) k
      then some value
      else none)

  at-upsert :
      (k j : Key) (v : V) (rows : Table V)
      → at j (upsert k v rows) ≡ (if same_key k j then some v else at j rows)
  unfolding at upsert
  at-upsert k j v [] = refl
  at-upsert k j v ((i, w) ∷ rows) =
      ground (arith, same_key_iff k j, same_key_iff i k, same_key_iff i j, at-upsert k j v rows)

  at-upsert_all :
      (node_id : String) (points : List (String × String × V)) (k : Key) (rows : Table V)
      → at k (upsert_all node_id points rows) ≡ or_else (given node_id points k) (at k rows)
  unfolding at upsert_all given
  at-upsert_all node_id [] k rows = refl
  at-upsert_all node_id ((metric, timestamp, value) ∷ points) k rows =
      let j : Key = record { node_id = node_id; metric = metric; timestamp = timestamp } in
      at-upsert_all node_id points k (upsert j value rows)
      ∙ ap (or_else (given node_id points k)) (at-upsert j k value rows)
      ∙ or_else-if (given node_id points k) (same_key j k) value (at k rows)
    where
      or_else-if :
          (o : Option V) (b : Bool) (v : V) (p : Option V)
          → or_else o (if b then some v else p) ≡ or_else (or_else o (if b then some v else none)) p
      or_else-if none true v p = refl
      or_else-if none false v p = refl
      or_else-if (some w) true v p = refl
      or_else-if (some w) false v p = refl

  at-prune :
      (cutoff : String) (k : Key) (rows : Table V)
      → at k (prune cutoff rows) ≡ (if before k.timestamp cutoff then none else at k rows)
  unfolding at prune
  at-prune cutoff k [] = ground arith
  at-prune cutoff k ((j, v) ∷ rows) = elim (Bool-cases (same_key j k)) [
    | inl e ↦
        subst
          (λ i.
            at i (prune cutoff ((j, v) ∷ rows))
            ≡ (if before i.timestamp cutoff then none else at i ((j, v) ∷ rows)))
          ((same_key_iff j k).0 e)
          (ground (arith, at-prune cutoff j rows, (same_key_iff j j).1 refl))
    | inr e ↦ ground (arith, e, at-prune cutoff k rows)
  ]

  -- The table is a map, and a report a write to it: after a report a key that is not older than the
  -- cutoff has the last value that the report gives for it, else the value that it had, and no other
  -- key has a value.
  pub at-ingest :
      (node_id cutoff : String) (points : List (String × String × V)) (k : Key) (rows : Table V)
      → at k (ingest node_id points cutoff rows).0
        ≡ (if before k.timestamp cutoff then none else or_else (given node_id points k) (at k rows))
  unfolding ingest
  at-ingest node_id cutoff points k rows =
      at-prune cutoff k (upsert_all node_id points rows)
      ∙ ap (λ o. if before k.timestamp cutoff then none else o)
          (at-upsert_all node_id points k rows)

  -- A report that a worker sends again is as if only the second had come, where the second cutoff is
  -- not the earlier: each key has the same value.
  ingest-retry :
      (node_id cutoff later : String) (points : List (String × String × V)) (k : Key)
      (rows : Table V)
      → ((t : String) → before t cutoff ≡ true → before t later ≡ true)
      → at k (ingest node_id points later (ingest node_id points cutoff rows).0).0
        ≡ at k (ingest node_id points later rows).0
  ingest-retry node_id cutoff later points k rows h =
      at-ingest node_id later points k (ingest node_id points cutoff rows).0
      ∙ ap (λ o. if before k.timestamp later then none else or_else (given node_id points k) o)
          (at-ingest node_id cutoff points k rows)
      ∙ twice (before k.timestamp later) (before k.timestamp cutoff) (given node_id points k)
          (at k rows) (h k.timestamp)
      ∙ sym (at-ingest node_id later points k rows)
    where
      twice :
          (b c : Bool) (o p : Option V)
          → (c ≡ true → b ≡ true)
          → (if b then none else or_else o (if c then none else or_else o p))
            ≡ (if b then none else or_else o p)
      twice true c o p h = refl
      twice false true o p h = absurd (cc (h refl))
      twice false false none p h = refl
      twice false false (some v) p h = refl

  -- No key stands twice.
  abbrev IsTable : Table V → Type 0
  IsTable [] = Unit
  IsTable ((k, v) ∷ rows) = (at k rows ≡ none) × IsTable rows

  upsert-IsTable : (k : Key) (v : V) (rows : Table V) → IsTable rows → IsTable (upsert k v rows)
  unfolding at upsert
  upsert-IsTable k v [] u = (refl, tt)
  upsert-IsTable k v ((j, w) ∷ rows) u = elim (Bool-cases (same_key j k)) [
    | inl e ↦ rw e u
    | inr e ↦ rw e (
      rw (at-upsert k j v rows) (ground (arith, same_key_iff k j, same_key_iff j k, u.0, e)),
      upsert-IsTable k v rows u.1,
    )
  ]

  prune-IsTable : (cutoff : String) (rows : Table V) → IsTable rows → IsTable (prune cutoff rows)
  unfolding prune
  prune-IsTable cutoff [] u = tt
  prune-IsTable cutoff ((k, v) ∷ rows) u =
      let none_left =
        at-prune cutoff k rows ∙ ap (λ o. if before k.timestamp cutoff then none else o) u.0 in
      ground (arith, prune-IsTable cutoff rows u.1, none_left)
