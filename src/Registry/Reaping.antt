-- ===== src/Registry/Reaping.antt =====
-- What `Registry.reap` leaves, and what it reports.
use oumigo.Prelude.{
  ℕ, ◌-◌, ◌≡◌, refl, ◌∙◌, sym, String, Bool, ◌&&◌, not, Option, none, some, List, [], ◌∷◌, ◌++◌,
  if◌then◌else◌, ltb, arith, Bool-cases, ◌==ₛ◌, ==ₛ_iff, Option-cases, inl, inr, append_assoc,
  append-nil,
}
use oumigo.Prelude.Dict.{Dict, get, IsDict, get-put, get-remove, put-IsDict, remove-IsDict}
use oumigo.Protocol.{NodeState}
use oumigo.Registry.{
  NodeRecord, Registry, Reap, is_lost, silent_beyond, reap_entry, reap_loop, reap, Beat, beaten,
  heartbeat,
}

-- What becomes of one record.
abbrev reaped : ℕ → ℕ → ℕ → NodeRecord → Option NodeRecord
reaped now timeout forget_after r =
    if ltb forget_after (now - r.last_seen)
    then none
    else some (if ltb timeout (now - r.last_seen) then record r { state = NodeState.lost } else r)

-- The same against what the map holds: `o` is kept where nothing is to be done.
merged : ℕ → ℕ → ℕ → Option NodeRecord → Option NodeRecord → Option NodeRecord
merged now timeout forget_after none o = o
merged now timeout forget_after (some r) o =
    if silent_beyond now forget_after r
    then none
    else if silent_beyond now timeout r && not (is_lost r.state)
    then some (record r { state = NodeState.lost })
    else o

module _ (now timeout forget_after : ℕ) where
  get-reap_entry :
      (k j : String) (r : NodeRecord) (s : Reap)
      → IsDict s.nodes
      → get k (reap_entry now timeout forget_after j r s).nodes ≡ (
          if j ==ₛ k
          then merged now timeout forget_after (some r) (get k s.nodes)
          else get k s.nodes)
  unfolding reap_entry merged
  get-reap_entry k j r s u =
      ground
        (arith, get-remove j k s.nodes, get-put j k (record r { state = NodeState.lost }) s.nodes)

  reap_entry-IsDict :
      (j : String) (r : NodeRecord) (s : Reap)
      → IsDict s.nodes
      → IsDict (reap_entry now timeout forget_after j r s).nodes
  unfolding reap_entry
  reap_entry-IsDict j r s u =
      ground
        (arith, remove-IsDict j s.nodes, put-IsDict j (record r { state = NodeState.lost }) s.nodes)

  get-reap_loop :
      (k : String) (d : Dict NodeRecord) (s : Reap)
      → IsDict d
      → IsDict s.nodes
      → get k (reap_loop now timeout forget_after d s).nodes
        ≡ merged now timeout forget_after (get k d) (get k s.nodes)
  unfolding reap_loop get merged
  get-reap_loop k [] s u v = refl
  get-reap_loop k ((j, r) ∷ d) s u v =
      get-reap_loop k d (reap_entry now timeout forget_after j r s) u.1 (reap_entry-IsDict j r s v)
      ∙ elim (Bool-cases (j ==ₛ k)) [
        | inl e ↦ ground (arith, get-reap_entry k j r s v, ==ₛ_iff j k)
        | inr e ↦ ground (arith, get-reap_entry k j r s v)
      ]

  reap_loop-IsDict :
      (d : Dict NodeRecord) (s : Reap)
      → IsDict s.nodes
      → IsDict (reap_loop now timeout forget_after d s).nodes
  unfolding reap_loop
  reap_loop-IsDict [] s v = v
  reap_loop-IsDict ((j, r) ∷ d) s v =
      reap_loop-IsDict d (reap_entry now timeout forget_after j r s) (reap_entry-IsDict j r s v)

  merged_self :
      (o : Option NodeRecord)
      → merged now timeout forget_after o o
        ≡ elim o [ none ↦ none | some r ↦ reaped now timeout forget_after r ]
  unfolding merged silent_beyond
  merged_self none = refl
  merged_self (some r) = ground arith

pub reap-IsDict :
    (g : Registry) (timeout forget_after now : ℕ)
    → IsDict g.nodes
    → IsDict (reap g timeout forget_after now).0.nodes
unfolding reap
reap-IsDict g timeout forget_after now u = reap_loop-IsDict now timeout forget_after g.nodes _ u

-- After `reap`, a node is there just when it was there and silent for no longer than
-- `forget_after_s`; it is then marked LOST if it was silent for longer than `timeout_s`, and is
-- otherwise as it was.
pub get-reap :
    (g : Registry) (timeout forget_after now : ℕ) (k : String)
    → IsDict g.nodes
    → get k (reap g timeout forget_after now).0.nodes
      ≡ elim (get k g.nodes) [ none ↦ none | some r ↦ reaped now timeout forget_after r ]
unfolding reap
get-reap g timeout forget_after now k u =
    get-reap_loop now timeout forget_after k g.nodes _ u u
    ∙ merged_self now timeout forget_after (get k g.nodes)

abbrev keys_where : (NodeRecord → Bool) → Dict NodeRecord → List String
keys_where p [] = []
keys_where p ((k, r) ∷ d) = if p r then k ∷ keys_where p d else keys_where p d

abbrev is_forgotten : ℕ → ℕ → NodeRecord → Bool
is_forgotten now forget_after r = ltb forget_after (now - r.last_seen)

abbrev is_newly_lost : ℕ → ℕ → ℕ → NodeRecord → Bool
is_newly_lost now timeout forget_after r =
    not (ltb forget_after (now - r.last_seen))
    && (ltb timeout (now - r.last_seen) && not (is_lost r.state))

module _ (now timeout forget_after : ℕ) where
  reap_loop_reports :
      (d : Dict NodeRecord) (s : Reap)
      → let t = reap_loop now timeout forget_after d s in
        (t.removed ≡ s.removed ++ keys_where (is_forgotten now forget_after) d)
        × (t.newly_lost ≡ s.newly_lost ++ keys_where (is_newly_lost now timeout forget_after) d)
  unfolding reap_loop reap_entry silent_beyond
  reap_loop_reports [] s = (sym (append-nil s.removed), sym (append-nil s.newly_lost))
  reap_loop_reports ((k, r) ∷ d) s = ground (
    arith,
    reap_loop_reports d (reap_entry now timeout forget_after k r s),
    append_assoc s.removed (k ∷ []) (keys_where (is_forgotten now forget_after) d),
    append_assoc s.newly_lost (k ∷ []) (keys_where (is_newly_lost now timeout forget_after) d),
  )

-- `reap` reports, in the order of the map, just the nodes that it removed, and just those that it
-- marked LOST and that were not marked before.
reap_reports :
    (g : Registry) (timeout forget_after now : ℕ)
    → let s = (reap g timeout forget_after now).1 in
      (s.removed ≡ keys_where (is_forgotten now forget_after) g.nodes)
      × (s.newly_lost ≡ keys_where (is_newly_lost now timeout forget_after) g.nodes)
unfolding reap
reap_reports g timeout forget_after now = reap_loop_reports now timeout forget_after g.nodes _

-- What the map holds for the sender after a heartbeat.
pub get-heartbeat :
    (g : Registry) (b : Beat) (now : ℕ) (k : String)
    → get k (heartbeat g b now).0.nodes ≡ (
        if b.node_id ==ₛ k
        then elim (get k g.nodes) [ none ↦ none | some r ↦ some (beaten b r now) ]
        else get k g.nodes)
unfolding heartbeat
get-heartbeat g b now k = elim (Option-cases (get b.node_id g.nodes)) [
  | inl e ↦ ground (arith, ==ₛ_iff b.node_id k)
  | inr (r, e) ↦ ground (arith, ==ₛ_iff b.node_id k, get-put b.node_id k (beaten b r now) g.nodes)
]
