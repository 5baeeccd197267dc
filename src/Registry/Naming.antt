-- ===== src/Registry/Naming.antt =====
-- The numbers behind the names `Worker#N`, over any calls of the registry.
use oumigo.Prelude.{ℕ, ◌≤◌, ◌≡◌, refl, ◌∙◌, sym, String, some, List, [], ◌∷◌, arith, inl, inr}
use oumigo.Prelude.Dict.{get}
use oumigo.Registry.{Call, step, run, NodeRecord, Registry, empty}
use oumigo.Registry.Validity.{IsValid, IsNext-IsValid, step-IsNext}

-- Every call keeps the registry valid: one record to a node, under its own id, and no number given
-- to two nodes.
pub step-IsValid : (g : Registry) (c : ℕ × Call) → IsValid g → IsValid (step g c)
step-IsValid g (now, c) v = IsNext-IsValid (step-IsNext g now c v.unique) v

empty-IsValid : IsValid empty
unfolding empty get
empty-IsValid = record {
  unique = tt;
  keyed = λ k r h. cc;
  given = λ k r h. cc;
  distinct = λ k j r s h. cc;
}

run-IsValid : (g : Registry) (cs : List (ℕ × Call)) → IsValid g → IsValid (run g cs)
unfolding run
run-IsValid g [] v = v
run-IsValid g (c ∷ cs) v = run-IsValid (step g c) cs (step-IsValid g c v)

-- So it is valid after any calls from the start of the manager.
pub run-empty-IsValid : (cs : List (ℕ × Call)) → IsValid (run empty cs)
run-empty-IsValid cs = run-IsValid empty cs empty-IsValid

step-number :
    (g : Registry) (c : ℕ × Call) (k : String) (s : NodeRecord) (given : ℕ)
    → IsValid g
    → given ≤ g.last_seq
    → get k (step g c).nodes ≡ some s
    → s.seq ≤ given
    → (r : NodeRecord) × (get k g.nodes ≡ some r) × (r.seq ≡ s.seq)
step-number g (now, c) k s given v h e l = elim ((step-IsNext g now c v.unique).comes k s e) [
  | inl (r, f, _, m) ↦ (r, f, sym m)
  | inr (_, _, m, _) ↦ absurd (omega arith)
]

run-number :
    (g : Registry) (cs : List (ℕ × Call)) (k : String) (s : NodeRecord) (given : ℕ)
    → IsValid g
    → given ≤ g.last_seq
    → get k (run g cs).nodes ≡ some s
    → s.seq ≤ given
    → (r : NodeRecord) × (get k g.nodes ≡ some r) × (r.seq ≡ s.seq)
unfolding run
run-number g [] k s given v h e l = (s, e, refl)
run-number g (c ∷ cs) k s given v h e l =
    let x = step-IsNext g c.0 c.1 v.unique in
    let (r, f, m) =
      run-number (step g c) cs k s given (step-IsValid g c v) (omega (arith, x.grows)) e l in
    let (q, f', m') = step-number g c k r given v h f (omega arith) in (q, f', m' ∙ m)

-- A name is never given to another node, nor to the same node again once it was forgotten: whatever
-- calls follow, a node that then bears a number which had been given out before them is the node
-- that was registered under that number before them.
pub run_keeps_numbers :
    (g : Registry) (cs : List (ℕ × Call)) (k : String) (s : NodeRecord)
    → IsValid g
    → get k (run g cs).nodes ≡ some s
    → s.seq ≤ g.last_seq
    → (r : NodeRecord) × (get k g.nodes ≡ some r) × (r.seq ≡ s.seq)
run_keeps_numbers g cs k s v e l = run-number g cs k s g.last_seq v (omega arith) e l
