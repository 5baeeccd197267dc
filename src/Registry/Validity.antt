-- ===== src/Registry/Validity.antt =====
-- What one call of the registry may do to its records, and when a registry is valid.
use oumigo.Prelude.{
  ℕ, ◌+◌, ◌≤◌, ◌<◌, ◌≡◌, refl, ◌∙◌, sym, ap, String, none, some, if◌then◌else◌, arith, Bool-cases,
  ◌==ₛ◌, ==ₛ_iff, Option-cases, inl, inr, ◌⊎◌,
}
use oumigo.Prelude.Dict.{get, IsDict, get-put, get-remove, put-IsDict, remove-IsDict}
use oumigo.Registry.{
  Call, registers, beats, forgets, reaps, step, NodeRecord, Registry, Registration, Beat, next_seq,
  register, heartbeat, beaten, forget, reap,
}
use oumigo.Registry.Reaping.{get-reap, reap-IsDict, get-heartbeat}

-- Each node stands once, under its own id; its number has been given out, and to no other node.
pub record IsValid (g : Registry) : Type 0 where
  pub unique : IsDict g.nodes
  pub keyed : (k : String) (r : NodeRecord) → get k g.nodes ≡ some r → r.node_id ≡ k
  pub given :
      (k : String) (r : NodeRecord) → get k g.nodes ≡ some r → (0 < r.seq) × (r.seq ≤ g.last_seq)
  pub distinct :
      (k j : String) (r s : NodeRecord)
      → get k g.nodes ≡ some r
      → get j g.nodes ≡ some s
      → r.seq ≡ s.seq
      → k ≡ j

-- A record of `h` is that of the same node in `g`, under the same number, or that of the node `n`,
-- which is new and takes the next number.
abbrev Comes : String → Registry → Registry → Type 0
Comes n g h =
    (k : String) (r : NodeRecord)
    → get k h.nodes ≡ some r
    → ((s : NodeRecord) × (get k g.nodes ≡ some s)
        × ((r.node_id ≡ k) ⊎ (r.node_id ≡ s.node_id))
        × (r.seq ≡ s.seq))
      ⊎ ((n ≡ k) × (r.node_id ≡ k) × (r.seq ≡ g.last_seq + 1) × (h.last_seq ≡ g.last_seq + 1))

pub record IsNext (n : String) (g h : Registry) : Type 0 where
  pub comes : Comes n g h
  pub unique : IsDict h.nodes
  pub grows : g.last_seq ≤ h.last_seq

module _ {n : String} {g h : Registry} (x : IsNext n g h) (v : IsValid g) where
  IsNext-keyed : (k : String) (r : NodeRecord) → get k h.nodes ≡ some r → r.node_id ≡ k
  IsNext-keyed k r e = elim (x.comes k r e) [
    | inl (s, f, inl i, m) ↦ i
    | inl (s, f, inr i, m) ↦ i ∙ v.keyed k s f
    | inr (p, i, m, l) ↦ i
  ]

  IsNext-given :
      (k : String) (r : NodeRecord) → get k h.nodes ≡ some r → (0 < r.seq) × (r.seq ≤ h.last_seq)
  IsNext-given k r e = elim (x.comes k r e) [
    | inl (s, f, i, m) ↦ omega (arith, v.given k s f, x.grows)
    | inr (p, i, m, l) ↦ omega arith
  ]

  IsNext-distinct :
      (k j : String) (r s : NodeRecord)
      → get k h.nodes ≡ some r
      → get j h.nodes ≡ some s
      → r.seq ≡ s.seq
      → k ≡ j
  IsNext-distinct k j r s d e q = elim (x.comes k r d) [
    | inl (r', f, i, m) ↦ elim (x.comes j s e) [
      | inl (s', f', i', m') ↦ v.distinct k j r' s' f f' (sym m ∙ q ∙ m')
      | inr (p', i', m', l') ↦ absurd (omega (arith, v.given k r' f))
    ]
    | inr (p, i, m, l) ↦ elim (x.comes j s e) [
      | inl (s', f', i', m') ↦ absurd (omega (arith, v.given j s' f'))
      | inr (p', i', m', l') ↦ sym p ∙ p'
    ]
  ]

  pub IsNext-IsValid : IsValid h
  IsNext-IsValid = record {
    unique = x.unique;
    keyed = IsNext-keyed;
    given = IsNext-given;
    distinct = IsNext-distinct;
  }

heartbeat-IsDict :
    (g : Registry) (b : Beat) (now : ℕ) → IsDict g.nodes → IsDict (heartbeat g b now).0.nodes
unfolding heartbeat
heartbeat-IsDict g b now u = elim (Option-cases (get b.node_id g.nodes)) [
  | inl e ↦ rw (e, heartbeat) u
  | inr (r, e) ↦ rw (e, heartbeat) (put-IsDict b.node_id (beaten b r now) g.nodes u)
]

heartbeat-last_seq :
    (g : Registry) (b : Beat) (now : ℕ) → (heartbeat g b now).0.last_seq ≡ g.last_seq
unfolding heartbeat
heartbeat-last_seq g b now = ground arith

heartbeat-IsNext :
    (g : Registry) (b : Beat) (now : ℕ) → IsDict g.nodes → IsNext "" g (heartbeat g b now).0
unfolding beaten
heartbeat-IsNext g b now u = record {
  comes = λ k r h. elim (Option-cases (get k g.nodes)) [
    | inl e ↦ absurd (ground (arith, get-heartbeat g b now k))
    | inr (s, e) ↦ inl (
      s,
      e,
      inr (ground (arith, get-heartbeat g b now k)),
      ground (arith, get-heartbeat g b now k),
    )
  ];
  unique = heartbeat-IsDict g b now u;
  grows = omega (arith, heartbeat-last_seq g b now);
}

reap-IsNext :
    (g : Registry) (timeout forget_after now : ℕ)
    → IsDict g.nodes
    → IsNext "" g (reap g timeout forget_after now).0
unfolding reap
reap-IsNext g timeout forget_after now u = record {
  comes = λ k r h. elim (Option-cases (get k g.nodes)) [
    | inl e ↦ absurd (ground (arith, get-reap g timeout forget_after now k u))
    | inr (s, e) ↦ inl (
      s,
      e,
      inr (ground (arith, get-reap g timeout forget_after now k u)),
      ground (arith, get-reap g timeout forget_after now k u),
    )
  ];
  unique = reap-IsDict g timeout forget_after now u;
  grows = omega arith;
}

forget-IsNext : (g : Registry) (j : String) → IsDict g.nodes → IsNext "" g (forget g j).0
unfolding forget
forget-IsNext g j u = record {
  comes = λ k r h. inl (r, ground (arith, get-remove j k g.nodes u), inr refl, refl);
  unique = remove-IsDict j g.nodes u;
  grows = omega arith;
}

get-register :
    (g : Registry) (q : Registration) (now : ℕ) (k : String)
    → get k (register g q now).0.nodes
      ≡ (if q.node_id ==ₛ k then some (register g q now).1 else get k g.nodes)
unfolding register
get-register g q now k = get-put q.node_id k (register g q now).1 g.nodes

-- Where the number comes from.
register-number :
    (g : Registry) (q : Registration) (now : ℕ)
    → ((s : NodeRecord) × (get q.node_id g.nodes ≡ some s)
        × ((register g q now).1.seq ≡ s.seq)
        × ((register g q now).0.last_seq ≡ g.last_seq))
      ⊎ ((get q.node_id g.nodes ≡ none)
          × ((register g q now).1.seq ≡ g.last_seq + 1)
          × ((register g q now).0.last_seq ≡ g.last_seq + 1))
unfolding register
register-number g q now = elim (Option-cases (get q.node_id g.nodes)) [
  | inl n ↦ inr (n, rw (n, next_seq), rw (n, next_seq))
  | inr (s, n) ↦ inl (s, n, rw (n, next_seq), rw (n, next_seq))
]

register-node_id :
    (g : Registry) (q : Registration) (now : ℕ) → (register g q now).1.node_id ≡ q.node_id
unfolding register
register-node_id g q now = refl

register-Comes :
    (g : Registry) (q : Registration) (now : ℕ) → Comes q.node_id g (register g q now).0
register-Comes g q now k r h = elim (Bool-cases (q.node_id ==ₛ k)) [
  | inl same ↦
      let e : q.node_id ≡ k = (==ₛ_iff q.node_id k).0 same in
      let f : r ≡ (register g q now).1 = ground (arith, get-register g q now k) in
      elim (register-number g q now) [
        | inl (s, n, m, _) ↦ inl (
          s,
          ap (λ i. get i g.nodes) (sym e) ∙ n,
          inl (ap (λ x. x.node_id) f ∙ register-node_id g q now ∙ e),
          ap (λ x. x.seq) f ∙ m,
        )
        | inr (n, m, l) ↦
            inr (e, ap (λ x. x.node_id) f ∙ register-node_id g q now ∙ e, ap (λ x. x.seq) f ∙ m, l)
      ]
  | inr other ↦ inl (r, ground (arith, get-register g q now k), inr refl, refl)
]

register-IsNext :
    (g : Registry) (q : Registration) (now : ℕ)
    → IsDict g.nodes
    → IsNext q.node_id g (register g q now).0
register-IsNext g q now u = record {
  comes = register-Comes g q now;
  unique = unfold register in put-IsDict q.node_id (register g q now).1 g.nodes u;
  grows = ground (arith, register-number g q now);
}

abbrev newcomer : Call → String
newcomer (registers q) = q.node_id
newcomer _ = ""

pub step-IsNext :
    (g : Registry) (now : ℕ) (c : Call) → IsDict g.nodes → IsNext (newcomer c) g (step g (now, c))
step-IsNext g now (registers q) u = register-IsNext g q now u
step-IsNext g now (beats b) u = heartbeat-IsNext g b now u
step-IsNext g now (forgets k) u = forget-IsNext g k u
step-IsNext g now (reaps timeout forget_after) u = reap-IsNext g timeout forget_after now u
