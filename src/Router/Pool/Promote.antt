-- ===== src/Router/Pool/Promote.antt =====
-- The loop of `WorkerPool._promote`, one waiter at a time and as a whole.
use oumigo.Prelude.{
  ℕ, ◌+◌, ◌≤◌, ◌<◌, ◌≡◌, refl, sym, ap, ◌∙◌, subst, String, Bool, true, false, ◌&&◌, ◌⊎◌, inl, inr,
  none, List, [], ◌∷◌, Memᴰ, ltb, ◌==◌, ==ₛ_iff, arith, mem-filter, filter-mem, List-cases,
  Bool-cases, ltb→lt, lt→ltb,
}
use oumigo.Registry.{NodeRecord, list}
use oumigo.Router.Pool.{
  Fleet, Pool, Waiter, Eligible, Future, pending, cancelled, granted, is_done, accepts, capacity,
  routable, serving, available, set_count, set_future, offer, promote_loop,
}

-- A worker that a request may be given: registered, routable, accepted, and below its capacity.
pub record HasRoom (t : Fleet) (inflight : String → ℕ) (e : Eligible) (r : NodeRecord)
    : Type 0 where
  pub listed : Memᴰ r (list t.registry)
  pub routes : routable t r ≡ true
  pub accepted : accepts e r ≡ true
  pub below : inflight r.node_id < capacity t r

abbrev pub AtMost : (String → ℕ) → (String → ℕ) → Type 0
AtMost i j = (k : String) → i k ≤ j k

module _ (t : Fleet) (e : Eligible) where
  pub available-HasRoom :
      (i : String → ℕ) (r : NodeRecord) → Memᴰ r (available t i e) → HasRoom t i e r
  unfolding available serving
  available-HasRoom i r m =
      let (b, m') = mem-filter (λ r. ltb (i r.node_id) (capacity t r)) _ m in
      let (a, l) = mem-filter (λ r. routable t r && accepts e r) _ m' in
      record { listed = l; routes = ground arith; accepted = ground arith; below = ltb→lt _ _ b }

  HasRoom-available : (i : String → ℕ) (r : NodeRecord) → HasRoom t i e r → Memᴰ r (available t i e)
  unfolding available serving
  HasRoom-available i r h =
      filter-mem (λ r. ltb (i r.node_id) (capacity t r)) _ (lt→ltb _ _ h.below)
        (filter-mem (λ r. routable t r && accepts e r) _ (ground (arith, h.routes, h.accepted))
          h.listed)

  pub HasRoom-none : (i : String → ℕ) (r : NodeRecord) → available t i e ≡ [] → ¬ HasRoom t i e r
  HasRoom-none i r n h = elim (subst (Memᴰ r) n (HasRoom-available i r h)) [ ]

  HasRoom-mono :
      (i j : String → ℕ) (r : NodeRecord) → AtMost i j → HasRoom t j e r → HasRoom t i e r
  HasRoom-mono i j r le h = record {
    listed = h.listed;
    routes = h.routes;
    accepted = h.accepted;
    below = omega (arith, le r.node_id, h.below);
  }

  pub available_mono : (i j : String → ℕ) → AtMost i j → available t i e ≡ [] → available t j e ≡ []
  available_mono i j le n = elim (List-cases (available t j e)) [
    | inl m ↦ m
    | inr (r, rs, m) ↦ absurd (
        HasRoom-none i r n
          (HasRoom-mono i j r le (available-HasRoom j r (subst (Memᴰ r) (sym m) (Memᴰ.head refl)))))
  ]

-- The pool after the waiter `w` got a slot on `c`.
abbrev pub grant : Pool → Waiter → NodeRecord → Pool
grant p w c = record p {
  draws = p.draws + 1;
  inflight = set_count p.inflight c.node_id (p.inflight c.node_id + 1);
  futures = set_future p.futures w.future (granted c);
}

pub data Offered (p : Pool) (w : Waiter) (x : Pool × Bool) : Type 0 where
  discarded : is_done (p.futures w.future) ≡ true → x ≡ (p, false) → Offered p w x
  kept :
      p.futures w.future ≡ pending
      → available p.fleet p.inflight w.eligible ≡ []
      → x ≡ (p, true)
      → Offered p w x
  served :
      (c : NodeRecord)
      → p.futures w.future ≡ pending
      → HasRoom p.fleet p.inflight w.eligible c
      → x ≡ (grant p w c, false)
      → Offered p w x

not_done : (f : Future) → is_done f ≡ false → f ≡ pending
not_done pending h = refl
not_done cancelled h = cc
not_done (granted r) h = cc

pub offer-Offered : (p : Pool) (w : Waiter) → Offered p w (offer p w)
unfolding offer
offer-Offered p w = elim (Bool-cases (is_done (p.futures w.future))) [
  | inl d ↦ discarded d (rw d)
  | inr d ↦ elim (List-cases (available p.fleet p.inflight w.eligible)) [
    | inl n ↦ kept (not_done _ d) n (ground (arith, d, n))
    | inr (r, rs, n) ↦
        let c = p.rng.choice p.draws r rs in
        served c (not_done _ d)
          (available-HasRoom p.fleet w.eligible p.inflight c
            (subst (Memᴰ c) (sym n) (p.rng.choice_mem p.draws r rs)))
          (ground (arith, d, n))
  ]
]

pub HasRoom-any :
    {t : Fleet} {i : String → ℕ} {e : Eligible} {r : NodeRecord}
    → HasRoom t i e r
    → HasRoom t i none r
HasRoom-any h = record { listed = h.listed; routes = h.routes; accepted = refl; below = h.below }

pub HasRoom-accepts :
    {t : Fleet} {i : String → ℕ} {e : Eligible} {r : NodeRecord}
    → HasRoom t i none r
    → accepts e r ≡ true
    → HasRoom t i e r
HasRoom-accepts h a = record { listed = h.listed; routes = h.routes; accepted = a; below = h.below }

-- What rounds of `_promote` do to a pool: the slots in use only grow, a future that is done stays
-- as it is, and one that gets a worker gets one that had room at the start.
pub record Grows (p q : Pool) : Type 0 where
  pub fleet_same : q.fleet ≡ p.fleet
  pub queue_same : q.waiters ≡ p.waiters
  pub next_same : q.next_future ≡ p.next_future
  pub in_use : AtMost p.inflight q.inflight
  pub settled : (f : ℕ) → is_done (p.futures f) ≡ true → q.futures f ≡ p.futures f
  pub fresh :
      (f : ℕ) (r : NodeRecord)
      → p.futures f ≡ pending
      → q.futures f ≡ granted r
      → HasRoom p.fleet p.inflight none r

Grows-refl : (p : Pool) → Grows p p
Grows-refl p = record {
  fleet_same = refl;
  queue_same = refl;
  next_same = refl;
  in_use = λ k. omega arith;
  settled = λ f d. refl;
  fresh = λ f r a b. absurd (cc (sym a ∙ b));
}

pub Future-cases : (f : Future) → (f ≡ pending) ⊎ (is_done f ≡ true)
Future-cases pending = inl refl
Future-cases cancelled = inr refl
Future-cases (granted r) = inr refl

Grows-trans : {p q z : Pool} → Grows p q → Grows q z → Grows p z
Grows-trans {p} {q} {z} a b = record {
  fleet_same = b.fleet_same ∙ a.fleet_same;
  queue_same = b.queue_same ∙ a.queue_same;
  next_same = b.next_same ∙ a.next_same;
  in_use = λ k. omega (arith, a.in_use k, b.in_use k);
  settled = λ f d. b.settled f (ap is_done (a.settled f d) ∙ d) ∙ a.settled f d;
  fresh = λ f r x y. elim (Future-cases (q.futures f)) [
    | inl n ↦
        HasRoom-mono p.fleet none p.inflight q.inflight r a.in_use
          (subst (λ t. HasRoom t q.inflight none r) a.fleet_same (b.fresh f r n y))
    | inr d ↦ a.fresh f r x (sym (b.settled f d) ∙ y)
  ];
}

grant-Grows :
    (p : Pool) (w : Waiter) (c : NodeRecord)
    → p.futures w.future ≡ pending
    → HasRoom p.fleet p.inflight w.eligible c
    → Grows p (grant p w c)
grant-Grows p w c n h = record {
  fleet_same = refl;
  queue_same = refl;
  next_same = refl;
  in_use = λ k. ground (arith, ==ₛ_iff c.node_id k);
  settled = λ f d. ground arith;
  fresh = λ f r a b. elim (Bool-cases (w.future == f)) [
    | inl e ↦ subst (HasRoom p.fleet p.inflight none) (ground (arith, b)) (HasRoom-any h)
    | inr e ↦ absurd (ground (arith, a, b))
  ];
}

offer-Grows : (p : Pool) (w : Waiter) → Grows p (offer p w).0
offer-Grows p w = elim (offer-Offered p w) [
  | discarded d e ↦ rw e (Grows-refl p)
  | kept n a e ↦ rw e (Grows-refl p)
  | served c n h e ↦ rw e (grant-Grows p w c n h)
]

pub promote_loop-Grows : (p : Pool) (ws : List Waiter) → Grows p (promote_loop p ws).0
unfolding promote_loop
promote_loop-Grows p [] = Grows-refl p
promote_loop-Grows p (w ∷ ws) = Grows-trans (offer-Grows p w) (promote_loop-Grows (offer p w).0 ws)
