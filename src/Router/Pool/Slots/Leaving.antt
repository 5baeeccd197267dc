-- ===== src/Router/Pool/Slots/Leaving.antt =====
-- The slots in use when requests go.
use oumigo.Prelude.{
  ℕ, ◌-◌, ◌≤◌, ◌<◌, ◌≡◌, refl, sym, ap, ◌∙◌, String, Bool, true, false, List, [], ◌∷◌, ◌++◌, ◌==◌,
  ==_iff, ◌==ₛ◌, ==ₛ_iff, ==ₛ_refl, if◌then◌else◌, arith, All, All-map, All-map₂, filter-keeps,
  filter-All, lt→ltb, inl, inr, Bool-cases, filter, any,
}
use oumigo.Router.Pool.{
  Pool, Waiter, Future, pending, cancelled, granted, set_count, free, release, give_up,
}
use oumigo.Router.Pool.Slots.{Request, waiting, one_if, granted_on, times}
use oumigo.Router.Pool.Slots.Ledger.{owned-middle, times-middle, slots, waits_for}
use oumigo.Router.Pool.Slots.Loop.{is_granted, Distinct, IsLive, IsBalanced, promote-IsBalanced}

-- Others still wait when one request is gone.
gone-IsLive :
    (futures : ℕ → Future) (xs ys : List Request) (q : Request) (w : Waiter)
    → waits_for w.future q ≡ 0
    → IsLive futures (xs ++ q ∷ ys) w
    → IsLive futures (xs ++ ys) w
gone-IsLive futures xs ys q w h l = record {
  once = omega (arith, l.once, times-middle w.future xs ys q);
  unpaid = l.unpaid;
}

gone-unused :
    (p : Pool) (xs ys : List Request) (q : Request)
    → IsBalanced p (xs ++ q ∷ ys)
    → (f : ℕ) → p.next_future ≤ f
    → times f (xs ++ ys) ≡ 0
gone-unused p xs ys q b f h = omega (arith, b.unused f h, times-middle f xs ys q)

free-held :
    (p : Pool) (k : String)
    → 0 < p.inflight k
    → free p k ≡ record p { inflight = set_count p.inflight k (p.inflight k - 1) }
unfolding free
free-held p k h = rw (lt→ltb _ _ h)

-- Freeing the slot of a request that is gone.
pub free-IsBalanced :
    (p : Pool) (xs ys : List Request) (q : Request) (k : String)
    → ((n : String) → slots p.futures n q ≡ one_if (k ==ₛ n))
    → All (λ w. waits_for w.future q ≡ 0) p.waiters
    → IsBalanced p (xs ++ q ∷ ys)
    → IsBalanced (free p k) (xs ++ ys)
free-IsBalanced p xs ys q k s others b = rw (free-held p k held) (record {
  balanced = λ n. ground (
    arith,
    b.balanced n,
    b.balanced k,
    s n,
    s k,
    ==ₛ_iff k n,
    ==ₛ_refl k,
    owned-middle p.futures n xs ys q,
    owned-middle p.futures k xs ys q,
  );
  unused = gone-unused p xs ys q b;
  live = All-map₂ (λ w h l. gone-IsLive p.futures xs ys q w h l) p.waiters others b.live;
  distinct = b.distinct;
})
  where
    held : 0 < p.inflight k
    held = ground (arith, b.balanced k, s k, ==ₛ_refl k, owned-middle p.futures k xs ys q)

-- Taking the waiter out of the queue, if it is there, of a request that owns nothing and is gone.
gone-IsBalanced :
    (p : Pool) (ws : List Waiter) (xs ys : List Request) (q : Request)
    → ((n : String) → slots p.futures n q ≡ 0)
    → All (λ w. waits_for w.future q ≡ 0) ws
    → All (IsLive p.futures (xs ++ q ∷ ys)) ws
    → Distinct ws
    → IsBalanced p (xs ++ q ∷ ys)
    → IsBalanced (record p { waiters = ws }) (xs ++ ys)
gone-IsBalanced p ws xs ys q s others live d b = record {
  balanced = λ n. omega (arith, b.balanced n, s n, owned-middle p.futures n xs ys q);
  unused = gone-unused p xs ys q b;
  live = All-map₂ (λ w h l. gone-IsLive p.futures xs ys q w h l) ws others live;
  distinct = d;
}

filter-Distinct : (t : Waiter → Bool) (ws : List Waiter) → Distinct ws → Distinct (filter t ws)
filter-Distinct t [] d = tt
filter-Distinct t (w ∷ ws) d = elim (Bool-cases (t w)) [
  | inl e ↦ rw e (filter-keeps _ t ws d.0, filter-Distinct t ws d.1)
  | inr e ↦ rw e (filter-Distinct t ws d.1)
]

unpaid_owns_nothing : (v : Future) (n : String) → is_granted v ≡ false → granted_on n v ≡ 0
unpaid_owns_nothing pending n h = refl
unpaid_owns_nothing cancelled n h = refl
unpaid_owns_nothing (granted r) n h = cc

queued_unpaid :
    (futures : ℕ → Future) (qs : List Request) (f : ℕ) (ws : List Waiter)
    → any (λ w. w.future == f) ws ≡ true
    → All (IsLive futures qs) ws
    → is_granted (futures f) ≡ false
queued_unpaid futures qs f [] h l = cc
queued_unpaid futures qs f (w ∷ ws) h l = elim (Bool-cases (w.future == f)) [
  | inl e ↦ ap (λ x. is_granted (futures x)) (sym ((==_iff w.future f).0 e)) ∙ l.0.unpaid
  | inr e ↦ queued_unpaid futures qs f ws (rw e at h) l.1
]

not_queued :
    (f : ℕ) (ws : List Waiter)
    → any (λ w. w.future == f) ws ≡ false
    → All (λ w. waits_for w.future (waiting f) ≡ 0) ws
not_queued f [] h = tt
not_queued f (w ∷ ws) h = elim (Bool-cases (w.future == f)) [
  | inl e ↦ absurd (ground (arith, e, h))
  | inr e ↦ (ground (arith, e), not_queued f ws (rw e at h))
]

abbrev is_other : ℕ → Waiter → Bool
is_other f w = if w.future == f then false else true

pub abandon-IsBalanced :
    (p : Pool) (xs ys : List Request) (f : ℕ)
    → IsBalanced p (xs ++ waiting f ∷ ys)
    → IsBalanced (give_up p f) (xs ++ ys)
unfolding give_up release
abandon-IsBalanced p xs ys f b = elim (Bool-cases (any (λ w. w.future == f) p.waiters)) [
  | inl e ↦
      rw (e, give_up)
        (gone-IsBalanced p (filter (is_other f) p.waiters) xs ys (waiting f)
          (λ n. unpaid_owns_nothing _ n (queued_unpaid p.futures _ f p.waiters e b.live))
          (All-map (λ w h. ground arith) _ (filter-All (is_other f) p.waiters))
          (filter-keeps _ (is_other f) p.waiters b.live)
          (filter-Distinct (is_other f) p.waiters b.distinct) b)
  | inr e ↦ rw (e, give_up) (not_queued_case (p.futures f) refl (not_queued f p.waiters e))
]
  where
    not_queued_case :
        (v : Future)
        → p.futures f ≡ v
        → All (λ w. waits_for w.future (waiting f) ≡ 0) p.waiters
        → IsBalanced (elim v [ granted r ↦ release p r.node_id | _ ↦ p ]) (xs ++ ys)
    not_queued_case pending h others =
        gone-IsBalanced p p.waiters xs ys (waiting f) (λ n. ap (granted_on n) h) others b.live
          b.distinct b
    not_queued_case cancelled h others =
        gone-IsBalanced p p.waiters xs ys (waiting f) (λ n. ap (granted_on n) h) others b.live
          b.distinct b
    not_queued_case (granted r) h others =
        promote-IsBalanced (free p r.node_id) (xs ++ ys)
          (free-IsBalanced p xs ys (waiting f) r.node_id (λ n. ap (granted_on n) h) others b)
