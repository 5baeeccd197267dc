-- ===== src/Router/Pool/Slots/Loop.antt =====
-- The loop of `_promote`, the slots in use and those that requests own.
use oumigo.Prelude.{
  ℕ, ◌≤◌, ◌≡◌, ◌≢◌, refl, sym, ap, ◌∙◌, String, Bool, true, false, List, [], ◌∷◌, ==ₛ_iff, arith,
  All, All-map, inl, inr, Bool-cases,
}
use oumigo.Router.Pool.{Pool, Waiter, Future, granted, offer, promote_loop, promote}
use oumigo.Router.Pool.Promote.{discarded, kept, served, offer-Offered, promote_loop-Grows}
use oumigo.Router.Pool.Fairness.{offer-other}
use oumigo.Router.Pool.Slots.{Request, owned, times}
use oumigo.Router.Pool.Slots.Ledger.{owned-grant}

abbrev pub is_granted : Future → Bool
is_granted (granted r) = true
is_granted _ = false

abbrev pub Distinct : List Waiter → Type 0
Distinct [] = Unit
Distinct (w ∷ ws) = All (λ u. u.future ≢ w.future) ws × Distinct ws

-- Each slot in use is owned.
abbrev pub Balanced : (String → ℕ) → (ℕ → Future) → List Request → Type 0
Balanced inflight futures qs = (n : String) → inflight n ≡ owned futures n qs

-- One request waits for the future of each waiter, which was not granted.
pub record IsLive (futures : ℕ → Future) (qs : List Request) (w : Waiter) : Type 0 where
  pub once : times w.future qs ≡ 1
  pub unpaid : is_granted (futures w.future) ≡ false

pub record IsBalanced (p : Pool) (qs : List Request) : Type 0 where
  pub balanced : Balanced p.inflight p.futures qs
  pub unused : (f : ℕ) → p.next_future ≤ f → times f qs ≡ 0
  pub live : All (IsLive p.futures qs) p.waiters
  pub distinct : Distinct p.waiters

promote_loop-All :
    (P : Waiter → Type 0) (p : Pool) (ws : List Waiter) → All P ws → All P (promote_loop p ws).1
unfolding promote_loop
promote_loop-All P p [] h = tt
promote_loop-All P p (w ∷ ws) h = elim (Bool-cases (offer p w).1) [
  | inl e ↦ rw e (h.0, promote_loop-All P (offer p w).0 ws h.1)
  | inr e ↦ rw e (promote_loop-All P (offer p w).0 ws h.1)
]

promote_loop-Distinct : (p : Pool) (ws : List Waiter) → Distinct ws → Distinct (promote_loop p ws).1
unfolding promote_loop
promote_loop-Distinct p [] h = tt
promote_loop-Distinct p (w ∷ ws) h = elim (Bool-cases (offer p w).1) [
  | inl e ↦ rw e (
    promote_loop-All (λ u. u.future ≢ w.future) (offer p w).0 ws h.0,
    promote_loop-Distinct (offer p w).0 ws h.1,
  )
  | inr e ↦ rw e (promote_loop-Distinct (offer p w).0 ws h.1)
]

promote_loop-other :
    (p : Pool) (ws : List Waiter) (f : ℕ)
    → All (λ u. u.future ≢ f) ws
    → (promote_loop p ws).0.futures f ≡ p.futures f
unfolding promote_loop
promote_loop-other p [] f h = refl
promote_loop-other p (w ∷ ws) f h =
    promote_loop-other (offer p w).0 ws f h.1 ∙ offer-other p w f h.0

offer-unpaid :
    (p : Pool) (w : Waiter) (ws : List Waiter) (qs : List Request)
    → All (λ u. u.future ≢ w.future) ws
    → All (IsLive p.futures qs) ws
    → All (IsLive (offer p w).0.futures qs) ws
offer-unpaid p w [] qs d h = tt
offer-unpaid p w (u ∷ ws) qs d h = (
  record {
    once = h.0.once;
    unpaid = ap is_granted (offer-other p w u.future (λ e. d.0 (sym e))) ∙ h.0.unpaid;
  },
  offer-unpaid p w ws qs d.1 h.1,
)

promote_loop-IsLive :
    (p : Pool) (ws : List Waiter) (qs : List Request)
    → Distinct ws
    → All (IsLive p.futures qs) ws
    → All (IsLive (promote_loop p ws).0.futures qs) (promote_loop p ws).1
unfolding promote_loop
promote_loop-IsLive p [] qs d h = tt
promote_loop-IsLive p (w ∷ ws) qs d h =
    let rest = promote_loop-IsLive (offer p w).0 ws qs d.1 (offer-unpaid p w ws qs d.0 h.1) in
    elim (offer-Offered p w) [
      | discarded m e ↦ rw (ap (λ x. x.1) e) rest
      | kept n s e ↦ rw (ap (λ x. x.1) e) (
        record {
          once = h.0.once;
          unpaid = ap is_granted (
              promote_loop-other (offer p w).0 ws w.future d.0
              ∙ ap (λ x. x.0.futures w.future) e
              ∙ n);
        },
        rest,
      )
      | served c n room e ↦ rw (ap (λ x. x.1) e) rest
    ]

offer-Balanced :
    (p : Pool) (w : Waiter) (qs : List Request)
    → times w.future qs ≡ 1
    → Balanced p.inflight p.futures qs
    → Balanced (offer p w).0.inflight (offer p w).0.futures qs
offer-Balanced p w qs o b = elim (offer-Offered p w) [
  | discarded m e ↦ rw e b
  | kept n s e ↦ rw e b
  | served c n room e ↦ rw e λ k.
      ground (arith, owned-grant p.futures k w.future c qs n, b k, b c.node_id, ==ₛ_iff c.node_id k)
]

promote_loop-Balanced :
    (p : Pool) (ws : List Waiter) (qs : List Request)
    → All (λ w. times w.future qs ≡ 1) ws
    → Balanced p.inflight p.futures qs
    → Balanced (promote_loop p ws).0.inflight (promote_loop p ws).0.futures qs
unfolding promote_loop
promote_loop-Balanced p [] qs o b = b
promote_loop-Balanced p (w ∷ ws) qs o b =
    promote_loop-Balanced (offer p w).0 ws qs o.1 (offer-Balanced p w qs o.0 b)

pub promote-IsBalanced :
    (p : Pool) (qs : List Request) → IsBalanced p qs → IsBalanced (promote p) qs
unfolding promote
promote-IsBalanced p qs b = record {
  balanced =
      promote_loop-Balanced p p.waiters qs (All-map (λ w l. l.once) p.waiters b.live) b.balanced;
  unused = λ f h. b.unused f (omega (arith, (promote_loop-Grows p p.waiters).next_same));
  live = promote_loop-IsLive p p.waiters qs b.distinct b.live;
  distinct = promote_loop-Distinct p p.waiters b.distinct;
}
