-- ===== src/Router/Pool/Fairness.antt =====
-- Who gets a slot that `WorkerPool` has to give, and who does not.
use oumigo.Prelude.{
  ℕ, ◌≡◌, ◌≢◌, sym, ap, ◌∙◌, true, false, inl, inr, none, List, [], ◌∷◌, ◌++◌, ==_iff, arith,
  Bool-cases, All, All-append-left, All-append-last,
}
use oumigo.Registry.{NodeRecord}
use oumigo.Router.Pool.{
  Pool, Waiter, pending, granted, is_done, accepts, available, offer, promote_loop, promote,
}
use oumigo.Router.Pool.Promote.{
  HasRoom, HasRoom-none, HasRoom-accepts, available_mono, Grows, grant, discarded, kept, served,
  offer-Offered, promote_loop-Grows,
}

-- No worker has room for the waiter.
abbrev pub IsStuck : Pool → Waiter → Type 0
IsStuck p w = available p.fleet p.inflight w.eligible ≡ []

IsStuck-Grows : (p q : Pool) (w : Waiter) → Grows p q → IsStuck p w → IsStuck q w
IsStuck-Grows p q w g s =
    rw (g.fleet_same) (available_mono p.fleet w.eligible p.inflight q.inflight g.in_use s)

promote_loop_exhausts :
    (p : Pool) (ws : List Waiter) → All (IsStuck (promote_loop p ws).0) (promote_loop p ws).1
unfolding promote_loop
promote_loop_exhausts p [] = tt
promote_loop_exhausts p (w ∷ ws) =
    let rest = promote_loop_exhausts (offer p w).0 ws in
    elim (offer-Offered p w) [
      | discarded d e ↦ rw (ap (λ x. x.1) e) rest
      | kept n s e ↦ rw (ap (λ x. x.1) e) (
        IsStuck-Grows p (promote_loop (offer p w).0 ws).0 w (promote_loop-Grows p (w ∷ ws)) s,
        rest,
      )
      | served c n h e ↦ rw (ap (λ x. x.1) e) rest
    ]

-- After `_promote` no slot is free that a waiter could use: whoever is still in the queue accepts no
-- routable worker below its capacity.
pub promote_exhausts : (p : Pool) → All (IsStuck (promote p)) (promote p).waiters
unfolding promote
promote_exhausts p = promote_loop_exhausts p p.waiters

pub offer-other :
    (p : Pool) (w : Waiter) (f : ℕ) → w.future ≢ f → (offer p w).0.futures f ≡ p.futures f
offer-other p w f n = elim (offer-Offered p w) [
  | discarded d e ↦ rw e
  | kept m s e ↦ rw e
  | served c m h e ↦ rw e (ground (arith, ==_iff w.future f))
]

grant-is_done :
    (p : Pool) (w : Waiter) (c : NodeRecord) → is_done ((grant p w c).futures w.future) ≡ true
grant-is_done p w c = ground (arith, ==_iff w.future w.future)

-- A waiter that stays pending and comes first keeps later ones from the workers that it accepts.
stays_first :
    (p : Pool) (w : Waiter) (ys : List Waiter) (f : ℕ) (r : NodeRecord)
    → (promote_loop p (w ∷ ys)).0.futures w.future ≡ pending
    → w.future ≢ f
    → p.futures f ≡ pending
    → (promote_loop p (w ∷ ys)).0.futures f ≡ granted r
    → accepts w.eligible r ≡ false
unfolding promote_loop
stays_first p w ys f r stays ne a b = elim (offer-Offered p w) [
  | discarded d e ↦ absurd (cc (done (ap (λ x. is_done (x.0.futures w.future)) e ∙ d)))
  | kept n s e ↦ elim (Bool-cases (accepts w.eligible r)) [
    | inl would ↦
        absurd (HasRoom-none p.fleet w.eligible p.inflight r s (HasRoom-accepts room would))
    | inr not_accepted ↦ not_accepted
  ]
  | served c n h e ↦
      absurd (cc (done (ap (λ x. is_done (x.0.futures w.future)) e ∙ grant-is_done p w c)))
]
  where
    room : HasRoom p.fleet p.inflight none r
    room = (promote_loop-Grows p (w ∷ ys)).fresh f r a b

    done : is_done ((offer p w).0.futures w.future) ≡ true → false ≡ true
    done d =
        sym (ap is_done stays)
        ∙ ap is_done ((promote_loop-Grows (offer p w).0 ys).settled w.future d)
        ∙ d

promote_loop_fifo :
    (p : Pool) (xs ys : List Waiter) (w : Waiter) (f : ℕ) (r : NodeRecord)
    → (promote_loop p (xs ++ w ∷ ys)).0.futures w.future ≡ pending
    → All (λ u. u.future ≢ f) xs
    → w.future ≢ f
    → p.futures f ≡ pending
    → (promote_loop p (xs ++ w ∷ ys)).0.futures f ≡ granted r
    → accepts w.eligible r ≡ false
promote_loop_fifo p [] ys w f r stays others ne a b = stays_first p w ys f r stays ne a b
promote_loop_fifo p (x ∷ xs) ys w f r stays others ne a b =
    promote_loop_fifo (offer p x).0 xs ys w f r (unfold promote_loop in stays) others.1 ne
      (offer-other p x f others.0 ∙ a) (unfold promote_loop in b)

-- First in, first out among those that accept a worker: when `_promote` gives the worker `r` to the
-- waiter `u`, then a waiter `w` before it in the queue that is left waiting does not accept `r`.
pub promote_fifo :
    (p : Pool) (xs ys : List Waiter) (w u : Waiter) (r : NodeRecord)
    → p.waiters ≡ xs ++ w ∷ ys
    → All (λ v. v.future ≢ u.future) (xs ++ w ∷ [])
    → p.futures u.future ≡ pending
    → (promote p).futures w.future ≡ pending
    → (promote p).futures u.future ≡ granted r
    → accepts w.eligible r ≡ false
unfolding promote
promote_fifo p xs ys w u r q others a stays b =
    promote_loop_fifo p xs ys w u.future r
      (ap (λ ws. (promote_loop p ws).0.futures w.future) (sym q) ∙ stays)
      (All-append-left _ xs (w ∷ []) others)
      (All-append-last (λ v. v.future ≢ u.future) xs w others) a
      (ap (λ ws. (promote_loop p ws).0.futures u.future) (sym q) ∙ b)
