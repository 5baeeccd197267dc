-- ===== src/Router/Pool/Slots/Joining.antt =====
-- The slots in use when requests come, pick up a worker, or stop to wait.
use oumigo.Prelude.{
  ℕ, ◌≡◌, ◌≢◌, refl, sym, ap, ◌∙◌, true, List, [], ◌∷◌, ◌++◌, ==_iff, ==ₛ_iff, arith, All, All-map,
  All-append-one, inl, inr,
}
use oumigo.Registry.{NodeRecord}
use oumigo.Router.Pool.{
  Pool, Waiter, Eligible, pending, cancelled, granted, is_done, set_future, enqueue, admit, cancel,
  take,
}
use oumigo.Router.Pool.Promote.{Future-cases}
use oumigo.Router.Pool.Admission.{at_once, refused, waits, admit-Admitted, took}
use oumigo.Router.Pool.Slots.{Request, waiting, holding, joined, granted_on, owned, times}
use oumigo.Router.Pool.Slots.Ledger.{owned-middle, times-middle, owned-set_future, owned-set_unused}
use oumigo.Router.Pool.Slots.Loop.{Distinct, IsLive, IsBalanced}

took-IsBalanced :
    (p : Pool) (c : NodeRecord) (qs : List Request)
    → IsBalanced p qs
    → IsBalanced (took p c) (holding c ∷ qs)
unfolding take owned times
took-IsBalanced p c qs b = record {
  balanced = λ n. ground (arith, b.balanced n, b.balanced c.node_id, ==ₛ_iff c.node_id n);
  unused = b.unused;
  live = All-map (λ w l. record { once = l.once; unpaid = l.unpaid }) p.waiters b.live;
  distinct = b.distinct;
}

Distinct-append-one :
    (ws : List Waiter) (w : Waiter)
    → All (λ u. w.future ≢ u.future) ws
    → Distinct ws
    → Distinct (ws ++ w ∷ [])
Distinct-append-one [] w h d = (tt, tt)
Distinct-append-one (u ∷ ws) w h d =
    (All-append-one (λ v. v.future ≢ u.future) ws d.0 h.0, Distinct-append-one ws w h.1 d.1)

-- The next future is none that somebody waits for.
not_next :
    (p : Pool) (qs : List Request) (w : Waiter)
    → IsBalanced p qs
    → IsLive p.futures qs w
    → p.next_future ≢ w.future
not_next p qs w b l e = absurd (omega (arith, l.once, b.unused w.future (omega arith)))

enqueue-IsBalanced :
    (p : Pool) (e : Eligible) (qs : List Request)
    → IsBalanced p qs
    → IsBalanced (enqueue p e).0 (waiting p.next_future ∷ qs)
unfolding enqueue owned times
enqueue-IsBalanced p e qs b = record {
  balanced = λ n. ground (
    arith,
    b.balanced n,
    owned-set_unused p.futures n p.next_future pending qs (b.unused p.next_future (omega arith)),
  );
  unused = λ f h. ground (arith, b.unused f);
  live =
      All-append-one (IsLive _ _) p.waiters
        (All-map
          (λ w l.
            let ne = not_next p qs w b l in
            record {
              once = ground (arith, l.once, ne, ==_iff p.next_future w.future);
              unpaid = ground (arith, l.unpaid, ne, ==_iff p.next_future w.future);
            })
          p.waiters b.live)
        (record { once = ground (arith, b.unused p.next_future); unpaid = ground arith });
  distinct =
      Distinct-append-one p.waiters _ (All-map (λ w l. not_next p qs w b l) p.waiters b.live)
        b.distinct;
}

pub admit-IsBalanced :
    (p : Pool) (e : Eligible) (qs : List Request)
    → IsBalanced p qs
    → IsBalanced (admit p e).0 (joined (admit p e).1 ++ qs)
unfolding enqueue
admit-IsBalanced p e qs b = elim (admit-Admitted p e) [
  | at_once c room x ↦ rw x (took-IsBalanced p c qs b)
  | refused n x ↦ rw x b
  | waits s n x ↦ rw x (enqueue-IsBalanced p e qs b)
]

-- The request of a granted future picks up its worker.
pub resume-IsBalanced :
    (p : Pool) (xs ys : List Request) (f : ℕ) (r : NodeRecord)
    → p.futures f ≡ granted r
    → IsBalanced p (xs ++ waiting f ∷ ys)
    → IsBalanced p (xs ++ holding r ∷ ys)
resume-IsBalanced p xs ys f r g b = record {
  balanced = λ n. ground (
    arith,
    g,
    b.balanced n,
    owned-middle p.futures n xs ys (waiting f),
    owned-middle p.futures n xs ys (holding r),
  );
  unused = λ k h.
      omega
        (arith, b.unused k h, times-middle k xs ys (waiting f), times-middle k xs ys (holding r));
  live =
      All-map
        (λ w l. record {
          once = ground (
            arith,
            g,
            l.once,
            l.unpaid,
            ==_iff f w.future,
            times-middle w.future xs ys (waiting f),
            times-middle w.future xs ys (holding r),
          );
          unpaid = l.unpaid;
        })
        p.waiters b.live;
  distinct = b.distinct;
}

cancel-done : (p : Pool) (f : ℕ) → is_done (p.futures f) ≡ true → cancel p f ≡ p
unfolding cancel
cancel-done p f d = ground arith

cancel-pending :
    (p : Pool) (f : ℕ)
    → p.futures f ≡ pending
    → cancel p f ≡ record p { futures = set_future p.futures f cancelled }
unfolding cancel
cancel-pending p f e = rw (e, cancel)

pub cancel-IsBalanced :
    (p : Pool) (f : ℕ) (qs : List Request) → IsBalanced p qs → IsBalanced (cancel p f) qs
cancel-IsBalanced p f qs b = elim (Future-cases (p.futures f)) [
  | inr d ↦ rw (cancel-done p f d) b
  | inl e ↦ rw (cancel-pending p f e) (record {
    balanced = λ n.
        b.balanced n ∙ sym (owned-set_future p.futures n f cancelled qs (ap (granted_on n) e) refl);
    unused = b.unused;
    live =
        All-map (λ w l. record { once = l.once; unpaid = ground (arith, l.unpaid) }) p.waiters
          b.live;
    distinct = b.distinct;
  })
]
