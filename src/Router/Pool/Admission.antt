-- ===== src/Router/Pool/Admission.antt =====
-- What `WorkerPool.acquire` answers, and when.
use oumigo.Prelude.{
  ℕ, ◌+◌, ◌≡◌, ◌≢◌, ◌↔◌, sym, ap, ◌∙◌, subst, String, true, false, inl, inr, [], Memᴰ, ◌==◌, arith,
  List-cases, Bool-cases, All, All-map, length, filter-mem, ◌&&◌, All-append-one, ==ₛ_iff,
}
use oumigo.Registry.{NodeRecord, list}
use oumigo.Router.Pool.{
  Fleet, Pool, Waiter, Eligible, accepts, serving, available, healthy_count, routable, free,
  release, take, promote, Acquired, taken, no_workers, enqueue, admit, acquire,
}
use oumigo.Router.Pool.Promote.{
  HasRoom, available-HasRoom, HasRoom-none, HasRoom-any, HasRoom-accepts, available_mono,
  promote_loop-Grows,
}
use oumigo.Router.Pool.Fairness.{IsStuck, promote_exhausts}

-- The pool after a request took a slot on `c` at once.
abbrev pub took : Pool → NodeRecord → Pool
took p c = take (record p { draws = p.draws + 1 }) c

pub data Admitted (p : Pool) (e : Eligible) (x : Pool × Acquired) : Type 0 where
  at_once :
      (c : NodeRecord) → HasRoom p.fleet p.inflight e c → x ≡ (took p c, taken c) → Admitted p e x
  refused : serving p.fleet e ≡ [] → x ≡ (p, no_workers) → Admitted p e x
  waits :
      serving p.fleet e ≢ []
      → available p.fleet p.inflight e ≡ []
      → x ≡ enqueue p e
      → Admitted p e x

healthy_count_zero : (t : Fleet) (e : Eligible) → (healthy_count t e == 0) ≡ true → serving t e ≡ []
unfolding healthy_count
healthy_count_zero t e h = elim (List-cases (serving t e)) [
  | inl n ↦ n
  | inr (r, rs, n) ↦ absurd (ground (arith, ap length n))
]

healthy_count_pos : (t : Fleet) (e : Eligible) → (healthy_count t e == 0) ≡ false → serving t e ≢ []
unfolding healthy_count
healthy_count_pos t e h n = ground (arith, ap length n)

pub admit-Admitted : (p : Pool) (e : Eligible) → Admitted p e (admit p e)
unfolding admit
admit-Admitted p e = elim (List-cases (available p.fleet p.inflight e)) [
  | inl n ↦ elim (Bool-cases (healthy_count p.fleet e == 0)) [
    | inl z ↦ refused (healthy_count_zero p.fleet e z) (ground (arith, n, z))
    | inr z ↦ waits (healthy_count_pos p.fleet e z) n (ground (arith, n, z))
  ]
  | inr (r, rs, n) ↦
      let c = p.rng.choice p.draws r rs in
      at_once c
        (available-HasRoom p.fleet e p.inflight c
          (subst (Memᴰ c) (sym n) (p.rng.choice_mem p.draws r rs)))
        (unfold take in ground (arith, n))
]

pub promote-fleet : (p : Pool) → (promote p).fleet ≡ p.fleet
unfolding promote
promote-fleet p = (promote_loop-Grows p p.waiters).fleet_same

HasRoom-serving :
    (t : Fleet) {i : String → ℕ} (e : Eligible) (r : NodeRecord)
    → HasRoom t i e r
    → Memᴰ r (serving t e)
unfolding serving
HasRoom-serving t e r h =
    filter-mem (λ r. routable t r && accepts e r) (list t.registry)
      (ground (arith, h.routes, h.accepted)) h.listed

-- A worker that has room for a request has none for a waiter, so the waiter does not accept it.
stuck_refuses :
    (p : Pool) (e : Eligible) (c : NodeRecord)
    → HasRoom p.fleet p.inflight e c
    → (w : Waiter) → IsStuck p w
    → accepts w.eligible c ≡ false
stuck_refuses p e c h w s = elim (Bool-cases (accepts w.eligible c)) [
  | inl a ↦
      absurd (HasRoom-none p.fleet w.eligible p.inflight c s (HasRoom-accepts (HasRoom-any h) a))
  | inr a ↦ a
]

-- No overtaking: a request that gets a worker at once, without a wait, gets one that no request in
-- the queue accepts; and it has room for it: it is registered, routable, accepted by the request and
-- below its capacity after the earlier waiters were served.
pub acquire_no_overtaking :
    (p q : Pool) (e : Eligible) (r : NodeRecord)
    → acquire p e ≡ (q, taken r)
    → All (λ w. accepts w.eligible r ≡ false) q.waiters
      × HasRoom (promote p).fleet (promote p).inflight e r
unfolding acquire take
acquire_no_overtaking p q e r h = elim (admit-Admitted (promote p) e) [
  | at_once c room x ↦
      let same : r ≡ c = cc (sym h ∙ x) in
      let queue : q.waiters ≡ (promote p).waiters = ap (λ z. z.0.waiters) (sym h ∙ x) in
      (
        rw queue (
            rw same (
              All-map (stuck_refuses (promote p) e c room) (promote p).waiters
                (promote_exhausts p))),
        rw same room,
      )
  | refused n x ↦ absurd (cc (sym h ∙ x))
  | waits s n x ↦ absurd (unfold enqueue in cc (sym h ∙ x))
]

-- `acquire` fails at once just when no worker that the request accepts is routable.
acquire_no_workers :
    (p : Pool) (e : Eligible) → ((acquire p e).1 ≡ no_workers) ↔ (serving p.fleet e ≡ [])
unfolding acquire enqueue
acquire_no_workers p e = elim (admit-Admitted (promote p) e) [
  | at_once c room x ↦ (
    λ h. absurd (cc (sym h ∙ ap (λ z. z.1) x)),
    λ n. elim (subst (Memᴰ c) (same ∙ n) (HasRoom-serving (promote p).fleet e c room)) [ ],
  )
  | refused n x ↦ ((λ h. sym same ∙ n), λ m. ap (λ z. z.1) x)
  | waits s n x ↦ ((λ h. absurd (cc (sym h ∙ ap (λ z. z.1) x))), λ m. absurd (s (same ∙ m)))
]
  where
    same : serving (promote p).fleet e ≡ serving p.fleet e
    same = ap (λ t. serving t e) (promote-fleet p)

took-IsStuck : (p : Pool) (c : NodeRecord) (w : Waiter) → IsStuck p w → IsStuck (took p c) w
unfolding take
took-IsStuck p c w s =
    available_mono p.fleet w.eligible p.inflight (took p c).inflight
      (λ k. ground (arith, ==ₛ_iff c.node_id k)) s

-- Whatever a request is answered, and after every release, no slot is free that a waiter could use;
-- this covers the request itself where it was put in the queue.
pub calls_exhaust :
    (p : Pool)
    → ((e : Eligible) → All (IsStuck (acquire p e).0) (acquire p e).0.waiters)
      × ((k : String) → All (IsStuck (release p k)) (release p k).waiters)
unfolding acquire release take enqueue
calls_exhaust p = (
  λ e. elim (admit-Admitted (promote p) e) [
    | at_once c room x ↦
        rw x (All-map (took-IsStuck (promote p) c) (promote p).waiters (promote_exhausts p))
    | refused n x ↦ rw x (promote_exhausts p)
    | waits s n x ↦ rw x (All-append-one _ (promote p).waiters (promote_exhausts p) n)
  ],
  λ k. promote_exhausts (free p k),
)
