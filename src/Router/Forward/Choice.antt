-- ===== src/Router/Forward/Choice.antt =====
-- Which worker a request gets, by the model that it names.
use oumigo.Prelude.{
  ◌≡◌, refl, sym, ap, ◌∙◌, String, true, Option, none, some, ==ₛ_iff, arith, inl, inr, Bool-cases,
}
use oumigo.Registry.{NodeRecord}
use oumigo.Router.Pool.{
  Pool, Fleet, Eligible, Acquired, taken, no_workers, queued, promote, acquire,
}
use oumigo.Router.Pool.Promote.{HasRoom}
use oumigo.Router.Pool.Admission.{acquire_no_overtaking}
use oumigo.Router.Forward.{
  App, model, is_model, served, is_known, names, worker, refused, model_not_found, found, request,
  find_worker,
}

is_model_eq : (o : Option String) (m : String) → is_model o m ≡ true → o ≡ some m
is_model_eq none m e = absurd (cc e)
is_model_eq (some s) m e = ap some ((==ₛ_iff s m).0 e)

found-taken :
    (t : Fleet) (e : Eligible) (x : Acquired) (r : NodeRecord)
    → found t e x ≡ worker r
    → x ≡ taken r
found-taken t e (taken s) r h = ground (arith, h)
found-taken t e no_workers r h = absurd (cc h)
found-taken t e (queued f) r h = absurd (cc h)

-- A worker that is found at once is the one that `acquire` took.
request-taken :
    (p q : Pool) (e : Eligible) (r : NodeRecord)
    → request p e ≡ (q, worker r)
    → acquire p e ≡ (q, taken r)
unfolding request
request-taken p q e r h =
    let pool : (acquire p e).0 ≡ q = ap (λ z. z.0) h in
    let got : (acquire p e).1 ≡ taken r = found-taken _ e _ r (ap (λ z. z.1) h) in
    ap (λ z. (z, (acquire p e).1)) pool ∙ ap (λ x. (q, x)) got

-- A request that names a model, and gets a worker at once, gets one that serves that model, is
-- registered, routable and below its capacity.
pub find_worker_serves :
    (a : App) (p q : Pool) (m : String) (r : NodeRecord)
    → names m ≡ true
    → find_worker a p (model m) ≡ (q, worker r)
    → (served a r ≡ some m)
      × HasRoom (promote p).fleet (promote p).inflight (some (λ w. is_model (served a w) m)) r
unfolding find_worker
find_worker_serves a p q m r n h = elim (Bool-cases (is_known a p.fleet.registry m)) [
  | inl k ↦
      let e = some (λ w. is_model (served a w) m) in
      let asked : find_worker a p (model m) ≡ request p e = rw (n, k) refl in
      let (others, room) = acquire_no_overtaking p q e r (request-taken p q e r (sym asked ∙ h)) in
      (is_model_eq (served a r) m room.accepted, room)
  | inr k ↦
      let asked : find_worker a p (model m) ≡ (p, refused model_not_found) = rw (n, k) refl in
      absurd (cc (ap (λ z. z.1) (sym asked ∙ h)))
]
