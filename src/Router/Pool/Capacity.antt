-- ===== src/Router/Pool/Capacity.antt =====
-- `WorkerPool` and the capacities of its workers.
use oumigo.Prelude.{
  ℕ, ◌+◌, ◌≤◌, ◌≡◌, refl, sym, ap, ◌∙◌, subst, String, List, [], ◌∷◌, some, inl, inr, Memᴰ, arith,
  Bool-cases, ◌==ₛ◌, ==ₛ_iff,
}
use oumigo.Prelude.Dict.{get, values-get}
use oumigo.Registry.{NodeRecord, Registry, list}
use oumigo.Registry.Validity.{IsValid}
use oumigo.Router.Pool.{
  Fleet, Pool, Waiter, Eligible, capacity, set_count, take, offer, promote_loop, promote, acquire,
  admit, enqueue, free, release,
}
use oumigo.Router.Pool.Promote.{HasRoom, grant, discarded, kept, served, offer-Offered, AtMost}
use oumigo.Router.Pool.Admission.{at_once, refused, waits, admit-Admitted, promote-fleet}

-- No registered worker has more requests than its capacity.
abbrev pub IsWithin : Fleet → (String → ℕ) → Type 0
IsWithin t i = (k : String) (r : NodeRecord) → get k t.registry.nodes ≡ some r → i k ≤ capacity t r

list-get :
    (g : Registry) (r : NodeRecord) → IsValid g → Memᴰ r (list g) → get r.node_id g.nodes ≡ some r
unfolding list
list-get g r v m =
    let (k, h) = values-get g.nodes r v.unique m in
    subst (λ i. get i g.nodes ≡ some r) (sym (v.keyed k r h)) h

add-IsWithin :
    (t : Fleet) (i : String → ℕ) (e : Eligible) (c : NodeRecord)
    → IsValid t.registry
    → HasRoom t i e c
    → IsWithin t i
    → IsWithin t (set_count i c.node_id (i c.node_id + 1))
add-IsWithin t i e c v room h k r g = elim (Bool-cases (c.node_id ==ₛ k)) [
  | inl same ↦
      let q : c.node_id ≡ k = (==ₛ_iff c.node_id k).0 same in
      let s : c ≡ r =
        cc (list-get t.registry c v room.listed, ap (λ j. get j t.registry.nodes) q) in
      rw same (subst (λ x. i c.node_id + 1 ≤ capacity t x) s (omega (arith, room.below)))
  | inr other ↦ rw other (h k r g)
]

-- What the rounds of `_promote` keep.
record IsKept (p q : Pool) : Type 0 where
  fleet_same : q.fleet ≡ p.fleet
  within : IsWithin p.fleet p.inflight → IsWithin q.fleet q.inflight

grant-IsKept :
    (p : Pool) (w : Waiter) (c : NodeRecord)
    → IsValid p.fleet.registry
    → HasRoom p.fleet p.inflight w.eligible c
    → IsKept p (grant p w c)
grant-IsKept p w c v room = record {
  fleet_same = refl;
  within = add-IsWithin p.fleet p.inflight w.eligible c v room;
}

offer-IsKept : (p : Pool) (w : Waiter) → IsValid p.fleet.registry → IsKept p (offer p w).0
offer-IsKept p w v = elim (offer-Offered p w) [
  | discarded d e ↦ rw e (record { fleet_same = refl; within = λ h. h })
  | kept n a e ↦ rw e (record { fleet_same = refl; within = λ h. h })
  | served c n room e ↦ rw e (grant-IsKept p w c v room)
]

promote_loop-IsKept :
    (p : Pool) (ws : List Waiter) → IsValid p.fleet.registry → IsKept p (promote_loop p ws).0
unfolding promote_loop
promote_loop-IsKept p [] v = record { fleet_same = refl; within = λ h. h }
promote_loop-IsKept p (w ∷ ws) v =
    let a = offer-IsKept p w v in
    let b =
      promote_loop-IsKept (offer p w).0 ws (subst (λ t. IsValid t.registry) (sym a.fleet_same) v) in
    record { fleet_same = b.fleet_same ∙ a.fleet_same; within = λ h. b.within (a.within h) }

promote-IsWithin :
    (p : Pool)
    → IsValid p.fleet.registry
    → IsWithin p.fleet p.inflight
    → IsWithin (promote p).fleet (promote p).inflight
unfolding promote
promote-IsWithin p v h = (promote_loop-IsKept p p.waiters v).within h

free-fleet : (p : Pool) (k : String) → (free p k).fleet ≡ p.fleet
unfolding free
free-fleet p k = ground arith

free-le : (p : Pool) (k : String) → AtMost (free p k).inflight p.inflight
unfolding free
free-le p k j = ground (arith, ==ₛ_iff k j)

free-IsWithin :
    (p : Pool) (k : String)
    → IsWithin p.fleet p.inflight
    → IsWithin (free p k).fleet (free p k).inflight
free-IsWithin p k h =
    subst (λ t. IsWithin t (free p k).inflight) (sym (free-fleet p k))
      (λ j r g. omega (arith, free-le p k j, h j r g))

admit-IsWithin :
    (p : Pool) (e : Eligible)
    → IsValid p.fleet.registry
    → IsWithin p.fleet p.inflight
    → IsWithin (admit p e).0.fleet (admit p e).0.inflight
unfolding enqueue take
admit-IsWithin p e v h = elim (admit-Admitted p e) [
  | at_once c room x ↦ rw x (add-IsWithin p.fleet p.inflight e c v room h)
  | refused n x ↦ rw x h
  | waits s n x ↦ rw x h
]

-- While registry and capacities stay as they are, no call of the pool puts more requests on a worker
-- than its capacity.
pub calls-IsWithin :
    (p : Pool)
    → IsValid p.fleet.registry
    → IsWithin p.fleet p.inflight
    → ((e : Eligible) → let q = (acquire p e).0 in IsWithin q.fleet q.inflight)
      × ((k : String) → IsWithin (release p k).fleet (release p k).inflight)
unfolding acquire release
calls-IsWithin p v h = (
  λ e.
      admit-IsWithin (promote p) e (subst (λ t. IsValid t.registry) (sym (promote-fleet p)) v)
        (promote-IsWithin p v h),
  λ k.
      promote-IsWithin (free p k) (subst (λ t. IsValid t.registry) (sym (free-fleet p k)) v)
        (free-IsWithin p k h),
)
