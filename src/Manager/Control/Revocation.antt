-- ===== src/Manager/Control/Revocation.antt =====
-- What a pass of the revocation loop leaves in the registry.
use oumigo.Prelude.{
  ◌≡◌, refl, ◌∙◌, String, ◌&&◌, none, some, List, [], ◌∷◌, if◌then◌else◌, ==ₛ_iff, ==ₛ_refl,
  is_some, arith, Bool-cases, inl, inr,
}
use oumigo.Prelude.Dict.{Dict, get, values, IsDict, get-remove, remove-IsDict}
use oumigo.Registry.{NodeRecord, Registry, forget, list}
use oumigo.Registry.Validity.{IsValid}
use oumigo.Manager.Credentials.{AuthStore, is_node_revoked}
use oumigo.Manager.Control.{revoke_loop, revoke_pass}

-- Each record stands under its own id.
AreKeyed : Dict NodeRecord → Type 0
AreKeyed [] = Unit
AreKeyed ((k, r) ∷ d) = (r.node_id ≡ k) × AreKeyed d

keyed-AreKeyed :
    (d : Dict NodeRecord)
    → IsDict d
    → ((k : String) (r : NodeRecord) → get k d ≡ some r → r.node_id ≡ k)
    → AreKeyed d
unfolding AreKeyed get
keyed-AreKeyed [] u h = tt
keyed-AreKeyed ((k, r) ∷ d) u h = (
  h k r (rw (==ₛ_refl k) refl),
  keyed-AreKeyed d u.1 (λ j s e. h j s (ground (arith, u.0, e, ==ₛ_iff k j))),
)

get-revoke_loop :
    (store : AuthStore) (d : Dict NodeRecord) (g : Registry) (dropped : List String) (k : String)
    → AreKeyed d
    → IsDict g.nodes
    → get k (revoke_loop store (values d) g dropped).0.nodes
      ≡ (if is_node_revoked k store && is_some (get k d) then none else get k g.nodes)
unfolding AreKeyed get values revoke_loop forget
get-revoke_loop store [] g dropped k u v = ground arith
get-revoke_loop store ((j, r) ∷ d) g dropped k u v =
    elim (Bool-cases (is_node_revoked r.node_id store)) [
      | inl e ↦ rw e (
          get-revoke_loop store d (forget g r.node_id).0 (r.node_id ∷ dropped) k u.1
            (remove-IsDict r.node_id g.nodes v)
          ∙ ground (arith, e, u.0, ==ₛ_iff j k, get-remove r.node_id k g.nodes v))
      | inr e ↦
          rw e (get-revoke_loop store d g dropped k u.1 v ∙ ground (arith, e, u.0, ==ₛ_iff j k))
    ]

-- A pass of the loop forgets just the nodes that are revoked: after it a revoked node is not in the
-- registry, and any other node is there as it was.
pub get-revoke_pass :
    (store : AuthStore) (g : Registry) (k : String)
    → IsValid g
    → get k (revoke_pass store g).0.nodes
      ≡ (if is_node_revoked k store then none else get k g.nodes)
unfolding revoke_pass list
get-revoke_pass store g k v =
    get-revoke_loop store g.nodes g [] k (keyed-AreKeyed g.nodes v.unique v.keyed) v.unique
    ∙ ground arith
