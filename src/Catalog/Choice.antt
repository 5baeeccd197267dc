-- ===== src/Catalog/Choice.antt =====
-- What a fleet's catalog holds, and its default.
use oumigo.Prelude.{
  ℕ, ◌≡◌, ◌≢◌, refl, sym, ap, subst, ◌∙◌, String, Bool, true, Option, none, some, List, [], ◌∷◌,
  if◌then◌else◌, ◌==ₛ◌, ==ₛ_iff, is_some, any, ◌⊎◌, inl, inr, arith, Bool-cases, Option-cases,
}
use oumigo.Prelude.Dict.{Dict, get, put, get-put}
use oumigo.Catalog.{
  Profile, CatalogError, FleetCatalog, Block, Legacy, fleet_catalog, default_profile, select,
  all_known, from_available, from_block, from_config, load_profiles, legacy_profile, is_nothing,
  from_loaded,
}

abbrev pub allowed : String → List String → Bool
allowed k allow = any (λ pid. pid ==ₛ k) allow

get-select :
    (allow : List String) (available acc : Dict Profile) (k : String)
    → all_known allow available ≡ true
    → get k (select allow available acc) ≡ (if allowed k allow then get k available else get k acc)
unfolding select all_known
get-select [] available acc k h = refl
get-select (pid ∷ allow) available acc k h = elim (Option-cases (get pid available)) [
  | inl e ↦ absurd (ground (arith, h, e))
  | inr (p, e) ↦
      let rest : all_known allow available ≡ true = ground (arith, h) in
      ap (λ o. get k (select allow available (elim o [ none ↦ acc | some q ↦ put pid q acc ]))) e
      ∙ get-select allow available (put pid p acc) k rest
      ∙ ap (λ o. if allowed k allow then get k available else o) (get-put pid k p acc)
      ∙ elim (Bool-cases (pid ==ₛ k)) [
        | inr f ↦ rw f refl
        | inl f ↦
            let same : get k available ≡ some p =
              ap (λ i. get i available) (sym ((==ₛ_iff pid k).0 f)) ∙ e in
            ground (arith, f, same)
      ]
]

no_default :
    (c : FleetCatalog) → record { profiles = []; default = none } ≡ c → default_profile c ≢ none
unfolding default_profile
no_default c e = subst (λ d. default_profile d ≢ none) e (λ z. absurd (cc z))

-- What the constructor gives, where it gives a catalog.
abbrev IsMade : Dict Profile → Option String → FleetCatalog → Type 0
IsMade ps d c = (c.profiles ≡ ps) × (c.default ≡ d) × default_profile c ≢ none

present :
    (ps : Dict Profile) (d : String)
    → is_some (get d ps) ≡ true
    → default_profile (record { profiles = ps; default = some d }) ≢ none
unfolding default_profile
present ps d h = ground (arith, h)

fleet_catalog-inr :
    (ps : Dict Profile) (d : Option String) (c : FleetCatalog)
    → fleet_catalog ps d ≡ inr c
    → IsMade ps d c
unfolding fleet_catalog default_profile
fleet_catalog-inr ps none c e =
    let same : record { profiles = ps; default = none } ≡ c = cc e in
    subst (IsMade ps none) same (refl, refl, λ z. absurd (cc z))
fleet_catalog-inr ps (some d) c e = elim (Bool-cases (is_some (get d ps))) [
  | inr h ↦ absurd (ground (arith, e, h))
  | inl h ↦
      let same : record { profiles = ps; default = some d } ≡ c = ground (arith, e, h) in
      subst (IsMade ps (some d)) same (refl, refl, present ps d h)
]

from_available-inr :
    (allow : List String) (d : Option String) (available : Dict Profile) (c : FleetCatalog)
    → from_available allow d available ≡ inr c
    → (all_known allow available ≡ true) × (fleet_catalog (select allow available []) d ≡ inr c)
unfolding from_available
from_available-inr allow d available c e = elim (Bool-cases (all_known allow available)) [
  | inl h ↦ (h, ground (arith, e, h))
  | inr h ↦ absurd (ground (arith, e, h))
]

from_loaded-inr :
    (allow : List String) (d : Option String) (o : CatalogError ⊎ Dict Profile) (c : FleetCatalog)
    → from_loaded allow d o ≡ inr c
    → (available : Dict Profile) × (o ≡ inr available) × (from_available allow d available ≡ inr c)
from_loaded-inr allow d (inl x) c e = absurd (cc e)
from_loaded-inr allow d (inr available) c e = (available, refl, e)

-- A `catalog:` block that is accepted allows something, and its directories load; the catalog has just
-- the profiles that the block allows, each as it was loaded, and the block's default, which is one of
-- them: to ask for the default profile never raises.
pub from_block_lem :
    (shipped_dir : List (String × Profile)) (b : Block) (c : FleetCatalog)
    → from_block shipped_dir b ≡ inr c
    → (b.allow ≢ [])
      × ((available : Dict Profile) × (load_profiles shipped_dir b.dirs true ≡ inr available)
          × ((k : String)
              → get k c.profiles ≡ (if allowed k b.allow then get k available else none))
          × (c.default ≡ b.default)
          × default_profile c ≢ none)
unfolding from_block get
from_block_lem shipped_dir b c e = elim (Bool-cases (is_nothing b.allow)) [
  | inl h ↦ absurd (ground (arith, e, h))
  | inr h ↦
      let loaded : from_loaded b.allow b.default (load_profiles shipped_dir b.dirs true) ≡ inr c =
        ground (arith, e, h) in
      let (available, f, g) =
        from_loaded-inr b.allow b.default (load_profiles shipped_dir b.dirs true) c loaded in
      let (known, made) = from_available-inr b.allow b.default available c g in
      let (p, d, n) = fleet_catalog-inr (select b.allow available []) b.default c made in
      (
        λ z. absurd (cc (sym h ∙ ap is_nothing z)),
        (available, f, λ k. ap (get k) p ∙ get-select b.allow available [] k known, d, n),
      )
]

-- The default profile of a fleet's catalog is always there, or there is no default: a manager that
-- starts never raises when it looks for it.
default_profile-from_config :
    (str : ℕ → String) (shipped_dir : List (String × Profile)) (b : Option Block)
    (m : Option Legacy) (c : FleetCatalog)
    → from_config str shipped_dir b m ≡ inr c
    → default_profile c ≢ none
unfolding from_config
default_profile-from_config str shipped_dir (some b) none c e =
    let (n, (available, l, g, d, x)) = from_block_lem shipped_dir b c e in x
default_profile-from_config str shipped_dir (some b) (some m) c e = absurd (cc e)
default_profile-from_config str shipped_dir none none c e = no_default c (cc e)
default_profile-from_config str shipped_dir none (some m) c e = elim (Bool-cases (m.name ==ₛ "")) [
  | inl h ↦ no_default c (ground (arith, e, h))
  | inr h ↦
      let p = legacy_profile str m in
      let made : fleet_catalog (put p.id p []) (some p.id) ≡ inr c = ground (arith, e, h) in
      let (x, y, z) = fleet_catalog-inr (put p.id p []) (some p.id) c made in z
]
