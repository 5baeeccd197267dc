-- ===== src/Catalog/Loading.antt =====
-- What the loaded profiles are.
use oumigo.Prelude.{
  ◌≡◌, refl, ap, ◌∙◌, String, Bool, true, false, Option, none, some, List, [], ◌∷◌, if◌then◌else◌,
  ◌==ₛ◌, ==ₛ_iff, or_else, is_some, ◌⊎◌, inl, inr, arith, Bool-cases,
}
use oumigo.Prelude.Dict.{Dict, get, put, get-put}
use oumigo.Catalog.{Profile, CatalogError, load_profile, load_tree, load_trees, load_profiles}

-- The last file whose stem is `k`.
last_named : String → List (String × Profile) → Option Profile
last_named k [] = none
last_named k ((stem, p) ∷ files) =
    or_else (last_named k files) (if stem ==ₛ k then some p else none)

last_in : String → List (List (String × Profile)) → Option Profile
last_in k [] = none
last_in k (tree ∷ trees) = or_else (last_in k trees) (last_named k tree)

or_else-if :
    (o : Option Profile) (b : Bool) (p : Profile) (q : Option Profile)
    → or_else o (if b then some p else q) ≡ or_else (or_else o (if b then some p else none)) q
or_else-if none true p q = refl
or_else-if none false p q = refl
or_else-if (some r) b p q = refl

or_else_assoc : (o p q : Option Profile) → or_else o (or_else p q) ≡ or_else (or_else o p) q
or_else_assoc none p q = refl
or_else_assoc (some r) p q = refl

or_else-none : (o : Option Profile) → or_else o none ≡ o
or_else-none none = refl
or_else-none (some p) = refl

get-load_tree :
    (files : List (String × Profile)) (seen : Dict String) (ps qs : Dict Profile) (k : String)
    → load_tree files seen ps ≡ inr qs
    → get k qs ≡ or_else (last_named k files) (get k ps)
unfolding load_tree load_profile last_named
get-load_tree [] seen ps qs k e = ap (get k) (cc e)
get-load_tree ((stem, p) ∷ files) seen ps qs k e = elim (Bool-cases (p.id ==ₛ stem)) [
  | inr h ↦ absurd (ground (arith, e, h))
  | inl h ↦ elim (Bool-cases (is_some (get p.id seen))) [
    | inl d ↦ absurd (ground (arith, e, h, d))
    | inr d ↦
        let rest : load_tree files (put p.id stem seen) (put p.id p ps) ≡ inr qs =
          ground (arith, e, h, d) in
        get-load_tree files (put p.id stem seen) (put p.id p ps) qs k rest
        ∙ ap (or_else (last_named k files)) (get-put p.id k p ps)
        ∙ or_else-if (last_named k files) (p.id ==ₛ k) p (get k ps)
        ∙ ap
            (λ i.
              or_else (or_else (last_named k files) (if i ==ₛ k then some p else none)) (get k ps))
            ((==ₛ_iff p.id stem).0 h)
  ]
]

step-load_trees :
    (trees : List (List (String × Profile))) (ps qs : Dict Profile)
    (o : CatalogError ⊎ Dict Profile)
    → (elim o [ inl e ↦ inl e | inr rs ↦ load_trees trees rs ]) ≡ inr qs
    → (rs : Dict Profile) × (o ≡ inr rs) × (load_trees trees rs ≡ inr qs)
step-load_trees trees ps qs (inl x) e = absurd (cc e)
step-load_trees trees ps qs (inr rs) e = (rs, refl, e)

get-load_trees :
    (trees : List (List (String × Profile))) (ps qs : Dict Profile) (k : String)
    → load_trees trees ps ≡ inr qs
    → get k qs ≡ or_else (last_in k trees) (get k ps)
unfolding load_trees last_in
get-load_trees [] ps qs k e = ap (get k) (cc e)
get-load_trees (tree ∷ trees) ps qs k e =
    let (rs, f, g) = step-load_trees trees ps qs (load_tree tree [] ps) e in
    get-load_trees trees rs qs k g
    ∙ ap (or_else (last_in k trees)) (get-load_tree tree [] ps rs k f)
    ∙ or_else_assoc (last_in k trees) (last_named k tree) (get k ps)

-- Where the profiles load, an id has the profile of the last file with that stem, the operator's
-- directories after the shipped one and in their order: a later tree wins. No other id has one.
get-load_profiles :
    (shipped_dir : List (String × Profile)) (dirs : List (List (String × Profile))) (shipped : Bool)
    (ps : Dict Profile) (k : String)
    → load_profiles shipped_dir dirs shipped ≡ inr ps
    → get k ps ≡ or_else (last_in k dirs) (if shipped then last_named k shipped_dir else none)
unfolding load_profiles last_in get
get-load_profiles shipped_dir dirs true ps k e =
    get-load_trees (shipped_dir ∷ dirs) [] ps k e
    ∙ or_else-none (or_else (last_in k dirs) (last_named k shipped_dir))
get-load_profiles shipped_dir dirs false ps k e = get-load_trees dirs [] ps k e
