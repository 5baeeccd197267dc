-- ===== src/Guard/Scope.antt =====
-- The points at which a chain of guards is consulted.
use oumigo.Prelude.{
  Bool, true, false, ◌≡◌, ◌||◌, refl, sym, ap, ◌∙◌, Option, none, some, List, [], ◌∷◌, ◌++◌, arith,
  any, Option-cases, inl, inr,
}
use oumigo.Guard.{
  Guard, InterceptPoint, InterceptPoint-discrete, Verdict, allow, all_points, is_in, applies,
  evaluate_loop, evaluate, active_loop, active_points, user_input, assembled_prompt, tool_call,
  tool_result, assistant_turn, final_answer,
}

is_in-append :
    (p : InterceptPoint) (xs ys : List InterceptPoint)
    → is_in p (xs ++ ys) ≡ (is_in p xs || is_in p ys)
unfolding is_in
is_in-append p [] ys = refl
is_in-append p (x ∷ xs) ys = ground (arith, is_in-append p xs ys)

is_in-all_points : (p : InterceptPoint) → is_in p all_points ≡ true
unfolding is_in InterceptPoint-discrete
is_in-all_points user_input = refl
is_in-all_points assembled_prompt = refl
is_in-all_points tool_call = refl
is_in-all_points tool_result = refl
is_in-all_points assistant_turn = refl
is_in-all_points final_answer = refl

abbrev points_of : Option (List InterceptPoint) → List InterceptPoint
points_of none = all_points
points_of (some points) = points

or-false : (b : Bool) → b ≡ (b || false)
or-false true = refl
or-false false = refl

or-true : (b : Bool) → true ≡ (b || true)
or-true true = refl
or-true false = refl

module _ {ℓ} {A : Type ℓ} where
  active_loop-any :
      (gs : List (Guard A)) (ps : List InterceptPoint) (p : InterceptPoint)
      → is_in p (points_of (active_loop gs ps)) ≡ (is_in p ps || any (λ g. applies g p) gs)
  unfolding active_loop applies
  active_loop-any [] ps p = or-false (is_in p ps)
  active_loop-any (g ∷ gs) ps p = elim (Option-cases g.points) [
    | inl e ↦ rw (e, active_loop, applies) (is_in-all_points p ∙ or-true (is_in p ps))
    | inr (declared, e) ↦
        rw (e, active_loop, applies)
          (active_loop-any gs (ps ++ declared) p ∙ rw (is_in-append p ps declared) (ground arith))
  ]

  -- `active_points` is exact: a point is active just when some guard is consulted at it.
  active_points-any :
      (gs : List (Guard A)) (p : InterceptPoint)
      → is_in p (active_points gs) ≡ any (λ g. applies g p) gs
  unfolding active_points is_in
  active_points-any gs p = elim (Option-cases (active_loop gs [])) [
    | inl e ↦
        rw (e, active_points) (ap (λ x. is_in p (points_of x)) (sym e) ∙ active_loop-any gs [] p)
    | inr (ps, e) ↦
        rw (e, active_points) (ap (λ x. is_in p (points_of x)) (sym e) ∙ active_loop-any gs [] p)
  ]

  evaluate_loop-inactive :
      (gs : List (Guard A)) (p : InterceptPoint) (c : A) (fs : List (Verdict A))
      → any (λ g. applies g p) gs ≡ false
      → evaluate_loop gs p c fs ≡ record { verdict = allow; content = c; flags = fs }
  unfolding evaluate_loop
  evaluate_loop-inactive [] p c fs h = refl
  evaluate_loop-inactive (g ∷ gs) p c fs h = ground (arith, evaluate_loop-inactive gs p c fs)

  -- At a point that is not active a chain is a strict no-op: it allows the content, unchanged, with
  -- no flag.
  evaluate_inactive :
      (gs : List (Guard A)) (p : InterceptPoint) (c : A)
      → is_in p (active_points gs) ≡ false
      → evaluate gs p c ≡ record { verdict = allow; content = c; flags = [] }
  unfolding evaluate
  evaluate_inactive gs p c h = evaluate_loop-inactive gs p c [] (sym (active_points-any gs p) ∙ h)
