-- ===== src/Guard/Evaluation.antt =====
-- How the verdicts of a chain of guards combine.
use oumigo.Prelude.{
  String, true, ◌≡◌, refl, ◌∙◌, ◌⊎◌, inl, inr, List, [], ◌∷◌, ◌++◌, if◌then◌else◌, arith, All,
  All-append-one, Bool-cases,
}
use oumigo.Guard.{
  Guard, InterceptPoint, Verdict, allow, transform, flag, skip, block, stop, halts, is_flag, raised,
  ChainOutcome, Turn, halt, go_on, applies, consult, weigh, evaluate_loop, evaluate,
}

module _ {ℓ} {A : Type ℓ} where
  -- A second run of the loop after the outcome of a first one: it runs where the first did not halt,
  -- on what the first made of the content, and adds to its flags.
  abbrev pub and_then : ChainOutcome A → (A → List (Verdict A) → ChainOutcome A) → ChainOutcome A
  and_then o rest = elim o.verdict [ allow ↦ rest o.content o.flags | _ ↦ o ]

  -- The rest of a loop after one verdict.
  abbrev after : Turn A → (A → List (Verdict A) → ChainOutcome A) → ChainOutcome A
  after (halt o) rest = o
  after (go_on c fs) rest = rest c fs

  after-and_then :
      (v : Verdict A) (c : A) (fs : List (Verdict A))
      (f g h : A → List (Verdict A) → ChainOutcome A)
      → ((c : A) (fs : List (Verdict A)) → f c fs ≡ and_then (g c fs) h)
      → after (weigh v c fs) f ≡ and_then (after (weigh v c fs) g) h
  unfolding weigh
  after-and_then allow c fs f g h e = e c fs
  after-and_then (flag r) c fs f g h e = e c _
  after-and_then (transform d) c fs f g h e = e d fs
  after-and_then (skip r) c fs f g h e = refl
  after-and_then (block r) c fs f g h e = refl
  after-and_then (stop r) c fs f g h e = refl

  evaluate_loop-cons :
      (g : Guard A) (gs : List (Guard A)) (p : InterceptPoint) (c : A) (fs : List (Verdict A))
      → evaluate_loop (g ∷ gs) p c fs ≡ (
          if applies g p
          then after (weigh (consult g p c) c fs) (evaluate_loop gs p)
          else evaluate_loop gs p c fs)
  unfolding evaluate_loop
  evaluate_loop-cons g gs p c fs = ground arith

  evaluate_loop-append :
      (xs ys : List (Guard A)) (p : InterceptPoint) (c : A) (fs : List (Verdict A))
      → evaluate_loop (xs ++ ys) p c fs ≡ and_then (evaluate_loop xs p c fs) (evaluate_loop ys p)
  evaluate_loop-append [] ys p c fs = unfold evaluate_loop in refl
  evaluate_loop-append (x ∷ xs) ys p c fs =
      let rest = λ (d : A) (es : List (Verdict A)). evaluate_loop-append xs ys p d es in
      elim (Bool-cases (applies x p)) [
        | inl e ↦
            rw (evaluate_loop-cons x (xs ++ ys) p c fs, evaluate_loop-cons x xs p c fs, e)
              (after-and_then (consult x p c) c fs _ _ (evaluate_loop ys p) rest)
        | inr e ↦
            rw (evaluate_loop-cons x (xs ++ ys) p c fs, evaluate_loop-cons x xs p c fs, e)
              (rest c fs)
      ]

  -- Transforms and flags accumulate, and a halt ends the chain: a chain in two parts is the first
  -- part, and where that did not halt the second, on the content and the flags that the first left.
  pub evaluate-append :
      (xs ys : List (Guard A)) (p : InterceptPoint) (c : A)
      → evaluate (xs ++ ys) p c ≡ and_then (evaluate xs p c) (evaluate_loop ys p)
  unfolding evaluate
  evaluate-append xs ys p c = evaluate_loop-append xs ys p c []

  consult-raised :
      (g : Guard A) (p : InterceptPoint) (c : A) (error : String)
      → g.intercept p c ≡ raised error
      → consult g p c ≡ block error
  unfolding consult
  consult-raised g p c error e = rw (e, consult)

  -- A guard that raises fails closed: where the guards before it did not halt and it is consulted,
  -- the outcome is BLOCK with its error, whatever guards follow; the content and the flags are
  -- those that the guards before it left.
  pub evaluate_fails_closed :
      (xs ys : List (Guard A)) (g : Guard A) (p : InterceptPoint) (c : A) (error : String)
      → (evaluate xs p c).verdict ≡ allow
      → applies g p ≡ true
      → g.intercept p (evaluate xs p c).content ≡ raised error
      → evaluate (xs ++ g ∷ ys) p c ≡ record (evaluate xs p c) { verdict = block error }
  unfolding weigh
  evaluate_fails_closed xs ys g p c error a used e =
      evaluate-append xs (g ∷ ys) p c
      ∙ rw
          (a, evaluate_loop-cons g ys p, used, consult-raised g p (evaluate xs p c).content error e)

  -- What a chain may answer, and record.
  pub record IsOutcome (o : ChainOutcome A) : Type ℓ where
    pub decisive : (o.verdict ≡ allow) ⊎ (halts o.verdict ≡ true)
    pub audited : All (λ v. is_flag v ≡ true) o.flags

  after-IsOutcome :
      (v : Verdict A) (c : A) (fs : List (Verdict A)) (rest : A → List (Verdict A) → ChainOutcome A)
      → All (λ u. is_flag u ≡ true) fs
      → ((d : A) (es : List (Verdict A)) → All (λ u. is_flag u ≡ true) es → IsOutcome (rest d es))
      → IsOutcome (after (weigh v c fs) rest)
  unfolding weigh
  after-IsOutcome allow c fs rest f h = h c fs f
  after-IsOutcome (flag r) c fs rest f h = h c _ (All-append-one _ fs f refl)
  after-IsOutcome (transform d) c fs rest f h = h d fs f
  after-IsOutcome (skip r) c fs rest f h = record { decisive = inr refl; audited = f }
  after-IsOutcome (block r) c fs rest f h = record { decisive = inr refl; audited = f }
  after-IsOutcome (stop r) c fs rest f h = record { decisive = inr refl; audited = f }

  evaluate_loop-IsOutcome :
      (gs : List (Guard A)) (p : InterceptPoint) (c : A) (fs : List (Verdict A))
      → All (λ v. is_flag v ≡ true) fs
      → IsOutcome (evaluate_loop gs p c fs)
  evaluate_loop-IsOutcome [] p c fs f =
      unfold evaluate_loop in record { decisive = inl refl; audited = f }
  evaluate_loop-IsOutcome (g ∷ gs) p c fs f =
      let rest = λ (d : A) (es : List (Verdict A)) (h : All (λ v. is_flag v ≡ true) es).
        evaluate_loop-IsOutcome gs p d es h in
      elim (Bool-cases (applies g p)) [
        | inl e ↦
            rw (evaluate_loop-cons g gs p c fs, e)
              (after-IsOutcome (consult g p c) c fs (evaluate_loop gs p) f rest)
        | inr e ↦ rw (evaluate_loop-cons g gs p c fs, e) (rest c fs f)
      ]

  -- The verdict of a chain is ALLOW, SKIP, BLOCK or STOP, never TRANSFORM or FLAG, and what it records
  -- for audit are FLAG verdicts alone.
  pub evaluate-IsOutcome :
      (gs : List (Guard A)) (p : InterceptPoint) (c : A) → IsOutcome (evaluate gs p c)
  unfolding evaluate
  evaluate-IsOutcome gs p c = evaluate_loop-IsOutcome gs p c [] tt
