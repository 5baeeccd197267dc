-- ===== src/Guard.antt =====
-- The guardrail contract: src/oumigo/guard/verdict.py, points.py, chain.py and profile.py.
-- What a guard screens (`GuardContext.content`) has any type `A`; the other fields of the context are
-- passed on unchanged, so a guard is a function of the content, in a context that the call fixes.
-- A guard that raises gives `raised`, with the text of its exception.
pub mod Evaluation
pub mod Scope
mod Tests
use oumigo.Prelude.{
  String, Bool, true, false, not, Option, none, some, List, [], ◌∷◌, ◌++◌, if◌then◌else◌, length, ℕ,
}

pub data InterceptPoint : Type 0 where
  user_input assembled_prompt tool_call tool_result assistant_turn final_answer : InterceptPoint

pub InterceptPoint-discrete : Discrete InterceptPoint
InterceptPoint-discrete = hlevel

abbrev pub all_points : List InterceptPoint
all_points =
    user_input ∷ assembled_prompt ∷ tool_call ∷ tool_result ∷ assistant_turn ∷ final_answer ∷ []

-- `Decision` and `Verdict` in one: `content` is carried by TRANSFORM alone, `reason` by the others
-- but ALLOW, as the classmethods of `Verdict` make them.
pub data Verdict {ℓ} (A : Type ℓ) : Type ℓ where
  allow : Verdict A
  transform : A → Verdict A
  flag : String → Verdict A
  skip : String → Verdict A
  block : String → Verdict A
  stop : String → Verdict A

module _ {ℓ} {A : Type ℓ} where
  -- `Verdict.halts`.
  abbrev pub halts : Verdict A → Bool
  halts (skip r) = true
  halts (block r) = true
  halts (stop r) = true
  halts _ = false

  abbrev pub is_flag : Verdict A → Bool
  is_flag (flag r) = true
  is_flag _ = false

-- The outcome of calling a guard.
pub data Called {ℓ} (A : Type ℓ) : Type ℓ where
  returned : Verdict A → Called A
  raised : String → Called A

pub record Guard {ℓ} (A : Type ℓ) : Type ℓ where
  pub points : Option (List InterceptPoint)
  pub intercept : InterceptPoint → A → Called A

pub record ChainOutcome {ℓ} (A : Type ℓ) : Type ℓ where
  pub verdict : Verdict A
  pub content : A
  pub flags : List (Verdict A)

-- What the loop of `evaluate` does with a verdict: the outcome where it halts, and otherwise the
-- content and the flags with which it goes on.
pub data Turn {ℓ} (A : Type ℓ) : Type ℓ where
  halt : ChainOutcome A → Turn A
  go_on : A → List (Verdict A) → Turn A

-- `point in declared`.
pub is_in : InterceptPoint → List InterceptPoint → Bool
is_in p [] = false
is_in p (q ∷ qs) = elim (InterceptPoint-discrete q p) [ yes _ ↦ true | no _ ↦ is_in p qs ]

module _ {ℓ} {A : Type ℓ} where
  -- `_applies`.
  unfoldable pub applies : Guard A → InterceptPoint → Bool
  applies g p = elim g.points [ none ↦ true | some declared ↦ is_in p declared ]

  -- `_consult`. The text of the block names the exception.
  pub consult : Guard A → InterceptPoint → A → Verdict A
  consult g p content = elim (g.intercept p content) [ returned v ↦ v | raised error ↦ block error ]

  pub weigh : Verdict A → A → List (Verdict A) → Turn A
  weigh allow content flags = go_on content flags
  weigh (flag r) content flags = go_on content (flags ++ flag r ∷ [])
  weigh (transform c) content flags = go_on c flags
  weigh v content flags = halt (record { verdict = v; content = content; flags = flags })

  -- The loop of `evaluate` over the guards that are left.
  pub evaluate_loop : List (Guard A) → InterceptPoint → A → List (Verdict A) → ChainOutcome A
  evaluate_loop [] p content flags = record { verdict = allow; content = content; flags = flags }
  evaluate_loop (g ∷ gs) p content flags =
      if applies g p
      then elim (weigh (consult g p content) content flags) [
        | halt o ↦ o
        | go_on c fs ↦ evaluate_loop gs p c fs
      ]
      else evaluate_loop gs p content flags

  pub evaluate : List (Guard A) → InterceptPoint → A → ChainOutcome A
  evaluate gs p content = evaluate_loop gs p content []

  -- The loop of `active_points`: `none` where a guard is unscoped.
  pub active_loop : List (Guard A) → List InterceptPoint → Option (List InterceptPoint)
  active_loop [] points = some points
  active_loop (g ∷ gs) points = elim g.points [
    | none ↦ none
    | some declared ↦ active_loop gs (points ++ declared)
  ]

  pub active_points : List (Guard A) → List InterceptPoint
  active_points gs = elim (active_loop gs []) [ none ↦ all_points | some points ↦ points ]

  -- `GuardProfile.is_empty`.
  is_empty : List (Guard A) → Bool
  is_empty [] = true
  is_empty (g ∷ gs) = false
