-- ===== src/Agent/Guarded.antt =====
-- A turn under a chain of guards: `_guard` of src/oumigo/api/agent/chat.py, with the chain of
-- src/oumigo/guard/chain.py.
mod Tests
use oumigo.Prelude.{
  ◌≡◌, ◌≢◌, refl, sym, ap, ◌∙◌, subst, String, Bool, true, false, Option, none, some, List, [], ◌∷◌,
  ◌++◌, All, inl, inr, ◌⊎◌,
}
use oumigo.Guard.{
  InterceptPoint, tool_call, Verdict, allow, transform, flag, skip, block, stop, halts, raised,
  Guard, ChainOutcome, evaluate, evaluate_loop, applies,
}
use oumigo.Guard.Evaluation.{
  IsOutcome, evaluate-IsOutcome, evaluate-append, evaluate_fails_closed, and_then,
}
use oumigo.Agent.Turn.{Message, Ruling, allows, skips, blocks, stops, Agent, Turn}
use oumigo.Agent.Chat.{run}
use oumigo.Agent.Chat.Independence.{swapped, Agrees, run-LetThrough}
use oumigo.Agent.Chat.Screening.{LetThrough}

-- The ruling that a verdict is: one that neither halts nor allows is no chain's.
abbrev ruling_of {ℓ} : {A : Type ℓ} → Verdict A → Ruling
ruling_of allow = allows
ruling_of (transform c) = allows
ruling_of (flag reason) = allows
ruling_of (skip reason) = skips reason
ruling_of (block reason) = blocks reason
ruling_of (stop reason) = stops reason

-- `_guard`.
pub guard {ℓ} : {A : Type ℓ} → List (Guard A) → InterceptPoint → A → A × Ruling
guard gs p content = let o = evaluate gs p content in (o.content, ruling_of o.verdict)

module _ {A : Type 0} where
  halting-ruling_of : (v : Verdict A) → halts v ≡ true → ¬ (ruling_of v ≡ allows)
  halting-ruling_of (skip r) h e = cc e
  halting-ruling_of (block r) h e = cc e
  halting-ruling_of (stop r) h e = cc e
  halting-ruling_of allow h e = cc h
  halting-ruling_of (transform c) h e = cc h
  halting-ruling_of (flag r) h e = cc h

  -- A first part that halts is the outcome.
  halted-choice :
      (v : Verdict A) (x y : ChainOutcome A) → halts v ≡ true → elim v [ allow ↦ x | _ ↦ y ] ≡ y
  halted-choice (skip r) x y h = refl
  halted-choice (block r) x y h = refl
  halted-choice (stop r) x y h = refl
  halted-choice allow x y h = absurd (cc h)
  halted-choice (transform c) x y h = absurd (cc h)
  halted-choice (flag r) x y h = absurd (cc h)

  -- A guard is down at a point when it is consulted there and raises whatever it is given.
  pub record IsDown (g : Guard A) (p : InterceptPoint) : Type 0 where
    pub used : applies g p ≡ true
    pub raises : (c : A) → (error : String) × (g.intercept p c ≡ raised error)

  down-refuses :
      (xs ys : List (Guard A)) (g : Guard A) (p : InterceptPoint) (c : A)
      → IsDown g p
      → ¬ ((guard (xs ++ g ∷ ys) p c).1 ≡ allows)
  unfolding guard
  down-refuses xs ys g p c d e =
      let first = evaluate xs p c in
      elim (evaluate-IsOutcome xs p c).decisive [
        | inl a ↦
            let (error, r) = d.raises first.content in
            cc (
              ap (λ o. ruling_of o.verdict)
                (sym (evaluate_fails_closed xs ys g p c error a d.used r))
              ∙ e)
        | inr h ↦ halting-ruling_of first.verdict h (
            ap (λ o. ruling_of o.verdict)
              (sym (evaluate-append xs (g ∷ ys) p c ∙ halted-choice first.verdict _ first h))
            ∙ e)
      ]

  All-absurd :
      {P : String × A → Type 0} (xs : List (String × A))
      → ((x : String × A) → ¬ P x)
      → All P xs
      → xs ≡ []
  All-absurd [] n h = refl
  All-absurd (x ∷ xs) n h = absurd (n x h.0)

module _ {A : Type 0} where
  -- The guards of a tool's call in the context of its name, where `wrap` is what arguments are as
  -- a content, and `as_args` reads a content that is a dict. The context that the source makes for
  -- a call has the tool's name and the chat's system prompt, which is fixed, and no messages.
  pub record IsChain {X : Type 0} (G : Agent A) (wrap : A → X) (as_args : X → Option A)
      (guards : String → List (Guard X)) : Type 0 where
    pub screens :
        (name : String) (args : A)
        → G.on_call name args ≡ (
            let (content, ruling) = guard (guards name) tool_call (wrap args) in
            (as_args content, ruling))

  -- A guard that is down keeps every tool from running. Let the guards of the tool's calls be a
  -- chain, in which one guard is consulted there and raises on whatever content and for whatever
  -- tool. The guards are functions of the content and of the tool's name, which is the context of a
  -- call in the source, and whatever guards may stand before and after it. Then no tool's body runs
  -- in a turn, whatever the model asks for, and on any message and history; and the turn is the
  -- same with any other bodies.
  pub run-IsDown :
      {X : Type 0} (G : Agent A) (wrap : A → X) (as_args : X → Option A)
      (xs ys : String → List (Guard X)) (g : String → Guard X)
      (invoke : String → A → String ⊎ String) (contents : String) (before : List Message)
      → IsChain G wrap as_args (λ name. xs name ++ g name ∷ ys name)
      → ((name : String) → IsDown (g name) tool_call)
      → ((run G contents before).0.ran ≡ [])
        × (run (swapped G G.model invoke) contents before ≡ run G contents before)
  run-IsDown G wrap as_args xs ys g invoke contents before chain d =
      let refuses : (x : String × A) → ¬ LetThrough G x = λ (name, args) (raw, allowed, e).
        down-refuses (xs name) (ys name) (g name) tool_call (wrap raw) (d name)
          (ap (λ x. x.1) (sym (chain.screens name raw)) ∙ allowed) in
      let agrees : Agrees G G.model invoke = record {
        on_messages = λ n messages h. refl;
        on_arguments = λ name args h. absurd (refuses (name, args) h);
      } in
      let (same, screened) = run-LetThrough G G.model invoke agrees contents before in
      (All-absurd _ refuses screened.tools, same)
