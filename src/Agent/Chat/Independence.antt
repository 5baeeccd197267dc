-- ===== src/Agent/Chat/Independence.antt =====
-- A turn learns of the model and of the tools only what they say to what the guards let through.
use oumigo.Prelude.{
  ℕ, zero, suc, ◌+◌, ◌≡◌, refl, sym, ap, ◌∙◌, String, Bool, true, false, Option, none, some, List,
  [], ◌∷◌, ◌++◌, if◌then◌else◌, ◌==ₛ◌, ◌⊎◌, inl, inr, length,
}
use oumigo.Agent.Turn.{
  ToolCall, Message, Ruling, allows, skips, blocks, stops, Reply, timed_out, answered, Agent, Turn,
  push, check, kept, user, tool_result,
}
use oumigo.Agent.Tools.{
  ending, screen_result, take_result, next_tool, run_body, invoke_screened, invoke_guarded,
  invoke_parsed, call_tool, execute_tool, run_tools,
}
use oumigo.Agent.Chat.{
  Turned, halted, late, done, say, next_round, release, guard_output, take_reply, ask,
  complete_turn, after_output, after_model, round, loop, run_screened, run, timeout_text,
}
use oumigo.Agent.Chat.Screening.{LetThrough, SentThrough, IsScreened, run-IsScreened}

-- The agent with another model and other bodies of its tools.
abbrev pub swapped :
    {A : Type 0} → Agent A → (ℕ → List Message → Reply) → (String → A → String ⊎ String) → Agent A
swapped G model invoke = record G { model = model; invoke = invoke }

module _ {A : Type 0} (G : Agent A) (model : ℕ → List Message → Reply)
    (invoke : String → A → String ⊎ String) where
  -- The two models agree on the messages, and the bodies on the arguments, that are let through.
  pub record Agrees : Type 0 where
    pub on_messages :
        (n : ℕ) (messages : List Message)
        → SentThrough G messages
        → model n messages ≡ G.model n messages
    pub on_arguments :
        (name : String) (args : A)
        → LetThrough G (name, args)
        → invoke name args ≡ G.invoke name args

  abbrev H : Agent A
  H = swapped G model invoke

  screen_result-swapped :
      (name result : String) (x : Option String × Ruling) (s : Turn A)
      → screen_result H name result x s ≡ screen_result G name result x s
  unfolding screen_result
  screen_result-swapped name result x s = refl

  take_result-swapped :
      (name : String) (x : String ⊎ String) (s : Turn A)
      → take_result H name x s ≡ take_result G name x s
  unfolding take_result
  take_result-swapped name (inl error) s = refl
  take_result-swapped name (inr result) s =
      screen_result-swapped name result (G.on_result name result) s

  module _ (h : Agrees) where
    invoke_screened-swapped :
        (name : String) (raw : A) (x : Option A × Ruling) (s : Turn A)
        → G.on_call name raw ≡ x
        → invoke_screened H name raw x s ≡ invoke_screened G name raw x s
    unfolding invoke_screened run_body
    invoke_screened-swapped name raw (content, allows) s e =
        let args = kept raw content in
        let t : Turn A = record s { ran = (name, args) ∷ s.ran } in
        let through : LetThrough G (name, args) =
          (raw, ap (λ x. x.1) e, ap (λ x. kept raw x.0) (sym e)) in
        take_result-swapped name (invoke name args) t
        ∙ ap (λ y. take_result G name y t) (h.on_arguments name args through)
    invoke_screened-swapped name raw (content, skips r) s e = refl
    invoke_screened-swapped name raw (content, blocks r) s e = refl
    invoke_screened-swapped name raw (content, stops r) s e = refl

    invoke_parsed-swapped :
        (name : String) (x : String ⊎ A) (s : Turn A)
        → invoke_parsed H name x s ≡ invoke_parsed G name x s
    unfolding invoke_parsed invoke_guarded
    invoke_parsed-swapped name (inl error) s = refl
    invoke_parsed-swapped name (inr args) s =
        invoke_screened-swapped name args (G.on_call name args) s refl

    call_tool-swapped :
        (tc : ToolCall) (known : Bool) (s : Turn A)
        → call_tool H tc known s ≡ call_tool G tc known s
    unfolding call_tool
    call_tool-swapped tc false s = refl
    call_tool-swapped tc true s = invoke_parsed-swapped tc.name _ s

    abbrev after_call :
        Agent A
        → ToolCall
        → List ToolCall
        → Turn A × String × Option Ruling
        → Turn A × Option String
    after_call K tc calls (t, result, ruling) =
        let u = push (tool_result tc.id result) t in
        let (v, expired) = check G u in
        next_tool G (ending ruling) expired u v (run_tools K calls v)

    run_tools-swapped :
        (calls : List ToolCall) (s : Turn A) → run_tools H calls s ≡ run_tools G calls s
    unfolding run_tools execute_tool check
    run_tools-swapped [] s = refl
    run_tools-swapped (tc ∷ calls) s =
        let (t, result, ruling) = call_tool H tc (G.knows tc.name) s in
        let u = push (tool_result tc.id result) t in
        let v : Turn A = record u { checks = u.checks + 1 } in
        ap (next_tool G (ending ruling) (G.expired u.checks) u v) (run_tools-swapped calls v)
        ∙ ap (after_call G tc calls) (call_tool-swapped tc (G.knows tc.name) s)

    take_reply-swapped : (x : Reply) (s : Turn A) → take_reply H x s ≡ take_reply G x s
    unfolding take_reply
    take_reply-swapped timed_out s = refl
    take_reply-swapped (answered c calls f) s = refl

    ask-swapped :
        (x : Option (List Message) × Ruling) (s : Turn A)
        → G.on_prompt s.messages ≡ x
        → ask H x s ≡ ask G x s
    unfolding ask
    ask-swapped (content, allows) s e =
        let ms = kept s.messages content in
        let u : Turn A = record s { messages = ms; asked = ms ∷ s.asked } in
        let through : SentThrough G ms =
          (s.messages, ap (λ x. x.1) e, ap (λ x. kept s.messages x.0) (sym e)) in
        take_reply-swapped (model (length s.asked) ms) u
        ∙ ap (λ y. take_reply G y u) (h.on_messages (length s.asked) ms through)
    ask-swapped (content, skips r) s e = refl
    ask-swapped (content, blocks r) s e = refl
    ask-swapped (content, stops r) s e = refl

    after_output-swapped :
        (calls : List ToolCall) (f : Option String) (x : Turn A × Option String)
        → after_output H calls f x ≡ after_output G calls f x
    unfolding after_output
    after_output-swapped calls f (s, some r) = refl
    after_output-swapped [] f (s, none) = refl
    after_output-swapped (tc ∷ calls) f (s, none) = run_tools-swapped (tc ∷ calls) s

    after_model-swapped : (x : Turn A × Turned) → after_model H x ≡ after_model G x
    unfolding after_model guard_output release
    after_model-swapped (s, halted f) = refl
    after_model-swapped (s, late) = refl
    after_model-swapped (s, done c calls f) = after_output-swapped calls f _

    round-swapped : (s : Turn A) → round H s ≡ round G s
    unfolding round check complete_turn
    round-swapped s =
        let t : Turn A = record s { checks = s.checks + 1 } in
        ap (λ x. if G.expired s.checks then (t, some "timeout") else x)
          (after_model-swapped (ask H (G.on_prompt t.messages) t)
            ∙ ap (after_model G) (ask-swapped (G.on_prompt t.messages) t refl))

    loop-swapped : (n : ℕ) (s : Turn A) → loop H n s ≡ loop G n s
    unfolding loop
    loop-swapped zero s = refl
    loop-swapped (suc n) s =
        let (t, o) = round H s in
        ap (next_round G o t) (loop-swapped n t)
        ∙ ap (λ x. next_round G x.1 x.0 (loop G n x.0)) (round-swapped s)

    run_screened-swapped :
        (contents : String) (x : Option String × Ruling) (before : List Message) (s : Turn A)
        → run_screened H contents x before s ≡ run_screened G contents x before s
    unfolding run_screened
    run_screened-swapped contents (content, allows) before s =
        let text = kept contents content in
        ap (λ x. (if x.1 ==ₛ "timeout" then say timeout_text x.0 else x.0, x.1, text))
          (loop-swapped G.max_iterations (record s { messages = before ++ user text ∷ [] }))
    run_screened-swapped contents (content, skips r) before s = refl
    run_screened-swapped contents (content, blocks r) before s = refl
    run_screened-swapped contents (content, stops r) before s = refl

    run-swapped :
        (contents : String) (before : List Message) → run H contents before ≡ run G contents before
    unfolding run
    run-swapped contents before = run_screened-swapped contents (G.on_input contents) before _

    -- Only what the guards let through reaches the model and the tools, and nothing else of them
    -- tells in a turn. Let a model and bodies of the tools agree with the agent's own on whatever
    -- messages and arguments the guards let through: those that they allowed, as they left them,
    -- or as they were given to them where what they left is no list, or no dict. Then, on any
    -- message and history, a turn with them is just the agent's own; and all that the agent's turn
    -- notes as asked, or as run, is of that kind.
    pub run-LetThrough :
        (contents : String) (before : List Message)
        → (run (swapped G model invoke) contents before ≡ run G contents before)
          × IsScreened G (run G contents before).0
    run-LetThrough contents before = (run-swapped contents before, run-IsScreened G contents before)
