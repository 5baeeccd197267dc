-- ===== src/Agent/Chat/Screening.antt =====
-- What reaches the model and the tools went through the guards.
use oumigo.Prelude.{
  ℕ, zero, suc, ◌+◌, ◌≡◌, refl, sym, ap, subst, String, Bool, true, false, not, Option, none, some,
  List, [], ◌∷◌, ◌++◌, if◌then◌else◌, ◌==ₛ◌, ◌⊎◌, inl, inr, All, Bool-cases,
}
use oumigo.Agent.Turn.{
  ToolCall, Message, Ruling, allows, skips, blocks, stops, Reply, timed_out, answered, Agent, Turn,
  push, check, kept, user, tool_result, assistant,
}
use oumigo.Agent.Tools.{
  ending, screen_result, take_result, next_tool, run_body, invoke_screened, invoke_guarded,
  invoke_parsed, call_tool, execute_tool, run_tools,
}
use oumigo.Agent.Chat.{
  Turned, halted, late, done, halt, say, next_round, release, guard_output, take_reply, ask,
  complete_turn, after_output, after_model, round, loop, run_screened, run, timeout_text,
  is_nothing, text_of,
}

module _ {A : Type 0} (G : Agent A) where
  -- The guards allow a call, and it goes on with what they left, where that is a dict, and else
  -- with the arguments that they were given; and in the same way for messages.
  abbrev pub LetThrough : String × A → Type 0
  LetThrough (name, args) =
      (raw : A) × ((G.on_call name raw).1 ≡ allows) × (args ≡ kept raw (G.on_call name raw).0)

  abbrev pub SentThrough : List Message → Type 0
  SentThrough messages =
      (raw : List Message) × ((G.on_prompt raw).1 ≡ allows)
      × (messages ≡ kept raw (G.on_prompt raw).0)

  pub record IsScreened (s : Turn A) : Type 0 where
    pub tools : All LetThrough s.ran
    pub prompts : All SentThrough s.asked

  screen_result_lem :
      (name result : String) (x : Option String × Ruling) (s : Turn A)
      → (screen_result G name result x s).0 ≡ s
  unfolding screen_result
  screen_result_lem name result (content, allows) s = refl
  screen_result_lem name result (content, skips r) s = refl
  screen_result_lem name result (content, blocks r) s = refl
  screen_result_lem name result (content, stops r) s = refl

  take_result_lem :
      (name : String) (x : String ⊎ String) (s : Turn A) → (take_result G name x s).0 ≡ s
  unfolding take_result
  take_result_lem name (inl error) s = refl
  take_result_lem name (inr result) s = screen_result_lem name result (G.on_result name result) s

  invoke-IsScreened :
      (name : String) (raw : A) (x : Option A × Ruling) (s : Turn A)
      → G.on_call name raw ≡ x
      → IsScreened s
      → IsScreened (invoke_screened G name raw x s).0
  unfolding invoke_screened run_body
  invoke-IsScreened name raw (content, allows) s e i =
      let args = kept raw content in
      let through : LetThrough (name, args) =
        (raw, ap (λ x. x.1) e, ap (λ x. kept raw x.0) (sym e)) in
      subst IsScreened
        (sym (take_result_lem name (G.invoke name args) (record s { ran = (name, args) ∷ s.ran })))
        (record { tools = (through, i.tools); prompts = i.prompts })
  invoke-IsScreened name raw (content, skips r) s e i = i
  invoke-IsScreened name raw (content, blocks r) s e i = i
  invoke-IsScreened name raw (content, stops r) s e i = i

  parsed-IsScreened :
      (name : String) (x : String ⊎ A) (s : Turn A)
      → IsScreened s
      → IsScreened (invoke_parsed G name x s).0
  unfolding invoke_parsed invoke_guarded
  parsed-IsScreened name (inl error) s i = i
  parsed-IsScreened name (inr args) s i = invoke-IsScreened name args (G.on_call name args) s refl i

  call-IsScreened :
      (tc : ToolCall) (known : Bool) (s : Turn A)
      → IsScreened s
      → IsScreened (call_tool G tc known s).0
  unfolding call_tool
  call-IsScreened tc false s i = i
  call-IsScreened tc true s i = parsed-IsScreened tc.name _ s i

  next_tool-IsScreened :
      (o : Option String) (b : Bool) (u v : Turn A) (rest : Turn A × Option String)
      → IsScreened u
      → IsScreened v
      → IsScreened rest.0
      → IsScreened (next_tool G o b u v rest).0
  next_tool-IsScreened (some r) b u v rest i j k = i
  next_tool-IsScreened none true u v rest i j k = j
  next_tool-IsScreened none false u v rest i j k = k

  tools-IsScreened :
      (calls : List ToolCall) (s : Turn A) → IsScreened s → IsScreened (run_tools G calls s).0
  unfolding run_tools execute_tool check
  tools-IsScreened [] s i = i
  tools-IsScreened (tc ∷ calls) s i =
      let (t, result, ruling) = execute_tool G tc s in
      let j = call-IsScreened tc (G.knows tc.name) s i in
      let u = push (tool_result tc.id result) t in
      let v : Turn A = record u { checks = u.checks + 1 } in
      let k : IsScreened u = record { tools = j.tools; prompts = j.prompts } in
      let l : IsScreened v = record { tools = j.tools; prompts = j.prompts } in
      next_tool-IsScreened (ending ruling) (G.expired u.checks) u v (run_tools G calls v) k l
        (tools-IsScreened calls v l)

  release-IsScreened :
      (answer : String) (x : Option String × Ruling) (s : Turn A)
      → IsScreened s
      → IsScreened (release G answer x s).0
  unfolding release halt say
  release-IsScreened answer (content, skips r) s i = record { tools = i.tools; prompts = i.prompts }
  release-IsScreened answer (content, blocks r) s i = record {
    tools = i.tools;
    prompts = i.prompts;
  }
  release-IsScreened answer (content, stops r) s i = record { tools = i.tools; prompts = i.prompts }
  release-IsScreened answer (content, allows) s i =
      elim (Bool-cases (kept answer content ==ₛ answer)) [
        | inl e ↦ rw e (record { tools = i.tools; prompts = i.prompts })
        | inr e ↦ rw e (record { tools = i.tools; prompts = i.prompts })
      ]

  either-IsScreened :
      (b : Bool) (s t : Turn A) → IsScreened s → IsScreened t → IsScreened (if b then s else t)
  either-IsScreened true s t i j = i
  either-IsScreened false s t i j = j

  one_of-IsScreened :
      (b : Bool) (x y : Turn A × Option String)
      → IsScreened x.0
      → IsScreened y.0
      → IsScreened (if b then x else y).0
  one_of-IsScreened true x y i j = i
  one_of-IsScreened false x y i j = j

  reply-IsScreened : (x : Reply) (s : Turn A) → IsScreened s → IsScreened (take_reply G x s).0
  unfolding take_reply say
  reply-IsScreened timed_out s i = i
  reply-IsScreened (answered c calls f) s i =
      either-IsScreened G.buffer_output s (say (text_of c) s) i
        (record { tools = i.tools; prompts = i.prompts })

  ask-IsScreened :
      (x : Option (List Message) × Ruling) (s : Turn A)
      → G.on_prompt s.messages ≡ x
      → IsScreened s
      → IsScreened (ask G x s).0
  unfolding ask halt
  ask-IsScreened (content, allows) s e i =
      let through : SentThrough (kept s.messages content) =
        (s.messages, ap (λ x. x.1) e, ap (λ x. kept s.messages x.0) (sym e)) in
      reply-IsScreened _ _ (record { tools = i.tools; prompts = (through, i.prompts) })
  ask-IsScreened (content, skips r) s e i = record { tools = i.tools; prompts = i.prompts }
  ask-IsScreened (content, blocks r) s e i = record { tools = i.tools; prompts = i.prompts }
  ask-IsScreened (content, stops r) s e i = record { tools = i.tools; prompts = i.prompts }

  output-IsScreened :
      (calls : List ToolCall) (f : Option String) (x : Turn A × Option String)
      → IsScreened x.0
      → IsScreened (after_output G calls f x).0
  unfolding after_output
  output-IsScreened calls f (s, some r) i = i
  output-IsScreened [] f (s, none) i = i
  output-IsScreened (tc ∷ calls) f (s, none) i = tools-IsScreened (tc ∷ calls) s i

  model-IsScreened : (x : Turn A × Turned) → IsScreened x.0 → IsScreened (after_model G x).0
  unfolding after_model guard_output
  model-IsScreened (s, halted f) i = i
  model-IsScreened (s, late) i = i
  model-IsScreened (s, done c calls f) i =
      let t = push (assistant c calls) s in
      let j : IsScreened t = record { tools = i.tools; prompts = i.prompts } in
      let out =
        release G (text_of c)
          (if not (is_nothing calls)
            then G.on_turn t.messages (text_of c)
            else G.on_answer t.messages (text_of c))
          t in
      output-IsScreened calls f (if G.buffer_output then out else (t, none))
        (one_of-IsScreened G.buffer_output out (t, none) (release-IsScreened (text_of c) _ t j) j)

  round-IsScreened : (s : Turn A) → IsScreened s → IsScreened (round G s).0
  unfolding round check complete_turn
  round-IsScreened s i =
      let t : Turn A = record s { checks = s.checks + 1 } in
      let j : IsScreened t = record { tools = i.tools; prompts = i.prompts } in
      elim (Bool-cases (G.expired s.checks)) [
        | inl e ↦ rw e j
        | inr e ↦ rw e (model-IsScreened _ (ask-IsScreened (G.on_prompt t.messages) t refl j))
      ]

  next-IsScreened :
      (o : Option String) (t : Turn A) (rest : Turn A × String)
      → IsScreened t
      → IsScreened rest.0
      → IsScreened (next_round G o t rest).0
  next-IsScreened (some r) t rest i j = i
  next-IsScreened none t rest i j = j

  loop-IsScreened : (n : ℕ) (s : Turn A) → IsScreened s → IsScreened (loop G n s).0
  unfolding loop
  loop-IsScreened zero s i = i
  loop-IsScreened (suc n) s i =
      let (t, o) = round G s in
      let j = round-IsScreened s i in next-IsScreened o t (loop G n t) j (loop-IsScreened n t j)

  run_screened-IsScreened :
      (contents : String) (x : Option String × Ruling) (before : List Message) (s : Turn A)
      → IsScreened s
      → IsScreened (run_screened G contents x before s).0
  unfolding run_screened halt say
  run_screened-IsScreened contents (content, skips r) before s i = record {
    tools = i.tools;
    prompts = i.prompts;
  }
  run_screened-IsScreened contents (content, blocks r) before s i = record {
    tools = i.tools;
    prompts = i.prompts;
  }
  run_screened-IsScreened contents (content, stops r) before s i = record {
    tools = i.tools;
    prompts = i.prompts;
  }
  run_screened-IsScreened contents (content, allows) before s i =
      let u : Turn A = record s { messages = before ++ user (kept contents content) ∷ [] } in
      let x = loop G G.max_iterations u in
      let j =
        loop-IsScreened G.max_iterations u (record { tools = i.tools; prompts = i.prompts }) in
      either-IsScreened (x.1 ==ₛ "timeout") (say timeout_text x.0) x.0
        (record { tools = j.tools; prompts = j.prompts }) j

  pub run-IsScreened :
      (contents : String) (before : List Message) → IsScreened (run G contents before).0
  unfolding run
  run-IsScreened contents before =
      run_screened-IsScreened contents _ before _ (record { tools = tt; prompts = tt })
