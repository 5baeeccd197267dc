-- ===== src/Agent/Chat/Bounds.antt =====
-- How often a turn asks the model.
use oumigo.Prelude.{
  arith, ℕ, zero, suc, ◌+◌, ◌≤◌, ◌≡◌, refl, ◌∙◌, String, Bool, true, false, not, Option, none, some,
  List, [], ◌∷◌, ◌++◌, if◌then◌else◌, ◌==ₛ◌, ◌⊎◌, inl, inr, length,
}
use oumigo.Agent.Turn.{
  kept, ToolCall, Message, Ruling, allows, skips, blocks, stops, Reply, timed_out, answered, Agent,
  Turn, push, check, user, tool_result, assistant,
}
use oumigo.Agent.Tools.{
  ending, screen_result, take_result, next_tool, run_body, invoke_screened, invoke_guarded,
  invoke_parsed, call_tool, execute_tool, run_tools,
}
use oumigo.Agent.Chat.{
  Turned, halted, late, done, halt, say, next_round, release, guard_output, take_reply, ask,
  complete_turn, after_output, after_model, round, loop, run_screened, run, timeout_text,
  is_nothing, text_of,
}

module _ {A : Type 0} (G : Agent A) where
  -- Nothing is asked between the turns.
  abbrev Silent : Turn A → Turn A → Type 0
  Silent s t = t.asked ≡ s.asked

  screen_result-Silent :
      (name result : String) (x : Option String × Ruling) (s : Turn A)
      → Silent s (screen_result G name result x s).0
  unfolding screen_result
  screen_result-Silent name result (content, allows) s = refl
  screen_result-Silent name result (content, skips r) s = refl
  screen_result-Silent name result (content, blocks r) s = refl
  screen_result-Silent name result (content, stops r) s = refl

  result-Silent :
      (name : String) (x : String ⊎ String) (s : Turn A) → Silent s (take_result G name x s).0
  unfolding take_result
  result-Silent name (inl error) s = refl
  result-Silent name (inr result) s = screen_result-Silent name result (G.on_result name result) s

  invoke-Silent :
      (name : String) (args : A) (x : Option A × Ruling) (s : Turn A)
      → Silent s (invoke_screened G name args x s).0
  unfolding invoke_screened run_body
  invoke-Silent name args (content, allows) s =
      let given = kept args content in
      result-Silent name (G.invoke name given) (record s { ran = (name, given) ∷ s.ran })
  invoke-Silent name args (content, skips r) s = refl
  invoke-Silent name args (content, blocks r) s = refl
  invoke-Silent name args (content, stops r) s = refl

  parsed-Silent :
      (name : String) (x : String ⊎ A) (s : Turn A) → Silent s (invoke_parsed G name x s).0
  unfolding invoke_parsed invoke_guarded
  parsed-Silent name (inl error) s = refl
  parsed-Silent name (inr args) s = invoke-Silent name args (G.on_call name args) s

  call-Silent : (tc : ToolCall) (known : Bool) (s : Turn A) → Silent s (call_tool G tc known s).0
  unfolding call_tool
  call-Silent tc false s = refl
  call-Silent tc true s = parsed-Silent tc.name _ s

  next_tool-Silent :
      (o : Option String) (b : Bool) (s u v : Turn A) (rest : Turn A × Option String)
      → Silent s u
      → Silent s v
      → Silent s rest.0
      → Silent s (next_tool G o b u v rest).0
  next_tool-Silent (some r) b s u v rest i j k = i
  next_tool-Silent none true s u v rest i j k = j
  next_tool-Silent none false s u v rest i j k = k

  tools-Silent : (calls : List ToolCall) (s : Turn A) → Silent s (run_tools G calls s).0
  unfolding run_tools execute_tool check
  tools-Silent [] s = refl
  tools-Silent (tc ∷ calls) s =
      let (t, result, ruling) = execute_tool G tc s in
      let j = call-Silent tc (G.knows tc.name) s in
      let u = push (tool_result tc.id result) t in
      let v : Turn A = record u { checks = u.checks + 1 } in
      next_tool-Silent (ending ruling) (G.expired u.checks) s u v (run_tools G calls v) j j
        (tools-Silent calls v ∙ j)

  either-Silent :
      (b : Bool) (s t u : Turn A) → Silent s t → Silent s u → Silent s (if b then t else u)
  either-Silent true s t u i j = i
  either-Silent false s t u i j = j

  release-Silent :
      (answer : String) (x : Option String × Ruling) (s : Turn A)
      → Silent s (release G answer x s).0
  unfolding release halt say
  release-Silent answer (content, skips r) s = refl
  release-Silent answer (content, blocks r) s = refl
  release-Silent answer (content, stops r) s = refl
  release-Silent answer (content, allows) s =
      let text = kept answer content in either-Silent (text ==ₛ answer) s (say text s) _ refl refl

  output-Silent :
      (calls : List ToolCall) (f : Option String) (x : Turn A × Option String)
      → Silent x.0 (after_output G calls f x).0
  unfolding after_output
  output-Silent calls f (s, some r) = refl
  output-Silent [] f (s, none) = refl
  output-Silent (tc ∷ calls) f (s, none) = tools-Silent (tc ∷ calls) s

  -- At most one request between the turns.
  AsksOnce : Turn A → Turn A → Type 0
  AsksOnce s t = length t.asked ≤ suc (length s.asked)

  Silent-AsksOnce : (s t u : Turn A) → AsksOnce s t → Silent t u → AsksOnce s u
  unfolding AsksOnce
  Silent-AsksOnce s t u i e = rw e i

  reply-Silent : (x : Reply) (s : Turn A) → Silent s (take_reply G x s).0
  unfolding take_reply say
  reply-Silent timed_out s = refl
  reply-Silent (answered c calls f) s =
      either-Silent G.buffer_output s s (say (text_of c) s) refl refl

  ask-AsksOnce : (x : Option (List Message) × Ruling) (s : Turn A) → AsksOnce s (ask G x s).0
  unfolding ask halt AsksOnce
  ask-AsksOnce (content, allows) s =
      let ms = kept s.messages content in
      let u : Turn A = record s { messages = ms; asked = ms ∷ s.asked } in
      let x = G.model (length s.asked) ms in
      Silent-AsksOnce s u (take_reply G x u).0 (omega arith) (reply-Silent x u)
  ask-AsksOnce (content, skips r) s = omega arith
  ask-AsksOnce (content, blocks r) s = omega arith
  ask-AsksOnce (content, stops r) s = omega arith

  one_of-Silent :
      (b : Bool) (s : Turn A) (x y : Turn A × Option String)
      → Silent s x.0
      → Silent s y.0
      → Silent s (if b then x else y).0
  one_of-Silent true s x y i j = i
  one_of-Silent false s x y i j = j

  model-Silent : (x : Turn A × Turned) → Silent x.0 (after_model G x).0
  unfolding after_model guard_output
  model-Silent (s, halted f) = refl
  model-Silent (s, late) = refl
  model-Silent (s, done c calls f) =
      let t = push (assistant c calls) s in
      let out =
        release G (text_of c)
          (if not (is_nothing calls)
            then G.on_turn t.messages (text_of c)
            else G.on_answer t.messages (text_of c))
          t in
      let x = if G.buffer_output then out else (t, none) in
      output-Silent calls f x
      ∙ one_of-Silent G.buffer_output t out (t, none) (release-Silent (text_of c) _ t) refl

  either-AsksOnce :
      (b : Bool) (s : Turn A) (x y : Turn A × Option String)
      → AsksOnce s x.0
      → AsksOnce s y.0
      → AsksOnce s (if b then x else y).0
  either-AsksOnce true s x y i j = i
  either-AsksOnce false s x y i j = j

  round-AsksOnce : (s : Turn A) → AsksOnce s (round G s).0
  unfolding round check complete_turn AsksOnce
  round-AsksOnce s =
      let t : Turn A = record s { checks = s.checks + 1 } in
      let x = complete_turn G t in
      either-AsksOnce (G.expired s.checks) s (t, some "timeout") (after_model G x) (omega arith)
        (Silent-AsksOnce s x.0 (after_model G x).0 (ask-AsksOnce (G.on_prompt t.messages) t)
          (model-Silent x))

  next-asked-le :
      (n : ℕ) (o : Option String) (t : Turn A) (rest : Turn A × String)
      → length t.asked ≤ n
      → length rest.0.asked ≤ n
      → length (next_round G o t rest).0.asked ≤ n
  next-asked-le n (some r) t rest h k = h
  next-asked-le n none t rest h k = k

  loop-asked-le : (n : ℕ) (s : Turn A) → length (loop G n s).0.asked ≤ n + length s.asked
  unfolding loop AsksOnce
  loop-asked-le zero s = omega arith
  loop-asked-le (suc n) s =
      let (t, o) = round G s in
      let h : length t.asked ≤ suc (length s.asked) = round-AsksOnce s in
      let k = loop-asked-le n t in
      next-asked-le (suc n + length s.asked) o t (loop G n t) (omega (arith, h))
        (omega (arith, h, k))

  run_screened-asked-le :
      (contents : String) (x : Option String × Ruling) (before : List Message) (s : Turn A)
      → length (run_screened G contents x before s).0.asked ≤ G.max_iterations + length s.asked
  unfolding run_screened halt say
  run_screened-asked-le contents (content, skips r) before s = omega arith
  run_screened-asked-le contents (content, blocks r) before s = omega arith
  run_screened-asked-le contents (content, stops r) before s = omega arith
  run_screened-asked-le contents (content, allows) before s =
      let u : Turn A = record s { messages = before ++ user (kept contents content) ∷ [] } in
      let x = loop G G.max_iterations u in
      let e = either-Silent (x.1 ==ₛ "timeout") x.0 (say timeout_text x.0) x.0 refl refl in
      rw e (loop-asked-le G.max_iterations u)

  -- For every agent, message and history, a turn asks the model at most max_iterations times,
  -- whatever it answers, and however the tools and the guards end.
  pub run-asked-le :
      (contents : String) (before : List Message)
      → length (run G contents before).0.asked ≤ G.max_iterations
  unfolding run
  run-asked-le contents before = omega (
    arith,
    run_screened-asked-le contents (G.on_input contents) before (record {
      text = "";
      messages = before ++ user contents ∷ [];
      checks = 0;
      asked = [];
      ran = [];
    }),
  )
