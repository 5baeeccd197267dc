-- ===== src/Agent/Chat.antt =====
-- One turn of a chat: `OumiGoChat` of src/oumigo/api/agent/chat.py, without streaming.
-- A failed request other than a time-out raises out of the turn, and is left out, as are the
-- reasoning, the record of the flags and of the calls made, and the events that the caller sees.
pub mod Screening
pub mod Independence
pub mod Bounds
mod Tests
use Prim.Native.String.{◌++◌ as ◌++ₛ◌}
use oumigo.Prelude.{
  ℕ, zero, suc, ◌+◌, ◌-◌, ◌*◌, String, Bool, true, false, ◌&&◌, ◌||◌, not, Option, none, some, List,
  [], ◌∷◌, ◌++◌, if◌then◌else◌, ◌==ₛ◌, ltb, length, ◌⊎◌, inl, inr,
}
use oumigo.Agent.Turn.{
  ToolCall, Message, system, user, assistant, tool_result, Ruling, allows, skips, blocks, stops,
  Reply, timed_out, answered, Agent, Turn, reason_or, push, check, kept,
}
use oumigo.Agent.Tools.{run_tools}

-- How a round-trip ends: a guard halts it, it times out, or the model answers.
pub data Turned : Type 0 where
  halted : String → Turned
  late : Turned
  done : Option String → List ToolCall → Option String → Turned

abbrev block_text : String
block_text = "This request was blocked by a guardrail policy."

abbrev pub timeout_text : String
timeout_text = "\n\n[OumiGo] Timed out before the model finished this turn."

abbrev pub is_nothing {ℓ} : {A : Type ℓ} → List A → Bool
is_nothing [] = true
is_nothing (x ∷ xs) = false

abbrev pub text_of : Option String → String
text_of none = ""
text_of (some t) = t

-- `finish or "stop"`.
abbrev finish_or : Option String → String
finish_or none = "stop"
finish_or (some f) = reason_or f "stop"

-- The reason of a verdict that halts, and the `finish_reason` that it gives.
abbrev halting : Ruling → Option (String × String)
halting allows = none
halting (skips reason) = some (reason, "blocked")
halting (blocks reason) = some (reason, "blocked")
halting (stops reason) = some (reason, "stopped")

-- `messages[-1] = {**messages[-1], "content": t}`, where the last message is the assistant's.
pub rewrite_last : String → List Message → List Message
rewrite_last t [] = []
rewrite_last t (assistant c calls ∷ []) = assistant (some t) calls ∷ []
rewrite_last t (m ∷ []) = m ∷ []
rewrite_last t (m ∷ (n ∷ ms)) = m ∷ rewrite_last t (n ∷ ms)

module _ {A : Type 0} where
  -- `_halt`.
  pub halt : String → Turn A → Turn A
  halt reason s = record s { text = s.text ++ₛ reason_or reason block_text }

  pub say : String → Turn A → Turn A
  say t s = record s { text = s.text ++ₛ t }

module _ {A : Type 0} (G : Agent A) where
  -- `_guard_output` with the verdict, where the answer was `answer`.
  unfoldable pub release : String → Option String × Ruling → Turn A → Turn A × Option String
  release answer (content, ruling) s = elim (halting ruling) [
    | some (reason, finish) ↦
        let t = halt reason s in
        (record t { messages = rewrite_last t.text t.messages }, some finish)
    | none ↦
        let text = kept answer content in
        let t = say text s in
        (if text ==ₛ answer then t else record t { messages = rewrite_last text t.messages }, none)
  ]

  pub guard_output : String → Bool → Turn A → Turn A × Option String
  guard_output answer has_tool_calls s =
      release answer
        (if has_tool_calls then G.on_turn s.messages answer else G.on_answer s.messages answer) s

  -- `_complete_turn` from the request on.
  pub take_reply : Reply → Turn A → Turn A × Turned
  take_reply timed_out s = (s, late)
  take_reply (answered content calls finish) s =
      (if G.buffer_output then s else say (text_of content) s, done content calls finish)

  pub ask : Option (List Message) × Ruling → Turn A → Turn A × Turned
  ask (content, ruling) s =
      let messages = kept s.messages content in
      let t : Turn A = record s { messages = messages } in
      let u : Turn A = record t { asked = messages ∷ t.asked } in
      elim (halting ruling) [
        | some (reason, finish) ↦ (halt reason t, halted finish)
        | none ↦ take_reply (G.model (length t.asked) messages) u
      ]

  -- `_complete_turn`, without streaming.
  pub complete_turn : Turn A → Turn A × Turned
  complete_turn s = ask (G.on_prompt s.messages) s

  -- A round of the loop of `_run`: the tools after the output guard.
  pub after_output : List ToolCall → Option String → Turn A × Option String → Turn A × Option String
  after_output calls finish (s, some reason) = (s, some reason)
  after_output calls finish (s, none) =
      if is_nothing calls then (s, some (finish_or finish)) else run_tools G calls s

  pub after_model : Turn A × Turned → Turn A × Option String
  after_model (s, halted finish) = (s, some finish)
  after_model (s, late) = (s, some "timeout")
  after_model (s, done content calls finish) =
      let t = push (assistant content calls) s in
      after_output calls finish (
        if G.buffer_output
        then guard_output (text_of content) (not (is_nothing calls)) t
        else (t, none))

  unfoldable pub round : Turn A → Turn A × Option String
  round s =
      let (t, expired) = check G s in
      if expired then (t, some "timeout") else after_model (complete_turn t)

  abbrev pub next_round : Option String → Turn A → Turn A × String → Turn A × String
  next_round (some reason) t rest = (t, reason)
  next_round none t rest = rest

  -- The loop of `_run`, and the reason with which it ends.
  unfoldable pub loop : ℕ → Turn A → Turn A × String
  loop zero s = (s, "max_iterations")
  loop (suc n) s = let (t, o) = round s in next_round o t (loop n t)

  -- `_run` with the verdict on the user's message: the turn, its `finish_reason`, and what is
  -- remembered as the message.
  pub run_screened :
      String → Option String × Ruling → List Message → Turn A → Turn A × String × String
  run_screened contents (content, ruling) before s = elim (halting ruling) [
    | some (reason, finish) ↦ (halt reason s, finish, contents)
    | none ↦
        let text = kept contents content in
        let (t, reason) =
          loop G.max_iterations (record s { messages = before ++ user text ∷ [] }) in
        (if reason ==ₛ "timeout" then say timeout_text t else t, reason, text)
  ]

  -- `_run` of a turn whose messages before the user's are `before`.
  unfoldable pub run : String → List Message → Turn A × String × String
  run contents before = run_screened contents (G.on_input contents) before (record {
    text = "";
    messages = before ++ user contents ∷ [];
    checks = 0;
    asked = [];
    ran = [];
  })
