-- ===== src/Agent/Tools.antt =====
-- A tool's call in a turn: `_execute_tool` and `_invoke_guarded` of src/oumigo/api/agent/chat.py,
-- and the loop of `_run` over the calls of a message.
use Prim.Native.String.{◌++◌ as ◌++ₛ◌}
use oumigo.Prelude.{String, Bool, true, false, Option, none, some, List, [], ◌∷◌, ◌⊎◌, inl, inr}
use oumigo.Agent.Turn.{
  ToolCall, tool_result, Ruling, allows, skips, blocks, stops, Agent, Turn, reason_or, push, check,
  kept,
}

-- What a verdict on a tool's call or result makes of the result, and whether it ends the turn.
abbrev tool_ruling : String → Ruling → Option (String × Option Ruling)
tool_ruling default allows = none
tool_ruling default (skips reason) = some (reason_or reason default, none)
tool_ruling default (blocks reason) = some (reason_or reason default, some (blocks reason))
tool_ruling default (stops reason) = some (reason_or reason default, some (stops reason))

abbrev pub ending : Option Ruling → Option String
ending none = none
ending (some allows) = none
ending (some (skips reason)) = none
ending (some (blocks reason)) = some "blocked"
ending (some (stops reason)) = some "stopped"

module _ {A : Type 0} (G : Agent A) where
  -- The end of `_invoke_guarded`, with the verdict on the result.
  unfoldable pub screen_result :
      String → String → Option String × Ruling → Turn A → Turn A × String × Option Ruling
  screen_result name result (content, ruling) s =
      elim (tool_ruling
        ("The result of tool " ++ₛ (G.repr name ++ₛ " was withheld by a guardrail.")) ruling) [
          | none ↦ (s, kept result content, none)
          | some (reason, halt) ↦ (s, reason, halt)
        ]

  unfoldable pub take_result : String → String ⊎ String → Turn A → Turn A × String × Option Ruling
  take_result name (inl error) s = (s, "Error: " ++ₛ error, none)
  take_result name (inr result) s = screen_result name result (G.on_result name result) s

  -- `_invoke_guarded` from the tool's body on.
  unfoldable pub run_body : String → A → Turn A → Turn A × String × Option Ruling
  run_body name args s =
      take_result name (G.invoke name args) (record s { ran = (name, args) ∷ s.ran })

  -- `_invoke_guarded` with the verdict on the arguments: those that the guards left run where they
  -- are a dict, and else the ones that they were given.
  unfoldable pub invoke_screened :
      String → A → Option A × Ruling → Turn A → Turn A × String × Option Ruling
  invoke_screened name args (content, ruling) s =
      elim (tool_ruling ("Tool " ++ₛ (G.repr name ++ₛ " was blocked by a guardrail.")) ruling) [
        | none ↦ run_body name (kept args content) s
        | some (reason, halt) ↦ (s, reason, halt)
      ]

  unfoldable pub invoke_guarded : String → A → Turn A → Turn A × String × Option Ruling
  invoke_guarded name args s = invoke_screened name args (G.on_call name args) s

  unfoldable pub invoke_parsed : String → String ⊎ A → Turn A → Turn A × String × Option Ruling
  invoke_parsed name (inl error) s =
      (s, "Error: could not parse arguments (" ++ₛ (error ++ₛ ")"), none)
  invoke_parsed name (inr args) s = invoke_guarded name args s

  unfoldable pub call_tool : ToolCall → Bool → Turn A → Turn A × String × Option Ruling
  call_tool tc false s = (s, "Error: unknown tool " ++ₛ G.repr tc.name, none)
  call_tool tc true s = invoke_parsed tc.name (G.parse (reason_or tc.arguments "{}")) s

  unfoldable pub execute_tool : ToolCall → Turn A → Turn A × String × Option Ruling
  execute_tool tc s = call_tool tc (G.knows tc.name) s

  -- What follows a tool call, where `rest` is the rest of the loop.
  abbrev pub next_tool :
      Option String → Bool → Turn A → Turn A → Turn A × Option String → Turn A × Option String
  next_tool (some reason) expired u v rest = (u, some reason)
  next_tool none true u v rest = (v, some "timeout")
  next_tool none false u v rest = rest

  -- The loop of `_run` over the tool calls, and why it ends the turn.
  unfoldable pub run_tools : List ToolCall → Turn A → Turn A × Option String
  run_tools [] s = (s, none)
  run_tools (tc ∷ calls) s =
      let (t, result, ruling) = execute_tool tc s in
      let u = push (tool_result tc.id result) t in
      let (v, expired) = check G u in next_tool (ending ruling) expired u v (run_tools calls v)
