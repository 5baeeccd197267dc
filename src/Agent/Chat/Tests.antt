-- ===== src/Agent/Chat/Tests.antt =====
-- An agent with a tool, whose calls a guard rewrites or blocks.
use oumigo.Prelude.{
  ℕ, zero, suc, ◌≤◌, ◌≡◌, refl, String, Bool, ◌⊎◌, Option, true, false, none, some, List, [], ◌∷◌,
  if◌then◌else◌, ◌==ₛ◌, inr, length,
}
use oumigo.Agent.Turn.{
  ToolCall, Message, user, assistant, tool_result, Ruling, allows, blocks, Reply, answered, Agent,
  kept,
}
use oumigo.Agent.Chat.{run}
use oumigo.Agent.Chat.Screening.{IsScreened}
use oumigo.Agent.Chat.Independence.{swapped, Agrees, run-LetThrough}
use oumigo.Agent.Chat.Bounds.{run-asked-le}

abbrev lookup_of : String → ToolCall
lookup_of city = record { id = some "c1"; name = "weather"; arguments = city }

abbrev model : ℕ → List Message → Reply
model zero ms = answered none (lookup_of "Rome " ∷ []) (some "tool_calls")
model (suc zero) ms = answered none (lookup_of "secret" ∷ []) none
model (suc (suc n)) ms = answered (some "Sunny.") [] none

-- A guard that blocks a call, and one whose transform is no dict.
abbrev verdict_of : Bool → Bool → String → Option String × Ruling
verdict_of true untrimmed args = (some args, blocks "")
verdict_of false true args = (some "Rome", allows)
verdict_of false false args = (none, allows)

abbrev on_call : String → String → Option String × Ruling
on_call name args = verdict_of (args ==ₛ "secret") (args ==ₛ "Rome ") args

abbrev assistant_agent : ℕ → Agent String
assistant_agent n = record {
  model = model;
  knows = λ name. name ==ₛ "weather";
  invoke = λ name city. inr "sun";
  parse = λ text. inr text;
  repr = λ text. text;
  expired = λ k. false;
  max_iterations = n;
  buffer_output = true;
  on_input = λ text. (some text, allows);
  on_prompt = λ ms. (some ms, allows);
  on_call = on_call;
  on_result = λ name text. (some text, allows);
  on_turn = λ ms text. (some text, allows);
  on_answer = λ ms text. (some text, allows);
}

-- Another body, which is never run but on "Rome" and on what the guard does not rewrite.
abbrev other_invoke : String → String → String ⊎ String
other_invoke name city = if city ==ₛ "secret" then inr "leaked" else inr "sun"

harmless :
    (b c : Bool) (raw args : String)
    → (raw ==ₛ "secret") ≡ b
    → (verdict_of b c raw).1 ≡ allows
    → args ≡ kept raw (verdict_of b c raw).0
    → other_invoke "weather" args ≡ inr "sun"
harmless true c raw args h a e = absurd (cc a)
harmless false true raw args h a e = rw e refl
harmless false false raw args h a e = rw (e, h) refl

through-Agrees : Agrees (assistant_agent 4) model other_invoke
through-Agrees = record {
  on_messages = λ n messages h. refl;
  on_arguments = λ name args (raw, allowed, e).
      harmless (raw ==ₛ "secret") (raw ==ₛ "Rome ") raw args refl allowed e;
}

run-LetThrough_example :
    (run (swapped (assistant_agent 4) model other_invoke) "Is it sunny?" []
      ≡ run (assistant_agent 4) "Is it sunny?" [])
    × IsScreened (assistant_agent 4) (run (assistant_agent 4) "Is it sunny?" []).0
run-LetThrough_example =
    run-LetThrough (assistant_agent 4) model other_invoke through-Agrees "Is it sunny?" []

run-asked-le_example : length (run (assistant_agent 1) "Is it sunny?" []).0.asked ≤ 1
run-asked-le_example = run-asked-le (assistant_agent 1) "Is it sunny?" []

-- The body ran once, on the argument that the guard rewrote; the second call was blocked, which
-- ends the turn; and with one round it ends after the first call.
run_test :
    ((run (assistant_agent 4) "Is it sunny?" []).0.ran ≡ ("weather", "Rome") ∷ [])
    × ((run (assistant_agent 4) "Is it sunny?" []).1 ≡ "blocked")
    × ((run (assistant_agent 1) "Is it sunny?" []).1 ≡ "max_iterations")
unfolding run oumigo.Agent.Chat.run_screened oumigo.Agent.Chat.loop oumigo.Agent.Chat.round
    oumigo.Agent.Turn.check oumigo.Agent.Chat.complete_turn oumigo.Agent.Chat.ask
    oumigo.Agent.Chat.take_reply oumigo.Agent.Chat.after_model oumigo.Agent.Chat.after_output
    oumigo.Agent.Chat.guard_output oumigo.Agent.Chat.release oumigo.Agent.Chat.say
    oumigo.Agent.Chat.halt oumigo.Agent.Tools.run_tools oumigo.Agent.Tools.execute_tool
    oumigo.Agent.Tools.call_tool oumigo.Agent.Tools.invoke_parsed oumigo.Agent.Tools.invoke_guarded
    oumigo.Agent.Tools.invoke_screened oumigo.Agent.Tools.run_body oumigo.Agent.Tools.take_result
    oumigo.Agent.Tools.screen_result oumigo.Agent.Chat.rewrite_last
run_test = (refl, refl, refl)
