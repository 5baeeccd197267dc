-- ===== src/Agent/Guarded/Tests.antt =====
-- An agent whose tool calls are screened by a guard that is down.
use oumigo.Prelude.{
  ◌≡◌, refl, inr, ◌⊎◌, String, true, false, none, some, List, [], ◌∷◌, ◌++◌, if◌then◌else◌, ◌==ₛ◌,
}
use oumigo.Guard.{
  InterceptPoint, tool_call, Guard, Called, raised, returned, Verdict, allow, transform,
}
use oumigo.Agent.Turn.{ToolCall, answered, allows, Agent}
use oumigo.Agent.Chat.{run}
use oumigo.Agent.Chat.Independence.{swapped}
use oumigo.Agent.Guarded.{guard, IsDown, run-IsDown}

abbrev scrubs : Guard String
scrubs = record { points = none; intercept = λ p c. returned (transform "Rome") }

abbrev crashes : Guard String
crashes = record { points = none; intercept = λ p c. raised "TimeoutError" }

-- A guard that reads the tool's name.
abbrev scrubs_but : String → List (Guard String)
scrubs_but name = if name ==ₛ "weather" then scrubs ∷ [] else []

abbrev screens : String → List (Guard String)
screens name = scrubs_but name ++ crashes ∷ []

abbrev leaks : String → String → String ⊎ String
leaks name city = inr "leaked"

abbrev wants : ToolCall
wants = record { id = some "c1"; name = "weather"; arguments = "{}" }

abbrev screened_agent : Agent String
screened_agent = record {
  model = λ k ms. answered none (wants ∷ []) none;
  knows = λ name. true;
  invoke = λ name city. inr "sun";
  parse = λ text. inr text;
  repr = λ text. text;
  expired = λ k. false;
  max_iterations = 3;
  buffer_output = false;
  on_input = λ text. (some text, allows);
  on_prompt = λ ms. (some ms, allows);
  on_call = λ name args.
      let (content, ruling) = guard (screens name) tool_call args in (some content, ruling);
  on_result = λ name text. (some text, allows);
  on_turn = λ ms text. (some text, allows);
  on_answer = λ ms text. (some text, allows);
}

crashes-IsDown : (name : String) → IsDown crashes tool_call
unfolding oumigo.Guard.applies
crashes-IsDown name = record { used = refl; raises = λ c. ("TimeoutError", refl) }

run-IsDown_example :
    ((run screened_agent "Is it sunny?" []).0.ran ≡ [])
    × (run (swapped screened_agent screened_agent.model leaks) "Is it sunny?" []
        ≡ run screened_agent "Is it sunny?" [])
run-IsDown_example =
    run-IsDown screened_agent (λ args. args) some scrubs_but (λ name. []) (λ name. crashes) leaks
      "Is it sunny?" [] (record { screens = λ name args. refl }) crashes-IsDown
