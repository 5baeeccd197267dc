-- ===== src/Guard/Tests.antt =====
-- Guards over texts: one that rewrites, one that flags, one that raises at tool calls, one that stops.
use oumigo.Prelude.{String, ◌≡◌, refl, none, some, [], ◌∷◌}
use oumigo.Guard.{
  Guard, InterceptPoint-discrete, transform, flag, block, stop, returned, raised, applies, is_in,
  consult, weigh, evaluate_loop, evaluate, active_loop, active_points, tool_call, final_answer,
}
use oumigo.Guard.Evaluation.{evaluate_fails_closed}

abbrev scrubs : Guard String
scrubs = record { points = none; intercept = λ p c. returned (transform "scrubbed") }

abbrev audits : Guard String
audits = record { points = none; intercept = λ p c. returned (flag c) }

abbrev crashes : Guard String
crashes = record { points = some (tool_call ∷ []); intercept = λ p c. raised "KeyError" }

abbrev stops : Guard String
stops = record { points = some (final_answer ∷ []); intercept = λ p c. returned (stop c) }

-- Names what the tests compute with.
opened : Unit {0}
unfolding evaluate evaluate_loop applies consult weigh is_in InterceptPoint-discrete active_points
    active_loop
opened = tt

crash_denies :
    (evaluate (scrubs ∷ audits ∷ crashes ∷ stops ∷ []) tool_call "x")
    ≡ record { verdict = block "KeyError"; content = "scrubbed"; flags = flag "scrubbed" ∷ [] }
unfolding opened
crash_denies = refl

evaluate_fails_closed_example :
    evaluate (scrubs ∷ crashes ∷ stops ∷ []) tool_call "x"
    ≡ record { verdict = block "KeyError"; content = "scrubbed"; flags = [] }
unfolding opened
evaluate_fails_closed_example =
    evaluate_fails_closed (scrubs ∷ []) (stops ∷ []) crashes tool_call "x" "KeyError" refl refl refl
