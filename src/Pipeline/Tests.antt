-- ===== src/Pipeline/Tests.antt =====
-- Runs of the pipeline, and the theorems at concrete handlers.
use lite_aig.Base.{ℕ, ◌≡◌, refl, ◌⊎◌, [], ◌∷◌, Option, none, some}
use lite_aig.Pipeline.{
  admission, input_guardrail, resolution, accounting_telemetry, continue, skip_resolution_execution,
  stage_failed, Request, Handler, Handlers, missing_handler, new_runner, run,
}
use lite_aig.Pipeline.Order.{IsRoute, cached_route, visited, recorded, unlogged, run-IsRoute}
use lite_aig.Pipeline.Outcome.{run_without_error}

-- Handlers over a counter, with numbers for errors.
abbrev pass : Handler ℕ ℕ
pass r = (r, continue, none)

abbrev skip : Handler ℕ ℕ
skip r = (r, skip_resolution_execution, none)

abbrev refuse : Handler ℕ ℕ
refuse r = (r, continue, some 7)

abbrev all_pass : Handlers (Handler ℕ ℕ)
all_pass = record {
  admission_handler = pass;
  input_guardrail_handler = pass;
  policy_cost_preflight_handler = pass;
  resolution_handler = pass;
  execution_resilience_handler = pass;
  output_stream_guardrail_handler = pass;
  accounting_and_telemetry_handler = pass;
}

abbrev cache_hit : Handlers (Handler ℕ ℕ)
cache_hit = record all_pass { policy_cost_preflight_handler = skip }

abbrev blocked : Handlers (Handler ℕ ℕ)
blocked = record all_pass { input_guardrail_handler = refuse }

abbrev request : Request ℕ ℕ
request = record { body = 0; err = none }

visited-cache_hit : visited cache_hit request ≡ cached_route
unfolding visited recorded run
visited-cache_hit = refl

visited-blocked : visited blocked request ≡ admission ∷ input_guardrail ∷ accounting_telemetry ∷ []
unfolding visited recorded run
visited-blocked = refl

run-blocked : (run blocked request).1 ≡ stage_failed input_guardrail 7 ∷ []
unfolding run
run-blocked = refl

run-cache_hit : (run cache_hit request).1 ≡ []
unfolding run
run-cache_hit = refl

run-IsRoute_example :
    IsRoute (visited blocked request)
    × ((run (recorded blocked) (unlogged request)).1 ≡ (run blocked request).1)
    × ((run (recorded blocked) (unlogged request)).0.body.0 ≡ (run blocked request).0.body)
run-IsRoute_example = run-IsRoute blocked request

run_without_error_example :
    (◌≡◌ {A = ℕ} continue continue)
    × (◌≡◌ {A = Option ℕ} none none)
    × (◌≡◌ {A = ℕ} continue continue)
    × (◌≡◌ {A = Option ℕ} none none)
    × (◌≡◌ {A = Option ℕ} none none)
    × ((◌≡◌ {A = ℕ} skip_resolution_execution continue)
        ⊎ (◌≡◌ {A = ℕ} skip_resolution_execution skip_resolution_execution))
run_without_error_example = run_without_error cache_hit request run-cache_hit

-- Handlers where two stages have none.
abbrev incomplete : Handlers (Option (Handler ℕ ℕ))
incomplete = record {
  admission_handler = some pass;
  input_guardrail_handler = some pass;
  policy_cost_preflight_handler = some pass;
  resolution_handler = none;
  execution_resilience_handler = some pass;
  output_stream_guardrail_handler = none;
  accounting_and_telemetry_handler = some pass;
}

new_runner-incomplete : new_runner incomplete ≡ missing_handler resolution
unfolding new_runner
new_runner-incomplete = refl
