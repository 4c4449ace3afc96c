-- ===== src/Pipeline/Build.antt =====
-- `NewRunner` of internal/kernel/pipeline/runner.go.
use lite_aig.Base.{◌≡◌, ◌↔◌, List, [], ◌∷◌, Option, none, some, arith}
use lite_aig.Pipeline.{
  Stage, admission, input_guardrail, policy_cost_preflight, resolution, execution_resilience,
  output_stream_guardrail, accounting_telemetry, order, Handlers, built, missing_handler,
  new_runner,
}

-- The handler of a stage.
abbrev pub handler_of : {H : Type 0} → Handlers H → Stage → H
handler_of h admission = h.admission_handler
handler_of h input_guardrail = h.input_guardrail_handler
handler_of h policy_cost_preflight = h.policy_cost_preflight_handler
handler_of h resolution = h.resolution_handler
handler_of h execution_resilience = h.execution_resilience_handler
handler_of h output_stream_guardrail = h.output_stream_guardrail_handler
handler_of h accounting_telemetry = h.accounting_and_telemetry_handler

-- The first stage of a list that has no handler.
abbrev pub first_missing : {H : Type 0} → Handlers (Option H) → List Stage → Option Stage
first_missing h [] = none
first_missing h (s ∷ ss) = elim (handler_of h s) [ none ↦ some s | some _ ↦ first_missing h ss ]

-- The constructor fails exactly with the first stage of the fixed order that has no handler.
pub new_runner-missing :
    {H : Type 0} (h : Handlers (Option H)) (s : Stage)
    → (new_runner h ≡ missing_handler s) ↔ (first_missing h order ≡ some s)
unfolding new_runner
new_runner-missing h s = ground arith

-- A runner that is built has, for each stage, the handler that was given for it.
pub new_runner-handler_of :
    {H : Type 0} (h : Handlers (Option H)) (g : Handlers H)
    → new_runner h ≡ built g
    → (s : Stage) → handler_of h s ≡ some (handler_of g s)
unfolding new_runner
new_runner-handler_of h g e admission = ground arith
new_runner-handler_of h g e _ = ground arith
