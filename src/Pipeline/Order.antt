-- ===== src/Pipeline/Order.antt =====
-- Which stages a run of internal/kernel/pipeline/runner.go visits: each handler is made to write
-- its stage to a log beside the body of the request, and nothing else changes.
use lite_aig.Base.{ℕ, ◌≡◌, ◌⊎◌, List, [], ◌∷◌, ◌++◌, arith, take}
use lite_aig.Pipeline.{
  Stage, admission, input_guardrail, policy_cost_preflight, resolution, execution_resilience,
  output_stream_guardrail, accounting_telemetry, order, Request, Handler, Handlers, run,
}

pub recorded_stage : {C E : Type 0} → Stage → Handler C E → Handler (C × List Stage) E
recorded_stage s h r =
    let (r', d, e) = h (record { body = r.body.0; err = r.err }) in
    (record { body = (r'.body, r.body.1 ++ s ∷ []); err = r'.err }, d, e)

unfoldable pub recorded :
    {C E : Type 0} → Handlers (Handler C E) → Handlers (Handler (C × List Stage) E)
unfolding recorded_stage
recorded h = record {
  admission_handler = recorded_stage admission h.admission_handler;
  input_guardrail_handler = recorded_stage input_guardrail h.input_guardrail_handler;
  policy_cost_preflight_handler =
      recorded_stage policy_cost_preflight h.policy_cost_preflight_handler;
  resolution_handler = recorded_stage resolution h.resolution_handler;
  execution_resilience_handler = recorded_stage execution_resilience h.execution_resilience_handler;
  output_stream_guardrail_handler =
      recorded_stage output_stream_guardrail h.output_stream_guardrail_handler;
  accounting_and_telemetry_handler =
      recorded_stage accounting_telemetry h.accounting_and_telemetry_handler;
}

-- The request with an empty log.
abbrev pub unlogged : {C E : Type 0} → Request C E → Request (C × List Stage) E
unlogged r = record { body = (r.body, []); err = r.err }

-- The stages that a run visits, in order.
unfoldable pub visited : {C E : Type 0} → Handlers (Handler C E) → Request C E → List Stage
visited h r = (run (recorded h) (unlogged r)).0.body.1

-- The route of a request that the preflight stage answers from the cache.
abbrev pub cached_route : List Stage
cached_route =
    admission ∷ input_guardrail ∷ policy_cost_preflight ∷ output_stream_guardrail
    ∷ accounting_telemetry ∷ []

-- The run was stopped at the n-th stage before accounting, for some n from 1 to 6, or it took the
-- route from the cache.
abbrev pub IsRoute : List Stage → Type 0
IsRoute log =
    let stopped = λ (n : ℕ). log ≡ take n order ++ accounting_telemetry ∷ [] in
    stopped 1 ⊎ stopped 2 ⊎ stopped 3 ⊎ stopped 4 ⊎ stopped 5 ⊎ stopped 6 ⊎ (log ≡ cached_route)

-- Whatever the handlers do, the run visits the fixed stages in their order up to one of the first
-- six, or those of the route from the cache, and then accounting, once and last. Writing the log
-- changes neither the errors of the run nor the body of the request.
pub run-IsRoute :
    {C E : Type 0} (h : Handlers (Handler C E)) (r : Request C E)
    → IsRoute (visited h r)
      × ((run (recorded h) (unlogged r)).1 ≡ (run h r).1)
      × ((run (recorded h) (unlogged r)).0.body.0 ≡ (run h r).0.body)
unfolding visited run recorded
run-IsRoute h r = (ground arith, ground arith, ground arith)

-- A run without an error has visited all seven stages, or those of the route from the cache.
pub visited_without_error :
    {C E : Type 0} (h : Handlers (Handler C E)) (r : Request C E)
    → (run h r).1 ≡ []
    → (visited h r ≡ order) ⊎ (visited h r ≡ cached_route)
unfolding visited run recorded
visited_without_error h r e = ground arith
