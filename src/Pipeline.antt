-- ===== src/Pipeline.antt =====
-- internal/kernel/pipeline: the fixed seven stages, the runner and its constructor. A handler is
-- an arbitrary function of the request, which it may change; the context is left out.
pub mod Order
pub mod Outcome
pub mod Build
mod Tests
use lite_aig.Base.{ℕ, ◌==◌, if◌then◌else◌, Option, none, some, List, [], ◌∷◌, ◌++◌, not}

-- `Stage`, without the values that no constant names.
pub data Stage : Type 0 where
  admission input_guardrail policy_cost_preflight resolution : Stage
  execution_resilience output_stream_guardrail accounting_telemetry : Stage

-- `fixedOrder`, as `Order` returns it.
abbrev pub order : List Stage
order =
    admission ∷ input_guardrail ∷ policy_cost_preflight ∷ resolution ∷ execution_resilience
    ∷ output_stream_guardrail ∷ accounting_telemetry ∷ []

-- `Directive`, a uint8.
abbrev pub Directive : Type 0
Directive = ℕ

abbrev pub continue : Directive
continue = 0

abbrev pub skip_resolution_execution : Directive
skip_resolution_execution = 1

-- The errors that the runner makes of a handler's error or directive, and a handler's own error.
pub data RunError (E : Type 0) : Type 0 where
  stage_failed : Stage → E → RunError E
  unsupported_directive : Stage → Directive → RunError E
  plain : E → RunError E

-- `kernel.RequestContext`: the field `Err`, and all else that handlers read and write.
pub record Request (C E : Type 0) : Type 0 where
  pub body : C
  pub err : Option (RunError E)

abbrev pub Handler : Type 0 → Type 0 → Type 0
Handler C E = Request C E → Request C E × Directive × Option E

pub record Handlers (H : Type 0) : Type 0 where
  pub admission_handler : H
  pub input_guardrail_handler : H
  pub policy_cost_preflight_handler : H
  pub resolution_handler : H
  pub execution_resilience_handler : H
  pub output_stream_guardrail_handler : H
  pub accounting_and_telemetry_handler : H

-- The loop of `NewRunner`: the first stage with no handler is the error.
pub data Built (A : Type 0) : Type 0 where
  built : A → Built A
  missing_handler : Stage → Built A

infixl 5 ◌>>=◌
abbrev pub ◌>>=◌ : {A B : Type 0} → Built A → (A → Built B) → Built B
built a >>= f = f a
missing_handler s >>= f = missing_handler s

abbrev pub require : {H : Type 0} → Stage → Option H → Built H
require s none = missing_handler s
require s (some h) = built h

pub new_runner : {H : Type 0} → Handlers (Option H) → Built (Handlers H)
new_runner h = do
  a ← require admission h.admission_handler
  i ← require input_guardrail h.input_guardrail_handler
  p ← require policy_cost_preflight h.policy_cost_preflight_handler
  r ← require resolution h.resolution_handler
  x ← require execution_resilience h.execution_resilience_handler
  o ← require output_stream_guardrail h.output_stream_guardrail_handler
  t ← require accounting_telemetry h.accounting_and_telemetry_handler
  built (record {
    admission_handler = a;
    input_guardrail_handler = i;
    policy_cost_preflight_handler = p;
    resolution_handler = r;
    execution_resilience_handler = x;
    output_stream_guardrail_handler = o;
    accounting_and_telemetry_handler = t;
  })

-- A part of `Run`: it changes the request, and an error ends the run.
abbrev pub Step : Type 0 → Type 0 → Type 0
Step C E = Request C E → Request C E × Option (RunError E)

infixr 5 ◌then_run◌
abbrev pub ◌then_run◌ : {C E : Type 0} → Step C E → Step C E → Step C E
◌then_run◌ first next r = let (r', e) = first r in elim e [ none ↦ next r' | some x ↦ (r', some x) ]

stage_result : {E : Type 0} → Stage → Directive → Option E → Option (RunError E)
stage_result s d (some e) = some (stage_failed s e)
stage_result s d none = if d == continue then none else some (unsupported_directive s d)

run_stage : {C E : Type 0} → Stage → Handler C E → Step C E
unfolding stage_result
run_stage s h r = let (r', d, e) = h r in (r', stage_result s d e)

-- What follows the preflight stage, for its directive and its error.
after_preflight : {C E : Type 0} → Handlers (Handler C E) → Directive → Option E → Step C E
unfolding run_stage
after_preflight h d (some e) r = (r, some (stage_failed policy_cost_preflight e))
after_preflight h d none r =
    let run_output = run_stage output_stream_guardrail h.output_stream_guardrail_handler in
    if d == continue
    then (run_stage resolution h.resolution_handler
          then_run run_stage execution_resilience h.execution_resilience_handler
          then_run run_output)
        r
    else if d == skip_resolution_execution
    then run_output r
    else (r, some (unsupported_directive policy_cost_preflight d))

run_preflight : {C E : Type 0} → Handlers (Handler C E) → Step C E
unfolding after_preflight
run_preflight h r = let (r', d, e) = h.policy_cost_preflight_handler r in after_preflight h d e r'

-- The body of `Run`, without the deferred function.
run_stages : {C E : Type 0} → Handlers (Handler C E) → Step C E
unfolding run_stage run_preflight
run_stages h =
    run_stage admission h.admission_handler
    then_run run_stage input_guardrail h.input_guardrail_handler
    then_run run_preflight h

-- `errors.Join`: the errors that are not nil.
abbrev pub join : {E : Type 0} → Option (RunError E) → Option E → List (RunError E)
join none none = []
join none (some f) = plain f ∷ []
join (some e) none = e ∷ []
join (some e) (some f) = e ∷ plain f ∷ []

-- `Run`: the deferred function records the error and calls the accounting stage.
pub run : {C E : Type 0} → Handlers (Handler C E) → Request C E → Request C E × List (RunError E)
unfolding run_stages
run h r =
    let (r', e) = run_stages h r in
    let (r'', d, f) = h.accounting_and_telemetry_handler (record r' { err = e }) in (r'', join e f)
