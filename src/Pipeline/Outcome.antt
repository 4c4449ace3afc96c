-- ===== src/Pipeline/Outcome.antt =====
-- What a run of internal/kernel/pipeline/runner.go reports, and what accounting is told.
use lite_aig.Base.{◌≡◌, ◌⊎◌, List, [], ◌∷◌, Option, none, some, arith}
use lite_aig.Pipeline.Order.{visited, recorded}
use lite_aig.Pipeline.{
  Stage, continue, skip_resolution_execution, RunError, stage_failed, unsupported_directive, plain,
  Request, Handler, Handlers, run,
}

-- The stage that an error of the runner names.
abbrev pub error_stage : {E : Type 0} → RunError E → Option Stage
error_stage (stage_failed s e) = some s
error_stage (unsupported_directive s d) = some s
error_stage (plain e) = none

abbrev pub before_last : List Stage → Option Stage
before_last [] = none
before_last (s ∷ []) = none
before_last (s ∷ t ∷ []) = some s
before_last (s ∷ t ∷ u ∷ ss) = before_last (t ∷ u ∷ ss)

-- If the first error that the run reports names a stage, that stage is the last one visited
-- before accounting: an error stops the run at its stage.
pub error-before_last :
    {C E : Type 0} (h : Handlers (Handler C E)) (r : Request C E) (s : Stage) (e : RunError E)
    (es : List (RunError E))
    → (run h r).1 ≡ e ∷ es
    → error_stage e ≡ some s
    → before_last (visited h r) ≡ some s
unfolding run visited recorded
error-before_last h r s e es p q = ground arith

-- A directive to skip, or one that is not known, is an error at every stage but preflight: if no
-- error is reported, admission and the input guardrail returned `continue` and no error, and
-- preflight returned one of the two known directives and no error.
pub run_without_error :
    {C E : Type 0} (h : Handlers (Handler C E)) (r : Request C E)
    → (run h r).1 ≡ []
    → let (r₁, d₁, e₁) = h.admission_handler r in
      let (r₂, d₂, e₂) = h.input_guardrail_handler r₁ in
      let (r₃, d₃, e₃) = h.policy_cost_preflight_handler r₂ in
      (d₁ ≡ continue)
      × (e₁ ≡ none)
      × (d₂ ≡ continue)
      × (e₂ ≡ none)
      × (e₃ ≡ none)
      × ((d₃ ≡ continue) ⊎ (d₃ ≡ skip_resolution_execution))
unfolding run
run_without_error h r e = ground arith
