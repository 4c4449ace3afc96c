-- ===== src/Execution/Lost.antt =====
-- `runPlan` of internal/gateway/execution/executor.go over the circuit breaker of
-- internal/resilience/circuit/breaker.go, where a deployment is at its capacity.
use lite_aig.Base.{
  ℕ, zero, suc, ◌≤◌, ◌≡◌, refl, ap, ◌∙◌, List, [], ◌∷◌, String, Bool, true, false, none, some,
  arith, if◌then◌else◌, All, ltb,
}
use lite_aig.Base.Word.{Int64, slt}
use lite_aig.Base.Clock.{Time}
use lite_aig.Base.Float.{Float}
use lite_aig.Retry.{Policy}
use lite_aig.Circuit.{Breaker, TupleKey, Entry, opened, half_open, entry_of, cooling, allow_entry}
use lite_aig.Circuit
use lite_aig.Circuit.Probe.{Call, Unsettled, admissions, admissions_held, allow_probe}
use lite_aig.Execution.{
  Deployment, Env, Progress, ends, busy, fall_through, lease_busy, allowed, acquire_lease, round,
  on_allow, on_grant, attempt_loop, attempt_count, try_deployment, plan_loop, initial, outcome,
  final_error, run_plan,
}

-- The tuple of a deployment.
abbrev pub tuple_key : Deployment → TupleKey
tuple_key d = record { deployment_id = d.id; credential_id = d.credential_id }

-- The gate refuses a deployment by an answer that leaves the breaker alone.
module _ {f : Float} {I R E : Type 0} (env : Env (Breaker f) I R E) (policy : Policy) (stop : Bool)
    (id : String) (d : Deployment) (invoker : I) (clock : ℕ → Time) (b : Breaker f)
    (found : env.deployment id ≡ some d) (resolved : env.resolve d ≡ some invoker)
    (circuit : env.has_circuit ≡ true)
    (breaker : env.allow d b
      ≡ ((Circuit.allow b (tuple_key d) clock).0, (Circuit.allow b (tuple_key d) clock).1))
    (full : (s : Breaker f) → acquire_lease env d s ≡ (s, busy)) where
  abbrev entry : Entry
  entry = entry_of b (tuple_key d)

  -- The progress after the one round that is made.
  abbrev blocked : Progress (Breaker f) E
  blocked = record {
    state = (Circuit.allow b (tuple_key d) clock).0;
    attempts = [];
    last = none;
    lease_blocked = true;
    calls = 0;
  }

  allowed_breaker :
      (Circuit.allow b (tuple_key d) clock).1 ≡ true
      → allowed env d b ≡ ((Circuit.allow b (tuple_key d) clock).0, true)
  unfolding allowed
  allowed_breaker admitted =
      ap (λ t. if t then env.allow d b else (b, true)) circuit
      ∙ breaker
      ∙ ap (λ t. ((Circuit.allow b (tuple_key d) clock).0, t)) admitted

  round_busy :
      (more : Bool) (number : Int64)
      → slt 0 policy.max_total_calls ≡ true
      → (Circuit.allow b (tuple_key d) clock).1 ≡ true
      → round env policy stop invoker d more number (initial b) ≡ ends (fall_through blocked)
  unfolding round on_allow on_grant
  round_busy more number below admitted = rw below (
      rw (allowed_breaker admitted)
        (ap (on_grant env policy stop invoker d more number (initial {E = E} b)) (full _)))

  attempt_loop_busy :
      (n : ℕ)
      → 1 ≤ n
      → slt 0 policy.max_total_calls ≡ true
      → (Circuit.allow b (tuple_key d) clock).1 ≡ true
      → attempt_loop env policy stop n invoker d 1 (initial b) ≡ fall_through blocked
  unfolding attempt_loop
  attempt_loop_busy zero h below admitted = absurd (omega arith)
  attempt_loop_busy (suc n) h below admitted =
      rw (round_busy (ltb 0 n) 1 below admitted, attempt_loop) refl

  try_deployment_busy :
      1 ≤ attempt_count env policy stop
      → slt 0 policy.max_total_calls ≡ true
      → (Circuit.allow b (tuple_key d) clock).1 ≡ true
      → try_deployment env policy stop id (initial b) ≡ fall_through blocked
  unfolding try_deployment
  try_deployment_busy h below admitted =
      rw (found, try_deployment)
        (rw (resolved) (attempt_loop_busy (attempt_count env policy stop) h below admitted))

  run_plan_busy :
      1 ≤ attempt_count env policy stop
      → slt 0 policy.max_total_calls ≡ true
      → (Circuit.allow b (tuple_key d) clock).1 ≡ true
      → run_plan env policy stop (id ∷ []) b ≡ outcome (fall_through blocked)
  unfolding run_plan plan_loop
  run_plan_busy h below admitted = rw (try_deployment_busy h below admitted, plan_loop) refl

  -- The probe of a deployment that is at its capacity is lost. For a plan of one deployment whose
  -- circuit is open and has cooled down, and whose lease gate is busy, with at least one attempt
  -- and one call allowed: the run makes no attempt and returns the busy error, and afterwards, as
  -- long as no result is recorded for the tuple and it is not reset, `Allow` admits no call for it,
  -- whatever the clock reads.
  pub run_plan_loses_probe :
      1 ≤ attempt_count env policy stop
      → slt 0 policy.max_total_calls ≡ true
      → entry.state ≡ opened
      → cooling b.config entry (clock 0) ≡ false
      → (calls : List Call) → All (Unsettled (tuple_key d)) calls
      → let o = run_plan env policy stop (id ∷ []) b in
        (o.err ≡ some lease_busy) × (o.attempts ≡ []) × (admissions (tuple_key d) o.state calls ≡ 0)
  unfolding outcome final_error
  run_plan_loses_probe h below broken cooled calls unsettled =
      let (admitted, held) = allow_probe b (tuple_key d) clock broken cooled in
      rw (run_plan_busy h below admitted) (
        refl,
        refl,
        admissions_held (tuple_key d) (Circuit.allow b (tuple_key d) clock).0 calls unsettled held,
      )
