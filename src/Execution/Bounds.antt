-- ===== src/Execution/Bounds.antt =====
-- How many calls `runPlan` of internal/gateway/execution/executor.go makes.
use lite_aig.Base.{
  ℕ, suc, not, ◌&&◌, ◌||◌, ◌∙◌, sym, str_eq, if◌then◌else◌, if_intro, Option-cases, Option, none,
  some, ◌≤◌, ◌<◌, ◌≡◌, refl, ap, List, [], ◌∷◌, ◌++◌, String, Bool, true, false, arith, length,
  length-append, Bool-cases, inl, inr,
}
use lite_aig.Base.Word.{Int64, half, add64, add64_fits, slt, slt_small}
use lite_aig.Retry.{Policy, backoff}
use lite_aig.Execution.{
  Deployment, Env, Progress, Flow, Round, Attempt, Grant, Reply, fall_through, succeeded, stopped,
  gate_error, busy, granted, response, failure, round, on_allow, on_grant, on_reply, on_failure,
  back_off, allowed, acquire_lease, tracked_call, after_failure, after_success, failed_attempt,
  success_attempt, outcome, initial, run_plan, recorded, wanted_lease, release_lease,
  untrack_inflight, track_inflight, again, ends, Outcome,
}
use lite_aig.Execution.Counting.{counting, bare_outcome, run_plan-bare}
use lite_aig.Execution.Loops.{InFlow, InRound, plan_loop_inv}

-- The calls that were made are those that `runPlan` counts and those that it writes down, and they
-- are within the limit.
record IsCounted {S E : Type 0} (max : ℕ) (p : Progress (S × ℕ) E) : Type 0 where
  made : p.state.1 ≡ p.calls
  counted : p.calls ≡ length p.attempts
  within : p.calls ≤ max

module _ {S I R E : Type 0} (env : Env S I R E) where
  -- A conditional step that leaves the counter alone.
  same_made : (b : Bool) (s t : S × ℕ) → s.1 ≡ t.1 → (if b then t else s).1 ≡ t.1
  same_made true s t h = refl
  same_made false s t h = h

  allowed_made : (d : Deployment) (s : S × ℕ) → (allowed (counting env) d s).0.1 ≡ s.1
  unfolding allowed
  allowed_made d s = elim (Bool-cases env.has_circuit) [
    | inl there ↦ rw (there, allowed) refl
    | inr missing ↦ rw (missing, allowed) refl
  ]

  recorded_made :
      (d : Deployment) (success : Bool) (s : S × ℕ) → (recorded (counting env) d success s).1 ≡ s.1
  unfolding recorded
  recorded_made d success s = elim (Bool-cases env.has_circuit) [
    | inl there ↦ rw (there, recorded) refl
    | inr missing ↦ rw (missing, recorded) refl
  ]

  acquire_made : (d : Deployment) (s : S × ℕ) → (acquire_lease (counting env) d s).0.1 ≡ s.1
  unfolding acquire_lease
  acquire_made d s = elim (Option-cases (wanted_lease (counting env) d)) [
    | inl nothing ↦ rw (nothing, acquire_lease) refl
    | inr (l, wanted) ↦ rw (wanted, acquire_lease) refl
  ]

  tracked_call_made :
      (invoker : I) (d : Deployment) (lease_id : String) (s : S × ℕ)
      → (tracked_call (counting env) invoker d lease_id s).0.1 ≡ suc s.1
  unfolding tracked_call release_lease untrack_inflight track_inflight
  tracked_call_made invoker d lease_id s =
      same_made (not env.has_leases || str_eq lease_id "") _ _ refl
      ∙ same_made (not env.has_inflight || not env.has_snapshot) _ _ refl
      ∙ ap suc (same_made (not env.has_inflight || not env.has_snapshot) _ _ refl)

module _ {S I R E : Type 0} (env : Env S I R E) (policy : Policy) (stop : Bool)
    (small : policy.max_total_calls < half) where
  abbrev max : ℕ
  max = policy.max_total_calls

  abbrev Counted : Progress (S × ℕ) E → Type 0
  Counted = IsCounted max

  abbrev InCounted : Round (S × ℕ) R E → Type 0
  InCounted = InRound Counted (λ p _ _. Counted p) (λ p _. Counted p)

  -- A change of the other variables.
  Counted-same :
      (p q : Progress (S × ℕ) E)
      → Counted p
      → q.state.1 ≡ p.state.1
      → q.attempts ≡ p.attempts
      → q.calls ≡ p.calls
      → Counted q
  Counted-same p q h s e f = record {
    made = s ∙ h.made ∙ sym f;
    counted = omega (arith, f, h.counted, ap length e);
    within = omega (arith, f, h.within);
  }

  back_off-Counted :
      (more : Bool) (number : Int64) (p : Progress (S × ℕ) E)
      → Counted p
      → InCounted (back_off (counting env) policy stop more number p)
  unfolding back_off
  back_off-Counted more number p h =
      if_intro InCounted (more && slt p.calls policy.max_total_calls) _ _
        (λ _.
          by_sleep
            (env.sleep (backoff policy number (env.jitter p.state.0).1) (env.jitter p.state.0).0))
        (λ _. h)
    where
      by_sleep :
          (r : S × Option E)
          → InCounted (elim r.1 [
            | none ↦ again (record p { state = (r.0, p.state.1) })
            | some x ↦ ends (stopped (record p { state = (r.0, p.state.1) }) x)
          ])
      by_sleep (s, none) = Counted-same p _ h refl refl refl
      by_sleep (s, some x) = Counted-same p _ h refl refl refl

  on_failure-Counted :
      (invoker : I) (more : Bool) (number : Int64) (committed : Bool) (e : E)
      (p : Progress (S × ℕ) E)
      → Counted p
      → InCounted (on_failure (counting env) policy stop invoker more number committed e p)
  unfolding on_failure
  on_failure-Counted invoker more number committed e p h =
      if_intro InCounted (env.is_first_token e) _ _ (λ _. h)
        (λ _.
          if_intro InCounted ((stop && committed) || not (env.normalize_error invoker e).retryable)
            _ _ (λ _. h) (λ _. back_off-Counted more number p h))

  -- One more call, while the counter is below the limit.
  Counted-more :
      (p q : Progress (S × ℕ) E) (a : Attempt)
      → Counted p
      → p.calls < max
      → q.state.1 ≡ suc p.state.1
      → q.attempts ≡ p.attempts ++ a ∷ []
      → q.calls ≡ add64 p.calls 1
      → Counted q
  Counted-more p q a h lt s e f =
      let grown = length-append p.attempts (a ∷ []) in
      let next = add64_fits p.calls 1 (omega (arith, h.within)) in
      record {
        made = omega (arith, s, h.made, next, f);
        counted = omega (arith, grown, next, ap length e, f, h.counted);
        within = omega (arith, next, f);
      }

  on_reply-Counted :
      (invoker : I) (d : Deployment) (more : Bool) (number : Int64) (p : Progress (S × ℕ) E)
      (r : (S × ℕ) × Reply R E)
      → Counted p
      → p.calls < max
      → r.0.1 ≡ suc p.state.1
      → InCounted (on_reply (counting env) policy stop invoker d more number p r)
  unfolding on_reply after_failure after_success
  on_reply-Counted invoker d more number p (s, response r) h lt called =
      Counted-more p (after_success (counting env) d number p s) (success_attempt d number) h lt
        (recorded_made env d true s ∙ called) refl refl
  on_reply-Counted invoker d more number p (s, failure committed e) h lt called =
      on_failure-Counted invoker more number committed e
        (after_failure (counting env) invoker d number e p s)
        (Counted-more p (after_failure (counting env) invoker d number e p s)
          (failed_attempt (counting env) invoker d number e) h lt
          (recorded_made env d false s ∙ called) refl refl)

  on_grant-Counted :
      (invoker : I) (d : Deployment) (more : Bool) (number : Int64) (p : Progress (S × ℕ) E)
      (r : (S × ℕ) × Grant E)
      → Counted p
      → p.calls < max
      → r.0.1 ≡ p.state.1
      → InCounted (on_grant (counting env) policy stop invoker d more number p r)
  unfolding on_grant
  on_grant-Counted invoker d more number p (s, gate_error e) h lt same =
      Counted-same p _ h same refl refl
  on_grant-Counted invoker d more number p (s, busy) h lt same = Counted-same p _ h same refl refl
  on_grant-Counted invoker d more number p (s, granted id) h lt same =
      on_reply-Counted invoker d more number p (tracked_call (counting env) invoker d id s) h lt
        (tracked_call_made env invoker d id s ∙ ap suc same)

  on_allow-Counted :
      (invoker : I) (d : Deployment) (more : Bool) (number : Int64) (p : Progress (S × ℕ) E)
      (r : (S × ℕ) × Bool)
      → Counted p
      → p.calls < max
      → r.0.1 ≡ p.state.1
      → InCounted (on_allow (counting env) policy stop invoker d more number p r)
  unfolding on_allow
  on_allow-Counted invoker d more number p (s, true) h lt same =
      on_grant-Counted invoker d more number p (acquire_lease (counting env) d s) h lt
        (acquire_made env d s ∙ same)
  on_allow-Counted invoker d more number p (s, false) h lt same = Counted-same p _ h same refl refl

  round-Counted :
      (invoker : I) (d : Deployment) (more : Bool) (number : Int64) (p : Progress (S × ℕ) E)
      → Counted p
      → InCounted (round (counting env) policy stop invoker d more number p)
  unfolding round
  round-Counted invoker d more number p h = elim (Bool-cases (slt p.calls policy.max_total_calls)) [
    | inl below ↦ rw below (
        on_allow-Counted invoker d more number p (allowed (counting env) d p.state) h
          (ground (arith, slt_small p.calls policy.max_total_calls, h.within))
          (allowed_made env d p.state))
    | inr reached ↦ rw reached h
  ]

  -- What a run that ends has called.
  abbrev IsBounded : Outcome (S × ℕ) R E → Type 0
  IsBounded o = (o.state.1 ≡ length o.attempts) × (o.state.1 ≤ max)

  outcome-IsBounded :
      (flow : Flow (S × ℕ) R E)
      → InFlow Counted (λ p _ _. Counted p) (λ p _. Counted p) flow
      → IsBounded (outcome flow)
  unfolding outcome
  outcome-IsBounded (fall_through p) h = (h.made ∙ h.counted, omega (arith, h.made, h.within))
  outcome-IsBounded (succeeded p r d) h = (h.made ∙ h.counted, omega (arith, h.made, h.within))
  outcome-IsBounded (stopped p e) h = (h.made ∙ h.counted, omega (arith, h.made, h.within))

  counted_run :
      (fallback : List String) (s : S)
      → IsBounded (run_plan (counting env) policy stop fallback (s, 0))
  unfolding run_plan
  counted_run fallback s = outcome-IsBounded _ (
      plan_loop_inv (counting env) policy stop Counted (λ p _ _. Counted p) (λ p _. Counted p)
        round-Counted fallback (initial (s, 0))
        (record { made = refl; counted = refl; within = omega arith }))

  -- The calls of a run are bounded. Let a counter stand beside the state of any environment, raised
  -- by one by each call of an invoker: a run with it is the run without it, the counter aside. Where
  -- the limit on calls is not negative, the counter of a run that starts at zero ends within the
  -- limit, over all the deployments of the plan, and one attempt is written down for each call.
  pub run_plan-IsBounded :
      (fallback : List String) (s : S)
      → let o = run_plan (counting env) policy stop fallback (s, 0) in
        (bare_outcome o ≡ run_plan env policy stop fallback s)
        × (o.state.1 ≡ length o.attempts)
        × (o.state.1 ≤ policy.max_total_calls)
  run_plan-IsBounded fallback s =
      let made = counted_run fallback s in
      (run_plan-bare env policy stop fallback s 0, made.0, made.1)
