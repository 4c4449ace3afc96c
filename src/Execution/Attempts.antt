-- ===== src/Execution/Attempts.antt =====
-- What the attempts say that `runPlan` of internal/gateway/execution/executor.go returns.
use lite_aig.Base.{
  ◌≤◌, ◌≡◌, refl, sym, List, [], ◌∷◌, ◌++◌, String, Bool, true, false, not, ◌&&◌, ◌||◌, Option,
  none, some, arith, All, All-append, if_intro, Bool-cases, inl, inr, length, ◌⊎◌,
}
use mathlib.Core.List.{append-nil}
use lite_aig.Base.Word.{Int64, slt}
use lite_aig.Retry.{Policy, backoff}
use lite_aig.Execution.{
  Deployment, Env, Progress, Flow, Round, Outcome, Attempt, Grant, Reply, fall_through, succeeded,
  stopped, ends, again, gate_error, busy, granted, response, failure, round, on_allow, on_grant,
  on_reply, on_failure, back_off, allowed, acquire_lease, tracked_call, after_failure,
  after_success, failed_attempt, success_attempt, plan_loop, outcome, initial, run_plan, RunError,
  failed, final_error,
}
use lite_aig.Execution.Loops.{InFlow, InRound, plan_loop_inv}

-- The attempt was a failure that may be tried again.
abbrev pub IsRetryable : Attempt → Type 0
IsRetryable a = a.retryable ≡ true

-- All attempts but perhaps the last one are such failures.
pub data RetriedUntil (attempts : List Attempt) : Type 0 where
  retried :
      (xs ys : List Attempt)
      → All IsRetryable xs
      → length ys ≤ 1
      → attempts ≡ xs ++ ys
      → RetriedUntil attempts

-- The attempts are such failures, and then a success of the deployment.
pub data Served (id : String) (attempts : List Attempt) : Type 0 where
  served :
      (xs : List Attempt) (d : Deployment) (number : Int64)
      → All IsRetryable xs
      → d.id ≡ id
      → attempts ≡ xs ++ success_attempt d number ∷ []
      → Served id attempts

retryable_of_not : (a b : Bool) → (a || not b) ≡ false → b ≡ true
retryable_of_not true b h = cc
retryable_of_not false true h = refl
retryable_of_not false false h = cc

module _ {S I R E : Type 0} (env : Env S I R E) (policy : Policy) (stop : Bool) where
  abbrev Retried : Progress S E → Type 0
  Retried p = All IsRetryable p.attempts

  abbrev ServedBy : Progress S E → R → String → Type 0
  ServedBy p r id = Served id p.attempts

  abbrev Until : Progress S E → E → Type 0
  Until p e = RetriedUntil p.attempts

  abbrev InRetried : Round S R E → Type 0
  InRetried = InRound Retried ServedBy Until

  All-until : (xs : List Attempt) → All IsRetryable xs → RetriedUntil xs
  All-until xs h = retried xs [] h (omega arith) (sym (append-nil xs))

  back_off-Retried :
      (more : Bool) (number : Int64) (p : Progress S E)
      → Retried p
      → InRetried (back_off env policy stop more number p)
  unfolding back_off
  back_off-Retried more number p h =
      if_intro InRetried (more && slt p.calls policy.max_total_calls) _ _
        (λ _.
          by_sleep
            (env.sleep (backoff policy number (env.jitter p.state).1) (env.jitter p.state).0))
        (λ _. h)
    where
      by_sleep :
          (r : S × Option E)
          → InRetried (elim r.1 [
            | none ↦ again (record p { state = r.0 })
            | some x ↦ ends (stopped (record p { state = r.0 }) x)
          ])
      by_sleep (s, none) = h
      by_sleep (s, some x) = All-until p.attempts h

  -- A failure that is followed by another attempt, or by the next deployment, may be tried again.
  on_failure-Retried :
      (invoker : I) (d : Deployment) (more : Bool) (number : Int64) (committed : Bool) (e : E)
      (p : Progress S E) (s : S)
      → Retried p
      → InRetried (
          on_failure env policy stop invoker more number committed e
            (after_failure env invoker d number e p s))
  unfolding on_failure after_failure failed_attempt
  on_failure-Retried invoker d more number committed e p s h =
      let p' = after_failure env invoker d number e p s in
      let a = failed_attempt env invoker d number e in
      let retryable = (env.normalize_error invoker e).retryable in
      if_intro InRetried (env.is_first_token e) _ _
        (λ first. All-append IsRetryable p.attempts (a ∷ []) h (rw first refl, tt))
        (λ later.
          if_intro InRetried ((stop && committed) || not retryable) _ _
            (λ _. retried p.attempts (a ∷ []) h (omega arith) refl)
            (λ goes_on. back_off-Retried more number p' (
              All-append IsRetryable p.attempts (a ∷ []) h
                (rw later (retryable_of_not (stop && committed) retryable goes_on), tt))))

  on_reply-Retried :
      (invoker : I) (d : Deployment) (more : Bool) (number : Int64) (p : Progress S E)
      (r : S × Reply R E)
      → Retried p
      → InRetried (on_reply env policy stop invoker d more number p r)
  unfolding on_reply after_success
  on_reply-Retried invoker d more number p (s, response r) h =
      served p.attempts d number h refl refl
  on_reply-Retried invoker d more number p (s, failure committed e) h =
      on_failure-Retried invoker d more number committed e p s h

  on_grant-Retried :
      (invoker : I) (d : Deployment) (more : Bool) (number : Int64) (p : Progress S E)
      (r : S × Grant E)
      → Retried p
      → InRetried (on_grant env policy stop invoker d more number p r)
  unfolding on_grant
  on_grant-Retried invoker d more number p (s, gate_error e) h = All-until p.attempts h
  on_grant-Retried invoker d more number p (s, busy) h = h
  on_grant-Retried invoker d more number p (s, granted id) h =
      on_reply-Retried invoker d more number p (tracked_call env invoker d id s) h

  on_allow-Retried :
      (invoker : I) (d : Deployment) (more : Bool) (number : Int64) (p : Progress S E)
      (r : S × Bool)
      → Retried p
      → InRetried (on_allow env policy stop invoker d more number p r)
  unfolding on_allow
  on_allow-Retried invoker d more number p (s, true) h =
      on_grant-Retried invoker d more number p (acquire_lease env d s) h
  on_allow-Retried invoker d more number p (s, false) h = h

  round-Retried :
      (invoker : I) (d : Deployment) (more : Bool) (number : Int64) (p : Progress S E)
      → Retried p
      → InRetried (round env policy stop invoker d more number p)
  unfolding round
  round-Retried invoker d more number p h = elim (Bool-cases (slt p.calls policy.max_total_calls)) [
    | inl below ↦ rw below (on_allow-Retried invoker d more number p (allowed env d p.state) h)
    | inr reached ↦ rw reached h
  ]

-- What a run promises of its attempts, by its response.
abbrev pub IsExplained : {S R E : Type 0} → Outcome S R E → Type 0
IsExplained {R = R} {E = E} o =
    ((o.err ≡ none)
      × ((r : R) × (id : String) × (o.response ≡ some (r, id)) × Served id o.attempts))
    ⊎ ((o.response ≡ none) × ((x : RunError E) × (o.err ≡ some x)) × RetriedUntil o.attempts)

-- Every run is of one of two kinds. It returns no error and a response of a deployment, and its
-- attempts are failures that may be tried again, then one success of that deployment. Or it returns
-- an error and no response, and all its attempts but perhaps the last are failures that may be
-- tried again: a failure that may not be ends the run.
pub run_plan-IsExplained :
    {S I R E : Type 0} (env : Env S I R E) (policy : Policy) (stop : Bool) (fallback : List String)
    (s : S)
    → IsExplained (run_plan env policy stop fallback s)
unfolding run_plan outcome
run_plan-IsExplained {S} {I} {R} {E} env policy stop fallback s =
    explained (plan_loop env policy stop fallback (initial s)) (
      plan_loop_inv env policy stop (Retried env policy stop) (ServedBy env policy stop)
        (Until env policy stop) (round-Retried env policy stop) fallback (initial s) tt)
  where
    explained :
        (flow : Flow S R E)
        → InFlow (Retried env policy stop) (ServedBy env policy stop) (Until env policy stop) flow
        → IsExplained (outcome flow)
    explained (fall_through p) h =
        inr (refl, (final_error p, refl), All-until env policy stop p.attempts h)
    explained (succeeded p r id) h = inl (refl, (r, id, refl, h))
    explained (stopped p e) h = inr (refl, (failed e, refl), h)
