-- ===== src/Execution/Counting.antt =====
-- `runPlan` of internal/gateway/execution/executor.go with its calls counted. The counter changes
-- nothing else of a run.
use lite_aig.Base.{
  ℕ, zero, suc, not, ◌&&◌, ◌||◌, ◌≡◌, refl, ap, ◌∙◌, Option, none, some, List, [], ◌∷◌, String,
  str_eq, Bool, true, false, if◌then◌else◌, Bool-cases, Option-cases, inl, inr, ltb,
}
use lite_aig.Base.Word.{Int64, add64, slt}
use lite_aig.Retry.{Policy, backoff}
use lite_aig.Execution.{
  Deployment, Env, Progress, Flow, Round, Outcome, Grant, Reply, fall_through, succeeded, stopped,
  ends, again, gate_error, busy, granted, response, failure, round, on_allow, on_grant, on_reply,
  on_failure, back_off, allowed, acquire_lease, wanted_lease, lease_scope, inflight_scope,
  tracked_call, release_lease, track_inflight, untrack_inflight, recorded, after_failure,
  after_success, failed_attempt, attempt_loop, attempt_count, try_deployment, plan_loop, outcome,
  final_error, initial, run_plan,
}

-- The environment with a counter beside its state, which every call of an invoker raises by one.
abbrev pub counting : {S I R E : Type 0} → Env S I R E → Env (S × ℕ) I R E
counting env = record {
  deployment = env.deployment;
  lease = env.lease;
  tenant_id = env.tenant_id;
  has_snapshot = env.has_snapshot;
  resolve = env.resolve;
  has_circuit = env.has_circuit;
  allow = λ d s. (((env.allow d s.0).0, s.1), (env.allow d s.0).1);
  record_result = λ d ok s. (env.record_result d ok s.0, s.1);
  has_leases = env.has_leases;
  gate_acquire = λ scope d l s.
      (((env.gate_acquire scope d l s.0).0, s.1), (env.gate_acquire scope d l s.0).1);
  gate_release = λ scope id s. (env.gate_release scope id s.0, s.1);
  has_inflight = env.has_inflight;
  incr = λ scope s. (env.incr scope s.0, s.1);
  decr = λ scope s. (env.decr scope s.0, s.1);
  call = λ i d s. (((env.call i d s.0).0, suc s.1), (env.call i d s.0).1);
  normalize_error = env.normalize_error;
  is_first_token = env.is_first_token;
  jitter = λ s. (((env.jitter s.0).0, s.1), (env.jitter s.0).1);
  sleep = λ t s. (((env.sleep t s.0).0, s.1), (env.sleep t s.0).1);
}

-- The variables, the ends of the loops and the result without the counter.
abbrev pub bare : {S E : Type 0} → Progress (S × ℕ) E → Progress S E
bare p = record {
  state = p.state.0;
  attempts = p.attempts;
  last = p.last;
  lease_blocked = p.lease_blocked;
  calls = p.calls;
}

module _ {S R E : Type 0} where
  abbrev bare_flow : Flow (S × ℕ) R E → Flow S R E
  bare_flow (fall_through p) = fall_through (bare p)
  bare_flow (succeeded p r d) = succeeded (bare p) r d
  bare_flow (stopped p e) = stopped (bare p) e

  abbrev bare_round : Round (S × ℕ) R E → Round S R E
  bare_round (ends flow) = ends (bare_flow flow)
  bare_round (again p) = again (bare p)

  abbrev pub bare_outcome : Outcome (S × ℕ) R E → Outcome S R E
  bare_outcome o = record {
    state = o.state.0;
    attempts = o.attempts;
    response = o.response;
    err = o.err;
  }

  bare_branches :
      (b : Bool) (x y : Round (S × ℕ) R E) (x' y' : Round S R E)
      → bare_round x ≡ x'
      → bare_round y ≡ y'
      → bare_round (if b then x else y) ≡ (if b then x' else y')
  bare_branches true x y x' y' h k = h
  bare_branches false x y x' y' h k = k

module _ {S I R E : Type 0} (env : Env S I R E) where
  first_of_if : (b : Bool) (s t : S × ℕ) → (if b then s else t).0 ≡ (if b then s.0 else t.0)
  first_of_if true s t = refl
  first_of_if false s t = refl

  allowed-bare :
      (d : Deployment) (s : S × ℕ)
      → let a = allowed (counting env) d s in (a.0.0, a.1) ≡ allowed env d s.0
  unfolding allowed
  allowed-bare d s = elim (Bool-cases env.has_circuit) [
    | inl there ↦ rw (there, allowed) refl
    | inr missing ↦ rw (missing, allowed) refl
  ]

  acquire_lease-bare :
      (d : Deployment) (s : S × ℕ)
      → let a = acquire_lease (counting env) d s in (a.0.0, a.1) ≡ acquire_lease env d s.0
  unfolding acquire_lease wanted_lease lease_scope
  acquire_lease-bare d s = elim (Option-cases (wanted_lease env d)) [
    | inl nothing ↦ rw (nothing, acquire_lease) refl
    | inr (l, wanted) ↦ rw (wanted, acquire_lease) refl
  ]

  recorded-bare :
      (d : Deployment) (success : Bool) (s : S × ℕ)
      → (recorded (counting env) d success s).0 ≡ recorded env d success s.0
  unfolding recorded
  recorded-bare d success s = first_of_if env.has_circuit _ _

  tracked_call-bare :
      (invoker : I) (d : Deployment) (lease_id : String) (s : S × ℕ)
      → let a = tracked_call (counting env) invoker d lease_id s in
        (a.0.0, a.1) ≡ tracked_call env invoker d lease_id s.0
  unfolding tracked_call release_lease untrack_inflight track_inflight inflight_scope lease_scope
  tracked_call-bare invoker d lease_id s =
      let before = track_inflight (counting env) d s in
      let called = (env.call invoker d before.0).0 in
      let untracked = not env.has_inflight || not env.has_snapshot in
      ap (λ t. (t, (env.call invoker d before.0).1))
        (first_of_if (not env.has_leases || str_eq lease_id "") _ _
          ∙ ap (release_lease env d lease_id) (first_of_if untracked (called, suc before.1) _))
      ∙ ap
          (λ t. (
            release_lease env d lease_id (untrack_inflight env d (env.call invoker d t).0),
            (env.call invoker d t).1,
          ))
          (first_of_if untracked s _)

  bare-after_failure :
      (invoker : I) (d : Deployment) (number : Int64) (e : E) (p : Progress (S × ℕ) E) (s : S × ℕ)
      → bare (after_failure (counting env) invoker d number e p s)
        ≡ after_failure env invoker d number e (bare p) s.0
  unfolding after_failure failed_attempt
  bare-after_failure invoker d number e p s =
      ap (λ t. record (after_failure env invoker d number e (bare p) s.0) { state = t })
        (recorded-bare d false s)

  bare-after_success :
      (d : Deployment) (number : Int64) (p : Progress (S × ℕ) E) (s : S × ℕ)
      → bare (after_success (counting env) d number p s) ≡ after_success env d number (bare p) s.0
  unfolding after_success
  bare-after_success d number p s =
      ap (λ t. record (after_success env d number (bare p) s.0) { state = t })
        (recorded-bare d true s)

module _ {S I R E : Type 0} (env : Env S I R E) (policy : Policy) (stop : Bool) where
  back_off-bare :
      (more : Bool) (number : Int64) (p : Progress (S × ℕ) E)
      → bare_round (back_off {R = R} (counting env) policy stop more number p)
        ≡ back_off env policy stop more number (bare p)
  unfolding back_off
  back_off-bare more number p =
      bare_branches (more && slt p.calls policy.max_total_calls) _ _ _ _
        (by_sleep
          (env.sleep (backoff policy number (env.jitter p.state.0).1) (env.jitter p.state.0).0))
        refl
    where
      by_sleep :
          (r : S × Option E)
          → bare_round {R = R} (elim r.1 [
            | none ↦ again (record p { state = (r.0, p.state.1) })
            | some x ↦ ends (stopped (record p { state = (r.0, p.state.1) }) x)
          ])
            ≡ elim r.1 [
              | none ↦ again (record (bare p) { state = r.0 })
              | some x ↦ ends (stopped (record (bare p) { state = r.0 }) x)
            ]
      by_sleep (s, none) = refl
      by_sleep (s, some x) = refl

  on_failure-bare :
      (invoker : I) (more : Bool) (number : Int64) (committed : Bool) (e : E)
      (p : Progress (S × ℕ) E)
      → bare_round (on_failure (counting env) policy stop invoker more number committed e p)
        ≡ on_failure env policy stop invoker more number committed e (bare p)
  unfolding on_failure
  on_failure-bare invoker more number committed e p =
      bare_branches (env.is_first_token e) _ _ _ _ refl (
        bare_branches ((stop && committed) || not (env.normalize_error invoker e).retryable) _ _ _ _
          refl (back_off-bare more number p))

  on_reply-bare :
      (invoker : I) (d : Deployment) (more : Bool) (number : Int64) (p : Progress (S × ℕ) E)
      (r : (S × ℕ) × Reply R E)
      → bare_round (on_reply (counting env) policy stop invoker d more number p r)
        ≡ on_reply env policy stop invoker d more number (bare p) (r.0.0, r.1)
  unfolding on_reply
  on_reply-bare invoker d more number p (s, response r) =
      ap (λ q. ends (succeeded q r d.id)) (bare-after_success env d number p s)
  on_reply-bare invoker d more number p (s, failure committed e) =
      on_failure-bare invoker more number committed e _
      ∙ ap (on_failure env policy stop invoker more number committed e)
          (bare-after_failure env invoker d number e p s)

  on_grant-bare :
      (invoker : I) (d : Deployment) (more : Bool) (number : Int64) (p : Progress (S × ℕ) E)
      (r : (S × ℕ) × Grant E)
      → bare_round (on_grant (counting env) policy stop invoker d more number p r)
        ≡ on_grant env policy stop invoker d more number (bare p) (r.0.0, r.1)
  unfolding on_grant
  on_grant-bare invoker d more number p (s, gate_error e) = refl
  on_grant-bare invoker d more number p (s, busy) = refl
  on_grant-bare invoker d more number p (s, granted id) =
      on_reply-bare invoker d more number p _
      ∙ ap (on_reply env policy stop invoker d more number (bare p))
          (tracked_call-bare env invoker d id s)

  on_allow-bare :
      (invoker : I) (d : Deployment) (more : Bool) (number : Int64) (p : Progress (S × ℕ) E)
      (r : (S × ℕ) × Bool)
      → bare_round (on_allow (counting env) policy stop invoker d more number p r)
        ≡ on_allow env policy stop invoker d more number (bare p) (r.0.0, r.1)
  unfolding on_allow
  on_allow-bare invoker d more number p (s, false) = refl
  on_allow-bare invoker d more number p (s, true) =
      on_grant-bare invoker d more number p _
      ∙ ap (on_grant env policy stop invoker d more number (bare p)) (acquire_lease-bare env d s)

  round-bare :
      (invoker : I) (d : Deployment) (more : Bool) (number : Int64) (p : Progress (S × ℕ) E)
      → bare_round (round (counting env) policy stop invoker d more number p)
        ≡ round env policy stop invoker d more number (bare p)
  unfolding round
  round-bare invoker d more number p =
      bare_branches (slt p.calls policy.max_total_calls) _ _ _ _
        (on_allow-bare invoker d more number p _
          ∙ ap (on_allow env policy stop invoker d more number (bare p))
              (allowed-bare env d p.state))
        refl

  attempt_loop-bare :
      (n : ℕ) (invoker : I) (d : Deployment) (number : Int64) (p : Progress (S × ℕ) E)
      → bare_flow (attempt_loop (counting env) policy stop n invoker d number p)
        ≡ attempt_loop env policy stop n invoker d number (bare p)
  unfolding attempt_loop
  attempt_loop-bare zero invoker d number p = refl
  attempt_loop-bare (suc n) invoker d number p =
      by_round (round (counting env) policy stop invoker d (ltb 0 n) number p)
        (attempt_loop-bare n invoker d (add64 number 1))
      ∙ ap go_on (round-bare invoker d (ltb 0 n) number p)
    where
      go_on : Round S R E → Flow S R E
      go_on r = elim r [
        | ends flow ↦ flow
        | again p' ↦ attempt_loop env policy stop n invoker d (add64 number 1) p'
      ]

      by_round :
          (r : Round (S × ℕ) R E)
          → ((p' : Progress (S × ℕ) E)
              → bare_flow (attempt_loop (counting env) policy stop n invoker d (add64 number 1) p')
                ≡ attempt_loop env policy stop n invoker d (add64 number 1) (bare p'))
          → bare_flow (elim r [
            | ends flow ↦ flow
            | again p' ↦ attempt_loop (counting env) policy stop n invoker d (add64 number 1) p'
          ])
            ≡ go_on (bare_round r)
      by_round (ends flow) rest = refl
      by_round (again p') rest = rest p'

  try_deployment-bare :
      (id : String) (p : Progress (S × ℕ) E)
      → bare_flow (try_deployment (counting env) policy stop id p)
        ≡ try_deployment env policy stop id (bare p)
  unfolding try_deployment attempt_count
  try_deployment-bare id p = elim (Option-cases (env.deployment id)) [
    | inl e ↦ rw (e, try_deployment) refl
    | inr (d, e) ↦ elim (Option-cases (env.resolve d)) [
      | inl e' ↦ rw (e, try_deployment) (rw e' refl)
      | inr (invoker, e') ↦
          rw (e, try_deployment)
            (rw e' (attempt_loop-bare (attempt_count env policy stop) invoker d 1 p))
    ]
  ]

  plan_loop-bare :
      (ids : List String) (p : Progress (S × ℕ) E)
      → bare_flow (plan_loop (counting env) policy stop ids p)
        ≡ plan_loop env policy stop ids (bare p)
  unfolding plan_loop
  plan_loop-bare [] p = refl
  plan_loop-bare (id ∷ ids) p =
      by_flow (try_deployment (counting env) policy stop id p) (plan_loop-bare ids)
      ∙ ap go_on (try_deployment-bare id p)
    where
      go_on : Flow S R E → Flow S R E
      go_on flow = elim flow [
        | fall_through p' ↦ plan_loop env policy stop ids p'
        | succeeded p' r d ↦ succeeded p' r d
        | stopped p' e ↦ stopped p' e
      ]

      by_flow :
          (flow : Flow (S × ℕ) R E)
          → ((p' : Progress (S × ℕ) E)
              → bare_flow (plan_loop (counting env) policy stop ids p')
                ≡ plan_loop env policy stop ids (bare p'))
          → bare_flow (elim flow [
            | fall_through p' ↦ plan_loop (counting env) policy stop ids p'
            | succeeded p' r d ↦ succeeded p' r d
            | stopped p' e ↦ stopped p' e
          ])
            ≡ go_on (bare_flow flow)
      by_flow (fall_through p') rest = rest p'
      by_flow (succeeded p' r d) rest = refl
      by_flow (stopped p' e) rest = refl

  -- The counter aside, a run with it is the run without it.
  pub run_plan-bare :
      (fallback : List String) (s : S) (n : ℕ)
      → bare_outcome (run_plan (counting env) policy stop fallback (s, n))
        ≡ run_plan env policy stop fallback s
  unfolding run_plan outcome final_error
  run_plan-bare fallback s n =
      by_flow (plan_loop (counting env) policy stop fallback (initial (s, n)))
      ∙ ap outcome (plan_loop-bare fallback (initial (s, n)))
    where
      by_flow : (flow : Flow (S × ℕ) R E) → bare_outcome (outcome flow) ≡ outcome (bare_flow flow)
      by_flow (fall_through p) = refl
      by_flow (succeeded p r d) = refl
      by_flow (stopped p e) = refl
