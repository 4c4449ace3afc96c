-- ===== src/Execution.antt =====
-- internal/gateway/execution/executor.go: `runPlan` walks a route plan with a circuit gate, a
-- capacity lease, bounded attempts and backoff. The circuit, the leases, the counter of calls in
-- flight, the invokers, the jitter and the sleeper act on a state `S` of their own.
pub mod Loops
pub mod Counting
pub mod Bounds
pub mod Attempts
pub mod Lost
mod Tests
use Prim.Native.String.{◌++◌ as str_append}
use lite_aig.Base.{
  ℕ, zero, suc, ◌+◌, ◌-◌, ◌*◌, if◌then◌else◌, Option, none, some, List, [], ◌∷◌, ◌++◌, String,
  str_eq, Bool, true, false, not, ◌&&◌, ◌||◌, ltb,
}
use lite_aig.Base.Word.{Int64, add64, slt, sle}
use lite_aig.Retry.{Policy, backoff}

pub record Deployment : Type 0 where
  pub id : String
  pub credential_id : String

-- A lease policy of the snapshot.
pub record Lease : Type 0 where
  pub capacity : Int64
  pub ttl_seconds : Int64

-- The code and the retry guidance of a normalised error.
pub record Normalized : Type 0 where
  pub code : String
  pub retryable : Bool

pub record Attempt : Type 0 where
  pub deployment_id : String
  pub credential_id : String
  pub number : Int64
  pub outcome : String
  pub retryable : Bool

-- What a call returns: a response, or whether bytes were committed and an error.
pub data Reply (R E : Type 0) : Type 0 where
  response : R → Reply R E
  failure : Bool → E → Reply R E

-- What the lease gate answers: an error, busy, or a lease with its id.
pub data Grant (E : Type 0) : Type 0 where
  gate_error : E → Grant E
  busy : Grant E
  granted : String → Grant E

-- The parts that the executor calls. `circuit`, `leases` and `inflight` say whether they are
-- there.
pub record Env (S I R E : Type 0) : Type 0 where
  pub deployment : String → Option Deployment
  pub lease : String → Option Lease
  pub tenant_id : String
  pub has_snapshot : Bool
  pub resolve : Deployment → Option I
  pub has_circuit : Bool
  pub allow : Deployment → S → S × Bool
  pub record_result : Deployment → Bool → S → S
  pub has_leases : Bool
  pub gate_acquire : String → Deployment → Lease → S → S × Grant E
  pub gate_release : String → String → S → S
  pub has_inflight : Bool
  pub incr : String → S → S
  pub decr : String → S → S
  pub call : I → Deployment → S → S × Reply R E
  pub normalize_error : I → E → Normalized
  pub is_first_token : E → Bool
  pub jitter : S → S × Int64
  pub sleep : Int64 → S → S × Option E

pub data RunError (E : Type 0) : Type 0 where
  failed : E → RunError E
  lease_busy exhausted : RunError E

-- The variables of `runPlan` beside the state of the parts.
pub record Progress (S E : Type 0) : Type 0 where
  pub state : S
  pub attempts : List Attempt
  pub last : Option E
  pub lease_blocked : Bool
  pub calls : Int64

-- How the inner loop ends: it falls through to the next deployment, or `runPlan` returns.
pub data Flow (S R E : Type 0) : Type 0 where
  fall_through : Progress S E → Flow S R E
  succeeded : Progress S E → R → String → Flow S R E
  stopped : Progress S E → E → Flow S R E

pub success_attempt : Deployment → Int64 → Attempt
success_attempt d number = record {
  deployment_id = d.id;
  credential_id = d.credential_id;
  number = number;
  outcome = "success";
  retryable = false;
}

module _ {S I R E : Type 0} (env : Env S I R E) where
  -- The lease that `acquireLease` asks for, or none where it asks for none.
  pub wanted_lease : Deployment → Option Lease
  wanted_lease d =
      if not env.has_leases || not env.has_snapshot then none else elim (env.lease d.id) [
        | none ↦ none
        | some l ↦ if sle l.capacity 0 || sle l.ttl_seconds 0 then none else some l
      ]

  pub lease_scope : Deployment → String
  lease_scope d = str_append "{tenant:" (str_append env.tenant_id (str_append "}:deployment:" d.id))

  -- `inflightScope`.
  pub inflight_scope : Deployment → String
  inflight_scope d = str_append (lease_scope d) (str_append ":credential:" d.credential_id)

  -- `acquireLease`. Without a lease the id is empty, and nothing is released.
  pub acquire_lease : Deployment → S → S × Grant E
  acquire_lease d s = elim (wanted_lease d) [
    | none ↦ (s, granted "")
    | some l ↦ env.gate_acquire (lease_scope d) d l s
  ]

  pub release_lease : Deployment → String → S → S
  release_lease d lease_id s =
      if not env.has_leases || str_eq lease_id ""
      then s
      else env.gate_release (lease_scope d) lease_id s

  pub track_inflight : Deployment → S → S
  track_inflight d s =
      if not env.has_inflight || not env.has_snapshot then s else env.incr (inflight_scope d) s

  pub untrack_inflight : Deployment → S → S
  untrack_inflight d s =
      if not env.has_inflight || not env.has_snapshot then s else env.decr (inflight_scope d) s

  pub allowed : Deployment → S → S × Bool
  allowed d s = if env.has_circuit then env.allow d s else (s, true)

  pub recorded : Deployment → Bool → S → S
  recorded d success s = if env.has_circuit then env.record_result d success s else s

  -- The call between its bookkeeping: in flight, called, no longer in flight, lease given back.
  pub tracked_call : I → Deployment → String → S → S × Reply R E
  tracked_call invoker d lease_id s =
      let (s', reply) = env.call invoker d (track_inflight d s) in
      (release_lease d lease_id (untrack_inflight d s'), reply)

  -- The attempt that a failed call is written down as.
  pub failed_attempt : I → Deployment → Int64 → E → Attempt
  failed_attempt invoker d number e =
      let n = env.normalize_error invoker e in
      let first = env.is_first_token e in
      record {
        deployment_id = d.id;
        credential_id = d.credential_id;
        number = number;
        outcome = if first then "first_token_timeout" else n.code;
        retryable = if first then true else n.retryable;
      }

  -- The progress after a call that failed, its failure recorded.
  pub after_failure : I → Deployment → Int64 → E → Progress S E → S → Progress S E
  after_failure invoker d number e p s = record {
    state = recorded d false s;
    attempts = p.attempts ++ failed_attempt invoker d number e ∷ [];
    last = some e;
    lease_blocked = p.lease_blocked;
    calls = add64 p.calls 1;
  }

  pub after_success : Deployment → Int64 → Progress S E → S → Progress S E
  after_success d number p s = record {
    state = recorded d true s;
    attempts = p.attempts ++ success_attempt d number ∷ [];
    last = p.last;
    lease_blocked = p.lease_blocked;
    calls = add64 p.calls 1;
  }

-- What `runPlan` returns, and the state of the parts after it.
pub record Outcome (S R E : Type 0) : Type 0 where
  pub state : S
  pub attempts : List Attempt
  pub response : Option (R × String)
  pub err : Option (RunError E)

-- The error of a plan that is walked to its end.
pub final_error : {S E : Type 0} → Progress S E → RunError E
final_error p = elim p.last [
  | some e ↦ failed e
  | none ↦ if p.lease_blocked then lease_busy else exhausted
]

pub outcome : {S R E : Type 0} → Flow S R E → Outcome S R E
outcome (fall_through p) = record {
  state = p.state;
  attempts = p.attempts;
  response = none;
  err = some (final_error p);
}
outcome (succeeded p r d) = record {
  state = p.state;
  attempts = p.attempts;
  response = some (r, d);
  err = none;
}
outcome (stopped p e) = record {
  state = p.state;
  attempts = p.attempts;
  response = none;
  err = some (failed e);
}

abbrev pub initial : {S E : Type 0} → S → Progress S E
initial s = record { state = s; attempts = []; last = none; lease_blocked = false; calls = 0 }

-- What one round of the inner loop does: it ends the loop, or it goes on to the next attempt.
pub data Round (S R E : Type 0) : Type 0 where
  ends : Flow S R E → Round S R E
  again : Progress S E → Round S R E

module _ {S I R E : Type 0} (env : Env S I R E) (policy : Policy) (stop_on_committed : Bool) where
  -- The wait before the next attempt, if there is one: a sleep that fails ends the run.
  pub back_off : Bool → Int64 → Progress S E → Round S R E
  back_off more number p =
      if more && slt p.calls policy.max_total_calls
      then (let (s, j) = env.jitter p.state in
          let (s', e) = env.sleep (backoff policy number j) s in
          elim e [
            | none ↦ again (record p { state = s' })
            | some x ↦ ends (stopped (record p { state = s' }) x)
          ])
      else again p

  -- What follows a failed call.
  pub on_failure : I → Bool → Int64 → Bool → E → Progress S E → Round S R E
  on_failure invoker more number committed e p =
      if env.is_first_token e
      then ends (fall_through p)
      else if (stop_on_committed && committed) || not (env.normalize_error invoker e).retryable
      then ends (stopped p e)
      else back_off more number p

  pub on_reply : I → Deployment → Bool → Int64 → Progress S E → S × Reply R E → Round S R E
  on_reply invoker d more number p (s, response r) =
      ends (succeeded (after_success env d number p s) r d.id)
  on_reply invoker d more number p (s, failure committed e) =
      on_failure invoker more number committed e (after_failure env invoker d number e p s)

  pub on_grant : I → Deployment → Bool → Int64 → Progress S E → S × Grant E → Round S R E
  on_grant invoker d more number p (s, gate_error e) = ends (stopped (record p { state = s }) e)
  on_grant invoker d more number p (s, busy) =
      ends (fall_through (record p { state = s; lease_blocked = true }))
  on_grant invoker d more number p (s, granted lease_id) =
      on_reply invoker d more number p (tracked_call env invoker d lease_id s)

  pub on_allow : I → Deployment → Bool → Int64 → Progress S E → S × Bool → Round S R E
  on_allow invoker d more number p (s, false) = ends (fall_through (record p { state = s }))
  on_allow invoker d more number p (s, true) =
      on_grant invoker d more number p (acquire_lease env d s)

  -- One round; `more` says whether the deployment has another attempt after this one.
  pub round : I → Deployment → Bool → Int64 → Progress S E → Round S R E
  round invoker d more number p =
      if slt p.calls policy.max_total_calls
      then on_allow invoker d more number p (allowed env d p.state)
      else ends (fall_through p)

  -- The inner loop, for the attempts that the deployment has left.
  pub attempt_loop : ℕ → I → Deployment → Int64 → Progress S E → Flow S R E
  attempt_loop zero invoker d number p = fall_through p
  attempt_loop (suc n) invoker d number p = elim (round invoker d (ltb 0 n) number p) [
    | ends flow ↦ flow
    | again p' ↦ attempt_loop n invoker d (add64 number 1) p'
  ]

  -- How many attempts a deployment has.
  pub attempt_count : ℕ
  attempt_count =
      if sle policy.max_attempts_per_deployment 0 then 0 else policy.max_attempts_per_deployment

  -- One deployment of the plan.
  pub try_deployment : String → Progress S E → Flow S R E
  try_deployment id p = elim (env.deployment id) [
    | none ↦ fall_through p
    | some d ↦ elim (env.resolve d) [
      | none ↦ fall_through p
      | some invoker ↦ attempt_loop attempt_count invoker d 1 p
    ]
  ]

  -- The outer loop over `plan.Fallback()`.
  pub plan_loop : List String → Progress S E → Flow S R E
  plan_loop [] p = fall_through p
  plan_loop (id ∷ ids) p = elim (try_deployment id p) [
    | fall_through p' ↦ plan_loop ids p'
    | succeeded p' r d ↦ succeeded p' r d
    | stopped p' e ↦ stopped p' e
  ]

  -- `runPlan`.
  pub run_plan : List String → S → Outcome S R E
  run_plan fallback s = outcome (plan_loop fallback (initial s))
