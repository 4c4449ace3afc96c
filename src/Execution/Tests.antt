-- ===== src/Execution/Tests.antt =====
-- Runs of a plan in a concrete environment, and the theorems at them.
use lite_aig.Base.{
  ℕ, suc, ◌≤◌, ◌≡◌, refl, none, some, List, [], ◌∷◌, String, true, false, if◌then◌else◌, arith,
  length, leb,
}
use lite_aig.Base.Assoc.{lookup}
use lite_aig.Base.Int.{pos}
use lite_aig.Base.Word.{add64, slt, sle}
use lite_aig.Base.Clock.{Time, sub_time}
use lite_aig.Base.Float.{whole}
use lite_aig.Retry.{default_policy}
use lite_aig.Circuit
use lite_aig.Circuit.{Config, Breaker, TupleKey, opened, new_entry, entry_key}
use lite_aig.Circuit.Probe.{Call, allows, asks, admissions}
use lite_aig.Execution.{
  Deployment, Lease, Normalized, Attempt, Reply, response, failure, Grant, granted, busy, Env,
  RunError, failed, lease_busy, exhausted, Outcome, acquire_lease, attempt_count, run_plan,
}
use lite_aig.Execution.Counting.{counting, bare_outcome}
use lite_aig.Execution.Bounds.{run_plan-IsBounded}
use lite_aig.Execution.Attempts.{IsExplained, run_plan-IsExplained}
use lite_aig.Execution.Lost.{tuple_key, run_plan_loses_probe}

abbrev deployment_d : Deployment
deployment_d = record { id = "d"; credential_id = "c" }

abbrev lease_one : Lease
lease_one = record { capacity = 1; ttl_seconds = 60 }

-- The state counts the calls; the first two fail.
abbrev flaky : Env ℕ Unit String String
flaky = record {
  deployment = λ id. some (record { id = id; credential_id = "c" });
  lease = λ id. some lease_one;
  tenant_id = "t";
  has_snapshot = true;
  resolve = λ d. some tt;
  has_circuit = false;
  allow = λ d s. (s, true);
  record_result = λ d ok s. s;
  has_leases = false;
  gate_acquire = λ scope d l s. (s, granted "l");
  gate_release = λ scope id s. s;
  has_inflight = false;
  incr = λ scope s. s;
  decr = λ scope s. s;
  call = λ i d s. (suc s, if leb 2 s then response "ok" else failure false "timeout");
  normalize_error = λ i e. record { code = e; retryable = true };
  is_first_token = λ e. false;
  jitter = λ s. (s, 0);
  sleep = λ t s. (s, none);
}

-- Two attempts at the first deployment fail, and the second deployment serves the request.
flaky_run :
    let o = run_plan flaky default_policy true ("d" ∷ "e" ∷ []) 0 in
    (o.response ≡ some ("ok", "e")) × (length o.attempts ≡ 3) × (o.state ≡ 3)
unfolding run_plan attempt_count acquire_lease sle slt add64 lite_aig.Execution.outcome
    lite_aig.Execution.plan_loop lite_aig.Execution.try_deployment lite_aig.Execution.attempt_loop
    lite_aig.Execution.round lite_aig.Execution.on_allow lite_aig.Execution.allowed
    lite_aig.Execution.on_grant lite_aig.Execution.wanted_lease lite_aig.Execution.on_reply
    lite_aig.Execution.tracked_call lite_aig.Execution.track_inflight
    lite_aig.Execution.after_failure lite_aig.Execution.after_success lite_aig.Execution.back_off
    lite_aig.Execution.failed_attempt lite_aig.Execution.final_error
    lite_aig.Execution.inflight_scope lite_aig.Execution.lease_scope lite_aig.Execution.on_failure
    lite_aig.Execution.recorded lite_aig.Execution.release_lease lite_aig.Execution.success_attempt
    lite_aig.Execution.untrack_inflight
flaky_run = (refl, refl, refl)

run_plan-IsBounded_example :
    let o = run_plan (counting flaky) default_policy true ("d" ∷ "e" ∷ []) (0, 0) in
    (bare_outcome o ≡ run_plan flaky default_policy true ("d" ∷ "e" ∷ []) 0)
    × (o.state.1 ≡ length o.attempts)
    × (o.state.1 ≤ 4)
run_plan-IsBounded_example =
    run_plan-IsBounded flaky default_policy true (omega arith) ("d" ∷ "e" ∷ []) 0

run_plan-IsExplained_example : IsExplained (run_plan flaky default_policy true ("d" ∷ "e" ∷ []) 0)
run_plan-IsExplained_example = run_plan-IsExplained flaky default_policy true ("d" ∷ "e" ∷ []) 0

abbrev config : Config whole
config = record {
  min_samples = 1;
  error_rate = pos 0;
  cooldown_initial = pos 30;
  cooldown_factor = pos 2;
  max_cooldown = pos 100;
  has_store = false;
  has_observer = false;
}

abbrev broken : Breaker whole
broken = record {
  config = config;
  entries =
      (
        "d:c",
        record new_entry {
          state = opened;
          samples = 1;
          failures = 1;
          opened_at = 10;
          open_count = 1;
        },
      )
      ∷ [];
}

abbrev cooled_clock : ℕ → Time
cooled_clock i = 50

-- The circuit is the breaker, and no lease is to be had.
abbrev crowded : Env (Breaker whole) Unit String String
crowded = record {
  deployment = λ id. some deployment_d;
  lease = λ id. some lease_one;
  tenant_id = "t";
  has_snapshot = true;
  resolve = λ d. some tt;
  has_circuit = true;
  allow = λ d s. (
    (Circuit.allow s (tuple_key d) cooled_clock).0,
    (Circuit.allow s (tuple_key d) cooled_clock).1,
  );
  record_result = λ d ok s. (Circuit.record_result s (tuple_key d) ok cooled_clock).0;
  has_leases = true;
  gate_acquire = λ scope d l s. (s, busy);
  gate_release = λ scope id s. s;
  has_inflight = false;
  incr = λ scope s. s;
  decr = λ scope s. s;
  call = λ i d s. (s, response "ok");
  normalize_error = λ i e. record { code = e; retryable = true };
  is_first_token = λ e. false;
  jitter = λ s. (s, 0);
  sleep = λ t s. (s, none);
}

abbrev later_calls : List Call
later_calls =
    allows (tuple_key deployment_d) (λ i. 1000) ∷ asks (tuple_key deployment_d) (λ i. 2000) ∷ []

run_plan_loses_probe_example :
    let o = run_plan crowded default_policy true ("d" ∷ []) broken in
    (o.err ≡ some lease_busy)
    × (o.attempts ≡ [])
    × (admissions (tuple_key deployment_d) o.state later_calls ≡ 0)
unfolding entry_key lookup Circuit.cooling Circuit.cooldown Circuit.escalate Circuit.rounds sle slt
    sub_time acquire_lease lite_aig.Execution.wanted_lease attempt_count
run_plan_loses_probe_example =
    run_plan_loses_probe crowded default_policy true "d" deployment_d tt cooled_clock broken refl
      refl refl refl (λ s. refl) (omega arith) refl refl refl later_calls (tt, (tt, tt))
