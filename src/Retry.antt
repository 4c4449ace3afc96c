-- ===== src/Retry.antt =====
-- internal/resilience/retry/policy.go: the retry policy and its backoff. A Duration is an int64.
pub mod Backoff
mod Tests
use lite_aig.Base.{ℕ, zero, suc, ◌-◌, ◌*◌, if◌then◌else◌, Bool}
use lite_aig.Base.Word.{Int64, add64, slt, sle}
use lite_aig.Base.Clock.{second}

pub record Policy : Type 0 where
  pub max_attempts_per_deployment : Int64
  pub max_total_calls : Int64
  pub attempt_timeout : Int64
  pub total_timeout : Int64
  pub stream_total_timeout : Int64
  pub stream_idle_timeout : Int64
  pub first_token_timeout : Int64
  pub provider_timeout : Int64
  pub base_backoff : Int64
  pub max_backoff : Int64

abbrev pub default_policy : Policy
default_policy = record {
  max_attempts_per_deployment = 2;
  max_total_calls = 4;
  attempt_timeout = 120 * second;
  total_timeout = 300 * second;
  stream_total_timeout = 0;
  stream_idle_timeout = 60 * second;
  first_token_timeout = 30 * second;
  provider_timeout = 120 * second;
  base_backoff = 200000000;
  max_backoff = 4 * second;
}

-- The loop of `Backoff`, for the rounds that are left: the value doubles until it reaches the
-- maximum.
pub doubled : ℕ → Int64 → Int64 → Int64
doubled zero value max_backoff = value
doubled (suc n) value max_backoff =
    let twice = add64 value value in
    let rest = doubled n twice max_backoff in if sle max_backoff twice then max_backoff else rest

-- The loop runs from 1 to below the number of the retry.
pub retry_rounds : Int64 → ℕ
retry_rounds retry_number = if sle retry_number 1 then 0 else retry_number - 1

pub backoff : Policy → Int64 → Int64 → Int64
backoff p retry_number jitter =
    let value = add64 (doubled (retry_rounds retry_number) p.base_backoff p.max_backoff) jitter in
    if slt p.max_backoff value then p.max_backoff else value
