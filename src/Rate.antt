-- ===== src/Rate.antt =====
-- internal/policy/rate/limiter.go, `Meter`: the tokens per minute of a scope, reserved by an
-- estimate and reconciled to the use. The reading of the clock is an argument.
pub mod Window
pub mod Usage
pub mod Reconcile
pub mod Limits
mod Tests
use Prim.Native.String.{◌++◌ as str_append}
use lite_aig.Base.{
  ℕ, ◌+◌, ◌-◌, ◌/◌, ◌%◌, ◌==◌, if◌then◌else◌, Option, none, some, [], String, Bool, true, false,
  ◌&&◌, ◌||◌, length,
}
use lite_aig.Base.Assoc.{Assoc, lookup, insert}
use lite_aig.Base.Word.{Int64, word, add64, sub64, slt, sle}
use lite_aig.Base.Int.{pos}
use lite_aig.Base.Clock.{Time, Duration, zero_time, add_time, sub_time, minute}

pub record TpmDecision : Type 0 where
  pub allowed : Bool
  pub retry_after : Duration

pub record TpmBucket : Type 0 where
  pub window : Time
  pub used : Int64

pub record Meter : Type 0 where
  pub policy : Option (String → String → Int64)
  pub scopes : Assoc TpmBucket

pub new_meter : Option (String → String → Int64) → Meter
new_meter policy = record { policy = policy; scopes = [] }

unfoldable pub scope_key : String → String → String
scope_key tenant_id project_id = str_append tenant_id (str_append ":" project_id)

-- The policy's limit for the scope, or 0.
unfoldable pub limit_of : Meter → String → String → Int64
limit_of m tenant_id project_id = elim m.policy [ none ↦ 0 | some p ↦ p tenant_id project_id ]

-- The two times agree in year, day, hour and minute.
unfoldable pub same_minute : Time → Time → Bool
same_minute a b = a / minute == b / minute

-- `now.Truncate(time.Minute).Add(time.Minute)`.
unfoldable pub next_minute : Time → Time
next_minute now = add_time (now - now % minute) (pos minute)

-- The bucket of the scope if it belongs to the minute, and otherwise a new one.
unfoldable pub current_bucket : Option TpmBucket → Time → TpmBucket
current_bucket none now = record { window = now; used = 0 }
current_bucket (some b) now =
    if same_minute b.window now then b else record { window = now; used = 0 }

unfoldable pub reserve : Meter → String → String → Int64 → Time → Meter × TpmDecision × Int64
reserve m tenant_id project_id estimated now =
    let limit = limit_of m tenant_id project_id in
    if sle limit 0 || sle estimated 0
    then (m, record { allowed = true; retry_after = pos 0 }, word - 1)
    else (let key = scope_key tenant_id project_id in
        let b = current_bucket (lookup key m.scopes) now in
        let m' : Meter = record m { scopes = insert key b m.scopes } in
        let total = add64 b.used estimated in
        if slt limit total
        then (
          m',
          record { allowed = false; retry_after = sub_time (next_minute now) now },
          word - 1,
        )
        else (
          record m { scopes = insert key (record b { used = total }) m.scopes },
          record { allowed = true; retry_after = pos 0 },
          length m'.scopes,
        ))

-- The use after a reconciliation.
unfoldable pub reconciled : Int64 → Int64 → Int64 → Int64
reconciled used estimated actual =
    let sum = add64 (sub64 used estimated) actual in if slt sum 0 then 0 else sum

unfoldable pub reconcile : Meter → String → String → Int64 → Int64 → Time → Meter
reconcile m tenant_id project_id estimated actual now =
    if sle estimated 0 && sle actual 0
    then m
    else let key = scope_key tenant_id project_id in
      elim (lookup key m.scopes) [
        | none ↦ m
        | some b ↦
            if same_minute b.window now
            then record m {
              scopes = insert key (record b { used = reconciled b.used estimated actual }) m.scopes;
            }
            else m
      ]

-- `windowState`: the window, the use, the limit, and whether there is a bucket.
pub window_state : Meter → String → String → Time × Int64 × Int64 × Bool
window_state m tenant_id project_id =
    let limit = limit_of m tenant_id project_id in
    elim (lookup (scope_key tenant_id project_id) m.scopes) [
      | none ↦ (zero_time, 0, limit, false)
      | some b ↦ (b.window, b.used, limit, true)
    ]
