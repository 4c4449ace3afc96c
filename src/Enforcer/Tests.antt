-- ===== src/Enforcer/Tests.antt =====
-- The enforcer on concrete runs, and the properties at concrete inputs.
use lite_aig.Base.{◌≡◌, refl, none, some, List, [], ◌∷◌, ◌++◌, true, false, String, arith}
use lite_aig.Base.Assoc.{lookup, insert}
use lite_aig.Base.Int.{pos}
use lite_aig.Base.Float.{whole}
use lite_aig.Base.Word.{add64, sub64, slt, signed}
use lite_aig.Base.Clock.{Time, sub_time}
use lite_aig.Budget
use lite_aig.Budget.{Policy, Manager}
use lite_aig.Budget.Limits.{opened}
use lite_aig.Coordination
use lite_aig.Coordination.{Ledger, Held, new_ledger}
use lite_aig.Coordination.Finality.{held_of}
use lite_aig.Enforcer.{
  Enforcer, err, ledger_error, slice_overshoot, overshoot_ratio, new, consistency_mode,
  is_global_soft, note_tenant, record_tenant, window_ttl, window_key, distributed_windows,
  request_of, fail_mode, fresh_entry, entry_for, put_entry, roll_back, overshoot_of, on_slice,
  admit_slice, note_answer, on_answer, after_manager, reserve, sync_slice, settle_shared,
  after_settle, reconcile, release, usage,
}
use lite_aig.Enforcer.Slices
use lite_aig.Enforcer.Slices.{SliceState, is_strict, for_mode, state}
use lite_aig.Enforcer.FailMode.{BudgetLedger, apply_mode, reserve_in_mode, open_alert, closed_alert}
use lite_aig.Enforcer.Rollback.{reserve_rolls_back}
use lite_aig.Enforcer.Modes.{reserve_fails_open, reserve_fails_closed}
use lite_aig.Enforcer.Shared.{to_result, in_memory, reserve_overshoot_held}
use lite_aig.Enforcer.Within.{Call, admits, reconciles, run}

-- A soft policy may go over its limit, and its slice is strict: the slice refuses what the manager
-- admits.
abbrev daily : Policy
daily = record {
  id = "daily";
  tenant_id = "t";
  project_id = "";
  key_id = "";
  mode = "soft";
  consistency = "regional";
  token_limit = 100;
  window_start = 1000;
  window_end = 2000000000;
}

abbrev hard_daily : Policy
hard_daily = record daily { mode = "hard" }

abbrev stamp : Time → String
stamp t = "start"

abbrev memory : BudgetLedger whole (Ledger whole) Coordination.Error
memory = in_memory {f = whole}

-- A ledger that cannot be reached.
abbrev away : BudgetLedger whole (Unit {0}) (Unit {0})
away = record {
  reserve = λ l r. (l, record { reserved = false; active = 0; degraded = false }, some tt);
  reconcile = λ l tenant id actual. (l, some tt);
  release = λ l tenant id. (l, some tt);
  sweep = λ l tenant limit. (l, 0, some tt);
  is_unavailable = λ e. true;
}

program : Unit {0}
unfolding Budget.reserve Budget.new Budget.is_valid slt Budget.sweep_locked sub_time
    Budget.open_window lookup insert Budget.admit Budget.charge add64 sub64 Budget.reconcile
    Budget.release Budget.usage Budget.ledger_for Budget.retired_ledger Budget.ledger_window
    Budget.put_ledger Budget.settle_window Budget.settle opened signed overshoot_ratio new
    consistency_mode is_global_soft note_tenant record_tenant window_ttl window_key
    distributed_windows request_of fail_mode fresh_entry entry_for put_entry roll_back overshoot_of
    on_slice admit_slice note_answer on_answer after_manager reserve sync_slice settle_shared
    after_settle reconcile release usage Slices.is_strict Slices.for_mode Slices.new_authority
    Slices.slice_of Slices.bound_of Slices.put_slice Slices.admit Slices.reconcile Slices.state
    apply_mode reserve_in_mode open_alert closed_alert to_result in_memory Coordination.new_ledger
    Coordination.reserve Coordination.tenant_of Coordination.check_windows Coordination.is_window
    Coordination.has_room Coordination.value_of Coordination.conclude Coordination.book
    Coordination.put_tenant Coordination.put_held Coordination.change_all Coordination.keys_of
    held_of run
program = tt

abbrev start : Enforcer whole (Ledger whole)
start = new (Budget.new 0) none false

-- 80 of 100 tokens, then 30 more: the slice is the one to refuse.
abbrev busy : Enforcer whole (Ledger whole)
busy = (reserve memory stamp start daily "a" 80 1500 1500 1500).0

slice_refuses : (reserve memory stamp busy daily "b" 30 1500 1500 1500).1 ≡ err slice_overshoot
unfolding program
slice_refuses = refl

refusal_keeps_usage :
    usage memory stamp (reserve memory stamp busy daily "b" 30 1500 1500 1500).0 "daily" ≡ (80, 0)
unfolding program
refusal_keeps_usage = refl

-- A retry under the id of an open reservation is admitted by the manager again and refused by the
-- slice, and the rollback releases the first hold: the 80 tokens in flight are no longer reserved.
retry_releases_hold :
    let first = reserve memory stamp start daily "a" 80 1500 1500 1500 in
    let again = reserve memory stamp first.0 daily "a" 80 1500 1500 1500 in
    (usage memory stamp first.0 "daily" ≡ (80, 0))
    × (again.1 ≡ err slice_overshoot)
    × (usage memory stamp again.0 "daily" ≡ (0, 0))
unfolding program
retry_releases_hold = (refl, refl, refl)

-- Below a second the lifetime of the shared window is an hour.
ttl_of_short : window_ttl memory stamp (record daily { window_end = 2000 }) ≡ pos 3600000000000
unfolding program
ttl_of_short = refl

-- With a shared ledger that is empty yet, so that it has room for the request.
abbrev shared : Enforcer whole (Ledger whole)
shared = record busy { distributed = some new_ledger }

reserve_rolls_back_example :
    usage memory stamp (reserve memory stamp busy daily "b" 30 1500 1500 1500).0 "daily"
    ≡ ((opened busy.manager daily 1500).reserved, (opened busy.manager daily 1500).consumed)
unfolding program
reserve_rolls_back_example =
    reserve_rolls_back memory stamp busy daily "b" 30 1500 1500 1500 slice_overshoot refl refl refl
      (omega arith) (omega arith) (omega arith) refl

reserve_overshoot_held_example :
    (l' : Ledger whole) × ((reserve memory stamp shared daily "b" 30 1500 1500 1500).0.distributed
      ≡ some l')
    × (held_of l' "t" "b"
        ≡ some (record {
          estimate = whole.of_int (signed 30);
          windows = window_key memory stamp daily ∷ [];
          final = false;
        }))
unfolding program
reserve_overshoot_held_example =
    reserve_overshoot_held stamp daily "b" 30 shared new_ledger 1500 1500 1500 refl refl

abbrev lost : Enforcer whole (Unit {0})
lost = new (Budget.new 0) (some tt) true

reserve_fails_open_example :
    let (e₁, r₁) = reserve away stamp lost daily "a" 80 1500 1500 1500 in
    let (e₂, r₂) =
      reserve away stamp (record lost { distributed = none }) daily "a" 80 1500 1500 1500 in
    (r₁ ≡ r₂)
    × (e₁.manager ≡ e₂.manager)
    × (e₁.slices ≡ e₂.slices)
    × (e₁.alerts ≡ lost.alerts ++ open_alert ∷ [])
unfolding program
reserve_fails_open_example =
    reserve_fails_open away stamp lost daily "a" 80 1500 1500 1500 _ tt tt refl refl refl refl refl

reserve_fails_closed_example :
    let (e', result) = reserve away stamp lost hard_daily "a" 80 1500 1500 1500 in
    (result ≡ err (ledger_error tt))
    × (e'.manager
        ≡ Budget.release
            (Budget.reserve lost.manager hard_daily "a" 80 1500 1500 1500).0
            "daily"
            "a")
    × (e'.slices ≡ lost.slices)
    × (e'.alerts ≡ lost.alerts ++ closed_alert ∷ [])
unfolding program
reserve_fails_closed_example =
    reserve_fails_closed away stamp lost hard_daily "a" 80 1500 1500 1500 _ tt tt refl refl refl
      refl refl

-- The manager knows of 150 tokens, which is above the limit: the next admission is refused.
abbrev calls : List (Call whole)
calls =
    admits "eu" (pos 60) (pos 100) (pos 0)
    ∷ reconciles "eu" (pos 150)
    ∷ admits "eu" (pos 1) (pos 200) (pos 0)
    ∷ []

abbrev eu : SliceState whole
eu = record { region = "eu"; used = pos 150; strict = pos 100; overshot = true }
