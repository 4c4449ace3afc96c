-- ===== src/Budget/Tests.antt =====
-- A budget in use, and the theorems at concrete calls.
use lite_aig.Base.{◌+◌, ◌≤◌, ◌<◌, ◌≡◌, ◌≢◌, refl, ◌⊎◌, none, List, [], ◌∷◌, false, arith}
use lite_aig.Base.Assoc.{lookup, insert}
use lite_aig.Base.Word.{Int64, add64, sub64, slt}
use lite_aig.Base.Clock.{sub_time}
use lite_aig.Budget.Windows.{Window}
use lite_aig.Budget.{
  Policy, Manager, err, exceeded, new, is_valid, reserve, reconcile, release, usage, open_window,
  sweep_locked, admit, charge, ledger_for, ledger_window, put_ledger, settle_window, settle,
}
use lite_aig.Budget.Invariant.{IsSound, Call, reserves, reconciles, sweeps, run, run-new-IsSound}
use lite_aig.Budget.Limits.{opened, total, reserve_hard, reserve_hard_overflow}
use lite_aig.Budget.Settlement.{reconcile_once}
use lite_aig.Budget.Rollover.{reserve_settle_usage}

abbrev daily : Policy
daily = record {
  id = "p";
  tenant_id = "t";
  project_id = "";
  key_id = "";
  mode = "hard";
  consistency = "";
  token_limit = 100;
  window_start = 1000;
  window_end = 2000;
}

abbrev lenient : Policy
lenient = record daily { mode = "soft" }

abbrev next_day : Policy
next_day = record daily { window_start = 2000; window_end = 3000 }

-- One reservation of 60 tokens, not settled.
abbrev busy_window : Window
busy_window = record {
  start = 1000;
  reserved = 60;
  consumed = 0;
  reservations = ("a", record { estimate = 60; final = false }) ∷ [];
}

abbrev busy : Manager
busy = record { windows = ("p", busy_window) ∷ []; retired = []; last_sweep = 0 }

reserve-busy : (reserve (new 0) daily "a" 60 1500 1500 1500).0 ≡ busy
unfolding reserve new is_valid slt sweep_locked sub_time open_window lookup insert admit charge
    add64
reserve-busy = refl

opened-busy : opened busy daily 1500 ≡ busy_window
unfolding opened sweep_locked sub_time open_window lookup
opened-busy = refl

over_limit : (reserve busy daily "b" 50 1500 1500 1500).1 ≡ err exceeded
unfolding reserve is_valid slt sweep_locked sub_time open_window lookup admit add64
over_limit = refl

usage_settled : usage (reconcile busy "p" "a" 40).0 "p" ≡ (0, 40)
unfolding usage reconcile slt ledger_for settle put_ledger settle_window ledger_window lookup insert
    add64 sub64
usage_settled = refl

reserve_hard_example :
    let (m', r) = reserve busy daily "b" 50 1500 1500 1500 in
    let (reserved, consumed) = usage m' "p" in
    ((r ≡ err exceeded) × (100 < total (opened busy daily 1500) 50))
    ⊎ ((r ≢ err exceeded)
        × (reserved + consumed ≡ total (opened busy daily 1500) 50)
        × (reserved + consumed ≤ 100))
unfolding is_valid slt opened sweep_locked sub_time open_window lookup
reserve_hard_example =
    reserve_hard busy daily "b" 50 1500 1500 1500 refl refl (omega arith) refl (omega arith)

-- An estimate so large that the sum wraps.
abbrev huge : Int64
huge = 9223372036854775800

reserve_hard_overflow_example :
    (100 < total (opened busy daily 1500) huge)
    × ((reserve busy daily "b" huge 1500 1500 1500).1 ≢ err exceeded)
unfolding is_valid slt opened sweep_locked sub_time open_window lookup
reserve_hard_overflow_example =
    reserve_hard_overflow busy daily "b" huge 1500 1500 1500 refl refl (omega arith) refl
      (omega arith) (omega arith)

abbrev history : List Call
history = reserves daily "a" 60 1500 1500 1500 ∷ reconciles "p" "a" 40 ∷ sweeps 1600 ∷ []

run-new-IsSound_example : IsSound (run (new 0) history)
run-new-IsSound_example = run-new-IsSound 0 history (omega arith)

reconcile_once_example :
    let m' = (reconcile busy "p" "a" 40).0 in
    (reconcile m' "p" "a" 90 ≡ (m', none)) × (release m' "p" "a" ≡ m')
unfolding reconcile slt ledger_for lookup
reconcile_once_example = reconcile_once busy "p" "a" 40 90 refl refl

reserve_settle_usage_example :
    let m' = (reserve busy daily "b" 30 1500 1500 1500).0 in
    let w = opened busy daily 1500 in
    (usage (reconcile m' "p" "b" 25).0 "p" ≡ (w.reserved, add64 w.consumed 25))
    × (usage (release m' "p" "b") "p" ≡ (w.reserved, w.consumed))
unfolding is_valid slt opened sweep_locked sub_time open_window lookup add64
reserve_settle_usage_example =
    reserve_settle_usage busy daily "b" 30 1500 1500 1500 refl refl refl 25 refl (omega arith)
      (omega arith) (omega arith)
