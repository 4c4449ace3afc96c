-- ===== src/Accounting/Tests.antt =====
-- The finalizer on concrete runs, and the properties at concrete inputs.
use lite_aig.Base.{◌+◌, ◌≡◌, refl, none, some, Option, Bool, true, false, arith}
use lite_aig.Base.Assoc.{lookup, insert}
use lite_aig.Base.Word.{Int64, add64, sub64, slt, sle}
use lite_aig.Base.Clock.{sub_time}
use lite_aig.Budget
use lite_aig.Budget.{
  Policy, Manager, negative_actual, new, is_valid, reserve, reconcile, release, usage, open_window,
  sweep_locked, admit, charge as charge_window, ledger_for, retired_ledger, ledger_window,
  put_ledger, settle_window, settle as settle_ledger, reservation_not_found,
}
use lite_aig.Budget.Limits.{opened}
use lite_aig.Accounting.{
  Facts, Env, Finalizer, World, new_finalizer, completed, has_reservation, settle, give_back, send,
  failed, after_settle, after_persist, finalize,
}
use lite_aig.Accounting.Settled.{finalize_closes}
use lite_aig.Accounting.Managed.{managed, managed_law, charge, IsClosed, reserve_finalize-usage}

-- A repository that stores each request once and may be down, and a sink that is down; the state
-- counts the calls of both.
abbrev env : Bool → Env (Int64 × Int64) (Unit {0}) Budget.Error
env down = record {
  has_budget = true;
  has_sink = true;
  persist = λ facts s.
      ((s.0 + 1, s.1), true, elim down [ true ↦ some reservation_not_found | false ↦ none ]);
  emit = λ event s. ((s.0, s.1 + 1), some reservation_not_found);
}

abbrev facts : Option Int64 → Facts (Unit {0})
facts actual = record {
  usage_event_id = "u";
  request_id = "r";
  tenant_id = "t";
  project_id = "p";
  logical_model = "m";
  deployment_id = "d";
  outcome = "success";
  completed_at = 1600;
  budget_policy_id = "daily";
  reservation_id = "res";
  actual_tokens = actual;
  rest = tt;
}

abbrev daily : Policy
daily = record {
  id = "daily";
  tenant_id = "t";
  project_id = "";
  key_id = "";
  mode = "hard";
  consistency = "";
  token_limit = 100;
  window_start = 1000;
  window_end = 2000;
}

abbrev fresh : Finalizer Budget.Error
fresh = record { done = false; created = false; telemetry_error = none; err = none }

abbrev reserved : Manager
reserved = (reserve (new 0) daily "res" 60 1500 1500 1500).0

abbrev start : World (Int64 × Int64) Manager
start = record { parts = (0, 0); budget = reserved }

program : Unit {0}
unfolding reserve new is_valid slt sle sweep_locked sub_time open_window lookup insert admit
    charge_window add64 sub64 reconcile release usage ledger_for retired_ledger ledger_window
    put_ledger settle_window settle_ledger new_finalizer completed has_reservation settle give_back
    send failed after_settle after_persist finalize opened charge managed_law
program = tt

-- A stored request charges its usage; the sink's error is reported beside the result.
finalize_stored :
    let (f, w) = finalize (env false) managed (facts (some 25)) fresh start in
    (usage w.budget "daily" ≡ (0, 25))
    × (f ≡ record {
      done = true;
      created = true;
      telemetry_error = some reservation_not_found;
      err = none;
    })
    × (w.parts ≡ (1, 1))
unfolding program
finalize_stored = (refl, refl, refl)

finalize_down :
    let (f, w) = finalize (env true) managed (facts (some 25)) fresh start in
    (usage w.budget "daily" ≡ (0, 0)) × (f.err ≡ some reservation_not_found) × (w.parts ≡ (1, 0))
unfolding program
finalize_down = (refl, refl, refl)

-- A negative usage is refused, and the reservation is released.
finalize_negative :
    let (f, w) = finalize (env false) managed (facts (some 18446744073709551615)) fresh start in
    (usage w.budget "daily" ≡ (0, 0)) × (f.err ≡ some negative_actual)
unfolding program
finalize_negative = (refl, refl)

no_timeout : new_finalizer {E = Budget.Error} 0 true ≡ none
unfolding program
no_timeout = refl

finalize_closes_example :
    IsClosed (finalize (env true) managed (facts none) fresh start).1.budget "daily" "res"
unfolding program
finalize_closes_example =
    finalize_closes (env true) managed managed_law (facts none) fresh start refl refl refl

reserve_finalize-usage_example :
    let w = (finalize (env false) managed (facts (some 25)) fresh start).1 in
    usage w.budget "daily" ≡ (
      (opened (new 0) daily 1500).reserved,
      add64
          (opened (new 0) daily 1500).consumed
          (charge ((env false).persist (facts (some 25)) (0, 0)).2 (some 25)),
    )
unfolding program
reserve_finalize-usage_example =
    reserve_finalize-usage (env false) (facts (some 25)) fresh (0, 0) (new 0) daily 60 1500 1500
      1500 refl refl refl refl refl refl (omega arith) (omega arith) (omega arith)
