-- ===== src/Enforcer/FailMode.antt =====
-- internal/finops/budget/failmode.go: what a policy does when the shared ledger cannot be reached.
-- The ledger is the interface of internal/platform/coordination/contracts.go, on a state `L`.
use lite_aig.Base.{
  if◌then◌else◌, Option, none, some, List, [], ◌∷◌, String, str_eq, Bool, true, false,
}
use lite_aig.Base.Word.{Int64}
use lite_aig.Base.Float.{Float}
use lite_aig.Coordination.{ReserveRequest}

pub record ReserveResult : Type 0 where
  pub reserved : Bool
  pub active : Int64
  pub degraded : Bool

-- `is_unavailable` is the test for ErrLedgerUnavailable; no error is `none`.
pub record BudgetLedger (f : Float) (L E : Type 0) : Type 0 where
  pub reserve : L → ReserveRequest f → L × ReserveResult × Option E
  pub reconcile : L → String → String → f.F → L × Option E
  pub release : L → String → String → L × Option E
  pub sweep : L → String → Int64 → L × Int64 × Option E
  pub is_unavailable : E → Bool

pub record Alert : Type 0 where
  pub kind : String
  pub message : String

unfoldable pub closed_alert : Alert
closed_alert = record { kind = "budget.fail_closed"; message = "hard budget ledger unavailable" }

unfoldable pub open_alert : Alert
open_alert = record {
  kind = "budget.fail_open";
  message = "soft budget ledger unavailable; proceeding without enforcement";
}

-- The alerts that a call raises, beside the ledger, the result and the error.
pub record Answer (L E : Type 0) : Type 0 where
  pub ledger : L
  pub alerts : List Alert
  pub result : ReserveResult
  pub err : Option E

-- What the hook gets of the alerts: nothing where there is no hook.
abbrev pub heard : Bool → List Alert → List Alert
heard false alerts = []
heard true alerts = alerts

module _ {f : Float} {L E : Type 0} (api : BudgetLedger f L E) where
  unfoldable pub apply_mode : String → L × ReserveResult × Option E → Answer L E
  apply_mode mode (l, result, none) = record {
    ledger = l;
    alerts = [];
    result = result;
    err = none;
  }
  apply_mode mode (l, result, some e) =
      if api.is_unavailable e
      then (if str_eq mode "hard"
          then record { ledger = l; alerts = closed_alert ∷ []; result = result; err = some e }
          else record {
            ledger = l;
            alerts = open_alert ∷ [];
            result = record { reserved = true; active = 0; degraded = true };
            err = none;
          })
      else record { ledger = l; alerts = []; result = result; err = some e }

  -- `FailModeLedger.Reserve` for a fail mode; the other methods pass their calls on.
  unfoldable pub reserve_in_mode : String → L → ReserveRequest f → Answer L E
  reserve_in_mode mode l request = apply_mode mode (api.reserve l request)
