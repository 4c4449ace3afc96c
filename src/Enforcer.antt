-- ===== src/Enforcer.antt =====
-- internal/app/budgetenforcer.go: a reservation is admitted by the budget manager, by a shared ledger
-- if there is one, and by the slice of the region if the policy asks for it. A call is one step
-- here; the code holds no lock over the manager, the ledger and the slice together.
pub mod Slices
pub mod FailMode
pub mod Rollback
pub mod Modes
pub mod Shared
pub mod Within
mod Tests
use Prim.Native.String.{◌++◌ as str_append}
use lite_aig.Base.{
  ◌*◌, ◌==◌, if◌then◌else◌, Option, none, some, List, [], ◌∷◌, ◌++◌, String, str_eq, Bool, true,
  false, not, ◌||◌, contains,
}
use lite_aig.Base.Assoc.{Assoc, lookup, insert}
use lite_aig.Base.Int.{ℤ, pos, ltb_ℤ}
use lite_aig.Base.Word.{Int64, add64, signed}
use lite_aig.Base.Clock.{Time, Duration, sub_time, second, minute}
use lite_aig.Base.Float.{Float}
use lite_aig.Budget
use lite_aig.Budget.{Policy, Manager, Reservation}
use lite_aig.Coordination.{BudgetWindow, ReserveRequest}
use lite_aig.Routing.Scores.{read}
use Slices
use Slices.{
  Authority, Consistency, budget_regional, budget_global_soft, budget_global_hard, other_mode,
  for_mode, admit,
}
use FailMode.{BudgetLedger, Alert, Answer, reserve_in_mode, heard}

pub record SliceEntry (f : Float) : Type 0 where
  pub authority : Authority f
  pub window_start : Time

-- `distributed` is the shared ledger, if one is wired in, and `has_alerts` says whether there is a
-- hook for alerts. The alerts are those that the hook got.
pub record Enforcer (f : Float) (L : Type 0) : Type 0 where
  pub manager : Manager
  pub distributed : Option L
  pub slices : Assoc (SliceEntry f)
  pub tenant_by_policy : Assoc String
  pub has_alerts : Bool
  pub alerts : List Alert

pub data Error (E : Type 0) : Type 0 where
  manager_error : Budget.Error → Error E
  ledger_error : E → Error E
  slice_overshoot : Error E

pub data Result (E : Type 0) : Type 0 where
  ok : Reservation → Result E
  err : Error E → Result E

abbrev pub slice_region : String
slice_region = "global"

-- defaultSliceOvershootRatio, a tenth.
unfoldable pub overshoot_ratio : (f : Float) → f.F
overshoot_ratio f = f.div (f.of_int (pos 1)) (f.of_int (pos 10))

abbrev pub budget_sweep_limit : Int64
budget_sweep_limit = 500

unfoldable pub new : {f : Float} {L : Type 0} → Manager → Option L → Bool → Enforcer f L
new m distributed has_alerts = record {
  manager = m;
  distributed = distributed;
  slices = [];
  tenant_by_policy = [];
  has_alerts = has_alerts;
  alerts = [];
}

unfoldable pub consistency_mode : String → Consistency
consistency_mode consistency =
    if str_eq consistency "regional"
    then budget_regional
    else if str_eq consistency "global_soft"
    then budget_global_soft
    else if str_eq consistency "global_hard"
    then budget_global_hard
    else other_mode

unfoldable pub is_global_soft : Consistency → Bool
is_global_soft budget_global_soft = true
is_global_soft _ = false

unfoldable pub note_tenant : Assoc String → String → String → Assoc String
note_tenant tenants policy_id tenant_id =
    if str_eq policy_id "" || str_eq tenant_id ""
    then tenants
    else insert policy_id tenant_id tenants

unfoldable pub record_tenant :
    {f : Float} {L : Type 0} → Enforcer f L → String → String → Enforcer f L
record_tenant e policy_id tenant_id = record e {
  tenant_by_policy = note_tenant e.tenant_by_policy policy_id tenant_id;
}

-- `stamp` is the format of a window's start in a key.
module _ {f : Float} {L E : Type 0} (api : BudgetLedger f L E) (stamp : Time → String) where
  -- A window of less than a second gets the lifetime of an hour.
  unfoldable pub window_ttl : Policy → Duration
  window_ttl p =
      let ttl = sub_time p.window_end p.window_start in
      if ltb_ℤ ttl (pos second) then pos (60 * minute) else ttl

  unfoldable pub window_key : Policy → String
  window_key p = str_append "{tenant:" (
      str_append p.tenant_id
        (str_append "}:budget:" (str_append p.id (str_append ":" (stamp p.window_start)))))

  unfoldable pub distributed_windows : Policy → List (BudgetWindow f)
  distributed_windows p =
      record { key = window_key p; limit = f.of_int (signed p.token_limit); ttl = window_ttl p }
      ∷ []

  unfoldable pub request_of : Policy → String → Int64 → ReserveRequest f
  request_of p id estimate = record {
    tenant_id = p.tenant_id;
    reservation_id = id;
    estimate = f.of_int (signed estimate);
    windows = distributed_windows p;
  }

  -- A hard policy fails closed, a soft one fails open.
  unfoldable pub fail_mode : Policy → String
  fail_mode p = if str_eq p.mode "soft" then "soft" else "hard"

  unfoldable pub fresh_entry : Policy → SliceEntry f
  fresh_entry p = record {
    authority = for_mode p.id (consistency_mode p.consistency);
    window_start = p.window_start;
  }

  -- `authorityFor`: the entry of the policy's window, which is put in place by the caller.
  unfoldable pub entry_for : Enforcer f L → Policy → SliceEntry f
  entry_for e p = elim (lookup p.id e.slices) [
    | none ↦ fresh_entry p
    | some old ↦ if old.window_start == p.window_start then old else fresh_entry p
  ]

  unfoldable pub put_entry : Enforcer f L → String → SliceEntry f → Enforcer f L
  put_entry e policy_id entry = record e { slices = insert policy_id entry e.slices }

  -- The manager's reservation given back, before an error is returned.
  unfoldable pub roll_back : Enforcer f L → Policy → String → Enforcer f L
  roll_back e p id = record e { manager = Budget.release e.manager p.id id }

  unfoldable pub overshoot_of : Policy → f.F
  overshoot_of p =
      if is_global_soft (consistency_mode p.consistency)
      then f.mul (f.of_int (signed p.token_limit)) (overshoot_ratio f)
      else f.of_int (pos 0)

  unfoldable pub on_slice :
      Enforcer f L
      → Policy
      → String
      → Reservation
      → Authority f × Slices.Admission
      → Enforcer f L × Result E
  on_slice e p id r (a, Slices.admitted) =
      (put_entry e p.id (record (entry_for e p) { authority = a }), ok r)
  on_slice e p id r (a, Slices.overshoot) = (
    roll_back (put_entry e p.id (record (entry_for e p) { authority = a })) p id,
    err slice_overshoot,
  )

  -- The last part of `Reserve`.
  unfoldable pub admit_slice :
      Enforcer f L → Policy → String → Int64 → Reservation → Enforcer f L × Result E
  admit_slice e p id estimate r =
      if str_eq p.consistency ""
      then (e, ok r)
      else on_slice e p id r (
          admit (entry_for e p).authority slice_region (f.of_int (signed estimate))
            (f.of_int (signed p.token_limit)) (overshoot_of p))

  -- The ledger and the alerts that the call of the shared ledger leaves.
  unfoldable pub note_answer : Enforcer f L → Answer L E → Enforcer f L
  note_answer e a = record e {
    distributed = some a.ledger;
    alerts = e.alerts ++ heard e.has_alerts a.alerts;
  }

  unfoldable pub on_answer :
      Enforcer f L → Policy → String → Int64 → Reservation → Answer L E → Enforcer f L × Result E
  on_answer e p id estimate r a = elim a.err [
    | some x ↦ (roll_back (note_answer e a) p id, err (ledger_error x))
    | none ↦
        if not a.result.reserved
        then (roll_back (note_answer e a) p id, err (manager_error Budget.exceeded))
        else admit_slice (note_answer e a) p id estimate r
  ]

  unfoldable pub after_manager :
      Enforcer f L → Policy → String → Int64 → Budget.Result Reservation → Enforcer f L × Result E
  after_manager e p id estimate (Budget.err x) = (e, err (manager_error x))
  after_manager e p id estimate (Budget.ok r) = elim e.distributed [
    | none ↦ admit_slice e p id estimate r
    | some l ↦
        on_answer e p id estimate r (reserve_in_mode api (fail_mode p) l (request_of p id estimate))
  ]

  -- The readings of the clock are those of the manager's `Reserve`.
  unfoldable pub reserve :
      Enforcer f L → Policy → String → Int64 → Time → Time → Time → Enforcer f L × Result E
  reserve e p id estimate t₁ t₂ now =
      let e' = record_tenant e p.id p.tenant_id in
      let (m, r) = Budget.reserve e.manager p id estimate t₁ t₂ now in
      after_manager (record e' { manager = m }) p id estimate r

  -- `syncSlice`: the slice follows what the manager has reserved and consumed.
  unfoldable pub sync_slice : Enforcer f L → String → Enforcer f L
  sync_slice e policy_id = elim (lookup policy_id e.slices) [
    | none ↦ e
    | some entry ↦
        let (reserved, consumed) = Budget.usage e.manager policy_id in
        let total = f.of_int (signed (add64 reserved consumed)) in
        put_entry e policy_id
          (record entry { authority = (Slices.reconcile entry.authority slice_region total).0 })
  ]

  -- The shared ledger's part of a settlement; its error is dropped.
  unfoldable pub settle_shared : Enforcer f L → String → (String → L → L) → Enforcer f L
  settle_shared e policy_id change =
      let tenant = read "" e.tenant_by_policy policy_id in
      record e {
        distributed = elim e.distributed [
          | none ↦ none
          | some l ↦ if str_eq tenant "" then some l else some (change tenant l)
        ];
      }

  unfoldable pub after_settle :
      Enforcer f L
      → String
      → (String → L → L)
      → Option Budget.Error
      → Enforcer f L × Option Budget.Error
  after_settle e policy_id change (some x) = (e, some x)
  after_settle e policy_id change none =
      (sync_slice (settle_shared e policy_id change) policy_id, none)

  unfoldable pub reconcile :
      Enforcer f L → String → String → Int64 → Enforcer f L × Option Budget.Error
  reconcile e policy_id id actual =
      let (m, x) = Budget.reconcile e.manager policy_id id actual in
      after_settle (record e { manager = m }) policy_id
        (λ tenant l. (api.reconcile l tenant id (f.of_int (signed actual))).0) x

  unfoldable pub release : Enforcer f L → String → String → Enforcer f L × Option Budget.Error
  release e policy_id id =
      after_settle (record e { manager = Budget.release e.manager policy_id id }) policy_id
        (λ tenant l. (api.release l tenant id).0) none

  unfoldable pub usage : Enforcer f L → String → Int64 × Int64
  usage e policy_id = Budget.usage e.manager policy_id

  -- The distinct values of the table; Go visits them in no order.
  unfoldable pub tenants_of : Assoc String → List String
  tenants_of [] = []
  tenants_of ((k, t) ∷ m) = let rest = tenants_of m in if contains rest t then rest else t ∷ rest

  unfoldable pub sweep_tenants : List String → L → L
  sweep_tenants [] l = l
  sweep_tenants (t ∷ ts) l = sweep_tenants ts (api.sweep l t budget_sweep_limit).0

  unfoldable pub sweep : Enforcer f L → Time → Enforcer f L
  sweep e now = record e {
    manager = Budget.sweep e.manager now;
    distributed = elim e.distributed [
      | none ↦ none
      | some l ↦ some (sweep_tenants (tenants_of e.tenant_by_policy) l)
    ];
  }
