-- ===== src/Budget.antt =====
-- internal/finops/budget/manager.go: token reservations against one window for each policy. Each
-- method returns the manager that it leaves; the readings of the clock are its arguments.
pub mod Windows
pub mod Invariant
pub mod Limits
pub mod Settlement
pub mod Rollover
mod Tests
use lite_aig.Base.{
  ℕ, ◌*◌, ◌==◌, if◌then◌else◌, Option, none, some, List, [], String, str_eq, Bool, true, false, not,
  ◌&&◌, ◌||◌, is_some, ltb, leb,
}
use lite_aig.Base.Assoc.{Assoc, lookup, insert, retain, map_values}
use lite_aig.Base.Word.{Int64, add64, sub64, slt, sle}
use lite_aig.Base.Int.{ℤ, pos, ltb_ℤ}
use lite_aig.Base.Clock.{Time, zero_time, sub_time, second, minute}
use Windows.{Window, ReservationState}

pub record Policy : Type 0 where
  pub id : String
  pub tenant_id : String
  pub project_id : String
  pub key_id : String
  pub mode : String
  pub consistency : String
  pub token_limit : Int64
  pub window_start : Time
  pub window_end : Time

pub record Reservation : Type 0 where
  pub id : String
  pub policy_id : String
  pub estimated_tokens : Int64
  pub warning : Bool

pub record RetiredWindow : Type 0 where
  pub state : Window
  pub retired_at : Time

pub record Manager : Type 0 where
  pub windows : Assoc Window
  pub retired : Assoc RetiredWindow
  pub last_sweep : Time

abbrev pub sweep_interval : ℤ
sweep_interval = pos (60 * second)

abbrev pub retire_grace : ℤ
retire_grace = pos minute

pub data Error : Type 0 where
  invalid_reservation exceeded negative_actual reservation_not_found : Error

pub data Result (A : Type 0) : Type 0 where
  ok : A → Result A
  err : Error → Result A

unfoldable pub new : Time → Manager
new now = record { windows = []; retired = []; last_sweep = now }

unfoldable pub prune_final : Window → Window
prune_final w = record w { reservations = retain (λ r. not r.final) w.reservations }

unfoldable pub sweep_locked : Manager → Time → Manager
sweep_locked m now = if ltb_ℤ (sub_time now m.last_sweep) sweep_interval then m else record {
  windows = map_values prune_final m.windows;
  retired = retain (λ r. not (ltb_ℤ retire_grace (sub_time now r.retired_at))) m.retired;
  last_sweep = now;
}

-- The check at the head of `Reserve`, with the two readings of the clock that it makes.
unfoldable pub is_valid : Policy → String → Int64 → Time → Time → Bool
is_valid p id estimate t₁ t₂ = not (
    str_eq id ""
    || slt estimate 0
    || slt p.token_limit 0
    || (not (str_eq p.mode "hard") && not (str_eq p.mode "soft"))
    || not (ltb t₁ p.window_end)
    || ltb t₂ p.window_start)

abbrev pub fresh_window : Time → Window
fresh_window start = record { start = start; reserved = 0; consumed = 0; reservations = [] }

-- The ledger of the policy's window, opened if there is none or it belongs to another window; the
-- old one is retired.
unfoldable pub open_window : Manager → Policy → Time → Manager × Window
open_window m p now = elim (lookup p.id m.windows) [
  | none ↦
      let w = fresh_window p.window_start in (record m { windows = insert p.id w m.windows }, w)
  | some old ↦
      let w = fresh_window p.window_start in
      if old.start == p.window_start then (m, old) else (
        record m {
          windows = insert p.id w m.windows;
          retired = insert p.id (record { state = old; retired_at = now }) m.retired;
        },
        w,
      )
]

-- The ledger with a new reservation.
unfoldable pub charge : Window → String → Int64 → Window
charge w id estimate = record w {
  reserved = add64 w.reserved estimate;
  reservations = insert id (record { estimate = estimate; final = false }) w.reservations;
}

-- What `Reserve` does with the open ledger.
unfoldable pub admit : Manager → Window → Policy → String → Int64 → Manager × Result Reservation
admit m w p id estimate = elim (lookup id w.reservations) [
  | some existing ↦ (
    m,
    ok (record {
      id = id;
      policy_id = p.id;
      estimated_tokens = existing.estimate;
      warning = str_eq p.mode "soft" && slt p.token_limit (add64 w.reserved w.consumed);
    }),
  )
  | none ↦
      let projected = add64 (add64 w.reserved w.consumed) estimate in
      if str_eq p.mode "hard" && slt p.token_limit projected then (m, err exceeded) else (
        record m { windows = insert p.id (charge w id estimate) m.windows },
        ok (record {
          id = id;
          policy_id = p.id;
          estimated_tokens = estimate;
          warning = str_eq p.mode "soft" && slt p.token_limit projected;
        }),
      )
]

unfoldable pub reserve :
    Manager → Policy → String → Int64 → Time → Time → Time → Manager × Result Reservation
reserve m p id estimate t₁ t₂ now =
    if not (is_valid p id estimate t₁ t₂)
    then (m, err invalid_reservation)
    else let (m', w) = open_window (sweep_locked m now) p now in admit m' w p id estimate

-- Where a reservation is kept: `ledgerFor` returns a pointer to one of these.
pub data Ledger : Type 0 where
  current : Window → Ledger
  old : RetiredWindow → Ledger

unfoldable pub ledger_window : Ledger → Window
ledger_window (current w) = w
ledger_window (old r) = r.state

unfoldable pub retired_ledger : Manager → String → String → Option Ledger
retired_ledger m policy_id id = elim (lookup policy_id m.retired) [
  | none ↦ none
  | some r ↦ if is_some (lookup id r.state.reservations) then some (old r) else none
]

unfoldable pub ledger_for : Manager → String → String → Option Ledger
ledger_for m policy_id id = elim (lookup policy_id m.windows) [
  | none ↦ retired_ledger m policy_id id
  | some w ↦
      if is_some (lookup id w.reservations) then some (current w) else retired_ledger m policy_id id
]

-- The write through that pointer.
unfoldable pub put_ledger : Manager → String → Ledger → Window → Manager
put_ledger m policy_id (current _) w = record m { windows = insert policy_id w m.windows }
put_ledger m policy_id (old r) w = record m {
  retired = insert policy_id (record r { state = w }) m.retired;
}

-- The common part of `Reconcile` and `Release`: give the estimate back, charge the actual usage,
-- and close the reservation, unless it is closed.
unfoldable pub settle_window : Window → String → Int64 → Window
settle_window w id actual = elim (lookup id w.reservations) [
  | none ↦ w
  | some r ↦ if r.final then w else record w {
    reserved = sub64 w.reserved r.estimate;
    consumed = add64 w.consumed actual;
    reservations = insert id (record r { final = true }) w.reservations;
  }
]

unfoldable pub settle : Manager → String → String → Ledger → Int64 → Manager
settle m policy_id id l actual =
    put_ledger m policy_id l (settle_window (ledger_window l) id actual)

-- `none` is no error.
unfoldable pub reconcile : Manager → String → String → Int64 → Manager × Option Error
reconcile m policy_id id actual =
    if slt actual 0 then (m, some negative_actual) else elim (ledger_for m policy_id id) [
      | none ↦ (m, some reservation_not_found)
      | some l ↦ (settle m policy_id id l actual, none)
    ]

unfoldable pub release : Manager → String → String → Manager
release m policy_id id = elim (ledger_for m policy_id id) [
  | none ↦ m
  | some l ↦ settle m policy_id id l 0
]

unfoldable pub sweep : Manager → Time → Manager
sweep m now = sweep_locked (record m { last_sweep = zero_time }) now

unfoldable pub usage : Manager → String → Int64 × Int64
usage m policy_id = elim (lookup policy_id m.windows) [
  | none ↦ (0, 0)
  | some w ↦ (w.reserved, w.consumed)
]
