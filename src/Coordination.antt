-- ===== src/Coordination.antt =====
-- internal/platform/coordination/memory.go, `MemoryBudgetLedger` and `MemoryInflightCounter`:
-- reservations over several budget windows, and counters of calls in flight.
pub mod Windows
pub mod Finality
pub mod Inflight
mod Tests
use lite_aig.Base.{
  ℕ, if◌then◌else◌, Option, none, some, List, [], ◌∷◌, String, str_eq, Bool, true, false, not, ◌||◌,
}
use lite_aig.Base.Assoc.{Assoc, lookup, insert}
use lite_aig.Base.Int.{pos}
use lite_aig.Base.Word.{Int64, add64, sub64, slt}
use lite_aig.Base.Clock.{Duration}
use lite_aig.Base.Float.{Float}
use lite_aig.Routing.Scores.{read}

pub record BudgetWindow (f : Float) : Type 0 where
  pub key : String
  pub limit : f.F
  pub ttl : Duration

pub record ReserveRequest (f : Float) : Type 0 where
  pub tenant_id : String
  pub reservation_id : String
  pub estimate : f.F
  pub windows : List (BudgetWindow f)

pub record Held (f : Float) : Type 0 where
  pub estimate : f.F
  pub windows : List String
  pub final : Bool

pub record Ledger (f : Float) : Type 0 where
  pub windows : Assoc (Assoc f.F)
  pub reservations : Assoc (Assoc (Held f))

pub data Error : Type 0 where
  invalid_request invalid_window reservation_not_found already_finalized : Error

-- What `Reserve` answers.
pub data Answer : Type 0 where
  reserved refused : Answer
  invalid : Error → Answer

unfoldable pub new_ledger : {f : Float} → Ledger f
new_ledger = record { windows = []; reservations = [] }

unfoldable pub value_of : (f : Float) → Assoc f.F → String → f.F
value_of f windows key = read (f.of_int (pos 0)) windows key

-- A change of every window of a list, one after the other.
unfoldable pub change_all : (f : Float) → (f.F → f.F) → List String → Assoc f.F → Assoc f.F
change_all f g [] tenant = tenant
change_all f g (k ∷ ks) tenant = change_all f g ks (insert k (g (value_of f tenant k)) tenant)

module _ {f : Float} where
  -- `tenantWindows`: the windows of the tenant, and the ledger with a table for it.
  unfoldable pub tenant_of : Ledger f → String → Assoc f.F
  tenant_of l tenant_id = read [] l.windows tenant_id

  unfoldable pub put_tenant : Ledger f → String → Assoc f.F → Ledger f
  put_tenant l tenant_id windows = record l { windows = insert tenant_id windows l.windows }

  -- The window has a key and a limit that is not negative.
  unfoldable pub is_window : BudgetWindow f → Bool
  is_window w = not (str_eq w.key "" || f.ltb w.limit (f.of_int (pos 0)))

  -- The estimate fits into what the window has left.
  unfoldable pub has_room : Assoc f.F → f.F → BudgetWindow f → Bool
  has_room tenant estimate w = not (f.ltb w.limit (f.add (value_of f tenant w.key) estimate))

  -- The loop of `Reserve` that checks the windows one by one.
  unfoldable pub check_windows : Assoc f.F → f.F → List (BudgetWindow f) → Answer
  check_windows tenant estimate [] = reserved
  check_windows tenant estimate (w ∷ ws) =
      let rest = check_windows tenant estimate ws in
      if not (is_window w)
      then invalid invalid_window
      else if not (has_room tenant estimate w)
      then refused
      else rest

  unfoldable pub keys_of : List (BudgetWindow f) → List String
  keys_of [] = []
  keys_of (w ∷ ws) = w.key ∷ keys_of ws

  unfoldable pub put_held : Ledger f → String → String → Held f → Ledger f
  put_held l tenant_id id held = record l {
    reservations =
        insert tenant_id (insert id held (read [] l.reservations tenant_id)) l.reservations;
  }

  -- The ledger once all windows have passed.
  unfoldable pub book : Ledger f → ReserveRequest f → Ledger f
  book l r =
      put_held
        (put_tenant l r.tenant_id
          (change_all f (λ v. f.add v r.estimate) (keys_of r.windows) (tenant_of l r.tenant_id)))
        r.tenant_id r.reservation_id
        (record { estimate = r.estimate; windows = keys_of r.windows; final = false })

  unfoldable pub conclude : Ledger f → ReserveRequest f → Answer → Ledger f × Answer
  conclude l r reserved = (book l r, reserved)
  conclude l r a = (put_tenant l r.tenant_id (tenant_of l r.tenant_id), a)

  unfoldable pub reserve : Ledger f → ReserveRequest f → Ledger f × Answer
  reserve l r =
      if str_eq r.reservation_id "" || f.ltb r.estimate (f.of_int (pos 0))
      then (l, invalid invalid_request)
      else conclude l r (check_windows (tenant_of l r.tenant_id) r.estimate r.windows)

  -- `reservation`: one that is held and not final, or the error.
  unfoldable pub find : Ledger f → String → String → Error × Option (Held f)
  find l tenant_id id = elim (lookup id (read [] l.reservations tenant_id)) [
    | none ↦ (reservation_not_found, none)
    | some h ↦ if h.final then (already_finalized, none) else (reservation_not_found, some h)
  ]

  -- The windows changed, and the reservation final.
  unfoldable pub finalize :
      Ledger f
      → String
      → String
      → (Held f → f.F → f.F)
      → Error × Option (Held f)
      → Ledger f × Option Error
  finalize l tenant_id id change (e, none) = (l, some e)
  finalize l tenant_id id change (e, some h) = (
    put_held (put_tenant l tenant_id (change_all f (change h) h.windows (tenant_of l tenant_id)))
        tenant_id id (record h { final = true }),
    none,
  )

  unfoldable pub reconcile : Ledger f → String → String → f.F → Ledger f × Option Error
  reconcile l tenant_id id actual =
      finalize l tenant_id id (λ h v. f.add v (f.sub actual h.estimate)) (find l tenant_id id)

  unfoldable pub release : Ledger f → String → String → Ledger f × Option Error
  release l tenant_id id = finalize l tenant_id id (λ h v. f.sub v h.estimate) (find l tenant_id id)

-- The counters by scope.
abbrev pub Counters : Type 0
Counters = Assoc Int64

unfoldable pub count_of : Counters → String → Int64
count_of m scope = read 0 m scope

unfoldable pub incr : Counters → String → Counters × Int64
incr m scope = let n = add64 (count_of m scope) 1 in (insert scope n m, n)

unfoldable pub decr : Counters → String → Counters
decr m scope = let n = count_of m scope in if slt 0 n then insert scope (sub64 n 1) m else m
