-- ===== src/Coordination/Tests.antt =====
-- A ledger and counters in use, and the theorems at concrete calls.
use lite_aig.Base.{◌≡◌, ◌≢◌, refl, ◌⊎◌, [], ◌∷◌, true, false, if◌then◌else◌, contains, is_distinct}
use lite_aig.Base.Assoc.{lookup, insert}
use lite_aig.Base.Int.{pos}
use lite_aig.Base.Float.{whole}
use lite_aig.Coordination.{
  BudgetWindow, ReserveRequest, Ledger, reserved, refused, new_ledger, reserve, tenant_of, value_of,
  keys_of, check_windows, is_window, has_room, conclude, book, put_tenant, put_held, change_all,
  Counters,
}
use lite_aig.Coordination.Windows.{all_fit, reserve_all_or_none}

abbrev day : BudgetWindow whole
day = record { key = "day"; limit = pos 100; ttl = pos 0 }

abbrev month : BudgetWindow whole
month = record { key = "month"; limit = pos 500; ttl = pos 0 }

abbrev request : ReserveRequest whole
request = record {
  tenant_id = "t";
  reservation_id = "r";
  estimate = pos 60;
  windows = day ∷ month ∷ [];
}

abbrev ledger : Ledger whole
ledger = record {
  windows = ("t", ("day", pos 60) ∷ ("month", pos 60) ∷ []) ∷ [];
  reservations =
      ("t", ("r", record { estimate = pos 60; windows = "day" ∷ "month" ∷ []; final = false }) ∷ [])
      ∷ [];
}

reserve_first : reserve new_ledger request ≡ (ledger, reserved)
unfolding reserve new_ledger tenant_of check_windows is_window has_room value_of conclude book
    put_tenant put_held change_all keys_of insert lookup
reserve_first = refl

-- The day has no room for the same estimate again.
reserve_second : (reserve ledger (record request { reservation_id = "s" })).1 ≡ refused
unfolding reserve tenant_of check_windows is_window has_room value_of conclude put_tenant lookup
reserve_second = refl

reserve_all_or_none_example :
    let (l', answer) = reserve ledger request in
    let before = value_of whole (tenant_of ledger "t") "month" in
    let after = value_of whole (tenant_of l' "t") "month" in
    let fits = all_fit (tenant_of ledger "t") (pos 60) (day ∷ month ∷ []) in
    ((fits ≡ true)
      × (answer ≡ reserved)
      × (after ≡ (
          if contains (keys_of (day ∷ month ∷ [])) "month"
          then whole.add before (pos 60)
          else before)))
    ⊎ ((fits ≡ false) × (answer ≢ reserved) × (after ≡ before))
unfolding is_distinct keys_of contains
reserve_all_or_none_example = reserve_all_or_none whole ledger request "month" refl refl refl

abbrev counters : Counters
counters = ("a", 2) ∷ ("b", 1) ∷ []
