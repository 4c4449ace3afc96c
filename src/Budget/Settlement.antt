-- ===== src/Budget/Settlement.antt =====
-- `Reconcile` and `Release` of internal/finops/budget/manager.go settle a reservation once.
use lite_aig.Base.{◌≡◌, refl, none, some, String, true, false, arith, is_some, some_of_is_some}
use lite_aig.Base.Assoc.{lookup, lookup-insert_self, insert-insert}
use lite_aig.Base.Word.{Int64, slt}
use lite_aig.Budget.Windows.{Window, ReservationState}
use lite_aig.Budget.{
  Manager, Error, negative_actual, RetiredWindow, Ledger, current, old, ledger_window, ledger_for,
  retired_ledger, put_ledger, settle_window, settle, reconcile, release,
}

-- The reservation is there before a settlement exactly if it is there after it, and then final.
settle_window_final :
    (w : Window) (id : String) (actual : Int64) {r : ReservationState}
    → lookup id w.reservations ≡ some r
    → lookup id (settle_window w id actual).reservations ≡ some (record r { final = true })
unfolding settle_window
settle_window_final w id actual {r} e =
    ground (arith, lookup-insert_self id (record r { final = true }) w.reservations)

settle_window_settled :
    (w : Window) (id : String) (actual : Int64) (r : ReservationState)
    → lookup id w.reservations ≡ some r
    → r.final ≡ true
    → settle_window w id actual ≡ w
unfolding settle_window
settle_window_settled w id actual r e f = ground arith

settle_window_twice :
    (w : Window) (id : String) (a b : Int64) (r : ReservationState)
    → lookup id w.reservations ≡ some r
    → settle_window (settle_window w id a) id b ≡ settle_window w id a
settle_window_twice w id a b r e =
    settle_window_settled (settle_window w id a) id b (record r { final = true })
      (settle_window_final w id a e) refl

-- The ledger that `ledger_for` finds holds the reservation.
ledger_for_holds :
    (m : Manager) (policy_id id : String) (l : Ledger)
    → ledger_for m policy_id id ≡ some l
    → (r : ReservationState) × (lookup id (ledger_window l).reservations ≡ some r)
unfolding ledger_for retired_ledger ledger_window
ledger_for_holds m policy_id id (current w) e =
    some_of_is_some (lookup id w.reservations) (ground arith)
ledger_for_holds m policy_id id (old q) e =
    some_of_is_some (lookup id q.state.reservations) (ground arith)

-- The ledger after a settlement.
settled_ledger : Ledger → String → Int64 → Ledger
settled_ledger (current w) id actual = current (settle_window w id actual)
settled_ledger (old q) id actual = old (record q { state = settle_window q.state id actual })

ledger_for-settle :
    (m : Manager) (policy_id id : String) (l : Ledger) (a : Int64)
    → ledger_for m policy_id id ≡ some l
    → ledger_for (settle m policy_id id l a) policy_id id ≡ some (settled_ledger l id a)
unfolding ledger_for retired_ledger settle put_ledger ledger_window settled_ledger
ledger_for-settle m policy_id id (current w) a e =
    let (r, held) = ledger_for_holds m policy_id id (current w) e in
    ground (
      arith,
      lookup-insert_self policy_id (settle_window w id a) m.windows,
      settle_window_final w id a held,
    )
ledger_for-settle m policy_id id (old q) a e =
    let (r, held) = ledger_for_holds m policy_id id (old q) e in
    let q' : RetiredWindow = record q { state = settle_window q.state id a } in
    ground (arith, lookup-insert_self policy_id q' m.retired, settle_window_final q.state id a held)

settle-settle :
    (m : Manager) (policy_id id : String) (l : Ledger) (a b : Int64)
    → ledger_for m policy_id id ≡ some l
    → settle (settle m policy_id id l a) policy_id id (settled_ledger l id a) b
      ≡ settle m policy_id id l a
unfolding settle put_ledger settled_ledger ledger_window
settle-settle m policy_id id (current w) a b e =
    let (r, held) = ledger_for_holds m policy_id id (current w) e in
    rw (
      settle_window_twice w id a b r held,
      insert-insert policy_id (settle_window w id a) (settle_window w id a) m.windows,
    )
settle-settle m policy_id id (old q) a b e =
    let (r, held) = ledger_for_holds m policy_id id (old q) e in
    let q' : RetiredWindow = record q { state = settle_window q.state id a } in
    rw (settle_window_twice q.state id a b r held, insert-insert policy_id q' q' m.retired)

module _ (m : Manager) (policy_id id : String) (a b : Int64) (l : Ledger)
    (e : ledger_for m policy_id id ≡ some l) (positive : slt b 0 ≡ false) where
  reconcile_settled : let m' = settle m policy_id id l a in reconcile m' policy_id id b ≡ (m', none)
  unfolding reconcile
  reconcile_settled =
      rw (positive, ledger_for-settle m policy_id id l a e)
        (rw (settle-settle m policy_id id l a b e))

  release_settled : let m' = settle m policy_id id l a in release m' policy_id id ≡ m'
  unfolding release
  release_settled =
      rw (release, ledger_for-settle m policy_id id l a e) (settle-settle m policy_id id l a 0 e)

pub reconcile_found :
    (m : Manager) (policy_id id : String) (a : Int64) (l : Ledger)
    → slt a 0 ≡ false
    → ledger_for m policy_id id ≡ some l
    → reconcile m policy_id id a ≡ (settle m policy_id id l a, none)
unfolding reconcile
reconcile_found m policy_id id a l valid e = rw (valid, e)

pub release_found :
    (m : Manager) (policy_id id : String) (l : Ledger)
    → ledger_for m policy_id id ≡ some l
    → release m policy_id id ≡ settle m policy_id id l 0
unfolding release
release_found m policy_id id l e = rw (e, release)

-- What a call of `Reconcile` that returns no error has found.
reconcile-none :
    (m : Manager) (policy_id id : String) (a : Int64)
    → (reconcile m policy_id id a).1 ≡ none
    → (slt a 0 ≡ false) × (is_some (ledger_for m policy_id id) ≡ true)
unfolding reconcile
reconcile-none m policy_id id a returned = ground arith

pub reconcile_negative :
    (m : Manager) (policy_id id : String) (a : Int64)
    → slt a 0 ≡ true
    → reconcile m policy_id id a ≡ (m, some negative_actual)
unfolding reconcile
reconcile_negative m policy_id id a negative = rw (negative, reconcile) refl

-- A call of `Reconcile` that returns an error changes nothing.
pub reconcile_failed :
    (m : Manager) (policy_id id : String) (a : Int64) (e : Error)
    → (reconcile m policy_id id a).1 ≡ some e
    → (reconcile m policy_id id a).0 ≡ m
unfolding reconcile
reconcile_failed m policy_id id a e bad = ground arith

-- Right after it is settled, a reservation is not settled again. On the manager that a call of
-- `Reconcile` without an error leaves, with no other call in between, another `Reconcile` of the
-- same reservation with an amount that is not negative returns no error and changes nothing, and a
-- `Release` of it changes nothing.
pub reconcile_once :
    (m : Manager) (policy_id id : String) (a b : Int64)
    → (reconcile m policy_id id a).1 ≡ none
    → slt b 0 ≡ false
    → let m' = (reconcile m policy_id id a).0 in
      (reconcile m' policy_id id b ≡ (m', none)) × (release m' policy_id id ≡ m')
reconcile_once m policy_id id a b returned positive =
    let (valid, held) = reconcile-none m policy_id id a returned in
    let (l, e) = some_of_is_some (ledger_for m policy_id id) held in
    rw (reconcile_found m policy_id id a l valid e) (
      reconcile_settled m policy_id id a b l e positive,
      release_settled m policy_id id a b l e positive,
    )

-- On the manager that a `Release` of a held reservation leaves, a `Reconcile` of it with an amount
-- that is not negative returns no error and charges nothing, and a `Release` changes nothing.
pub release_once :
    (m : Manager) (policy_id id : String) (b : Int64) (l : Ledger)
    → ledger_for m policy_id id ≡ some l
    → slt b 0 ≡ false
    → let m' = release m policy_id id in
      (reconcile m' policy_id id b ≡ (m', none)) × (release m' policy_id id ≡ m')
release_once m policy_id id b l e positive = rw (release_found m policy_id id l e) (
  reconcile_settled m policy_id id 0 b l e positive,
  release_settled m policy_id id 0 b l e positive,
)
