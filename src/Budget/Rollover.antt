-- ===== src/Budget/Rollover.antt =====
-- From one window of internal/finops/budget/manager.go to the next.
use lite_aig.Base.{◌<◌, ◌≡◌, ◌≢◌, refl, none, some, String, true, false, arith, is_some}
use lite_aig.Base.Assoc.{lookup, lookup-insert_self}
use lite_aig.Base.Word.{Int64, word, add64, sub64, slt}
use lite_aig.Base.Clock.{Time}
use lite_aig.Budget.Windows.{Window, ReservationState}
use lite_aig.Budget.{
  Policy, Manager, Reservation, ok, RetiredWindow, current, old, is_valid, sweep_locked,
  open_window, charge, reserve, ledger_for, retired_ledger, ledger_window, put_ledger,
  settle_window, settle, reconcile, release, usage, fresh_window,
}
use lite_aig.Budget.Limits.{opened, over, reserve_new}
use lite_aig.Budget.Settlement.{reconcile_found, release_found}

-- Where the ledger of a policy belongs to another window, opening one starts from zero, and a
-- reservation of the old ledger is found there afterwards, retired at that time.
pub open_window_rolls :
    (m : Manager) (p : Policy) (now : Time) (w : Window) (id : String)
    → lookup p.id m.windows ≡ some w
    → w.start ≢ p.window_start
    → is_some (lookup id w.reservations) ≡ true
    → let (m', w') = open_window m p now in
      (usage m' p.id ≡ (0, 0))
      × (w' ≡ fresh_window p.window_start)
      × (ledger_for m' p.id id ≡ some (old (record { state = w; retired_at = now })))
unfolding open_window usage ledger_for retired_ledger lookup
open_window_rolls m p now w id e other held =
    let r : RetiredWindow = record { state = w; retired_at = now } in
    ground (
      arith,
      lookup-insert_self p.id (fresh_window p.window_start) m.windows,
      lookup-insert_self p.id r m.retired,
    )

-- What a reservation that was just charged settles to.
settle_window-charge :
    (w : Window) (id : String) (estimate a : Int64)
    → w.reserved < word
    → estimate < word
    → let v = settle_window (charge w id estimate) id a in
      (v.reserved ≡ w.reserved) × (v.consumed ≡ add64 w.consumed a)
unfolding settle_window charge add64 sub64
settle_window-charge w id estimate a h k = ground (
  arith,
  lookup-insert_self id
      (let r : ReservationState = record { estimate = estimate; final = false } in r)
      w.reservations,
)

module _ (m : Manager) (p : Policy) (id : String) (estimate : Int64) (t₁ t₂ now : Time)
    (valid : is_valid p id estimate t₁ t₂ ≡ true)
    (unused : lookup id (opened m p now).reservations ≡ none)
    (admitted : over (opened m p now) p estimate ≡ false) where
  -- The new reservation is found in the current ledger.
  pub ledger_for-reserve :
      ledger_for (reserve m p id estimate t₁ t₂ now).0 p.id id
      ≡ some (current (charge (opened m p now) id estimate))
  unfolding opened ledger_for charge
  ledger_for-reserve =
      let (m', w) = open_window (sweep_locked m now) p now in
      let r : ReservationState = record { estimate = estimate; final = false } in
      rw (reserve_new m p id estimate t₁ t₂ now valid unused) (
        rw admitted (
          ground (
            arith,
            lookup-insert_self p.id (charge w id estimate) m'.windows,
            lookup-insert_self id r w.reservations,
          )))

  pub reserve_admitted : (r : Reservation) × ((reserve m p id estimate t₁ t₂ now).1 ≡ ok r)
  unfolding opened
  reserve_admitted = rw (reserve_new m p id estimate t₁ t₂ now valid unused) (rw admitted (_, refl))

  -- A valid reservation with an unused id that the limit admits, reconciled at once with an amount
  -- that is not negative, leaves `reserved` where it was and adds the amount to `consumed`;
  -- released at once, it leaves both where they were.
  pub reserve_settle_usage :
      (a : Int64)
      → slt a 0 ≡ false
      → (opened m p now).reserved < word
      → (opened m p now).consumed < word
      → estimate < word
      → let m' = (reserve m p id estimate t₁ t₂ now).0 in
        let w = opened m p now in
        (usage (reconcile m' p.id id a).0 p.id ≡ (w.reserved, add64 w.consumed a))
        × (usage (release m' p.id id) p.id ≡ (w.reserved, w.consumed))
  unfolding settle put_ledger ledger_window usage add64
  reserve_settle_usage a positive h k small =
      let m' = (reserve m p id estimate t₁ t₂ now).0 in
      let w = opened m p now in
      let v = charge w id estimate in
      rw
        (
          reconcile_found m' p.id id a (current v) positive ledger_for-reserve,
          release_found m' p.id id (current v) ledger_for-reserve,
        )
        (
          ground (
            arith,
            lookup-insert_self p.id (settle_window v id a) m'.windows,
            lookup-insert_self p.id (settle_window v id 0) m'.windows,
            settle_window-charge w id estimate a h small,
            settle_window-charge w id estimate 0 h small,
          ),
          ground (
            arith,
            lookup-insert_self p.id (settle_window v id 0) m'.windows,
            settle_window-charge w id estimate 0 h small,
          ),
        )
