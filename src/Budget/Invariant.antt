-- ===== src/Budget/Invariant.antt =====
-- What holds of a manager of internal/finops/budget/manager.go after any calls.
use lite_aig.Base.{
  ℕ, ◌<◌, ◌≡◌, refl, inl, inr, Option, none, some, Option-cases, String, List, [], ◌∷◌, arith, ap,
  if_intro, All,
}
use lite_aig.Base.Assoc.{
  lookup, AllValues, insert-AllValues, lookup-AllValues, retain-AllValues, map_values-AllValues,
}
use lite_aig.Base.Word.{Int64, word, add64, sub64}
use lite_aig.Base.Clock.{Time}
use lite_aig.Budget.Windows.{
  Window, ReservationState, open_sum, open_sum-insert_new, open_sum-close, open_sum-retain,
}
use lite_aig.Budget.{
  Policy, Manager, Reservation, Error, RetiredWindow, Result, Ledger, current, old, new,
  fresh_window, prune_final, sweep_locked, open_window, charge, admit, reserve, ledger_for,
  retired_ledger, ledger_window, put_ledger, settle_window, settle, reconcile, release, sweep,
}

-- The counter `reserved` is the sum of the estimates that are not settled, and each estimate is
-- an int64.
pub record IsBalanced (w : Window) : Type 0 where
  pub balance : w.reserved ≡ open_sum w.reservations
  pub words : AllValues (λ r. r.estimate < word) w.reservations

-- Every ledger, current or retired, is balanced.
pub record IsSound (m : Manager) : Type 0 where
  pub current_balanced : AllValues IsBalanced m.windows
  pub retired_balanced : AllValues (λ r. IsBalanced r.state) m.retired

fresh_window-IsBalanced : (start : Time) → IsBalanced (fresh_window start)
unfolding open_sum
fresh_window-IsBalanced start = record { balance = refl; words = tt }

prune_final-IsBalanced : (w : Window) → IsBalanced w → IsBalanced (prune_final w)
unfolding prune_final
prune_final-IsBalanced w h = record {
  balance = rw (open_sum-retain w.reservations) h.balance;
  words = retain-AllValues _ _ w.reservations h.words;
}

sweep_locked-IsSound : (m : Manager) (now : Time) → IsSound m → IsSound (sweep_locked m now)
unfolding sweep_locked
sweep_locked-IsSound m now h =
    if_intro IsSound _ m _ (λ _. h)
      λ _. record {
        current_balanced =
            map_values-AllValues IsBalanced IsBalanced prune_final m.windows prune_final-IsBalanced
              h.current_balanced;
        retired_balanced = retain-AllValues _ _ m.retired h.retired_balanced;
      }

open_window-IsSound :
    (m : Manager) (p : Policy) (now : Time)
    → IsSound m
    → IsSound (open_window m p now).0 × IsBalanced (open_window m p now).1
unfolding open_window
open_window-IsSound m p now h = elim (Option-cases (lookup p.id m.windows)) [
  | inl e ↦
      rw (e, open_window)
        (
          record {
            current_balanced =
                insert-AllValues IsBalanced p.id _ m.windows fresh h.current_balanced;
            retired_balanced = h.retired_balanced;
          },
          fresh,
        )
  | inr (w, e) ↦
      let kept = lookup-AllValues IsBalanced p.id m.windows h.current_balanced e in
      rw (e, open_window)
        (if_intro (λ (q : Manager × Window). IsSound q.0 × IsBalanced q.1) _ _ _ (λ _. (h, kept))
          λ _. (
            record {
              current_balanced =
                  insert-AllValues IsBalanced p.id _ m.windows fresh h.current_balanced;
              retired_balanced =
                  insert-AllValues (λ (r : RetiredWindow). IsBalanced r.state) p.id _ m.retired kept
                    h.retired_balanced;
            },
            fresh,
          ))
]
  where
    fresh : IsBalanced (fresh_window p.window_start)
    fresh = fresh_window-IsBalanced p.window_start

charge-IsBalanced :
    (w : Window) (id : String) (estimate : Int64)
    → lookup id w.reservations ≡ none
    → estimate < word
    → IsBalanced w
    → IsBalanced (charge w id estimate)
unfolding charge
charge-IsBalanced w id estimate e lt b = record {
  balance =
      rw (open_sum-insert_new id estimate w.reservations e)
        (ap (λ (n : ℕ). add64 n estimate) b.balance);
  words = insert-AllValues _ id _ w.reservations lt b.words;
}

admit-IsSound :
    (m : Manager) (w : Window) (p : Policy) (id : String) (estimate : Int64)
    → estimate < word
    → IsSound m
    → IsBalanced w
    → IsSound (admit m w p id estimate).0
unfolding admit
admit-IsSound m w p id estimate lt h b = elim (Option-cases (lookup id w.reservations)) [
  | inr (r, e) ↦ rw (e, admit) h
  | inl e ↦
      let charged = charge-IsBalanced w id estimate e lt b in
      rw (e, admit)
        (if_intro (λ (q : Manager × Result Reservation). IsSound q.0) _ _ _ (λ _. h)
          λ _. record {
            retired_balanced = h.retired_balanced;
            current_balanced =
                insert-AllValues IsBalanced p.id _ m.windows charged h.current_balanced;
          })
]

pub reserve-IsSound :
    (m : Manager) (p : Policy) (id : String) (estimate : Int64) (t₁ t₂ now : Time)
    → estimate < word
    → IsSound m
    → IsSound (reserve m p id estimate t₁ t₂ now).0
unfolding reserve
reserve-IsSound m p id estimate t₁ t₂ now lt h =
    let (sound, balanced) =
      open_window-IsSound (sweep_locked m now) p now (sweep_locked-IsSound m now h) in
    if_intro (λ (q : Manager × Result Reservation). IsSound q.0) _ _ _ (λ _. h)
      λ _. admit-IsSound _ _ p id estimate lt sound balanced

settle_window-IsBalanced :
    (w : Window) (id : String) (actual : Int64)
    → IsBalanced w
    → IsBalanced (settle_window w id actual)
unfolding settle_window
settle_window-IsBalanced w id actual b = elim (Option-cases (lookup id w.reservations)) [
  | inl e ↦ rw (e, settle_window) b
  | inr (r, e) ↦
      let small =
        lookup-AllValues (λ (s : ReservationState). s.estimate < word) id w.reservations b.words
          e in
      rw (e, settle_window)
        (if_intro IsBalanced _ w _ (λ _. b)
          λ unsettled. record {
            balance =
                rw (open_sum-close id r w.reservations e unsettled small)
                  (ap (λ (n : ℕ). sub64 n r.estimate) b.balance);
            words = insert-AllValues _ id _ w.reservations small b.words;
          })
]

-- The ledger that is found is one of the manager's.
abbrev Found : Manager → String → Ledger → Type 0
Found m policy_id (current w) = lookup policy_id m.windows ≡ some w
Found m policy_id (old r) = lookup policy_id m.retired ≡ some r

pub ledger_for-Found :
    (m : Manager) (policy_id id : String) (l : Ledger)
    → ledger_for m policy_id id ≡ some l
    → Found m policy_id l
unfolding ledger_for retired_ledger
ledger_for-Found m policy_id id (current w) e = ground arith
ledger_for-Found m policy_id id (old r) e = ground arith

settle-IsSound :
    (m : Manager) (policy_id id : String) (l : Ledger) (actual : Int64)
    → Found m policy_id l
    → IsSound m
    → IsSound (settle m policy_id id l actual)
unfolding settle put_ledger ledger_window
settle-IsSound m policy_id id (current w) actual f h =
    let b = lookup-AllValues IsBalanced policy_id m.windows h.current_balanced f in
    record {
      retired_balanced = h.retired_balanced;
      current_balanced =
          insert-AllValues IsBalanced policy_id _ m.windows (settle_window-IsBalanced w id actual b)
            h.current_balanced;
    }
settle-IsSound m policy_id id (old r) actual f h =
    let P = λ (q : RetiredWindow). IsBalanced q.state in
    let b = lookup-AllValues P policy_id m.retired h.retired_balanced f in
    record {
      current_balanced = h.current_balanced;
      retired_balanced =
          insert-AllValues P policy_id _ m.retired (settle_window-IsBalanced r.state id actual b)
            h.retired_balanced;
    }

pub reconcile-IsSound :
    (m : Manager) (policy_id id : String) (actual : Int64)
    → IsSound m
    → IsSound (reconcile m policy_id id actual).0
unfolding reconcile
reconcile-IsSound m policy_id id actual h = elim (Option-cases (ledger_for m policy_id id)) [
  | inl e ↦
      rw (e, reconcile)
        (if_intro (λ (q : Manager × Option Error). IsSound q.0) _ _ _ (λ _. h) (λ _. h))
  | inr (l, e) ↦
      let found = ledger_for-Found m policy_id id l e in
      rw (e, reconcile)
        (if_intro (λ (q : Manager × Option Error). IsSound q.0) _ _ _ (λ _. h)
          (λ _. settle-IsSound m policy_id id l actual found h))
]

pub release-IsSound :
    (m : Manager) (policy_id id : String) → IsSound m → IsSound (release m policy_id id)
unfolding release
release-IsSound m policy_id id h = elim (Option-cases (ledger_for m policy_id id)) [
  | inl e ↦ rw (e, release) h
  | inr (l, e) ↦
      rw (e, release) (settle-IsSound m policy_id id l 0 (ledger_for-Found m policy_id id l e) h)
]

pub data Call : Type 0 where
  reserves : Policy → String → Int64 → Time → Time → Time → Call
  reconciles : String → String → Int64 → Call
  releases : String → String → Call
  sweeps : Time → Call

-- An estimate is an int64.
abbrev pub InRange : Call → Type 0
InRange (reserves p id estimate t₁ t₂ now) = estimate < word
InRange _ = Unit

pub step : Manager → Call → Manager
step m (reserves p id estimate t₁ t₂ now) = (reserve m p id estimate t₁ t₂ now).0
step m (reconciles policy_id id actual) = (reconcile m policy_id id actual).0
step m (releases policy_id id) = release m policy_id id
step m (sweeps now) = sweep m now

pub run : Manager → List Call → Manager
run m [] = m
run m (c ∷ cs) = run (step m c) cs

step-IsSound : (m : Manager) (c : Call) → InRange c → IsSound m → IsSound (step m c)
unfolding step sweep
step-IsSound m (reserves p id estimate t₁ t₂ now) r h =
    reserve-IsSound m p id estimate t₁ t₂ now r h
step-IsSound m (reconciles policy_id id actual) r h = reconcile-IsSound m policy_id id actual h
step-IsSound m (releases policy_id id) r h = release-IsSound m policy_id id h
step-IsSound m (sweeps now) r h =
    sweep_locked-IsSound _ now
      (record { current_balanced = h.current_balanced; retired_balanced = h.retired_balanced })

run-IsSound : (m : Manager) (cs : List Call) → All InRange cs → IsSound m → IsSound (run m cs)
unfolding run
run-IsSound m [] r h = h
run-IsSound m (c ∷ cs) r h = run-IsSound (step m c) cs r.1 (step-IsSound m c r.0 h)

-- After any sequence of calls on a new manager, in every current and every retired ledger the
-- counter `reserved` is the wrapping sum of the estimates of the reservations that are not settled.
pub run-new-IsSound :
    (start : Time) (cs : List Call) → All InRange cs → IsSound (run (new start) cs)
unfolding new
run-new-IsSound start cs r =
    run-IsSound _ cs r (record { current_balanced = tt; retired_balanced = tt })
