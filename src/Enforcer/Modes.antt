-- ===== src/Enforcer/Modes.antt =====
-- What internal/app/budgetenforcer.go does while the shared ledger cannot be reached.
use lite_aig.Base.{
  ◌≡◌, refl, Option, none, some, List, [], ◌∷◌, ◌++◌, String, str_eq, true, Bool-cases, inl, inr,
  ap, ◌∙◌, sym, eq_iff,
}
use lite_aig.Base.Word.{Int64}
use lite_aig.Base.Clock.{Time}
use lite_aig.Base.Float.{Float}
use lite_aig.Budget
use lite_aig.Budget.{Policy, Reservation}
use lite_aig.Enforcer.{
  Enforcer, Result, err, ledger_error, record_tenant, roll_back, note_answer, on_slice, admit_slice,
  on_answer, after_manager, reserve, entry_for, put_entry, fail_mode, request_of,
}
use lite_aig.Enforcer.Rollback.{reserve_after}
use lite_aig.Enforcer.Slices
use lite_aig.Enforcer.Slices.{Authority}
use lite_aig.Enforcer.FailMode.{
  BudgetLedger, Alert, ReserveResult, apply_mode, reserve_in_mode, open_alert, closed_alert, heard,
}

module _ {f : Float} {L E : Type 0} (api : BudgetLedger f L E) (stamp : Time → String) where
  -- Two runs with the same answer, manager and slices.
  Agree : Enforcer f L × Result E → Enforcer f L × Result E → Type 0
  Agree (e, r) (e', r') = (r ≡ r') × (e.manager ≡ e'.manager) × (e.slices ≡ e'.slices)

  -- The slices do not look at the shared ledger.
  on_slice-Agree :
      (e : Enforcer f L) (d d' : Option L) (a a' : List Alert) (p : Policy) (id : String)
      (r : Reservation) (s : Authority f × Slices.Admission)
      → Agree
          (on_slice api stamp (record e { distributed = d; alerts = a }) p id r s)
          (on_slice api stamp (record e { distributed = d'; alerts = a' }) p id r s)
  unfolding Agree on_slice roll_back put_entry entry_for
  on_slice-Agree e d d' a a' p id r (b, Slices.admitted) = (refl, refl, refl)
  on_slice-Agree e d d' a a' p id r (b, Slices.overshoot) = (refl, refl, refl)

  admit_slice-Agree :
      (e : Enforcer f L) (d d' : Option L) (a a' : List Alert) (p : Policy) (id : String)
      (estimate : Int64) (r : Reservation)
      → Agree
          (admit_slice api stamp (record e { distributed = d; alerts = a }) p id estimate r)
          (admit_slice api stamp (record e { distributed = d'; alerts = a' }) p id estimate r)
  unfolding Agree admit_slice entry_for
  admit_slice-Agree e d d' a a' p id estimate r = elim (Bool-cases (str_eq p.consistency "")) [
    | inl plain ↦ rw (plain, admit_slice) (refl, refl, refl)
    | inr sliced ↦ rw (sliced, admit_slice) (on_slice-Agree e d d' a a' p id r _)
  ]

  on_slice-alerts :
      (e : Enforcer f L) (p : Policy) (id : String) (r : Reservation)
      (s : Authority f × Slices.Admission)
      → (on_slice api stamp e p id r s).0.alerts ≡ e.alerts
  unfolding on_slice roll_back put_entry
  on_slice-alerts e p id r (b, Slices.admitted) = refl
  on_slice-alerts e p id r (b, Slices.overshoot) = refl

  admit_slice-alerts :
      (e : Enforcer f L) (p : Policy) (id : String) (estimate : Int64) (r : Reservation)
      → (admit_slice api stamp e p id estimate r).0.alerts ≡ e.alerts
  unfolding admit_slice
  admit_slice-alerts e p id estimate r = elim (Bool-cases (str_eq p.consistency "")) [
    | inl plain ↦ rw (plain, admit_slice) refl
    | inr sliced ↦ rw (sliced, admit_slice) (on_slice-alerts e p id r _)
  ]

  apply_soft :
      (t : L × ReserveResult × Option E) (x : E)
      → t.2 ≡ some x
      → api.is_unavailable x ≡ true
      → apply_mode api "soft" t ≡ record {
        ledger = t.0;
        alerts = open_alert ∷ [];
        result = record { reserved = true; active = 0; degraded = true };
        err = none;
      }
  unfolding apply_mode
  apply_soft t x failed away = rw (failed, away, apply_mode) refl

  apply_hard :
      (t : L × ReserveResult × Option E) (x : E)
      → t.2 ≡ some x
      → api.is_unavailable x ≡ true
      → apply_mode api "hard" t
        ≡ record { ledger = t.0; alerts = closed_alert ∷ []; result = t.1; err = some x }
  unfolding apply_mode
  apply_hard t x failed away = rw (failed, away, apply_mode) refl

  mode_soft : (p : Policy) → p.mode ≡ "soft" → fail_mode api stamp p ≡ "soft"
  unfolding fail_mode
  mode_soft p h = rw ((eq_iff p.mode "soft").1 h) refl

  mode_hard : (p : Policy) → p.mode ≡ "hard" → fail_mode api stamp p ≡ "hard"
  unfolding fail_mode
  mode_hard p h = rw h refl

  module _ (e : Enforcer f L) (p : Policy) (id : String) (estimate : Int64) (r : Reservation)
      (l : L) (x : E) (shared : e.distributed ≡ some l)
      (failed : (api.reserve l (request_of api stamp p id estimate)).2 ≡ some x)
      (away : api.is_unavailable x ≡ true) where
    -- The enforcer after an open failure: the alert recorded, the reservation still to be sliced.
    opened_up : Enforcer f L
    opened_up = record e {
      distributed = some (api.reserve l (request_of api stamp p id estimate)).0;
      alerts = e.alerts ++ heard e.has_alerts (open_alert ∷ []);
    }

    shared_answer :
        after_manager api stamp e p id estimate (Budget.ok r)
        ≡ on_answer api stamp e p id estimate r
            (reserve_in_mode api (fail_mode api stamp p) l (request_of api stamp p id estimate))
    unfolding after_manager on_answer note_answer
    shared_answer = rw (shared, after_manager) refl

    after_manager_open :
        p.mode ≡ "soft"
        → after_manager api stamp e p id estimate (Budget.ok r)
          ≡ admit_slice api stamp opened_up p id estimate r
    unfolding reserve_in_mode on_answer note_answer opened_up
    after_manager_open soft =
        let t = api.reserve l (request_of api stamp p id estimate) in
        let answer = ap (λ m. apply_mode api m t) (mode_soft p soft) ∙ apply_soft t x failed away in
        shared_answer ∙ ap (on_answer api stamp e p id estimate r) answer

    after_manager_closed :
        p.mode ≡ "hard"
        → after_manager api stamp e p id estimate (Budget.ok r) ≡ (
          record e {
            manager = Budget.release e.manager p.id id;
            distributed = some (api.reserve l (request_of api stamp p id estimate)).0;
            alerts = e.alerts ++ heard e.has_alerts (closed_alert ∷ []);
          },
          err (ledger_error x),
        )
    unfolding reserve_in_mode on_answer note_answer roll_back
    after_manager_closed hard =
        let t = api.reserve l (request_of api stamp p id estimate) in
        let answer = ap (λ m. apply_mode api m t) (mode_hard p hard) ∙ apply_hard t x failed away in
        shared_answer ∙ ap (on_answer api stamp e p id estimate r) answer

  -- While the shared ledger cannot be reached, a soft policy's `Reserve` that the manager admits
  -- answers as it does without a shared ledger, with the same manager and the same slices, and
  -- records one alert if there is a hook for alerts.
  pub reserve_fails_open :
      (e : Enforcer f L) (p : Policy) (id : String) (estimate : Int64) (t₁ t₂ now : Time)
      (r : Reservation) (l : L) (x : E)
      → (Budget.reserve e.manager p id estimate t₁ t₂ now).1 ≡ Budget.ok r
      → p.mode ≡ "soft"
      → e.distributed ≡ some l
      → (api.reserve l (request_of api stamp p id estimate)).2 ≡ some x
      → api.is_unavailable x ≡ true
      → let (e₁, r₁) = reserve api stamp e p id estimate t₁ t₂ now in
        let (e₂, r₂) =
          reserve api stamp (record e { distributed = none }) p id estimate t₁ t₂ now in
        (r₁ ≡ r₂)
        × (e₁.manager ≡ e₂.manager)
        × (e₁.slices ≡ e₂.slices)
        × (e₁.alerts ≡ e.alerts ++ heard e.has_alerts (open_alert ∷ []))
  unfolding record_tenant opened_up after_manager Agree
  reserve_fails_open e p id estimate t₁ t₂ now r l x admits soft shared failed away =
      let m = (Budget.reserve e.manager p id estimate t₁ t₂ now).0 in
      let e' : Enforcer f L = record (record_tenant e p.id p.tenant_id) { manager = m } in
      let up = opened_up e' p id estimate r l x shared failed away in
      let left =
        reserve_after api stamp e p id estimate t₁ t₂ now r admits
        ∙ after_manager_open e' p id estimate r l x shared failed away soft in
      let right =
        reserve_after api stamp (record e { distributed = none }) p id estimate t₁ t₂ now r
          admits in
      let (result, manager, slices) =
        admit_slice-Agree e' up.distributed none up.alerts e.alerts p id estimate r in
      (
        ap (λ o. o.1) left ∙ result ∙ ap (λ o. o.1) (sym right),
        ap (λ o. o.0.manager) left ∙ manager ∙ ap (λ o. o.0.manager) (sym right),
        ap (λ o. o.0.slices) left ∙ slices ∙ ap (λ o. o.0.slices) (sym right),
        ap (λ o. o.0.alerts) left ∙ admit_slice-alerts up p id estimate r,
      )

  -- While the shared ledger cannot be reached, a hard policy's `Reserve` that the manager admits
  -- returns the ledger's error, gives the manager's reservation back, leaves the slices alone and
  -- records one alert if there is a hook for alerts.
  pub reserve_fails_closed :
      (e : Enforcer f L) (p : Policy) (id : String) (estimate : Int64) (t₁ t₂ now : Time)
      (r : Reservation) (l : L) (x : E)
      → (Budget.reserve e.manager p id estimate t₁ t₂ now).1 ≡ Budget.ok r
      → p.mode ≡ "hard"
      → e.distributed ≡ some l
      → (api.reserve l (request_of api stamp p id estimate)).2 ≡ some x
      → api.is_unavailable x ≡ true
      → let (e', result) = reserve api stamp e p id estimate t₁ t₂ now in
        (result ≡ err (ledger_error x))
        × (e'.manager ≡ Budget.release (Budget.reserve e.manager p id estimate t₁ t₂ now).0 p.id id)
        × (e'.slices ≡ e.slices)
        × (e'.alerts ≡ e.alerts ++ heard e.has_alerts (closed_alert ∷ []))
  unfolding record_tenant
  reserve_fails_closed e p id estimate t₁ t₂ now r l x admits hard shared failed away =
      let m = (Budget.reserve e.manager p id estimate t₁ t₂ now).0 in
      let e' : Enforcer f L = record (record_tenant e p.id p.tenant_id) { manager = m } in
      let run =
        reserve_after api stamp e p id estimate t₁ t₂ now r admits
        ∙ after_manager_closed e' p id estimate r l x shared failed away hard in
      rw run (refl, refl, refl, refl)
