-- ===== src/Enforcer/Rollback.antt =====
-- A refusal of internal/app/budgetenforcer.go gives the manager's reservation back.
use lite_aig.Base.{
  ◌<◌, ◌≡◌, refl, none, String, str_eq, true, false, Option-cases, Bool-cases, inl, inr, ap, ◌∙◌,
  sym,
}
use lite_aig.Base.Assoc.{lookup}
use lite_aig.Base.Word.{Int64, word, slt}
use lite_aig.Base.Clock.{Time}
use lite_aig.Base.Float.{Float}
use lite_aig.Budget
use lite_aig.Budget.{Policy, Manager, Reservation, is_valid}
use lite_aig.Budget.Limits.{opened, over}
use lite_aig.Budget.Rollover.{reserve_settle_usage, reserve_admitted}
use lite_aig.Enforcer.{
  Enforcer, Error, Result, err, record_tenant, roll_back, note_answer, on_slice, admit_slice,
  on_answer, after_manager, reserve, usage, put_entry,
}
use lite_aig.Enforcer.Slices
use lite_aig.Enforcer.Slices.{Authority, admit}
use lite_aig.Enforcer.FailMode.{BudgetLedger, Answer}

module _ {f : Float} {L E : Type 0} (api : BudgetLedger f L E) (stamp : Time → String) (p : Policy)
    (id : String) (m : Manager) where
  -- A result that is an error leaves the manager with the reservation released.
  RollsBack : Enforcer f L × Result E → Type 0
  RollsBack (e, r) = (x : Error E) → r ≡ err x → e.manager ≡ Budget.release m p.id id

  on_slice-RollsBack :
      (e : Enforcer f L) (r : Reservation) (s : Authority f × Slices.Admission)
      → e.manager ≡ m
      → RollsBack (on_slice api stamp e p id r s)
  unfolding RollsBack on_slice roll_back put_entry
  on_slice-RollsBack e r (a, Slices.admitted) h = λ x bad. cc
  on_slice-RollsBack e r (a, Slices.overshoot) h = λ x _. rw h refl

  admit_slice-RollsBack :
      (e : Enforcer f L) (estimate : Int64) (r : Reservation)
      → e.manager ≡ m
      → RollsBack (admit_slice api stamp e p id estimate r)
  unfolding RollsBack admit_slice
  admit_slice-RollsBack e estimate r h = elim (Bool-cases (str_eq p.consistency "")) [
    | inl plain ↦ rw (plain, admit_slice) (λ x bad. cc)
    | inr sliced ↦ rw (sliced, admit_slice) (on_slice-RollsBack e r _ h)
  ]

  on_answer-RollsBack :
      (e : Enforcer f L) (estimate : Int64) (r : Reservation) (a : Answer L E)
      → e.manager ≡ m
      → RollsBack (on_answer api stamp e p id estimate r a)
  unfolding RollsBack on_answer roll_back note_answer
  on_answer-RollsBack e estimate r a h = elim (Option-cases a.err) [
    | inr (x, bad) ↦ rw (bad, on_answer) (λ y _. rw h refl)
    | inl fine ↦ elim (Bool-cases a.result.reserved) [
      | inl admitted ↦
          rw (fine, admitted, on_answer)
            (admit_slice-RollsBack (note_answer api stamp e a) estimate r h)
      | inr refused ↦ rw (fine, refused, on_answer) (λ y _. rw h refl)
    ]
  ]

  after_manager-RollsBack :
      (e : Enforcer f L) (estimate : Int64) (r : Reservation)
      → e.manager ≡ m
      → RollsBack (after_manager api stamp e p id estimate (Budget.ok r))
  unfolding RollsBack after_manager
  after_manager-RollsBack e estimate r h = elim (Option-cases e.distributed) [
    | inl alone ↦ rw (alone, after_manager) (admit_slice-RollsBack e estimate r h)
    | inr (l, shared) ↦ rw (shared, after_manager) (on_answer-RollsBack e estimate r _ h)
  ]

-- What `Reserve` does once the manager has admitted the reservation.
pub reserve_after :
    {f : Float} {L E : Type 0} (api : BudgetLedger f L E) (stamp : Time → String) (e : Enforcer f L)
    (p : Policy) (id : String) (estimate : Int64) (t₁ t₂ now : Time) (r : Reservation)
    → (Budget.reserve e.manager p id estimate t₁ t₂ now).1 ≡ Budget.ok r
    → reserve api stamp e p id estimate t₁ t₂ now
      ≡ after_manager api stamp
          (record (record_tenant e p.id p.tenant_id) {
            manager = (Budget.reserve e.manager p id estimate t₁ t₂ now).0;
          })
          p
          id
          estimate
          (Budget.ok r)
unfolding reserve
reserve_after {f} {L} {E} api stamp e p id estimate t₁ t₂ now r admits =
    let e' : Enforcer f L = record (record_tenant e p.id p.tenant_id) {
      manager = (Budget.reserve e.manager p id estimate t₁ t₂ now).0;
    } in
    ap (after_manager api stamp e' p id estimate) admits

-- Let a valid request come under an id that the opened window does not hold yet, with an estimate
-- that the manager's limit does not refuse, the estimate and the window's counters being 64-bit
-- patterns; so the manager admits it. Whatever error `Reserve` then returns, of the shared ledger
-- or of the region's slice, the reservation is given back: `reserved` and `consumed` of the manager
-- stand where they stood in the opened window before the call.
pub reserve_rolls_back :
    {f : Float} {L E : Type 0} (api : BudgetLedger f L E) (stamp : Time → String) (e : Enforcer f L)
    (p : Policy) (id : String) (estimate : Int64) (t₁ t₂ now : Time) (x : Error E)
    → is_valid p id estimate t₁ t₂ ≡ true
    → lookup id (opened e.manager p now).reservations ≡ none
    → over (opened e.manager p now) p estimate ≡ false
    → (opened e.manager p now).reserved < word
    → (opened e.manager p now).consumed < word
    → estimate < word
    → (reserve api stamp e p id estimate t₁ t₂ now).1 ≡ err x
    → usage api stamp (reserve api stamp e p id estimate t₁ t₂ now).0 p.id
      ≡ ((opened e.manager p now).reserved, (opened e.manager p now).consumed)
unfolding usage slt RollsBack
reserve_rolls_back {f} {L} {E} api stamp e p id estimate t₁ t₂ now x valid unused admitted h k small
      bad =
    let m = e.manager in
    let m' = (Budget.reserve m p id estimate t₁ t₂ now).0 in
    let (r, admits) = reserve_admitted m p id estimate t₁ t₂ now valid unused admitted in
    let e' : Enforcer f L = record (record_tenant e p.id p.tenant_id) { manager = m' } in
    let run = reserve_after api stamp e p id estimate t₁ t₂ now r admits in
    let back =
      after_manager-RollsBack api stamp p id m' e' estimate r refl x
        (ap (λ o. o.1) (sym run) ∙ bad) in
    ap (λ o. Budget.usage o.0.manager p.id) run
    ∙ ap (λ n. Budget.usage n p.id) back
    ∙ (reserve_settle_usage m p id estimate t₁ t₂ now valid unused admitted 0 refl h k small).1
