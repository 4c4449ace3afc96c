-- ===== src/Accounting/Managed.antt =====
-- The finalizer over the budget manager: internal/finops/accounting/finalizer.go composed with
-- internal/finops/budget/manager.go.
use lite_aig.Base.{
  ◌<◌, ◌≡◌, refl, if◌then◌else◌, Option, none, some, String, Bool, true, false, arith, is_some,
  some_of_is_some, Option-cases, Bool-cases, inl, inr, subst, sym, ap, ◌∙◌,
}
use lite_aig.Base.Assoc.{lookup}
use lite_aig.Base.Word.{Int64, word, add64, add64_fits, slt}
use lite_aig.Base.Clock.{Time}
use lite_aig.Budget.{
  Manager, Ledger, current, Policy, reconcile, release, reserve, usage, ledger_for, is_valid,
}
use lite_aig.Budget
use lite_aig.Budget.Limits.{opened, over}
use lite_aig.Budget.Settlement.{
  reconcile_negative, reconcile_found, reconcile_failed, reconcile_once, release_once,
}
use lite_aig.Budget.Rollover.{reserve_settle_usage, ledger_for-reserve}
use lite_aig.Accounting.{
  Facts, Env, Finalizer, World, has_reservation, settle, give_back, send, failed, after_settle,
  after_persist, finalize,
}
use lite_aig.Accounting
use lite_aig.Accounting.Settled.{IsBudget}

-- The manager as the interface that the finalizer takes: its `Release` returns no error.
abbrev pub managed : Accounting.Budget Manager Budget.Error
managed = record {
  reconcile = reconcile;
  release = λ m policy_id id. (release m policy_id id, none);
}

abbrev IsHeld : Manager → String → String → Type 0
IsHeld m policy_id id = is_some (ledger_for m policy_id id) ≡ true

-- Nothing that comes later changes the manager through this reservation.
abbrev pub IsClosed : Manager → String → String → Type 0
IsClosed m policy_id id =
    (b : Int64)
    → slt b 0 ≡ false
    → (reconcile m policy_id id b ≡ (m, none)) × (release m policy_id id ≡ m)

-- The manager keeps what the interface promises.
unfoldable pub managed_law : IsBudget managed
managed_law = record {
  IsHeld = IsHeld;
  IsClosed = IsClosed;
  release_closes = λ m policy_id id held.
      let (l, e) = some_of_is_some (ledger_for m policy_id id) held in
      (refl, λ b positive. release_once m policy_id id b l e positive);
  reconcile_closes = λ m policy_id id actual held fine b positive.
      reconcile_once m policy_id id actual b fine positive;
  reconcile_keeps = λ m policy_id id actual e bad. reconcile_failed m policy_id id actual e bad;
}

-- What the finalizer charges: the actual usage, if the facts were stored and it is known and not
-- negative.
unfoldable pub charge : Option Budget.Error → Option Int64 → Int64
charge (some e) actual = 0
charge none none = 0
charge none (some n) = if slt n 0 then 0 else n

-- A manager whose reservation settles to `reserved` and `consumed` with what it is charged.
record SettlesTo (m : Manager) (policy_id id : String) (reserved consumed : Int64) : Type 0 where
  ledger : Ledger
  found : ledger_for m policy_id id ≡ some ledger
  reconciled :
      (a : Int64)
      → slt a 0 ≡ false
      → usage (reconcile m policy_id id a).0 policy_id ≡ (reserved, add64 consumed a)
  released : usage (release m policy_id id) policy_id ≡ (reserved, add64 consumed 0)

module _ {S R : Type 0} (env : Env S R Budget.Error) (facts : Facts R) (m : Manager)
    (has : has_reservation env managed facts ≡ true) (reserved consumed : Int64)
    (h : SettlesTo m facts.budget_policy_id facts.reservation_id reserved consumed) where
  gives_back :
      usage (give_back env managed facts m) facts.budget_policy_id ≡ (reserved, add64 consumed 0)
  unfolding give_back
  gives_back = rw (has, give_back) h.released

  settle_known :
      (n : Int64)
      → facts.actual_tokens ≡ some n
      → settle env managed facts m ≡ reconcile m facts.budget_policy_id facts.reservation_id n
  unfolding settle
  settle_known n e = rw (has, e, settle) refl

  settle_unknown :
      facts.actual_tokens ≡ none
      → settle env managed facts m ≡ (release m facts.budget_policy_id facts.reservation_id, none)
  unfolding settle
  settle_unknown e = rw (has, e, settle) refl

  -- The usage that a settlement with this result leaves.
  usage_after : Bool → S → Manager × Option Budget.Error → Int64 × Int64
  usage_after created s r =
      usage (after_settle env managed facts created s r).1.budget facts.budget_policy_id

  usage_after-reconcile :
      (created : Bool) (s : S) (n : Int64)
      → usage_after created s (reconcile m facts.budget_policy_id facts.reservation_id n)
        ≡ (reserved, add64 consumed (charge none (some n)))
  unfolding charge after_settle usage_after
  usage_after-reconcile created s n = elim (Bool-cases (slt n 0)) [
    | inl negative ↦
        rw (reconcile_negative m facts.budget_policy_id facts.reservation_id n negative, negative)
          gives_back
    | inr positive ↦
        let fine =
          reconcile_found m facts.budget_policy_id facts.reservation_id n h.ledger positive
            h.found in
        let u = ap (λ r. usage r.0 facts.budget_policy_id) (sym fine) ∙ h.reconciled n positive in
        rw (fine, positive) u
  ]

  settle_usage :
      (created : Bool) (s : S)
      → usage_after created s (settle env managed facts m)
        ≡ (reserved, add64 consumed (charge none facts.actual_tokens))
  unfolding usage_after charge after_settle
  settle_usage created s = elim (Option-cases facts.actual_tokens) [
    | inl unknown ↦
        ap (usage_after created s) (settle_unknown unknown)
        ∙ h.released
        ∙ ap (λ a. (reserved, add64 consumed (charge none a))) (sym unknown)
    | inr (n, known) ↦
        ap (usage_after created s) (settle_known n known)
        ∙ usage_after-reconcile created s n
        ∙ ap (λ a. (reserved, add64 consumed (charge none a))) (sym known)
  ]

  usage-after_persist :
      (r : S × Bool × Option Budget.Error)
      → usage (after_persist env managed facts m r).1.budget facts.budget_policy_id
        ≡ (reserved, add64 consumed (charge r.2 facts.actual_tokens))
  unfolding after_persist charge usage_after
  usage-after_persist (s, created, some e) = gives_back
  usage-after_persist (s, created, none) = settle_usage created s

-- A new reservation that the budget's limit admits, finalized once the request is over: `reserved`
-- is back where it was before the reservation, and `consumed` has grown by the actual usage, if the
-- facts were stored and it is known and not negative, and is unchanged otherwise. No failure of the
-- repository, of the settlement or of the sink keeps the estimate reserved.
pub reserve_finalize-usage :
    {S R : Type 0} (env : Env S R Budget.Error) (facts : Facts R) (f : Finalizer Budget.Error)
    (s : S) (m : Manager) (p : Policy) (estimate : Int64) (t₁ t₂ now : Time)
    → is_valid p facts.reservation_id estimate t₁ t₂ ≡ true
    → lookup facts.reservation_id (opened m p now).reservations ≡ none
    → over (opened m p now) p estimate ≡ false
    → has_reservation env managed facts ≡ true
    → facts.budget_policy_id ≡ p.id
    → f.done ≡ false
    → (opened m p now).reserved < word
    → (opened m p now).consumed < word
    → estimate < word
    → let m' = (reserve m p facts.reservation_id estimate t₁ t₂ now).0 in
      let w' = (finalize env managed facts f (record { parts = s; budget = m' })).1 in
      usage w'.budget p.id ≡ (
        (opened m p now).reserved,
        add64 (opened m p now).consumed (charge (env.persist facts s).2 facts.actual_tokens),
      )
unfolding finalize slt
reserve_finalize-usage env facts f s m p estimate t₁ t₂ now valid unused admitted has named first h
      k small =
    let m' = (reserve m p facts.reservation_id estimate t₁ t₂ now).0 in
    let id = facts.reservation_id in
    let w = opened m p now in
    let settles : SettlesTo m' p.id id w.reserved w.consumed = record {
      ledger = _;
      found = ledger_for-reserve m p id estimate t₁ t₂ now valid unused admitted;
      reconciled = λ a positive.
          (reserve_settle_usage m p id estimate t₁ t₂ now valid unused admitted a positive h k
            small).0;
      released = rw (add64_fits w.consumed 0 (omega arith)) (
          ground (
            arith,
            reserve_settle_usage m p id estimate t₁ t₂ now valid unused admitted 0 refl h k small,
          ));
    } in
    let settles' : SettlesTo m' facts.budget_policy_id id w.reserved w.consumed =
      subst (λ k. SettlesTo m' k id w.reserved w.consumed) (sym named) settles in
    let r = env.persist facts s in
    rw (first, finalize)
      (subst
        (λ k.
          usage (after_persist env managed facts m' r).1.budget k
          ≡ (w.reserved, add64 w.consumed (charge r.2 facts.actual_tokens)))
        named (usage-after_persist env facts m' has w.reserved w.consumed settles' r))
