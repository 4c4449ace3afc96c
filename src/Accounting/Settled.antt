-- ===== src/Accounting/Settled.antt =====
-- However `Finalize` of internal/finops/accounting/finalizer.go ends, the reservation is closed.
use lite_aig.Base.{
  ◌≡◌, refl, Option, none, some, String, Bool, true, false, arith, Option-cases, Bool-cases, inl,
  inr, sym, ◌∙◌,
}
use mathlib.Core.Option.{none-ne-some}
use lite_aig.Base.Word.{Int64}
use lite_aig.Accounting.{
  Facts, Budget, Env, Finalizer, World, has_reservation, settle, give_back, failed, after_settle,
  after_persist, finalize,
}

-- What a budget promises of a reservation that it holds: a release closes it and does not fail, a
-- reconciliation closes it or fails and changes nothing.
pub record IsBudget {B E : Type 0} (budget : Budget B E) : Type 1 where
  pub IsHeld : B → String → String → Type 0
  pub IsClosed : B → String → String → Type 0
  pub release_closes :
      (b : B) (policy_id id : String)
      → IsHeld b policy_id id
      → ((budget.release b policy_id id).1 ≡ none)
        × IsClosed (budget.release b policy_id id).0 policy_id id
  pub reconcile_closes :
      (b : B) (policy_id id : String) (actual : Int64)
      → IsHeld b policy_id id
      → (budget.reconcile b policy_id id actual).1 ≡ none
      → IsClosed (budget.reconcile b policy_id id actual).0 policy_id id
  pub reconcile_keeps :
      (b : B) (policy_id id : String) (actual : Int64) (e : E)
      → (budget.reconcile b policy_id id actual).1 ≡ some e
      → (budget.reconcile b policy_id id actual).0 ≡ b

module _ {S B R E : Type 0} (env : Env S R E) (budget : Budget B E) (law : IsBudget budget)
    (facts : Facts R) where
  abbrev Held : B → Type 0
  Held b = law.IsHeld b facts.budget_policy_id facts.reservation_id

  abbrev pub Closed : B → Type 0
  Closed b = law.IsClosed b facts.budget_policy_id facts.reservation_id

  module _ (reserved : has_reservation env budget facts ≡ true) where
    give_back_closes : (b : B) → Held b → Closed (give_back env budget facts b)
    unfolding give_back
    give_back_closes b held =
        rw (reserved, give_back)
          (law.release_closes b facts.budget_policy_id facts.reservation_id held).1

    -- What the settlement leaves: closed if there is no error, else still held.
    Settles : B × Option E → Type 0
    Settles (b, e) = (e ≡ none → Closed b) × ((x : E) → e ≡ some x → Held b)

    settle-Settles : (b : B) → Held b → Settles (settle env budget facts b)
    unfolding settle Settles
    settle-Settles b held = elim (Option-cases facts.actual_tokens) [
      | inl unknown ↦
          let (fine, closed) =
            law.release_closes b facts.budget_policy_id facts.reservation_id held in
          rw (reserved, unknown, settle)
            ((λ _. closed), (λ x bad. absurd (none-ne-some x (sym fine ∙ bad))))
      | inr (n, actual) ↦
          rw (reserved, actual, settle)
            (
              law.reconcile_closes b facts.budget_policy_id facts.reservation_id n held,
              λ x bad.
                  rw (law.reconcile_keeps b facts.budget_policy_id facts.reservation_id n x bad)
                    held,
            )
    ]

    after_settle_closes :
        (created : Bool) (s : S) (r : B × Option E)
        → Settles r
        → Closed (after_settle env budget facts created s r).1.budget
    unfolding after_settle Settles
    after_settle_closes created s (b, none) h = h.0 refl
    after_settle_closes created s (b, some e) h = give_back_closes b (h.1 e refl)

    after_persist_closes :
        (b : B) (r : S × Bool × Option E)
        → Held b
        → Closed (after_persist env budget facts b r).1.budget
    unfolding after_persist
    after_persist_closes b (s, created, some e) held = give_back_closes b held
    after_persist_closes b (s, created, none) held =
        after_settle_closes created s (settle env budget facts b) (settle-Settles b held)

  -- However the first `Finalize` ends (the repository fails, the settlement fails, the event is not
  -- sent), the reservation that the budget held is closed after it.
  pub finalize_closes :
      (f : Finalizer E) (w : World S B)
      → f.done ≡ false
      → has_reservation env budget facts ≡ true
      → Held w.budget
      → Closed (finalize env budget facts f w).1.budget
  unfolding finalize
  finalize_closes f w first reserved held =
      rw (first, finalize) (after_persist_closes reserved w.budget (env.persist facts w.parts) held)

  after_settle_done :
      (created : Bool) (s : S) (r : B × Option E)
      → (after_settle env budget facts created s r).0.done ≡ true
  unfolding after_settle failed
  after_settle_done created s (b, some e) = refl
  after_settle_done created s (b, none) = refl

  after_persist_done :
      (b : B) (r : S × Bool × Option E) → (after_persist env budget facts b r).0.done ≡ true
  unfolding after_persist failed
  after_persist_done b (s, created, some e) = refl
  after_persist_done b (s, created, none) = after_settle_done created s (settle env budget facts b)

  finalize_done : (f : Finalizer E) (w : World S B) → (finalize env budget facts f w).0.done ≡ true
  unfolding finalize
  finalize_done f w = elim (Bool-cases f.done) [
    | inl again ↦ ground arith
    | inr first ↦ rw (first, finalize) (after_persist_done w.budget (env.persist facts w.parts))
  ]

  -- A second `Finalize` returns what the first returned, and touches neither the repository nor the
  -- budget nor the sink.
  pub finalize_once :
      (f : Finalizer E) (w : World S B)
      → let (f', w') = finalize env budget facts f w in finalize env budget facts f' w' ≡ (f', w')
  unfolding finalize
  finalize_once f w = rw (finalize_done f w, finalize) refl
