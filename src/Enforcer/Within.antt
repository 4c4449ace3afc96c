-- ===== src/Enforcer/Within.antt =====
-- The slices of internal/platform/coordination/budgetslice.go stay within their limit, and follow the
-- budget manager.
use lite_aig.Base.{
  ℕ, get_elem?, ◌≡◌, refl, Option, none, some, List, [], ◌∷◌, String, true, false, ◌⊎◌, inl, inr,
  Option-cases, arith, ap, sym, ◌∙◌,
}
use lite_aig.Base.Assoc.{lookup, lookup-insert_self}
use lite_aig.Base.Int.{pos}
use lite_aig.Base.Word.{Int64, add64, signed}
use lite_aig.Base.Clock.{Time}
use lite_aig.Base.Float.{Float}
use lite_aig.Enforcer.{
  Enforcer, SliceEntry, slice_region, put_entry, sync_slice, settle_shared, after_settle, reconcile,
  release, usage,
}
use lite_aig.Enforcer.Slices
use lite_aig.Enforcer.Slices.{Authority, SliceCounter, put_slice, admit, state}
use lite_aig.Enforcer.FailMode.{BudgetLedger}
use lite_aig.Budget

-- A call of an authority that changes it: of `Admit`, or of `Reconcile` with the true use.
pub data Call (f : Float) : Type 0 where
  admits : String → f.F → f.F → f.F → Call f
  reconciles : String → f.F → Call f

module _ {f : Float} where
  unfoldable pub step : Authority f → Call f → Authority f
  step a (admits region amount strict overshoot_by) = (admit a region amount strict overshoot_by).0
  step a (reconciles region true_used) = (Slices.reconcile a region true_used).0

  unfoldable pub run : Authority f → List (Call f) → Authority f
  run a [] = a
  run a (c ∷ calls) = run (step a c) calls

  -- Nothing is used yet, what is used is not above the limit, or a reconciliation set it.
  IsWithin : (f.F → Type 0) → SliceCounter f → Type 0
  IsWithin IsTrue s = (s.used ≡ f.of_int (pos 0)) ⊎ (f.ltb s.strict s.used ≡ false) ⊎ IsTrue s.used

  module _ (IsTrue : String → f.F → Type 0) where
    Kept : Authority f → Type 0
    Kept a =
        (a.regional ≡ true)
        × ((region : String) (s : SliceCounter f)
            → lookup region a.slices ≡ some s
            → IsWithin (IsTrue region) s)

  -- Some call of the history reconciled the region to this use.
  abbrev pub WasReconciled : List (Call f) → String → f.F → Type 0
  WasReconciled calls region used = (k : ℕ) × (get_elem? calls k ≡ some (reconciles region used))

module _ {f : Float} {L E : Type 0} (api : BudgetLedger f L E) (stamp : Time → String) where
  -- What the slice of a policy says is used.
  abbrev pub mirrored : Enforcer f L → String → Option f.F
  mirrored e policy_id = elim (lookup policy_id e.slices) [
    | none ↦ none
    | some entry ↦ elim (state entry.authority slice_region) [ none ↦ none | some s ↦ some s.used ]
  ]

  sync_slice-mirrored :
      (e : Enforcer f L) (policy_id : String) (x : f.F)
      → mirrored e policy_id ≡ some x
      → mirrored (sync_slice api stamp e policy_id) policy_id
        ≡ some (
            let (reserved, consumed) = Budget.usage e.manager policy_id in
            f.of_int (signed (add64 reserved consumed)))
  unfolding sync_slice put_entry Slices.reconcile put_slice state
  sync_slice-mirrored e policy_id x h =
      let (reserved, consumed) = Budget.usage e.manager policy_id in
      let y = f.of_int (signed (add64 reserved consumed)) in
      elim (Option-cases (lookup policy_id e.slices)) [
        | inl none' ↦ ground arith
        | inr (entry, here) ↦ elim (Option-cases (lookup slice_region entry.authority.slices)) [
          | inl none' ↦ ground arith
          | inr (s, there) ↦ ground (
            arith,
            lookup-insert_self slice_region (let s' : SliceCounter f = record s { used = y } in s')
                entry.authority.slices,
            lookup-insert_self policy_id
                (let entry' : SliceEntry f = record entry {
                  authority = put_slice entry.authority slice_region (record s { used = y });
                } in
                  entry')
                e.slices,
          )
        ]
      ]

  sync_slice-manager :
      (e : Enforcer f L) (policy_id : String)
      → (sync_slice api stamp e policy_id).manager ≡ e.manager
  unfolding sync_slice put_entry
  sync_slice-manager e policy_id = elim (Option-cases (lookup policy_id e.slices)) [
    | inl none' ↦ rw (none', sync_slice) refl
    | inr (entry, here) ↦ rw (here, sync_slice) refl
  ]

  -- The slice stands at what the manager has reserved and consumed.
  abbrev pub Follows : Enforcer f L → String → Type 0
  Follows e policy_id =
      let (reserved, consumed) = usage api stamp e policy_id in
      mirrored e policy_id ≡ some (f.of_int (signed (add64 reserved consumed)))

  after_settle-Follows :
      (e : Enforcer f L) (policy_id : String) (change : String → L → L) (x : f.F)
      → mirrored e policy_id ≡ some x
      → Follows (after_settle api stamp e policy_id change none).0 policy_id
  unfolding after_settle usage settle_shared
  after_settle-Follows e policy_id change x h =
      let e' = settle_shared api stamp e policy_id change in
      sync_slice-mirrored e' policy_id x h
      ∙ ap
          (λ m.
            let (reserved, consumed) = Budget.usage m policy_id in
            some (f.of_int (signed (add64 reserved consumed))))
          (sym (sync_slice-manager e' policy_id))

  -- Where a policy has a slice in use, `Reconcile` without an error and `Release` leave it at the sum
  -- of what the manager then says is reserved and consumed.
  pub settle-Follows :
      (e : Enforcer f L) (policy_id id : String) (actual : Int64) (x : f.F)
      → mirrored e policy_id ≡ some x
      → (Budget.reconcile e.manager policy_id id actual).1 ≡ none
      → Follows (reconcile api stamp e policy_id id actual).0 policy_id
        × Follows (release api stamp e policy_id id).0 policy_id
  unfolding reconcile release
  settle-Follows e policy_id id actual x h fine =
      let m = (Budget.reconcile e.manager policy_id id actual).0 in
      (
        rw fine (
            after_settle-Follows (record e { manager = m }) policy_id
              (λ tenant l. (api.reconcile l tenant id (f.of_int (signed actual))).0) x h),
        after_settle-Follows (record e { manager = Budget.release e.manager policy_id id })
            policy_id (λ tenant l. (api.release l tenant id).0) x h,
      )
