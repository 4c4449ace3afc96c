-- ===== src/Enforcer/Slices.antt =====
-- internal/platform/coordination/budgetslice.go: the share of a budget window that each region may
-- use.
use lite_aig.Base.{if◌then◌else◌, Option, none, some, [], String, Bool, true, false}
use lite_aig.Base.Assoc.{Assoc, lookup, insert}
use lite_aig.Base.Int.{pos}
use lite_aig.Base.Float.{Float}

-- The consistency constants, and any other text.
pub data Consistency : Type 0 where
  budget_regional budget_global_soft budget_global_hard other_mode : Consistency

pub record SliceCounter (f : Float) : Type 0 where
  pub strict : f.F
  pub used : f.F

pub record SliceState (f : Float) : Type 0 where
  pub region : String
  pub used : f.F
  pub strict : f.F
  pub overshot : Bool

pub record ReconcileEvent (f : Float) : Type 0 where
  pub window_key : String
  pub region : String
  pub adjusted : f.F

pub record Authority (f : Float) : Type 0 where
  pub window : String
  pub regional : Bool
  pub slices : Assoc (SliceCounter f)

pub data Admission : Type 0 where
  admitted overshoot : Admission

unfoldable pub is_strict : Consistency → Bool
is_strict budget_global_soft = false
is_strict _ = true

unfoldable pub new_authority : {f : Float} → String → Bool → Authority f
new_authority window regional = record { window = window; regional = regional; slices = [] }

unfoldable pub for_mode : {f : Float} → String → Consistency → Authority f
for_mode window mode = new_authority window (is_strict mode)

module _ {f : Float} where
  -- The slice of a region, or the one that `Admit` makes for it.
  unfoldable pub slice_of : Authority f → String → f.F → SliceCounter f
  slice_of a region strict = elim (lookup region a.slices) [
    | none ↦ record { strict = strict; used = f.of_int (pos 0) }
    | some s ↦ s
  ]

  -- What a slice may be filled up to.
  unfoldable pub bound_of : Authority f → SliceCounter f → f.F → f.F
  bound_of a s overshoot_by = if a.regional then s.strict else f.add s.strict overshoot_by

  unfoldable pub put_slice : Authority f → String → SliceCounter f → Authority f
  put_slice a region s = record a { slices = insert region s a.slices }

  unfoldable pub admit : Authority f → String → f.F → f.F → f.F → Authority f × Admission
  admit a region amount strict overshoot_by =
      let s = slice_of a region strict in
      if f.ltb (bound_of a s overshoot_by) (f.add s.used amount)
      then (put_slice a region s, overshoot)
      else (put_slice a region (record s { used = f.add s.used amount }), admitted)

  -- `none` is the error that there is no slice.
  unfoldable pub reconcile : Authority f → String → f.F → Authority f × Option (ReconcileEvent f)
  reconcile a region true_used = elim (lookup region a.slices) [
    | none ↦ (a, none)
    | some s ↦ (
      put_slice a region (record s { used = true_used }),
      some (record { window_key = a.window; region = region; adjusted = true_used }),
    )
  ]

  unfoldable pub state : Authority f → String → Option (SliceState f)
  state a region = elim (lookup region a.slices) [
    | none ↦ none
    | some s ↦ some (record {
      region = region;
      used = s.used;
      strict = s.strict;
      overshot = f.ltb s.strict s.used;
    })
  ]
