-- ===== src/Federation/Versions.antt =====
-- The version of a relationship over the operations of internal/federation/federation.go.
use Prim.Native.String.{◌++◌ as str_append}
use lite_aig.Base.{
  ℕ, if◌then◌else◌, Option, some, List, [], ◌∷◌, String, Bool, true, false, not, ◌||◌, ◌==◌, ◌≡◌,
  ◌≢◌, refl, sym, ◌∙◌, ◌⊎◌, inl, inr, is_some, arith, subst,
}
use lite_aig.Base.Assoc.{lookup, insert, lookup-insert_self}
use lite_aig.Base.Word.{add64}
use lite_aig.Base.Clock.{Time}
use text.Mathlib.TextPositions.{eq_refl}
use lite_aig.Federation.{
  Relationship, pending_review, suspended, revoked, is_revoked, is_reviewable, has_verified_anchor,
}
use lite_aig.Federation.Lifecycle.{
  Store, Lifecycle, Result, load, load_found, save, discover, discover_on, discovered_copy, review,
  review_on, review_current, activate, activate_on, suspend, suspend_on, revoke, revoke_on,
  review_material_change, change_on, moved, approved_copy, is_empty,
}

-- One call of an operation that changes states.
pub data Call : Type 0 where
  discover_call : Relationship → Call
  review_call : Relationship → Bool → Call
  activate_call : Relationship → Call
  suspend_call : String → String → Call
  revoke_call : String → String → Call
  change_call : String → String → List String → Call

abbrev pub tenant_of : Call → String
tenant_of (discover_call r) = r.tenant_id
tenant_of (review_call r approved) = r.tenant_id
tenant_of (activate_call r) = r.tenant_id
tenant_of (suspend_call tenant_id id) = tenant_id
tenant_of (revoke_call tenant_id id) = tenant_id
tenant_of (change_call tenant_id id fields) = tenant_id

abbrev pub id_of : Call → String
id_of (discover_call r) = r.id
id_of (review_call r approved) = r.id
id_of (activate_call r) = r.id
id_of (suspend_call tenant_id id) = id
id_of (revoke_call tenant_id id) = id
id_of (change_call tenant_id id fields) = id

module _ {S E : Type 0} where
  unfoldable pub apply : Store S E → Time → Call → Lifecycle S → Result S E
  apply st now (discover_call r) l = discover st now r l
  apply st now (review_call r approved) l = review st now r approved l
  apply st now (activate_call r) l = activate st now r l
  apply st now (suspend_call tenant_id id) l = suspend st now tenant_id id l
  apply st now (revoke_call tenant_id id) l = revoke st now tenant_id id l
  apply st now (change_call tenant_id id fields) l =
      review_material_change st now tenant_id id fields l

-- The hot map holds the relationship for its tenant, under its own id.
abbrev pub IsHeld : {S : Type 0} → String → String → Relationship → Lifecycle S → Type 0
IsHeld tenant_id id r l = (lookup id l.states ≡ some r) × (r.id ≡ id) × (r.tenant_id ≡ tenant_id)

-- The state is as it was, or the relationship moved on by one version.
abbrev pub IsNext :
    {S : Type 0} → String → String → Relationship → Lifecycle S → Lifecycle S → Type 0
IsNext tenant_id id current before after =
    (after ≡ before)
    ⊎ ((next : Relationship) × IsHeld tenant_id id next after
        × (next.version ≡ add64 current.version 1))

module _ {S E : Type 0} (st : Store S E) (now : Time) (tenant_id id : String)
    (current : Relationship) (l : Lifecycle S) (held : IsHeld tenant_id id current l) where
  pub load_held : load st tenant_id id l ≡ (l, some current)
  unfolding load load_found
  load_held = rw (held.0, held.2, eq_refl tenant_id) refl

  -- Saving a relationship of the same name moves it on.
  save-IsNext :
      (next : Relationship)
      → next.id ≡ id
      → next.tenant_id ≡ tenant_id
      → next.version ≡ add64 current.version 1
      → IsNext tenant_id id current l (save st next l).0
  unfolding save
  save-IsNext next named owned version = inr (
    next,
    (
      subst (λ i. lookup i (insert next.id next l.states) ≡ some next) named
          (lookup-insert_self next.id next l.states),
      named,
      owned,
    ),
    version,
  )

  -- Both branches of a test move on, so the whole does.
  choose :
      (b : Bool) (x y : Result S E)
      → IsNext tenant_id id current l x.0
      → IsNext tenant_id id current l y.0
      → IsNext tenant_id id current l (if b then x else y).0
  choose true x y h k = h
  choose false x y h k = k

  review_current-IsNext :
      (r : Relationship) (approved : Bool)
      → r.id ≡ id
      → r.tenant_id ≡ tenant_id
      → IsNext tenant_id id current l (review_current st now r approved l current).0
  unfolding review_current
  review_current-IsNext r approved named owned =
      let rejected = save-IsNext (moved now pending_review "rejected" current) held.1 held.2 refl in
      let accepted = save-IsNext (approved_copy now (add64 current.version 1) r) named owned refl in
      choose (not (is_reviewable current.status)) _ _ (inl refl) (
        choose (not approved) _ _ rejected
          (choose (not (r.version == current.version)) _ _ (inl refl) accepted))

  activate-IsNext :
      (r : Relationship)
      → r.id ≡ id
      → r.tenant_id ≡ tenant_id
      → IsNext tenant_id id current l (activate_on st now r (l, some current)).0
  unfolding activate_on
  activate-IsNext r named owned =
      choose (not (r.version == current.version)) _ _ (inl refl)
        (save-IsNext (approved_copy now (add64 current.version 1) r) named owned refl)

  suspend_on-IsNext : IsNext tenant_id id current l (suspend_on st now (l, some current)).0
  unfolding suspend_on
  suspend_on-IsNext =
      choose (is_revoked current.status) _ _ (inl refl)
        (save-IsNext (moved now suspended current.review_status current) held.1 held.2 refl)

  change_on-IsNext :
      (fields : List String)
      → IsNext tenant_id id current l (change_on st now fields (l, some current)).0
  unfolding change_on
  change_on-IsNext [] = inl refl
  change_on-IsNext (field ∷ fields) =
      save-IsNext (moved now pending_review (str_append "material_change:" field) current) held.1
        held.2 refl

  -- What holds after the load that finds the relationship holds of the operation.
  after_load :
      (f : Lifecycle S × Option Relationship → Result S E)
      → IsNext tenant_id id current l (f (l, some current)).0
      → IsNext tenant_id id current l (f (load st tenant_id id l)).0
  after_load f h = subst (λ p. IsNext tenant_id id current l (f p).0) (sym load_held) h

module _ {S E : Type 0} (st : Store S E) (now : Time) where
  -- Whatever an operation does to a relationship that is held, its error included, the state stays
  -- as it was or the relationship, still held, has the next version.
  pub apply-IsNext :
      (call : Call) (current : Relationship) (l : Lifecycle S)
      → IsHeld (tenant_of call) (id_of call) current l
      → IsNext (tenant_of call) (id_of call) current l (apply st now call l).0
  unfolding apply discover discover_on review review_on activate suspend revoke revoke_on
      review_material_change
  apply-IsNext (discover_call r) current l held =
      after_load st now _ _ current l held (discover_on st (discovered_copy now r)) (inl refl)
  apply-IsNext (review_call r approved) current l held =
      after_load st now _ _ current l held (review_on st now r approved)
        (review_current-IsNext st now _ _ current l held r approved refl refl)
  apply-IsNext (activate_call r) current l held =
      choose st now _ _ current l held (not (has_verified_anchor r)) _ _ (inl refl) (
        choose st now _ _ current l held (is_empty r.project_grants || is_empty r.capability_grants)
          _ _ (inl refl)
          (after_load st now _ _ current l held (activate_on st now r)
            (activate-IsNext st now _ _ current l held r refl refl)))
  apply-IsNext (suspend_call tenant_id id) current l held =
      after_load st now _ _ current l held (suspend_on st now)
        (suspend_on-IsNext st now _ _ current l held)
  apply-IsNext (revoke_call tenant_id id) current l held =
      after_load st now _ _ current l held (revoke_on st now) (
        save-IsNext st now _ _ current l held (moved now revoked "revoked" current) held.1 held.2
          refl)
  apply-IsNext (change_call tenant_id id fields) current l held =
      after_load st now _ _ current l held (change_on st now fields)
        (change_on-IsNext st now _ _ current l held fields)

-- An operation that reports an error and leaves the state as it was.
abbrev pub IsRefused : {S E : Type 0} → Lifecycle S → Result S E → Type 0
IsRefused before result = (result.0 ≡ before) × (is_some result.2 ≡ true)

add64-ne : (version : ℕ) → add64 version 1 ≢ version
unfolding add64
add64-ne version e = omega arith

differs : (a b : ℕ) → a ≢ b → (a == b) ≡ false
differs a b h = ground arith

module _ {S E : Type 0} (st : Store S E) (now : Time) (r current : Relationship) (l : Lifecycle S)
    (held : IsHeld r.tenant_id r.id current l) (stale : r.version ≢ current.version) where
  refuse_either :
      (b : Bool) (x y : Result S E)
      → IsRefused l x
      → IsRefused l y
      → IsRefused l (if b then x else y)
  refuse_either true x y h k = h
  refuse_either false x y h k = k

  stale-activate : IsRefused l (activate st now r l)
  unfolding activate activate_on
  stale-activate =
      refuse_either (not (has_verified_anchor r)) _ _ (refl, refl)
        (refuse_either (is_empty r.project_grants || is_empty r.capability_grants) _ _ (refl, refl)
          (rw (load_held st now _ _ current l held, differs _ _ stale) (refl, refl)))

  stale-review : IsRefused l (review st now r true l)
  unfolding review review_on review_current
  stale-review = rw (load_held st now _ _ current l held) (
      refuse_either (not (is_reviewable current.status)) _ _ (refl, refl)
        (rw (differs _ _ stale) (refl, refl)))

-- Of two writers that start from the same version the second is refused. Where the hot map holds a
-- relationship, with any store: after an operation on it, the state is as it was, or a copy of the
-- old version can neither be activated nor be approved, and the attempt changes nothing.
pub stale_copy-IsRefused :
    {S E : Type 0} (st : Store S E) (now later : Time) (call : Call) (r current : Relationship)
    (l : Lifecycle S)
    → tenant_of call ≡ r.tenant_id
    → id_of call ≡ r.id
    → IsHeld r.tenant_id r.id current l
    → r.version ≡ current.version
    → ((apply st now call l).0 ≡ l)
      ⊎ (IsRefused (apply st now call l).0 (activate st later r (apply st now call l).0)
          × IsRefused (apply st now call l).0 (review st later r true (apply st now call l).0))
stale_copy-IsRefused st now later call r current l owner name held same =
    let held_before =
      subst (λ t. IsHeld t (id_of call) current l) (sym owner)
        (subst (λ i. IsHeld r.tenant_id i current l) (sym name) held) in
    elim (apply-IsNext st now call current l held_before) [
      | inl unchanged ↦ inl unchanged
      | inr (next, held_after, version) ↦
          let held_here =
            subst (λ t. IsHeld t r.id next (apply st now call l).0) owner
              (subst (λ i. IsHeld (tenant_of call) i next (apply st now call l).0) name
                held_after) in
          let stale : r.version ≢ next.version =
            λ e. add64-ne current.version (sym version ∙ sym e ∙ same) in
          inr (
            stale-activate st later r next _ held_here stale,
            stale-review st later r next _ held_here stale,
          )
    ]
