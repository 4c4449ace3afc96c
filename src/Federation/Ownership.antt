-- ===== src/Federation/Ownership.antt =====
-- What internal/federation/federation.go does not look at: the status that an activation replaces,
-- and the tenant whose relationship a new one replaces in the hot map.
use lite_aig.Base.{none, some, String, true, false, ◌≡◌, ◌≢◌, refl, sym, str_eq-false, arith, ◌==◌}
use lite_aig.Base.Assoc.{lookup, lookup-insert_self}
use lite_aig.Base.Word.{add64}
use lite_aig.Base.Clock.{Time}
use lite_aig.Federation.{Relationship, is_active, has_verified_anchor}
use lite_aig.Federation.Lifecycle.{
  Store, Lifecycle, load, load_found, save, discover, discover_on, discovered_copy, activate,
  activate_on, approved_copy, is_empty, active,
}
use lite_aig.Federation.Versions.{IsHeld, load_held}

saved-IsHeld :
    {S E : Type 0} (st : Store S E) (r : Relationship) (l : Lifecycle S)
    → IsHeld r.tenant_id r.id r (save st r l).0
unfolding save
saved-IsHeld st r l = (lookup-insert_self r.id r l.states, refl, refl)

saved-active :
    {S E : Type 0} (st : Store S E) (r : Relationship) (l : Lifecycle S)
    → active st r.tenant_id r.id (save st r l).0 ≡ is_active r.status
unfolding active
saved-active st r l =
    rw (load_held st r.updated_at _ _ r (save st r l).0 (saved-IsHeld st r l)) refl

load_foreign :
    {S E : Type 0} (st : Store S E) (tenant_id id : String) (r : Relationship) (l : Lifecycle S)
    → lookup id l.states ≡ some r
    → r.tenant_id ≢ tenant_id
    → load st tenant_id id l ≡ (l, none)
unfolding load load_found
load_foreign st tenant_id id r l e other = rw (e, str_eq-false r.tenant_id tenant_id other) refl

-- An activation of the latest copy with a verified anchor and both grants makes the relationship
-- active whatever its status was, revoked or suspended, and also when the store reports an error.
pub activate-active :
    {S E : Type 0} (st : Store S E) (now : Time) (r current : Relationship) (l : Lifecycle S)
    → IsHeld r.tenant_id r.id current l
    → has_verified_anchor r ≡ true
    → is_empty r.project_grants ≡ false
    → is_empty r.capability_grants ≡ false
    → r.version ≡ current.version
    → active st r.tenant_id r.id (activate st now r l).0 ≡ true
unfolding activate activate_on
activate-active st now r current l held verified projects capabilities same =
    rw (verified, projects, capabilities, load_held st now _ _ current l held, same, same_version)
      (saved-active st (approved_copy now (add64 current.version 1) r) l)
  where
    same_version : (current.version == current.version) ≡ true
    same_version = ground arith

-- A discovery by one tenant under an id that another tenant uses takes its active relationship
-- away: it is active before the call and not after it.
pub discover_hides :
    {S E : Type 0} (st : Store S E) (now : Time) (r current : Relationship) (l : Lifecycle S)
    → IsHeld current.tenant_id r.id current l
    → current.tenant_id ≢ r.tenant_id
    → is_active current.status ≡ true
    → (active st current.tenant_id r.id l ≡ true)
      × (active st current.tenant_id r.id (discover st now r l).0 ≡ false)
unfolding active discover discover_on
discover_hides {S = S} st now r current l held other alive = (
  rw (load_held st now _ _ current l held) alive,
  rw (load_foreign st r.tenant_id r.id current l held.0 other, hidden) refl,
)
  where
    written : Lifecycle S
    written = (save st (discovered_copy now r) l).0

    hidden : load st current.tenant_id r.id written ≡ (written, none)
    hidden =
        load_foreign st current.tenant_id r.id (discovered_copy now r) written
          (saved-IsHeld st (discovered_copy now r) l).0 (λ e. other (sym e))
