-- ===== src/Federation/Lifecycle.antt =====
-- internal/federation/federation.go, `Lifecycle`: the relationships and the changes of their state.
-- The store is an interface; memoryStore is the default one.
use Prim.Native.String.{◌++◌ as str_append}
use lite_aig.Base.{
  if◌then◌else◌, Option, none, some, List, [], ◌∷◌, String, str_eq, Bool, true, false, not, ◌||◌,
  ◌==◌,
}
use lite_aig.Base.Assoc.{Assoc, lookup, insert}
use lite_aig.Base.Word.{Int64, add64}
use lite_aig.Base.Clock.{Time}
use lite_aig.Federation.{
  Status, candidate, pending_review, active_status, suspended, revoked, is_active, is_revoked,
  is_reviewable, Relationship, no_relationship, has_verified_anchor, Failure, not_found,
  stale_state, unverified, not_granted, already_active, store_failed,
}

-- The interface `Store`, on a state of its own.
pub record Store (S E : Type 0) : Type 0 where
  pub put : S → Relationship → S × Option E
  pub get : S → String → String → Option Relationship

-- `states` is the hot map.
pub record Lifecycle (S : Type 0) : Type 0 where
  pub states : Assoc Relationship
  pub store : S

-- `memoryStore`, the store of NewLifecycle.
unfoldable pub memory_put :
    {E : Type 0} → Assoc Relationship → Relationship → Assoc Relationship × Option E
memory_put m r = (insert r.id r m, none)

unfoldable pub memory_get : Assoc Relationship → String → String → Option Relationship
memory_get m tenant_id id = elim (lookup id m) [
  | none ↦ none
  | some r ↦ if str_eq r.tenant_id tenant_id then some r else none
]

unfoldable pub memory_list : Assoc Relationship → String → List Relationship
memory_list [] tenant_id = []
memory_list ((k, r) ∷ m) tenant_id =
    let rest = memory_list m tenant_id in if str_eq r.tenant_id tenant_id then r ∷ rest else rest

abbrev pub memory_store : {E : Type 0} → Store (Assoc Relationship) E
memory_store = record { put = memory_put; get = memory_get }

abbrev pub new_lifecycle : Lifecycle (Assoc Relationship)
new_lifecycle = record { states = []; store = [] }

abbrev pub is_empty : {A : Type 0} → List A → Bool
is_empty [] = true
is_empty (x ∷ xs) = false

-- What an operation returns: the state, a relationship and the error.
abbrev pub Result : Type 0 → Type 0 → Type 0
Result S E = Lifecycle S × Relationship × Option (Failure E)

abbrev pub failure : {E : Type 0} → Option E → Option (Failure E)
failure none = none
failure (some e) = some (store_failed e)

abbrev pub discovered_copy : Time → Relationship → Relationship
discovered_copy now r = record r { status = candidate; updated_at = now; version = 1 }

-- A stored relationship that moves to a state.
abbrev pub moved : Time → Status → String → Relationship → Relationship
moved now status review_status current = record current {
  status = status;
  review_status = review_status;
  updated_at = now;
  version = add64 current.version 1;
}

-- The copy of a caller that becomes active.
abbrev pub approved_copy : Time → Int64 → Relationship → Relationship
approved_copy now version r = record r {
  status = active_status;
  review_status = "approved";
  updated_at = now;
  version = version;
}

abbrev pub is_active_option : Option Relationship → Bool
is_active_option none = false
is_active_option (some r) = is_active r.status

module _ {S E : Type 0} where
  -- `loadLocked`, once the hot map is read.
  unfoldable pub load_found :
      Store S E
      → String
      → String
      → Lifecycle S
      → Option Relationship
      → Lifecycle S × Option Relationship
  load_found st tenant_id id l (some r) =
      if str_eq r.tenant_id tenant_id then (l, some r) else (l, none)
  load_found st tenant_id id l none = elim (st.get l.store tenant_id id) [
    | none ↦ (l, none)
    | some r ↦ (record l { states = insert id r l.states }, some r)
  ]

  unfoldable pub load :
      Store S E → String → String → Lifecycle S → Lifecycle S × Option Relationship
  load st tenant_id id l = load_found st tenant_id id l (lookup id l.states)

  -- `saveLocked` and the return after it.
  unfoldable pub save : Store S E → Relationship → Lifecycle S → Result S E
  save st r l =
      let written = st.put l.store r in
      (record { states = insert r.id r l.states; store = written.0 }, r, failure written.1)

  unfoldable pub discover_on :
      Store S E → Relationship → Lifecycle S × Option Relationship → Result S E
  discover_on st r (l, some current) = (l, r, some already_active)
  discover_on st r (l, none) = save st r l

  unfoldable pub discover : Store S E → Time → Relationship → Lifecycle S → Result S E
  discover st now r l = discover_on st (discovered_copy now r) (load st r.tenant_id r.id l)

  unfoldable pub review_current :
      Store S E → Time → Relationship → Bool → Lifecycle S → Relationship → Result S E
  review_current st now r approved l current =
      if not (is_reviewable current.status)
      then (l, current, some stale_state)
      else if not approved
      then save st (moved now pending_review "rejected" current) l
      else if not (r.version == current.version)
      then (l, current, some stale_state)
      else save st (approved_copy now (add64 current.version 1) r) l

  unfoldable pub review_on :
      Store S E → Time → Relationship → Bool → Lifecycle S × Option Relationship → Result S E
  review_on st now r approved (l, none) = (l, r, some not_found)
  review_on st now r approved (l, some current) = review_current st now r approved l current

  unfoldable pub review : Store S E → Time → Relationship → Bool → Lifecycle S → Result S E
  review st now r approved l = review_on st now r approved (load st r.tenant_id r.id l)

  unfoldable pub activate_on :
      Store S E → Time → Relationship → Lifecycle S × Option Relationship → Result S E
  activate_on st now r (l, none) = save st (approved_copy now 1 r) l
  activate_on st now r (l, some current) =
      if not (r.version == current.version)
      then (l, current, some stale_state)
      else save st (approved_copy now (add64 current.version 1) r) l

  unfoldable pub activate : Store S E → Time → Relationship → Lifecycle S → Result S E
  activate st now r l =
      if not (has_verified_anchor r)
      then (l, r, some unverified)
      else if is_empty r.project_grants || is_empty r.capability_grants
      then (l, r, some not_granted)
      else activate_on st now r (load st r.tenant_id r.id l)

  unfoldable pub suspend_on : Store S E → Time → Lifecycle S × Option Relationship → Result S E
  suspend_on st now (l, none) = (l, no_relationship, some not_found)
  suspend_on st now (l, some current) =
      if is_revoked current.status
      then (l, current, some stale_state)
      else save st (moved now suspended current.review_status current) l

  unfoldable pub suspend : Store S E → Time → String → String → Lifecycle S → Result S E
  suspend st now tenant_id id l = suspend_on st now (load st tenant_id id l)

  unfoldable pub revoke_on : Store S E → Time → Lifecycle S × Option Relationship → Result S E
  revoke_on st now (l, none) = (l, no_relationship, some not_found)
  revoke_on st now (l, some current) = save st (moved now revoked "revoked" current) l

  unfoldable pub revoke : Store S E → Time → String → String → Lifecycle S → Result S E
  revoke st now tenant_id id l = revoke_on st now (load st tenant_id id l)

  -- `Active`, beside the state that its load leaves.
  unfoldable pub active : Store S E → String → String → Lifecycle S → Bool
  active st tenant_id id l = is_active_option (load st tenant_id id l).1

  -- `ReviewMaterialChange`; the fields that changed, none of them or a first one.
  unfoldable pub change_on :
      Store S E → Time → List String → Lifecycle S × Option Relationship → Result S E
  change_on st now fields (l, none) = (l, no_relationship, some not_found)
  change_on st now [] (l, some current) = (l, current, none)
  change_on st now (field ∷ fields) (l, some current) =
      save st (moved now pending_review (str_append "material_change:" field) current) l

  unfoldable pub review_material_change :
      Store S E → Time → String → String → List String → Lifecycle S → Result S E
  review_material_change st now tenant_id id fields l =
      change_on st now fields (load st tenant_id id l)
