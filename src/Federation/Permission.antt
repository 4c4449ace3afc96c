-- ===== src/Federation/Permission.antt =====
-- internal/federation/permission.go and internal/identity/delegation.go: the intersection of what
-- each side permits.
use lite_aig.Base.{
  ℕ, ◌≤◌, if◌then◌else◌, List, [], ◌∷◌, String, Bool, false, ◌&&◌, ◌≡◌, refl, arith, contains,
  length, ltb, Option, none, some,
}
use text.Mathlib.TextEquality.{eq_iff}

pub record PermissionRequest : Type 0 where
  pub system_policy_enabled : Bool
  pub tenant_active : Bool
  pub project_active : Bool
  pub caller_allowed : Bool
  pub local_delegation_granted : Bool
  pub relationship_active : Bool
  pub project_granted : Bool
  pub capability_granted : Bool
  pub data_boundary_satisfied : Bool

pub record EffectiveFederatedPermission : Type 0 where
  pub system_ok : Bool
  pub tenant_ok : Bool
  pub project_ok : Bool
  pub caller_ok : Bool
  pub local_delegation_ok : Bool
  pub relationship_ok : Bool
  pub project_grant_ok : Bool
  pub capability_grant_ok : Bool
  pub data_boundary_ok : Bool

unfoldable pub allowed : EffectiveFederatedPermission → Bool
allowed p =
    p.system_ok && p.tenant_ok && p.project_ok && p.caller_ok && p.local_delegation_ok
    && p.relationship_ok && p.project_grant_ok && p.capability_grant_ok && p.data_boundary_ok

unfoldable pub evaluate : PermissionRequest → EffectiveFederatedPermission
evaluate request = record {
  system_ok = request.system_policy_enabled;
  tenant_ok = request.tenant_active;
  project_ok = request.project_active;
  caller_ok = request.caller_allowed;
  local_delegation_ok = request.local_delegation_granted;
  relationship_ok = request.relationship_active;
  project_grant_ok = request.project_granted;
  capability_grant_ok = request.capability_granted;
  data_boundary_ok = request.data_boundary_satisfied;
}

-- `EvaluateDelegation`: `none` is the error; a set that is made of a list has the list's members.
unfoldable pub delegated : List String → List String → List String → List String
delegated [] grant policy = []
delegated (permission ∷ rest) grant policy =
    let later = delegated rest grant policy in
    if contains grant permission && contains policy permission then permission ∷ later else later

unfoldable pub evaluate_delegation : List String → List String → List String → Option (List String)
evaluate_delegation delegator grant policy =
    let result = delegated delegator grant policy in
    if ltb (length delegator) (length result) then none else some result

not_longer : (a b : ℕ) → b ≤ a → ltb a b ≡ false
not_longer a b h = ground arith

length-delegated-le :
    (delegator grant policy : List String)
    → length (delegated delegator grant policy) ≤ length delegator
unfolding delegated
length-delegated-le [] grant policy = omega arith
length-delegated-le (permission ∷ rest) grant policy =
    ground (arith, length-delegated-le rest grant policy)

contains-delegated :
    (delegator grant policy : List String) (permission : String)
    → contains (delegated delegator grant policy) permission
      ≡ contains delegator permission && contains grant permission && contains policy permission
unfolding delegated contains
contains-delegated [] grant policy permission = refl
contains-delegated (p ∷ rest) grant policy permission =
    ground (arith, eq_iff p permission, contains-delegated rest grant policy permission)

-- A delegation never fails, and a permission is in its result exactly when the delegator has it,
-- the grant names it and the policy of the delegatee allows it: nothing is widened.
pub evaluate_delegation_intersects :
    (delegator grant policy : List String) (permission : String)
    → (result : List String) × (evaluate_delegation delegator grant policy ≡ some result)
      × (contains result permission
          ≡ contains delegator permission
            && contains grant permission
            && contains policy permission)
unfolding evaluate_delegation
evaluate_delegation_intersects delegator grant policy permission = (
  delegated delegator grant policy,
  rw (not_longer _ _ (length-delegated-le delegator grant policy)) refl,
  contains-delegated delegator grant policy permission,
)
