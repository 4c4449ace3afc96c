-- ===== src/Federation/Trust.antt =====
-- Which operations of internal/federation/federation.go make a relationship active, and what an
-- inbound call needs (identity.go). The store of the first section is memoryStore.
use Prim.Native.String.{◌++◌ as str_append}
use lite_aig.Base.{
  if◌then◌else◌, Option, none, some, List, [], ◌∷◌, String, str_eq, Bool, true, false, not, ◌||◌,
  ◌≡◌, refl, inl, inr, Option-cases, Bool-cases, if_intro,
}
use lite_aig.Base.Assoc.{Assoc, AllValues, lookup, insert-AllValues, lookup-AllValues}
use lite_aig.Base.Clock.{Time}
use lite_aig.Federation.{
  Relationship, is_active, pending_review, suspended, revoked, is_revoked, is_reviewable,
}
use lite_aig.Federation.Lifecycle.{
  Store, Lifecycle, Result, load, load_found, save, discover, discover_on, discovered_copy, review,
  review_on, review_current, suspend, suspend_on, revoke, revoke_on, review_material_change,
  change_on, moved, active, is_active_option, memory_store, memory_put, memory_get, memory_list,
}
use lite_aig.Federation.Inbound.{TransportFacts, resolve, resolve_loop}
use lite_aig.Federation.Versions.{
  Call, discover_call, review_call, activate_call, suspend_call, revoke_call, change_call, apply,
}

-- The operations that can make a relationship active: an approval and an activation.
abbrev pub grants_trust : Call → Bool
grants_trust (review_call r approved) = approved
grants_trust (activate_call r) = true
grants_trust _ = false

abbrev pub NoneGrants : List (Time × Call) → Type 0
NoneGrants [] = Unit
NoneGrants ((now, call) ∷ calls) = (grants_trust call ≡ false) × NoneGrants calls

abbrev IsInactive : Relationship → Type 0
IsInactive r = is_active r.status ≡ false

abbrev IsInactiveOption : Option Relationship → Type 0
IsInactiveOption none = Unit
IsInactiveOption (some r) = IsInactive r

-- No relationship is active, in the hot map and in the store.
abbrev pub IsUntrusted : Lifecycle (Assoc Relationship) → Type 0
IsUntrusted l = AllValues IsInactive l.states × AllValues IsInactive l.store

-- memoryStore, with texts for the errors that it never gives.
abbrev pub memory : Store (Assoc Relationship) String
memory = memory_store

unfoldable pub run :
    List (Time × Call) → Lifecycle (Assoc Relationship) → Lifecycle (Assoc Relationship)
run [] l = l
run ((now, call) ∷ calls) l = run calls (apply memory now call l).0

found-IsUntrusted :
    (tenant_id id : String) (l : Lifecycle (Assoc Relationship)) (found : Option Relationship)
    → IsUntrusted l
    → IsInactiveOption found
    → IsUntrusted (load_found memory tenant_id id l found).0
      × IsInactiveOption (load_found memory tenant_id id l found).1
unfolding load_found memory_get
found-IsUntrusted tenant_id id l (some r) calm h =
    elim (Bool-cases (str_eq r.tenant_id tenant_id)) [
      | inl e ↦ rw e (calm, h)
      | inr e ↦ rw e (calm, tt)
    ]
found-IsUntrusted tenant_id id l none calm h = elim (Option-cases (lookup id l.store)) [
  | inl e ↦ rw (load_found, memory_get, e) (calm, tt)
  | inr (r, e) ↦
      let quiet = lookup-AllValues IsInactive id l.store calm.1 e in
      elim (Bool-cases (str_eq r.tenant_id tenant_id)) [
        | inl k ↦
            rw (load_found, memory_get, e, k)
              ((insert-AllValues IsInactive id r l.states quiet calm.0, calm.1), quiet)
        | inr k ↦ rw (load_found, memory_get, e, k) (calm, tt)
      ]
]

load-IsUntrusted :
    (tenant_id id : String) (l : Lifecycle (Assoc Relationship))
    → IsUntrusted l
    → IsUntrusted (load memory tenant_id id l).0 × IsInactiveOption (load memory tenant_id id l).1
unfolding load
load-IsUntrusted tenant_id id l calm = elim (Option-cases (lookup id l.states)) [
  | inl e ↦ rw e (found-IsUntrusted tenant_id id l none calm tt)
  | inr (r, e) ↦ rw e (
      found-IsUntrusted tenant_id id l (some r) calm
        (lookup-AllValues IsInactive id l.states calm.0 e))
]

save-IsUntrusted :
    (r : Relationship) (l : Lifecycle (Assoc Relationship))
    → IsInactive r
    → IsUntrusted l
    → IsUntrusted (save memory r l).0
unfolding save memory_put
save-IsUntrusted r l h calm = (
  insert-AllValues IsInactive r.id r l.states h calm.0,
  insert-AllValues IsInactive r.id r l.store h calm.1,
)

-- Both branches of a test keep trust out.
either :
    (b : Bool) (x y : Result (Assoc Relationship) String)
    → IsUntrusted x.0
    → IsUntrusted y.0
    → IsUntrusted (if b then x else y).0
either true x y h k = h
either false x y h k = k

-- What an operation does after its load keeps trust out.
abbrev Keeps :
    (Lifecycle (Assoc Relationship) × Option Relationship → Result (Assoc Relationship) String)
    → Type 0
Keeps f =
    (l : Lifecycle (Assoc Relationship)) (found : Option Relationship)
    → IsUntrusted l
    → IsUntrusted (f (l, found)).0

review_on-Keeps : (now : Time) (r : Relationship) → Keeps (review_on memory now r false)
unfolding review_on review_current
review_on-Keeps now r l none calm = calm
review_on-Keeps now r l (some current) calm =
    either (not (is_reviewable current.status)) _ _ calm
      (save-IsUntrusted (moved now pending_review "rejected" current) l refl calm)

suspend_on-Keeps : (now : Time) → Keeps (suspend_on memory now)
unfolding suspend_on
suspend_on-Keeps now l none calm = calm
suspend_on-Keeps now l (some current) calm =
    either (is_revoked current.status) _ _ calm
      (save-IsUntrusted (moved now suspended current.review_status current) l refl calm)

revoke_on-Keeps : (now : Time) → Keeps (revoke_on memory now)
unfolding revoke_on
revoke_on-Keeps now l none calm = calm
revoke_on-Keeps now l (some current) calm =
    save-IsUntrusted (moved now revoked "revoked" current) l refl calm

discover_on-Keeps :
    (now : Time) (r : Relationship) → Keeps (discover_on memory (discovered_copy now r))
unfolding discover_on
discover_on-Keeps now r l none calm = save-IsUntrusted (discovered_copy now r) l refl calm
discover_on-Keeps now r l (some current) calm = calm

change_on-Keeps : (now : Time) (fields : List String) → Keeps (change_on memory now fields)
unfolding change_on
change_on-Keeps now fields l none calm = calm
change_on-Keeps now [] l (some current) calm = calm
change_on-Keeps now (field ∷ fields) l (some current) calm =
    save-IsUntrusted (moved now pending_review (str_append "material_change:" field) current) l refl
      calm

apply-IsUntrusted :
    (now : Time) (call : Call) (l : Lifecycle (Assoc Relationship))
    → grants_trust call ≡ false
    → IsUntrusted l
    → IsUntrusted (apply memory now call l).0
unfolding apply discover review suspend revoke review_material_change
apply-IsUntrusted now (discover_call r) l h calm =
    discover_on-Keeps now r _ _ (load-IsUntrusted r.tenant_id r.id l calm).0
apply-IsUntrusted now (review_call r approved) l h calm =
    rw h (review_on-Keeps now r _ _ (load-IsUntrusted r.tenant_id r.id l calm).0)
apply-IsUntrusted now (activate_call r) l h calm = cc
apply-IsUntrusted now (suspend_call tenant_id id) l h calm =
    suspend_on-Keeps now _ _ (load-IsUntrusted tenant_id id l calm).0
apply-IsUntrusted now (revoke_call tenant_id id) l h calm =
    revoke_on-Keeps now _ _ (load-IsUntrusted tenant_id id l calm).0
apply-IsUntrusted now (change_call tenant_id id fields) l h calm =
    change_on-Keeps now fields _ _ (load-IsUntrusted tenant_id id l calm).0

run-IsUntrusted :
    (calls : List (Time × Call)) (l : Lifecycle (Assoc Relationship))
    → NoneGrants calls
    → IsUntrusted l
    → IsUntrusted (run calls l)
unfolding run
run-IsUntrusted [] l none_grants calm = calm
run-IsUntrusted ((now, call) ∷ calls) l none_grants calm =
    run-IsUntrusted calls _ none_grants.1 (apply-IsUntrusted now call l none_grants.0 calm)

resolve_loop-none :
    (tenant_id : String) (facts : TransportFacts) (m : Assoc Relationship)
    → AllValues IsInactive m
    → resolve_loop tenant_id facts (memory_list m tenant_id) ≡ none
unfolding resolve_loop memory_list
resolve_loop-none tenant_id facts [] h = refl
resolve_loop-none tenant_id facts ((k, r) ∷ m) h =
    elim (Bool-cases (str_eq r.tenant_id tenant_id)) [
      | inl e ↦ rw (e, resolve_loop, h.0) (resolve_loop-none tenant_id facts m h.1)
      | inr e ↦ rw e (resolve_loop-none tenant_id facts m h.1)
    ]

inactive_option :
    (found : Option Relationship) → IsInactiveOption found → is_active_option found ≡ false
inactive_option none h = refl
inactive_option (some r) h = h

-- Discovery is not trust. With memoryStore as the store, and from a state in which nothing is active, any sequence of discoveries,
-- refused reviews, suspensions, revocations and material changes leaves every relationship of every
-- tenant inactive, and no inbound call is given an identity.
pub discovery_is_not_trust :
    (calls : List (Time × Call)) (l : Lifecycle (Assoc Relationship)) (tenant_id id : String)
    (facts : TransportFacts)
    → NoneGrants calls
    → IsUntrusted l
    → (active memory tenant_id id (run calls l) ≡ false)
      × (resolve tenant_id facts (run calls l) ≡ none)
unfolding active resolve
discovery_is_not_trust calls l tenant_id id facts none_grants calm =
    let later = run-IsUntrusted calls l none_grants calm in
    (
      inactive_option _ (load-IsUntrusted tenant_id id (run calls l) later).1,
      if_intro (λ p. p ≡ none) (str_eq facts.auth_method "" || str_eq facts.subject "") _ _
          (λ h. refl) (λ h. resolve_loop-none tenant_id facts (run calls l).states later.0),
    )
