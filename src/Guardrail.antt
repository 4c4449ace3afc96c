-- ===== src/Guardrail.antt =====
-- internal/guardrail/policy.go, `PolicyRegistry`: one active policy for each tenant. A publication
-- reads the active policy under the lock, asks the store and the audit without it, and commits under
-- the lock again, so that two publications can be interleaved.
pub mod Publication
mod Tests
use lite_aig.Base.{
  if◌then◌else◌, Option, none, some, List, [], String, str_eq, Bool, true, false, not, ◌||◌, ◌==◌,
}
use lite_aig.Base.Assoc.{Assoc, lookup, insert}
use lite_aig.Base.Word.{Int64, add64}
use lite_aig.Base.Clock.{Time}

-- `R` stands for the rules, which only the engine reads.
pub record Policy (R : Type 0) : Type 0 where
  pub id : String
  pub tenant_id : String
  pub version : Int64
  pub security_epoch : Int64
  pub rules : R
  pub change_type : String
  pub published_at : Time

-- `E` are the errors of the engine, the store and the audit.
pub data PublishError (E : Type 0) : Type 0 where
  invalid_scope : PublishError E
  scope_mismatch : PublishError E
  invalid_change : PublishError E
  conflict : PublishError E
  refused : E → PublishError E

pub data Answer (R E : Type 0) : Type 0 where
  published : Policy R → Answer R E
  failed : PublishError E → Answer R E

-- The engine compiles rules; the store and the audit act on a state of their own, and may be
-- missing.
pub record Env (S R E : Type 0) : Type 0 where
  pub compile : Int64 → R → Option E
  pub has_store : Bool
  pub create : String → Policy R → String → String → S → S × Option E
  pub get_active : String → S → Option (Policy R)
  pub has_audit : Bool
  pub record_publish : String → Policy R → String → String → S → S × Option E

pub record Registry (R : Type 0) : Type 0 where
  pub policies : Assoc (Policy R)
  pub loaded : Assoc Bool

abbrev pub new_registry : (R : Type 0) → Registry R
new_registry R = record { policies = []; loaded = [] }

abbrev pub is_loaded : Option Bool → Bool
is_loaded none = false
is_loaded (some b) = b

module _ {R : Type 0} where
  -- The version and the epoch of the active policy, zero when there is none.
  abbrev pub version_of : Option (Policy R) → Int64
  version_of none = 0
  version_of (some p) = p.version

  abbrev pub epoch_of : Option (Policy R) → Int64
  epoch_of none = 0
  epoch_of (some p) = p.security_epoch

  -- The critical section before the store: the version that is read, and the next policy.
  unfoldable pub prepare : Time → String → Policy R → Registry R → Int64 × Policy R
  prepare now tenant_id p r =
      let current = lookup tenant_id r.policies in
      (
        version_of current,
        record p {
          version = add64 (version_of current) 1;
          security_epoch = add64 (epoch_of current) 1;
          published_at = now;
        },
      )

  -- The critical section after the audit.
  unfoldable pub commit :
      {E : Type 0} → String → Int64 → Policy R → Registry R → Registry R × Answer R E
  commit tenant_id base p r =
      if not (version_of (lookup tenant_id r.policies) == base) then (r, failed conflict) else (
        record {
          policies = insert tenant_id p r.policies;
          loaded = insert tenant_id true r.loaded;
        },
        published p,
      )

module _ {S R E : Type 0} where
  -- What the arguments are refused for.
  unfoldable pub check : Env S R E → String → Policy R → String → Option (PublishError E)
  check env tenant_id p change =
      if str_eq tenant_id ""
      then some invalid_scope
      else if not (str_eq p.tenant_id tenant_id)
      then some scope_mismatch
      else if not (str_eq change "tighten" || str_eq change "loosen")
      then some invalid_change
      else elim (env.compile p.version p.rules) [ none ↦ none | some e ↦ some (refused e) ]

  abbrev pub ask :
      Bool
      → (String → Policy R → String → String → S → S × Option E)
      → String
      → Policy R
      → String
      → String
      → S
      → S × Option E
  ask false f tenant_id p change actor s = (s, none)
  ask true f tenant_id p change actor s = f tenant_id p change actor s

  -- The calls between the critical sections.
  unfoldable pub persist : Env S R E → String → Policy R → String → String → S → S × Option E
  persist env tenant_id p change actor s =
      let created = ask env.has_store env.create tenant_id p change actor s in
      elim created.1 [
        | some e ↦ created
        | none ↦ ask env.has_audit env.record_publish tenant_id p change actor created.0
      ]

  unfoldable pub conclude :
      String → Int64 → Policy R → Registry R → S × Option E → Registry R × S × Answer R E
  conclude tenant_id base p r (s, some e) = (r, s, failed (refused e))
  conclude tenant_id base p r (s, none) =
      let committed = commit tenant_id base p r in (committed.0, s, committed.1)

  -- `FastPublish`, without another publication in between.
  unfoldable pub fast_publish :
      Env S R E
      → Time
      → String
      → Policy R
      → String
      → String
      → Registry R
      → S
      → Registry R × S × Answer R E
  fast_publish env now tenant_id p change actor r s = elim (check env tenant_id p change) [
    | some e ↦ (r, s, failed e)
    | none ↦
        let prepared = prepare now tenant_id p r in
        conclude tenant_id prepared.0 prepared.1 r (persist env tenant_id prepared.1 change actor s)
  ]

  -- `Active`, on the policy that the registry has.
  unfoldable pub active_with :
      Env S R E → String → Registry R → S → Option (Policy R) → Registry R × Option (Policy R)
  active_with env tenant_id r s (some p) = (r, some p)
  active_with env tenant_id r s none =
      if is_loaded (lookup tenant_id r.loaded) || not env.has_store
      then (r, none)
      else elim (env.get_active tenant_id s) [
        | none ↦ (r, none)
        | some p ↦ (
          record {
            policies = insert tenant_id p r.policies;
            loaded = insert tenant_id true r.loaded;
          },
          some p,
        )
      ]

  unfoldable pub active : Env S R E → String → Registry R → S → Registry R × Option (Policy R)
  active env tenant_id r s = active_with env tenant_id r s (lookup tenant_id r.policies)
