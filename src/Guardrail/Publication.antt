-- ===== src/Guardrail/Publication.antt =====
-- What internal/guardrail/policy.go promises of a publication, and of two at a time.
use lite_aig.Base.{
  ℕ, Option, none, some, String, true, false, ◌==◌, ◌≡◌, refl, sym, ◌∙◌, ap, subst, ◌⊎◌, inl, inr,
  arith, Option-cases,
}
use lite_aig.Base.Assoc.{lookup, insert, lookup-insert_self}
use lite_aig.Base.Word.{Int64, add64}
use lite_aig.Base.Clock.{Time}
use lite_aig.Guardrail.{
  Policy, Registry, Env, Answer, published, failed, conflict, PublishError, version_of, epoch_of,
  prepare, commit, check, conclude, fast_publish,
}

same_version : (n : ℕ) → (n == n) ≡ true
same_version n = ground arith

next_version : (n : ℕ) → (add64 n 1 == n) ≡ false
unfolding add64
next_version n = ground arith

module _ {R E : Type 0} (tenant_id : String) (r : Registry R) where
  -- A commit at the version that was read stores the policy.
  commit_current :
      (p : Policy R)
      → commit {R = R} {E = E} tenant_id (version_of (lookup tenant_id r.policies)) p r ≡ (
        record {
          policies = insert tenant_id p r.policies;
          loaded = insert tenant_id true r.loaded;
        },
        published p,
      )
  unfolding commit
  commit_current p = rw (same_version (version_of (lookup tenant_id r.policies))) refl

  commit_moved :
      (base : Int64) (p q : Policy R)
      → lookup tenant_id r.policies ≡ some p
      → (p.version == base) ≡ false
      → commit {R = R} {E = E} tenant_id base q r ≡ (r, failed conflict)
  unfolding commit
  commit_moved base p q held moved = rw (held, moved) refl

-- Of two publications that read the same policy, the first commit succeeds, and the second is
-- answered with a conflict and changes nothing.
pub publications-conflict :
    {R E : Type 0} (tenant_id : String) (r : Registry R) (now later : Time) (p q : Policy R)
    → let first = prepare now tenant_id p r in
      let second = prepare later tenant_id q r in
      let committed = commit {R = R} {E = E} tenant_id first.0 first.1 r in
      (committed.1 ≡ published first.1)
      × (commit {R = R} {E = E} tenant_id second.0 second.1 committed.0
          ≡ (committed.0, failed conflict))
unfolding prepare
publications-conflict {R} {E} tenant_id r now later p q =
    let first = (prepare now tenant_id p r).1 in
    let second = (prepare later tenant_id q r).1 in
    let base = version_of (lookup tenant_id r.policies) in
    let done = commit_current {E = E} tenant_id r first in
    (
      ap (λ c. c.1) done,
      subst
          (λ (c : Registry R × Answer R E).
            commit {R = R} {E = E} tenant_id base second c.0 ≡ (c.0, failed conflict))
          (sym done)
          (commit_moved tenant_id _ base first second
            (lookup-insert_self tenant_id first r.policies) (next_version base)),
    )

-- A publication that fails leaves the registry as it was.
-- One that succeeds makes its policy the active one, a version and an epoch on.
abbrev pub IsOutcome : {S R E : Type 0} → String → Registry R → Registry R × S × Answer R E → Type 0
IsOutcome {E = E} tenant_id before result =
    ((e : PublishError E) × (result.0 ≡ before) × (result.2 ≡ failed e))
    ⊎ ((p : Policy _) × (result.2 ≡ published p)
        × (lookup tenant_id result.0.policies ≡ some p)
        × (p.version ≡ add64 (version_of (lookup tenant_id before.policies)) 1)
        × (p.security_epoch ≡ add64 (epoch_of (lookup tenant_id before.policies)) 1))

conclude-IsOutcome :
    {S R E : Type 0} (now : Time) (tenant_id : String) (p : Policy R) (r : Registry R)
    (answer : S × Option E)
    → IsOutcome tenant_id r
        (conclude tenant_id (prepare now tenant_id p r).0 (prepare now tenant_id p r).1 r answer)
unfolding conclude prepare
conclude-IsOutcome now tenant_id p r (s, some e) = inl (_, refl, refl)
conclude-IsOutcome {E = E} now tenant_id p r (s, none) =
    let q = (prepare now tenant_id p r).1 in
    let done = commit_current {E = E} tenant_id r q in
    inr (
      q,
      ap (λ c. c.1) done,
      ap (λ c. lookup tenant_id c.0.policies) done ∙ lookup-insert_self tenant_id q r.policies,
      refl,
      refl,
    )

-- Whatever the engine, the store and the audit answer, a publication fails and leaves the registry
-- as it was, or its policy is the active one and the version and the security epoch are one more
-- than those that the registry had.
pub fast_publish-IsOutcome :
    {S R E : Type 0} (env : Env S R E) (now : Time) (tenant_id : String) (p : Policy R)
    (change actor : String) (r : Registry R) (s : S)
    → IsOutcome tenant_id r (fast_publish env now tenant_id p change actor r s)
unfolding fast_publish
fast_publish-IsOutcome env now tenant_id p change actor r s =
    elim (Option-cases (check env tenant_id p change)) [
      | inl e ↦ rw (fast_publish, e) (conclude-IsOutcome now tenant_id p r _)
      | inr (error, e) ↦ rw (fast_publish, e) (inl (error, refl, refl))
    ]

first_one : add64 0 1 ≡ 1
unfolding add64
first_one = refl

published_same :
    {R E : Type 0} (p q : Policy R) → ◌≡◌ {A = Answer R E} (published p) (published q) → p ≡ q
published_same p q e = ground arith

-- Where the registry has not loaded the policy of a tenant, a publication that succeeds has version
-- one and epoch one, whatever the store holds.
pub fast_publish_unloaded :
    {S R E : Type 0} (env : Env S R E) (now : Time) (tenant_id : String) (p q : Policy R)
    (change actor : String) (r : Registry R) (s : S)
    → lookup tenant_id r.policies ≡ none
    → (fast_publish env now tenant_id p change actor r s).2 ≡ published q
    → (q.version ≡ 1) × (q.security_epoch ≡ 1)
fast_publish_unloaded env now tenant_id p q change actor r s unloaded success =
    elim (fast_publish-IsOutcome env now tenant_id p change actor r s) [
      | inl (error, kept, failure) ↦ cc
      | inr (made, success_here, held, version, epoch) ↦
          let same : made ≡ q = published_same made q (sym success_here ∙ success) in
          subst (λ x. (x.version ≡ 1) × (x.security_epoch ≡ 1)) same
            (
              version ∙ ap (λ o. add64 (version_of o) 1) unloaded ∙ first_one,
              epoch ∙ ap (λ o. add64 (epoch_of o) 1) unloaded ∙ first_one,
            )
    ]
