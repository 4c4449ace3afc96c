-- ===== src/Routing/Eligible.antt =====
-- What internal/routing/model/planner.go promises of the deployments that a plan names.
use lite_aig.Base.{
  ◌≡◌, refl, sym, ap, ◌∙◌, subst, Option, none, some, List, [], ◌∷◌, ◌++◌, String, str_eq, eq_iff,
  Bool, true, false, not, ◌&&◌, arith, if◌then◌else◌, Bool-cases, inl, inr, length, All, contains,
  ltb, false≢true,
}
use lite_aig.Base.Assoc.{lookup}
use lite_aig.Base.Word.{slt}
use lite_aig.Base.Float.{Float}
use lite_aig.Routing.Snapshot.{Project, Deployment, Snapshot as Tenant}
use lite_aig.Routing.{
  Input, has_capabilities, exclude, provider_available, credential_exclusions, project_exclusions,
  is_unhealthy, circuit_open, exclusions, is_empty, eligible_deployment, eligible_deployments,
}

-- The project is active, and lets data go to the deployment's region.
pub data Admits (o : Option Project) (d : Deployment) : Type 0 where
  admits :
      (p : Project)
      → o ≡ some p
      → p.status ≡ "active"
      → (str_eq p.residency_enforcement "strict" ≡ true
          → contains p.allowed_data_regions d.data_region ≡ true)
      → Admits o d

-- What a deployment must be for a request to be sent to it.
pub record IsRoutable {f : Float} (s : Tenant f) (input : Input f) (d : Deployment) : Type 0 where
  pub enabled : d.status ≡ "enabled"
  pub provided : provider_available s d ≡ true
  pub capable : has_capabilities d.capabilities input.required_capabilities ≡ true
  pub fits : slt 0 d.context_window ≡ true → slt d.context_window input.context_tokens ≡ false
  pub admitted : Admits (lookup input.project_id s.projects) d
  pub healthy : is_unhealthy input d.id ≡ false
  pub circuit_closed : circuit_open input d.id d ≡ false

exclude_empty : (b : Bool) (code : String) → is_empty (exclude b code) ≡ true → b ≡ false
unfolding is_empty exclude
exclude_empty true code h = cc
exclude_empty false code h = refl

is_empty-append :
    (xs ys : List String) → is_empty (xs ++ ys) ≡ true → (is_empty xs ≡ true) × (is_empty ys ≡ true)
unfolding is_empty
is_empty-append [] ys h = (refl, h)
is_empty-append (x ∷ xs) ys h = cc

append-exclude :
    (xs : List String) (b : Bool) (code : String)
    → is_empty (xs ++ exclude b code) ≡ true
    → (is_empty xs ≡ true) × (b ≡ false)
append-exclude xs b code h =
    let (others, last) = is_empty-append xs (exclude b code) h in
    (others, exclude_empty b code last)

project_lem :
    (o : Option Project) (d : Deployment) → is_empty (project_exclusions o d) ≡ true → Admits o d
unfolding project_exclusions is_empty
project_lem none d h = absurd (false≢true h)
project_lem (some p) d h =
    let (active, region) = is_empty-append _ _ h in
    let a = exclude_empty _ _ active in
    let r = exclude_empty _ _ region in
    admits p refl ((eq_iff p.status "active").0 (ground (arith, a))) (λ strict. ground (arith, r))

module _ {f : Float} (s : Tenant f) (input : Input f)
    (keyed : (k : String) (d : Deployment) → lookup k s.deployments ≡ some d → d.id ≡ k) where
  exclusions_lem :
      (d : Deployment) → is_empty (exclusions s input d.id d) ≡ true → IsRoutable s input d
  unfolding exclusions
  exclusions_lem d h =
      let (h₁, circuit) = append-exclude _ (circuit_open input d.id d) _ h in
      let (h₂, healthy) = append-exclude _ (is_unhealthy input d.id) _ h₁ in
      let (h₃, project) =
        is_empty-append _ (project_exclusions (lookup input.project_id s.projects) d) h₂ in
      let (h₄, w) =
        append-exclude _ (slt 0 d.context_window && slt d.context_window input.context_tokens) _
          h₃ in
      let (h₅, t) =
        append-exclude _
          (input.requires_tools
            && ltb 0 (length d.capabilities)
            && not (contains d.capabilities "tools"))
          _ h₄ in
      let (h₆, c) =
        append-exclude _ (not (has_capabilities d.capabilities input.required_capabilities)) _ h₅ in
      let (h₇, k) = is_empty-append _ (credential_exclusions s d) h₆ in
      let (first, p) = append-exclude _ (not (provider_available s d)) _ h₇ in
      let e = exclude_empty (not (str_eq d.status "enabled")) _ first in
      record {
        enabled = (eq_iff d.status "enabled").0 (ground (arith, e));
        provided = ground (arith, p);
        capable = ground (arith, c);
        fits = λ limited. ground (arith, w);
        admitted = project_lem (lookup input.project_id s.projects) d project;
        healthy = healthy;
        circuit_closed = circuit;
      }

  -- The deployment stands in the snapshot under its id, the policy names it, and it may be used.
  abbrev pub Named : List String → Deployment → Type 0
  Named ids d =
      (lookup d.id s.deployments ≡ some d) × (contains ids d.id ≡ true) × IsRoutable s input d

  weaken :
      (id : String) (ids : List String) (ds : List Deployment)
      → All (Named ids) ds
      → All (Named (id ∷ ids)) ds
  unfolding contains
  weaken id ids [] h = tt
  weaken id ids (d ∷ ds) h = ((h.0.0, ground (arith, h.0.1), h.0.2), weaken id ids ds h.1)

  eligible_deployment_lem :
      (id : String) (ids : List String) (d : Deployment)
      → eligible_deployment s input id ≡ some d
      → Named (id ∷ ids) d
  unfolding eligible_deployment contains
  eligible_deployment_lem id ids d e = by_lookup (lookup id s.deployments) refl e
    where
      by_lookup :
          (o : Option Deployment)
          → lookup id s.deployments ≡ o
          → (elim o [
            | none ↦ none
            | some q ↦ if is_empty (exclusions s input id q) then some q else none
          ])
            ≡ some d
          → Named (id ∷ ids) d
      by_lookup none found k = cc
      by_lookup (some q) found k =
          let same = keyed id q found in
          elim (Bool-cases (is_empty (exclusions s input id q))) [
            | inl free ↦
                let that : q ≡ d = ground (arith, free) in
                subst (Named (id ∷ ids)) that (
                  ap (λ i. lookup i s.deployments) same ∙ found,
                  ground (arith, (eq_iff id q.id).1 (sym same)),
                  exclusions_lem q (ap (λ i. is_empty (exclusions s input i q)) same ∙ free),
                )
            | inr excluded ↦ ground (arith, excluded)
          ]

  grow :
      (ids : List String) (o : Option Deployment) (rest : List Deployment)
      → ((d : Deployment) → o ≡ some d → Named ids d)
      → All (Named ids) rest
      → All (Named ids) (elim o [ none ↦ rest | some d ↦ d ∷ rest ])
  grow ids none rest g h = h
  grow ids (some d) rest g h = (g d refl, h)

  pub eligible_Named : (ids : List String) → All (Named ids) (eligible_deployments s input ids)
  unfolding eligible_deployments
  eligible_Named [] = tt
  eligible_Named (id ∷ ids) =
      grow (id ∷ ids) (eligible_deployment s input id) (eligible_deployments s input ids)
        (eligible_deployment_lem id ids)
        (weaken id ids (eligible_deployments s input ids) (eligible_Named ids))
