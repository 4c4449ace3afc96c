-- ===== src/Routing.antt =====
-- internal/routing/model/planner.go: the plan of a request's route, with the evidence of every
-- deployment. The circuit is the view that the request carries.
pub mod Snapshot
pub mod Scores
pub mod Order
pub mod Members
pub mod Eligible
pub mod Priority
pub mod Plans
pub mod Complete
mod Tests
use lite_aig.Base.{
  ℕ, ◌<◌, if◌then◌else◌, Option, none, some, List, [], ◌∷◌, ◌++◌, String, str_eq, Bool, true, false,
  not, ◌&&◌, ◌||◌, is_some, contains, length, map, ltb,
}
use lite_aig.Base.Assoc.{Assoc, lookup}
use lite_aig.Base.Word.{Int64, slt, sle}
use lite_aig.Base.Int.{pos}
use lite_aig.Base.Float.{Float}
use Snapshot.{
  Project, Provider, Credential, Deployment, PoolMember, CredentialPool, LogicalModel, RoutePolicy,
  Snapshot as Tenant,
}
use Scores.{Hashing, DeploymentMetrics, read}
use Order.{Planner, Ordered, order}

pub record Input (f : Float) : Type 0 where
  pub snapshot : Option (Tenant f)
  pub model_allowlist : List String
  pub logical_model : String
  pub project_id : String
  pub request_id : String
  pub routing_key : String
  pub required_capabilities : List String
  pub requires_tools : Bool
  pub context_tokens : Int64
  pub health : Assoc Bool
  pub circuit : Option (String → String → Bool)
  pub metrics : Assoc (DeploymentMetrics f)

pub record CandidateEvidence (f : Float) : Type 0 where
  pub deployment_id : String
  pub eligible : Bool
  pub exclusions : List String
  pub priority : Int64
  pub weight : Int64
  pub selection_score : f.F
  pub score_breakdown : Assoc f.F

pub record RoutePlan (f : Float) : Type 0 where
  pub tenant_snapshot_version : Int64
  pub policy_version : Int64
  pub logical_model : String
  pub route_policy_id : String
  pub selected : String
  pub fallback : List String
  pub evidence : List (CandidateEvidence f)

-- A plan, ErrNoEligibleDeployment with the plan that may come with it, or a panic.
pub data Planned (f : Float) : Type 0 where
  planned : RoutePlan f → Planned f
  no_eligible : Option (RoutePlan f) → Planned f
  panics : Planned f

unfoldable pub allowed_model : List String → String → Bool
allowed_model allowlist model = not (ltb 0 (length allowlist)) || contains allowlist model

unfoldable pub has_capabilities : List String → List String → Bool
has_capabilities actual [] = true
has_capabilities actual (c ∷ cs) =
    let rest = has_capabilities actual cs in if contains actual c then rest else false

-- An exclusion with this code, if the test holds.
unfoldable pub exclude : Bool → String → List String
exclude test code = if test then code ∷ [] else []

unfoldable pub is_enabled : Option Credential → Bool
is_enabled none = false
is_enabled (some c) = str_eq c.status "enabled"

unfoldable pub any_enabled : Assoc Credential → List PoolMember → Bool
any_enabled credentials [] = false
any_enabled credentials (m ∷ ms) =
    let rest = any_enabled credentials ms in
    if is_enabled (lookup m.credential_id credentials) then true else rest

-- The exclusions by the request's project.
unfoldable pub project_exclusions : Option Project → Deployment → List String
project_exclusions none d = "project_missing" ∷ []
project_exclusions (some p) d =
    exclude (not (str_eq p.status "active")) "project_disabled"
    ++ exclude
        (str_eq p.residency_enforcement "strict"
          && not (contains p.allowed_data_regions d.data_region))
        "data_residency_mismatch"

unfoldable pub is_empty : List String → Bool
is_empty [] = true
is_empty (c ∷ cs) = false

abbrev no_score : (f : Float) → f.F
no_score f = f.of_int (pos 0)

module _ {f : Float} where
  unfoldable pub provider_available : Tenant f → Deployment → Bool
  provider_available s d = elim (lookup d.provider_id s.providers) [
    | none ↦ false
    | some p ↦ str_eq p.status "enabled"
  ]

  unfoldable pub pool_available : Tenant f → Deployment → Bool
  pool_available s d = elim (lookup d.pool_id s.credential_pools) [
    | none ↦ false
    | some pool ↦ any_enabled s.credentials pool.members
  ]

  -- The exclusion of the deployment's credential, or of its pool.
  unfoldable pub credential_exclusions : Tenant f → Deployment → List String
  credential_exclusions s d =
      if not (str_eq d.pool_id "")
      then exclude (not (pool_available s d)) "credential_pool_unavailable"
      else exclude (not (is_enabled (lookup d.credential_id s.credentials)))
          "credential_unavailable"

  unfoldable pub is_unhealthy : Input f → String → Bool
  is_unhealthy input id = elim (lookup id input.health) [
    | none ↦ false
    | some healthy ↦ not healthy
  ]

  unfoldable pub circuit_open : Input f → String → Deployment → Bool
  circuit_open input id d = elim input.circuit [
    | none ↦ false
    | some view ↦ view id d.credential_id
  ]

  -- The codes that `Plan` gives a deployment that exists, in its order.
  unfoldable pub exclusions : Tenant f → Input f → String → Deployment → List String
  exclusions s input id d =
      exclude (not (str_eq d.status "enabled")) "deployment_disabled"
      ++ exclude (not (provider_available s d)) "provider_unavailable"
      ++ credential_exclusions s d
      ++ exclude (not (has_capabilities d.capabilities input.required_capabilities))
          "capability_mismatch"
      ++ exclude
          (input.requires_tools
            && ltb 0 (length d.capabilities)
            && not (contains d.capabilities "tools"))
          "tools_not_supported"
      ++ exclude (slt 0 d.context_window && slt d.context_window input.context_tokens)
          "context_window_exceeded"
      ++ project_exclusions (lookup input.project_id s.projects) d
      ++ exclude (is_unhealthy input id) "unhealthy"
      ++ exclude (circuit_open input id d) "circuit_open"

  -- The evidence of one deployment of the policy.
  unfoldable pub candidate : Tenant f → RoutePolicy f → Input f → String → CandidateEvidence f
  candidate s policy input id =
      let weight = read 0 policy.weights id in
      elim (lookup id s.deployments) [
        | none ↦ record {
          deployment_id = id;
          eligible = false;
          exclusions = "deployment_missing" ∷ [];
          priority = 0;
          weight = weight;
          selection_score = no_score f;
          score_breakdown = [];
        }
        | some d ↦
            let codes = exclusions s input id d in
            record {
              deployment_id = id;
              eligible = is_empty codes;
              exclusions = codes;
              priority = d.priority;
              weight = if sle weight 0 then 1 else weight;
              selection_score = no_score f;
              score_breakdown = [];
            }
      ]

  -- The deployment, if it is there and not excluded.
  unfoldable pub eligible_deployment : Tenant f → Input f → String → Option Deployment
  eligible_deployment s input id = elim (lookup id s.deployments) [
    | none ↦ none
    | some d ↦ if is_empty (exclusions s input id d) then some d else none
  ]

  unfoldable pub eligible_deployments : Tenant f → Input f → List String → List Deployment
  eligible_deployments s input [] = []
  eligible_deployments s input (id ∷ ids) =
      let rest = eligible_deployments s input ids in
      elim (eligible_deployment s input id) [ none ↦ rest | some d ↦ d ∷ rest ]

  -- The evidence with the scores of the order.
  unfoldable pub scored : Assoc f.F → Assoc (Assoc f.F) → CandidateEvidence f → CandidateEvidence f
  scored scores breaks e = record e {
    selection_score = read (no_score f) scores e.deployment_id;
    score_breakdown = read [] breaks e.deployment_id;
  }

  -- The plan once the deployments are in order; the first of them is selected.
  unfoldable pub ordered_plan :
      Tenant f
      → RoutePolicy f
      → Input f
      → List (CandidateEvidence f)
      → Ordered f
      → Planner × Planned f
  ordered_plan s policy input evidence o = elim o.items [
    | none ↦ (o.planner, panics)
    | some [] ↦ (o.planner, panics)
    | some (d ∷ ds) ↦ (
      o.planner,
      planned (record {
        tenant_snapshot_version = s.version;
        policy_version = policy.version;
        logical_model = input.logical_model;
        route_policy_id = policy.id;
        selected = d.id;
        fallback = d.id ∷ map (λ x. x.id) ds;
        evidence = map (scored o.scores o.breaks) evidence;
      }),
    )
  ]

  -- The plan for a policy that applies.
  unfoldable pub plan_policy :
      Hashing f → Planner → Tenant f → RoutePolicy f → Input f → Planner × Planned f
  plan_policy h p s policy input =
      let evidence = map (candidate s policy input) policy.deployment_ids in
      elim (eligible_deployments s input policy.deployment_ids) [
        | [] ↦ (
          p,
          no_eligible (
              some (record {
                tenant_snapshot_version = s.version;
                policy_version = policy.version;
                logical_model = input.logical_model;
                route_policy_id = policy.id;
                selected = "";
                fallback = [];
                evidence = evidence;
              })),
        )
        | d ∷ ds ↦ ordered_plan s policy input evidence (
            order f h p policy s.tenant_ref s.version input.routing_key input.request_id
              input.metrics (d ∷ ds))
      ]

  -- The policy of the request's model, if the key may use the model and the policy is for the project.
  unfoldable pub policy_of : Tenant f → Input f → Option (RoutePolicy f)
  policy_of s input = elim (lookup input.logical_model s.logical_models) [
    | none ↦ none
    | some logical ↦
        if not (allowed_model input.model_allowlist input.logical_model)
        then none
        else elim (lookup logical.route_policy_id s.route_policies) [
          | none ↦ none
          | some policy ↦
              if not (str_eq policy.project_id "")
                && not (str_eq policy.project_id input.project_id)
              then none
              else some policy
        ]
  ]

  -- `Plan`.
  unfoldable pub plan : Hashing f → Planner → Input f → Planner × Planned f
  plan h p input = elim input.snapshot [
    | none ↦ (p, no_eligible none)
    | some s ↦ elim (policy_of s input) [
      | none ↦ (p, no_eligible none)
      | some policy ↦ plan_policy h p s policy input
    ]
  ]
