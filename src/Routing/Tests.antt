-- ===== src/Routing/Tests.antt =====
-- Plans over a small snapshot, and the theorems at concrete inputs.
use lite_aig.Base.{
  ◌≡◌, ◌==◌, refl, some, List, [], ◌∷◌, String, str_eq, eq_iff, Bool, false, arith, contains, map,
}
use lite_aig.Base.Assoc.{lookup}
use lite_aig.Base.Word.{slt}
use lite_aig.Base.Float.{whole}
use lite_aig.Base.Sort.{count, sort_stable, insert_sorted}
use lite_aig.Routing.Snapshot.{Deployment, RoutePolicy, Snapshot as Tenant}
use lite_aig.Routing.Scores.{Hashing}
use lite_aig.Routing.Order.{Planner, order, order_priority, by_id, by_priority}
use lite_aig.Routing.{
  Input, RoutePlan, Planned, planned, plan, plan_policy, policy_of, ordered_plan,
  eligible_deployments, eligible_deployment, exclusions, exclude, is_empty, provider_available,
  credential_exclusions, project_exclusions, is_unhealthy, circuit_open, has_capabilities,
  is_enabled, allowed_model, candidate, scored,
}
use lite_aig.Routing.Members.{count-order}
use lite_aig.Routing.Complete.{IsAnswer, plan_complete}
use lite_aig.Routing.Plans.{IsPlan, plan-IsPlan}

abbrev hashing : Hashing whole
hashing = record { sum64 = λ s. 7; log = λ x. x }

abbrev deployment_a : Deployment
deployment_a = record {
  id = "a";
  provider_id = "p";
  credential_id = "c";
  data_region = "eu";
  status = "enabled";
  pool_id = "";
  capabilities = [];
  context_window = 0;
  priority = 2;
}

abbrev deployment_b : Deployment
deployment_b = record deployment_a { id = "b"; priority = 1 }

-- Its circuit is open.
abbrev deployment_x : Deployment
deployment_x = record deployment_a { id = "x"; priority = 0 }

abbrev policy : RoutePolicy whole
policy = record {
  id = "r";
  project_id = "";
  strategy = "priority";
  deployment_ids = "a" ∷ "b" ∷ "x" ∷ "y" ∷ [];
  weights = [];
  score_weights = [];
  version = 3;
}

abbrev snapshot : Tenant whole
snapshot = record {
  tenant_ref = "t";
  version = 5;
  projects =
      (
        "q",
        record {
          id = "q";
          status = "active";
          allowed_data_regions = "eu" ∷ [];
          residency_enforcement = "strict";
        },
      )
      ∷ [];
  providers = ("p", record { id = "p"; status = "enabled" }) ∷ [];
  credentials = ("c", record { id = "c"; provider_id = "p"; status = "enabled" }) ∷ [];
  deployments = ("a", deployment_a) ∷ ("b", deployment_b) ∷ ("x", deployment_x) ∷ [];
  route_policies = ("r", policy) ∷ [];
  logical_models = ("m", record { id = "m"; alias = "m"; route_policy_id = "r" }) ∷ [];
  credential_pools = [];
}

abbrev input : Input whole
input = record {
  snapshot = some snapshot;
  model_allowlist = [];
  logical_model = "m";
  project_id = "q";
  request_id = "1";
  routing_key = "";
  required_capabilities = [];
  requires_tools = false;
  context_tokens = 10;
  health = [];
  circuit = some (λ id credential. str_eq id "x");
  metrics = [];
}

abbrev planner : Planner
planner = record { round_robin = [] }

-- The fallback of a plan.
abbrev routes : Planned whole → List String
routes (planned r) = r.fallback
routes _ = []

routes-plan : routes (plan hashing planner input).1 ≡ "b" ∷ "a" ∷ []
unfolding plan policy_of allowed_model contains lookup plan_policy eligible_deployments
    eligible_deployment exclusions exclude is_empty provider_available credential_exclusions
    project_exclusions is_unhealthy circuit_open has_capabilities is_enabled order order_priority
    sort_stable insert_sorted by_id by_priority ordered_plan slt
routes-plan = refl

snapshot_keyed : (k : String) (d : Deployment) → lookup k snapshot.deployments ≡ some d → d.id ≡ k
unfolding lookup
snapshot_keyed k d e = ground (arith, eq_iff "a" k, eq_iff "b" k, eq_iff "x" k)

abbrev made : RoutePlan whole
made = record {
  tenant_snapshot_version = 5;
  policy_version = 3;
  logical_model = "m";
  route_policy_id = "r";
  selected = "b";
  fallback = "b" ∷ "a" ∷ [];
  evidence =
      map (scored {f = whole} [] []) (map (candidate snapshot policy input) policy.deployment_ids);
}

plan-IsPlan_example :
    (q : RoutePolicy whole) × (policy_of snapshot input ≡ some q)
    × IsPlan hashing planner input snapshot snapshot_keyed q.deployment_ids made
unfolding plan policy_of allowed_model contains lookup plan_policy eligible_deployments
    eligible_deployment exclusions exclude is_empty provider_available credential_exclusions
    project_exclusions is_unhealthy circuit_open has_capabilities is_enabled order order_priority
    sort_stable insert_sorted by_id by_priority ordered_plan slt
plan-IsPlan_example = plan-IsPlan hashing planner input snapshot snapshot_keyed made refl refl

abbrev pair : List Deployment
pair = deployment_a ∷ deployment_b ∷ []

-- Deployments of priority 2.
abbrev second_class : Deployment → Bool
second_class d = d.priority == 2

count-order_example :
    count second_class (deployment_b ∷ deployment_a ∷ []) ≡ count second_class pair
unfolding order order_priority sort_stable insert_sorted by_id by_priority slt
count-order_example =
    count-order whole hashing planner policy "t" 5 "" "1" [] pair (deployment_b ∷ deployment_a ∷ [])
      second_class refl

plan_complete_example :
    IsAnswer hashing planner input snapshot policy
      (deployment_a ∷ deployment_b ∷ [])
      (plan hashing planner input).1
unfolding policy_of allowed_model contains lookup eligible_deployments eligible_deployment
    exclusions exclude is_empty provider_available credential_exclusions project_exclusions
    is_unhealthy circuit_open has_capabilities is_enabled slt
plan_complete_example = plan_complete hashing planner input snapshot policy refl refl (omega arith)
