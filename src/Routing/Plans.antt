-- ===== src/Routing/Plans.antt =====
-- The plans of internal/routing/model/planner.go name only deployments that may be used.
use lite_aig.Base.{
  ◌≡◌, refl, sym, ap, ◌∙◌, subst, Option, none, some, List, [], ◌∷◌, String, map, All,
}
use lite_aig.Base.Assoc.{lookup}
use lite_aig.Base.Float.{Float}
use lite_aig.Routing.Snapshot.{Deployment, RoutePolicy, Snapshot as Tenant}
use lite_aig.Routing.Scores.{Hashing}
use lite_aig.Routing.Order.{Planner, Ordered, order}
use lite_aig.Routing.Members.{AllIn, order-All}
use lite_aig.Routing.Eligible.{Named, eligible_Named}
use lite_aig.Routing.{
  Input, CandidateEvidence, RoutePlan, Planned, planned, no_eligible, panics, candidate,
  eligible_deployments, scored, ordered_plan, plan_policy, policy_of, plan,
}

module _ {f : Float} (h : Hashing f) (p : Planner) (input : Input f) (s : Tenant f)
    (keyed : (k : String) (d : Deployment) → lookup k s.deployments ≡ some d → d.id ≡ k) where
  -- The id is that of a deployment that the list names and that may be used.
  abbrev pub IsRoute : List String → String → Type 0
  IsRoute ids id = (d : Deployment) × (d.id ≡ id) × Named s input keyed ids d

  -- The plan selects the first of its routes, and all of them may be used.
  abbrev pub IsPlan : List String → RoutePlan f → Type 0
  IsPlan ids r =
      ((rest : List String) × (r.fallback ≡ r.selected ∷ rest)) × All (IsRoute ids) r.fallback

  routes_of :
      (ids : List String) (ds : List Deployment)
      → All (Named s input keyed ids) ds
      → All (IsRoute ids) (map (λ x. x.id) ds)
  routes_of ids [] k = tt
  routes_of ids (d ∷ ds) k = ((d, refl, k.0), routes_of ids ds k.1)

  ordered_plan_lem :
      (policy : RoutePolicy f) (evidence : List (CandidateEvidence f)) (o : Ordered f)
      (ids : List String) (r : RoutePlan f)
      → AllIn (Named s input keyed ids) o.items
      → (ordered_plan s policy input evidence o).1 ≡ planned r
      → IsPlan ids r
  unfolding ordered_plan
  ordered_plan_lem policy evidence o ids r k e = by_items o.items k e
    where
      plan_of : String → List String → RoutePlan f
      plan_of selected fallback = record {
        tenant_snapshot_version = s.version;
        policy_version = policy.version;
        logical_model = input.logical_model;
        route_policy_id = policy.id;
        selected = selected;
        fallback = fallback;
        evidence = map (scored o.scores o.breaks) evidence;
      }

      result : Option (List Deployment) → Planner × Planned f
      result items = elim items [
        | none ↦ (o.planner, panics)
        | some [] ↦ (o.planner, panics)
        | some (d ∷ ds) ↦ (o.planner, planned (plan_of d.id (d.id ∷ map (λ x. x.id) ds)))
      ]

      by_items :
          (items : Option (List Deployment))
          → AllIn (Named s input keyed ids) items
          → (result items).1 ≡ planned r
          → IsPlan ids r
      by_items none k e = cc
      by_items (some []) k e = cc
      by_items (some (d ∷ ds)) k e =
          let same : plan_of d.id (d.id ∷ map (λ x. x.id) ds) ≡ r = cc in
          subst (IsPlan ids) same ((map (λ x. x.id) ds, refl), routes_of ids (d ∷ ds) k)

  plan_policy_lem :
      (policy : RoutePolicy f) (r : RoutePlan f)
      → (plan_policy h p s policy input).1 ≡ planned r
      → IsPlan policy.deployment_ids r
  unfolding plan_policy
  plan_policy_lem policy r e =
      by_eligible (eligible_deployments s input policy.deployment_ids)
        (eligible_Named s input keyed policy.deployment_ids) e
    where
      evidence : List (CandidateEvidence f)
      evidence = map (candidate s policy input) policy.deployment_ids

      result : List Deployment → Planner × Planned f
      result ds = elim ds [
        | [] ↦ (
          p,
          no_eligible (
              some (record {
                tenant_snapshot_version = s.version;
                policy_version = policy.version;
                logical_model = input.logical_model;
                route_policy_id = policy.id;
                selected = "";
                fallback = [];
                evidence = evidence;
              })),
        )
        | d ∷ ds ↦ ordered_plan s policy input evidence (
            order f h p policy s.tenant_ref s.version input.routing_key input.request_id
              input.metrics (d ∷ ds))
      ]

      by_eligible :
          (ds : List Deployment)
          → All (Named s input keyed policy.deployment_ids) ds
          → (result ds).1 ≡ planned r
          → IsPlan policy.deployment_ids r
      by_eligible [] k e = cc
      by_eligible (d ∷ ds) k e =
          ordered_plan_lem policy evidence _ policy.deployment_ids r
            (order-All f h p policy s.tenant_ref s.version input.routing_key input.request_id
              input.metrics (d ∷ ds) (Named s input keyed policy.deployment_ids) k)
            e

  -- Where the snapshot holds each deployment under its own id: if `Plan` makes a plan, there is a
  -- policy for the request; the plan selects the first of its routes; and every route is a
  -- deployment of the snapshot that the policy names, that is enabled and healthy, whose provider
  -- is enabled and whose circuit the view does not report open, that has the capabilities asked
  -- for and room for the context, and whose region the project, which is active, admits.
  pub plan-IsPlan :
      (r : RoutePlan f)
      → input.snapshot ≡ some s
      → (plan h p input).1 ≡ planned r
      → (policy : RoutePolicy f) × (policy_of s input ≡ some policy)
        × IsPlan policy.deployment_ids r
  unfolding plan
  plan-IsPlan r has e = by_policy (policy_of s input) refl (sym here ∙ e)
    where
      with_policy : Option (RoutePolicy f) → Planner × Planned f
      with_policy o = elim o [
        | none ↦ (p, no_eligible none)
        | some policy ↦ plan_policy h p s policy input
      ]

      with_snapshot : Option (Tenant f) → Planner × Planned f
      with_snapshot o = elim o [
        | none ↦ (p, no_eligible none)
        | some s' ↦ elim (policy_of s' input) [
          | none ↦ (p, no_eligible none)
          | some policy ↦ plan_policy h p s' policy input
        ]
      ]

      here : (plan h p input).1 ≡ (with_policy (policy_of s input)).1
      here = ap (λ o. (with_snapshot o).1) has

      by_policy :
          (o : Option (RoutePolicy f))
          → policy_of s input ≡ o
          → (with_policy o).1 ≡ planned r
          → (policy : RoutePolicy f) × (policy_of s input ≡ some policy)
            × IsPlan policy.deployment_ids r
      by_policy none found k = cc
      by_policy (some policy) found k = (policy, found, plan_policy_lem policy r k)
