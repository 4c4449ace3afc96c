-- ===== src/Routing/Complete.antt =====
-- When internal/routing/model/planner.go makes a plan, and that it leaves no deployment out.
use lite_aig.Base.{
  ◌<◌, ◌≡◌, refl, sym, ap, ◌∙◌, subst, Option, none, some, List, [], ◌∷◌, String, Bool, true, arith,
  map, inl, inr, ◌⊎◌,
}
use lite_aig.Base.Word.{half}
use lite_aig.Base.Float.{Float}
use lite_aig.Base.Sort.{count, count-map}
use lite_aig.Routing.Snapshot.{Deployment, RoutePolicy, Snapshot as Tenant}
use lite_aig.Routing.Scores.{Hashing, read}
use lite_aig.Routing.Order.{Planner, Ordered, order, counter_key}
use lite_aig.Routing.Members.{count-order, order_total, IsSome}
use lite_aig.Routing.{
  Input, CandidateEvidence, RoutePlan, Planned, planned, no_eligible, panics, candidate,
  eligible_deployments, scored, ordered_plan, plan_policy, policy_of, plan,
}

module _ {f : Float} (h : Hashing f) (p : Planner) (input : Input f) (s : Tenant f)
    (policy : RoutePolicy f) where
  abbrev eligible : List Deployment
  eligible = eligible_deployments s input policy.deployment_ids

  abbrev ordered : List Deployment → Ordered f
  ordered ds =
      order f h p policy s.tenant_ref s.version input.routing_key input.request_id input.metrics ds

  -- The answer is a plan whose routes are the deployments, in some order.
  abbrev pub Plans : List Deployment → Planned f → Type 0
  Plans ds answer =
      (r : RoutePlan f) × (answer ≡ planned r)
      × ((q : String → Bool) → count q r.fallback ≡ count q (map (λ d. d.id) ds))

  ordered_plan-Plans :
      (evidence : List (CandidateEvidence f)) (o : Ordered f) (d : Deployment)
      (ds : List Deployment)
      → IsSome f h p policy s.tenant_ref s.version input.routing_key input.request_id input.metrics
          (d ∷ ds)
          o.items
      → ((ys : List Deployment) (q : Deployment → Bool)
          → o.items ≡ some ys
          → count q ys ≡ count q (d ∷ ds))
      → Plans (d ∷ ds) (ordered_plan s policy input evidence o).1
  unfolding ordered_plan count
  ordered_plan-Plans evidence o d ds some_items counts = by_items o.items some_items counts
    where
      plan_of : Deployment → List Deployment → RoutePlan f
      plan_of x xs = record {
        tenant_snapshot_version = s.version;
        policy_version = policy.version;
        logical_model = input.logical_model;
        route_policy_id = policy.id;
        selected = x.id;
        fallback = x.id ∷ map (λ y. y.id) xs;
        evidence = map (scored o.scores o.breaks) evidence;
      }

      result : Option (List Deployment) → Planner × Planned f
      result items = elim items [
        | none ↦ (o.planner, panics)
        | some [] ↦ (o.planner, panics)
        | some (x ∷ xs) ↦ (o.planner, planned (plan_of x xs))
      ]

      by_items :
          (items : Option (List Deployment))
          → IsSome f h p policy s.tenant_ref s.version input.routing_key input.request_id
              input.metrics
              (d ∷ ds)
              items
          → ((ys : List Deployment) (q : Deployment → Bool)
              → items ≡ some ys
              → count q ys ≡ count q (d ∷ ds))
          → Plans (d ∷ ds) (result items).1
      by_items none k c = absurd k
      by_items (some []) k c = absurd (omega (arith, c [] (λ _. true) refl))
      by_items (some (x ∷ xs)) k c = (
        plan_of x xs,
        refl,
        λ q.
            count-map (λ y. y.id) q (x ∷ xs)
            ∙ c (x ∷ xs) (λ y. q y.id) refl
            ∙ sym (count-map (λ y. y.id) q (d ∷ ds)),
      )

  -- What `Plan` answers for these eligible deployments.
  abbrev pub IsAnswer : List Deployment → Planned f → Type 0
  IsAnswer ds answer =
      ((ds ≡ []) × ((r : RoutePlan f) × (answer ≡ no_eligible (some r)) × (r.fallback ≡ [])))
      ⊎ Plans ds answer

  plan_policy-IsAnswer :
      read 0 p.round_robin (counter_key s.tenant_ref policy.id s.version) < half
      → IsAnswer eligible (plan_policy h p s policy input).1
  unfolding plan_policy
  plan_policy-IsAnswer small = by_eligible eligible
    where
      evidence : List (CandidateEvidence f)
      evidence = map (candidate s policy input) policy.deployment_ids

      nothing : RoutePlan f
      nothing = record {
        tenant_snapshot_version = s.version;
        policy_version = policy.version;
        logical_model = input.logical_model;
        route_policy_id = policy.id;
        selected = "";
        fallback = [];
        evidence = evidence;
      }

      result : List Deployment → Planner × Planned f
      result ds = elim ds [
        | [] ↦ (p, no_eligible (some nothing))
        | d ∷ rest ↦ ordered_plan s policy input evidence (ordered (d ∷ rest))
      ]

      by_eligible : (ds : List Deployment) → IsAnswer ds (result ds).1
      by_eligible [] = inl (refl, (nothing, refl, refl))
      by_eligible (d ∷ rest) = inr (
          ordered_plan-Plans evidence (ordered (d ∷ rest)) d rest
            (order_total f h p policy s.tenant_ref s.version input.routing_key input.request_id
              input.metrics (d ∷ rest) small)
            (count-order f h p policy s.tenant_ref s.version input.routing_key input.request_id
              input.metrics (d ∷ rest)))

  -- Where there is a policy for the request and its counter has not reached 2 ^ 63, `Plan` does not
  -- panic: if no deployment of the policy is eligible, it answers that, with a plan that has no
  -- routes; and otherwise it answers a plan whose routes are the eligible deployments, each as
  -- often as the policy names it.
  pub plan_complete :
      input.snapshot ≡ some s
      → policy_of s input ≡ some policy
      → read 0 p.round_robin (counter_key s.tenant_ref policy.id s.version) < half
      → IsAnswer eligible (plan h p input).1
  unfolding plan
  plan_complete has applies small =
      subst (IsAnswer eligible)
        (sym (ap (λ o. (with_snapshot o).1) has ∙ ap (λ o. (with_policy o).1) applies))
        (plan_policy-IsAnswer small)
    where
      with_policy : Option (RoutePolicy f) → Planner × Planned f
      with_policy o = elim o [ none ↦ (p, no_eligible none) | some q ↦ plan_policy h p s q input ]

      with_snapshot : Option (Tenant f) → Planner × Planned f
      with_snapshot o = elim o [
        | none ↦ (p, no_eligible none)
        | some s' ↦ elim (policy_of s' input) [
          | none ↦ (p, no_eligible none)
          | some q ↦ plan_policy h p s' q input
        ]
      ]
