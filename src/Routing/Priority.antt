-- ===== src/Routing/Priority.antt =====
-- The default strategy of internal/routing/model/planner.go orders by priority.
use lite_aig.Base.{◌≡◌, refl, sym, ◌∙◌, subst, some, List, String, str_eq, true, false, arith}
use lite_aig.Base.Assoc.{Assoc}
use lite_aig.Base.Word.{Int64, slt}
use lite_aig.Base.Float.{Float}
use lite_aig.Base.Sort.{sort_stable, IsChain, sort_stable-IsChain}
use lite_aig.Routing.Snapshot.{Deployment, RoutePolicy}
use lite_aig.Routing.Scores.{Hashing, DeploymentMetrics}
use lite_aig.Routing.Order.{Planner, by_id, by_priority, order_priority, order}

-- The second deployment's priority is not less than the first one's.
abbrev pub NotBefore : Deployment → Deployment → Type 0
NotBefore a b = slt b.priority a.priority ≡ false

by_priority-before : (x y : Deployment) → by_priority y x ≡ true → NotBefore y x
unfolding by_priority slt
by_priority-before x y h = ground arith

by_priority-after : (x y : Deployment) → by_priority y x ≡ false → NotBefore x y
unfolding by_priority slt
by_priority-after x y h = ground arith

-- Where the strategy is none of the three that are named, the deployments are in order of their
-- priority: none is followed by one whose priority is less.
pub order-IsChain :
    (f : Float) (h : Hashing f) (p : Planner) (policy : RoutePolicy f) (tenant_ref : String)
    (version : Int64) (routing_key request_id : String) (metrics : Assoc (DeploymentMetrics f))
    (eligible ys : List Deployment)
    → str_eq policy.strategy "weighted" ≡ false
    → str_eq policy.strategy "round_robin" ≡ false
    → str_eq policy.strategy "soft" ≡ false
    → (order f h p policy tenant_ref version routing_key request_id metrics eligible).items
      ≡ some ys
    → IsChain NotBefore ys
unfolding order order_priority
order-IsChain f h p policy tenant_ref version routing_key request_id metrics eligible ys w r s e =
    let zs = sort_stable by_priority (sort_stable by_id eligible) in
    let computed : (order f h p policy tenant_ref version routing_key request_id metrics
          eligible).items
        ≡ some zs =
      rw w (rw r (rw s refl)) in
    let same : zs ≡ ys = some_inj (sym computed ∙ e) in
    subst (IsChain NotBefore) same (
      sort_stable-IsChain NotBefore by_priority by_priority-before by_priority-after
        (sort_stable by_id eligible))
  where
    some_inj : {a b : List Deployment} → some a ≡ some b → a ≡ b
    some_inj k = cc
