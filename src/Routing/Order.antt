-- ===== src/Routing/Order.antt =====
-- `order` of internal/routing/model/planner.go: the eligible deployments in the order of the
-- policy's strategy.
use Prim.Native.Nat.{Ordering}
use Prim.Native.String.{◌++◌ as str_append, slice, compare}
use lite_aig.Base.{
  ℕ, zero, suc, ◌+◌, ◌-◌, ◌/◌, ◌%◌, ◌==◌, if◌then◌else◌, Option, none, some, List, [], ◌∷◌, ◌++◌,
  String, str_eq, Bool, true, false, length, take, drop, ltb,
}
use lite_aig.Base.Assoc.{Assoc, insert}
use lite_aig.Base.Word.{Int64, word, half, slt}
use lite_aig.Base.Int.{pos}
use lite_aig.Base.Float.{Float}
use lite_aig.Base.Sort.{sort_stable}
use lite_aig.Routing.Snapshot.{Deployment, RoutePolicy}
use lite_aig.Routing.Scores.{
  Hashing, DeploymentMetrics, read, weight_of, weighted_score, soft_scores,
}

-- The order of Go's strings.
abbrev pub str_ltb : String → String → Bool
str_ltb s t = elim (compare s t) [ Ordering.lt ↦ true | _ ↦ false ]

-- `strconv.FormatInt(n, 10)`: at most 20 digits, and a sign.
digits : ℕ → ℕ → String → String
digits zero n rest = rest
digits (suc fuel) n rest =
    let more =
      digits fuel (n / 10) (str_append (slice "0123456789" (n % 10) (suc (n % 10))) rest) in
    if ltb n 10 then str_append (slice "0123456789" n (suc n)) rest else more

pub format_int : Int64 → String
format_int n = if ltb n half then digits 20 n "" else str_append "-" (digits 20 (word - n) "")

pub counter_key : String → String → Int64 → String
counter_key tenant_ref policy_id version =
    str_append tenant_ref
      (str_append ":" (str_append policy_id (str_append ":" (format_int version))))

-- Where the rotation starts: `int(value) % n`, or none where that is negative and the slice panics.
unfoldable pub start_of : ℕ → ℕ → Option ℕ
start_of value n =
    if ltb value half then some (value % n) else if (word - value) % n == 0 then some 0 else none

unfoldable pub by_id : Deployment → Deployment → Bool
by_id a b = str_ltb a.id b.id

unfoldable pub by_priority : Deployment → Deployment → Bool
by_priority a b = if a.priority == b.priority then str_ltb a.id b.id else slt a.priority b.priority

-- The order of the strategies that a map of scores decides.
unfoldable pub by_score : (f : Float) → Assoc f.F → Deployment → Deployment → Bool
by_score f scores a b =
    f.ltb (read (f.of_int (pos 0)) scores a.id) (read (f.of_int (pos 0)) scores b.id)

-- The counters of the round robin, by key.
pub record Planner : Type 0 where
  pub round_robin : Assoc ℕ

-- The deployments in order, or none where the program panics; with the scores and their parts.
pub record Ordered (f : Float) : Type 0 where
  pub planner : Planner
  pub items : Option (List Deployment)
  pub scores : Assoc f.F
  pub breaks : Assoc (Assoc f.F)

module _ (f : Float) (h : Hashing f) where
  pub weighted_scores : Assoc Int64 → String → List Deployment → Assoc f.F → Assoc f.F
  weighted_scores weights key [] scores = scores
  weighted_scores weights key (d ∷ ds) scores =
      weighted_scores weights key ds
        (insert d.id (weighted_score f h key d.id (weight_of weights d.id)) scores)

  -- The key of a weighted choice.
  pub choice_key : String → String → String
  choice_key routing_key request_id = if str_eq routing_key "" then request_id else routing_key

  unfoldable pub order_weighted : Planner → RoutePolicy f → String → List Deployment → Ordered f
  order_weighted p policy key items =
      let scores = weighted_scores policy.weights key items [] in
      record {
        planner = p;
        items = some (sort_stable (by_score f scores) items);
        scores = scores;
        breaks = [];
      }

  unfoldable pub order_round_robin : Planner → String → List Deployment → Ordered f
  order_round_robin p key items =
      let value = read 0 p.round_robin key in
      record {
        planner = record { round_robin = insert key ((value + 1) % word) p.round_robin };
        items = elim (start_of value (length items)) [
          | none ↦ none
          | some start ↦ some (drop start items ++ take start items)
        ];
        scores = [];
        breaks = [];
      }

  unfoldable pub order_soft :
      Planner → RoutePolicy f → Assoc (DeploymentMetrics f) → List Deployment → Ordered f
  order_soft p policy metrics items =
      let (scores, breaks) = soft_scores f policy items metrics in
      record {
        planner = p;
        items = some (sort_stable (by_score f scores) items);
        scores = scores;
        breaks = breaks;
      }

  unfoldable pub order_priority : Planner → List Deployment → Ordered f
  order_priority p items = record {
    planner = p;
    items = some (sort_stable by_priority items);
    scores = [];
    breaks = [];
  }

  unfoldable pub order :
      Planner
      → RoutePolicy f
      → String
      → Int64
      → String
      → String
      → Assoc (DeploymentMetrics f)
      → List Deployment
      → Ordered f
  order p policy tenant_ref version routing_key request_id metrics eligible =
      let items = sort_stable by_id eligible in
      if str_eq policy.strategy "weighted"
      then order_weighted p policy (choice_key routing_key request_id) items
      else if str_eq policy.strategy "round_robin"
      then order_round_robin p (counter_key tenant_ref policy.id version) items
      else if str_eq policy.strategy "soft"
      then order_soft p policy metrics items
      else order_priority p items
