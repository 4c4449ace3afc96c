-- ===== src/Routing/Scores.antt =====
-- The scores of internal/routing/model/planner.go. `Hashing` holds what its imports compute: the
-- first eight bytes of a SHA-256 sum as a number, and the natural logarithm.
use Prim.Native.String.{◌++◌ as str_append}
use lite_aig.Base.{ℕ, ◌-◌, if◌then◌else◌, none, some, List, [], ◌∷◌, String, length, ltb}
use lite_aig.Base.Assoc.{Assoc, lookup, insert}
use lite_aig.Base.Word.{Int64, word, slt}
use lite_aig.Base.Int.{pos}
use lite_aig.Base.Float.{Float}
use lite_aig.Routing.Snapshot.{Deployment, RoutePolicy}

pub record Hashing (f : Float) : Type 0 where
  pub sum64 : String → ℕ
  pub log : f.F → f.F

pub record DeploymentMetrics (f : Float) : Type 0 where
  pub latency_ms : f.F
  pub cost : f.F
  pub load : f.F
  pub cache_affinity : f.F

-- What a read of a Go map gives where the key may be missing.
abbrev pub read {ℓ} : {A : Type ℓ} → A → Assoc A → String → A
read zero m k = elim (lookup k m) [ none ↦ zero | some a ↦ a ]

-- The weight of a deployment, at least 1.
pub weight_of : Assoc Int64 → String → Int64
weight_of weights id = let w = read 0 weights id in if slt w 1 then 1 else w

module _ (f : Float) where
  pub weighted_score : Hashing f → String → String → Int64 → f.F
  weighted_score h key id weight =
      let one = f.of_int (pos 1) in
      let value = h.sum64 (str_append key (str_append "\0" id)) in
      let unit = f.div (f.add (f.of_int (pos value)) one) (f.add (f.of_int (pos (word - 1))) one) in
      f.div (f.sub (f.of_int (pos 0)) (h.log unit)) (f.of_int (pos weight))

  pub max_float_of : f.F → f.F → f.F
  max_float_of a b = if f.ltb a b then b else a

  pub min_float_of : f.F → f.F → f.F
  min_float_of a b = if f.ltb b a then b else a

  abbrev zero_metrics : DeploymentMetrics f
  zero_metrics =
      let z = f.of_int (pos 0) in record { latency_ms = z; cost = z; load = z; cache_affinity = z }

  -- The explicit defaults, where no weights are configured.
  pub default_score_weights : Assoc f.F → Assoc f.F
  default_score_weights configured =
      if ltb 0 (length configured)
      then configured
      else ("latency", f.of_int (pos 1))
        ∷ ("cost", f.of_int (pos 1))
        ∷ ("load", f.of_int (pos 0))
        ∷ ("cache", f.of_int (pos 0))
        ∷ []

  -- The greatest value of a metric over the deployments, from 0.
  pub metric_max :
      (DeploymentMetrics f → f.F) → Assoc (DeploymentMetrics f) → List Deployment → f.F → f.F
  metric_max get metrics [] acc = acc
  metric_max get metrics (d ∷ ds) acc =
      metric_max get metrics ds (max_float_of acc (get (read zero_metrics metrics d.id)))

  -- The scale of a metric, with a noise floor.
  pub metric_scale :
      (DeploymentMetrics f → f.F) → Assoc (DeploymentMetrics f) → List Deployment → f.F
  metric_scale get metrics ds =
      max_float_of (metric_max get metrics ds (f.of_int (pos 0)))
        (f.div (f.of_int (pos 1)) (f.of_int (pos 1000)))

  -- The normalised metrics of one deployment, and their weighted sum.
  pub soft_components : Assoc (DeploymentMetrics f) → List Deployment → String → DeploymentMetrics f
  soft_components metrics ds id =
      let m = read zero_metrics metrics id in
      let one = f.of_int (pos 1) in
      record {
        latency_ms =
            min_float_of (f.div m.latency_ms (metric_scale (λ x. x.latency_ms) metrics ds)) one;
        cost = min_float_of (f.div m.cost (metric_scale (λ x. x.cost) metrics ds)) one;
        load = min_float_of (f.div m.load (metric_scale (λ x. x.load) metrics ds)) one;
        cache_affinity =
            min_float_of (f.div m.cache_affinity (metric_scale (λ x. x.cache_affinity) metrics ds))
              one;
      }

  pub soft_total : Assoc f.F → DeploymentMetrics f → f.F
  soft_total weights c =
      let w = read (f.of_int (pos 0)) weights in
      f.add
        (f.add (f.add (f.mul (w "latency") c.latency_ms) (f.mul (w "cost") c.cost))
          (f.mul (w "load") c.load))
        (f.mul (w "cache") (f.sub (f.of_int (pos 1)) c.cache_affinity))

  -- The loop of `softScores` that fills the two maps.
  pub soft_scores_from :
      RoutePolicy f
      → List Deployment
      → Assoc (DeploymentMetrics f)
      → List Deployment
      → Assoc f.F × Assoc (Assoc f.F)
      → Assoc f.F × Assoc (Assoc f.F)
  soft_scores_from policy items metrics [] acc = acc
  soft_scores_from policy items metrics (d ∷ ds) (scores, breaks) =
      let c = soft_components metrics items d.id in
      let breakdown =
        ("latency", c.latency_ms)
        ∷ ("cost", c.cost)
        ∷ ("load", c.load)
        ∷ ("cache_affinity", c.cache_affinity)
        ∷ [] in
      soft_scores_from policy items metrics ds (
        insert d.id (soft_total (default_score_weights policy.score_weights) c) scores,
        insert d.id breakdown breaks,
      )

  pub soft_scores :
      RoutePolicy f → List Deployment → Assoc (DeploymentMetrics f) → Assoc f.F × Assoc (Assoc f.F)
  soft_scores policy items metrics = soft_scores_from policy items metrics items ([], [])
