-- ===== src/Limiter/Single.antt =====
-- The limiter of internal/policy/rate/limiter.go without its shards: one table under one lock.
use lite_aig.Base.{if◌then◌else◌, List, [], ◌∷◌, String, ◌||◌}
use lite_aig.Base.Word.{sle}
use lite_aig.Base.Clock.{Time}
use lite_aig.Base.Float.{Float}
use lite_aig.Limiter.{Policy, Decision, Shard, sweep_locked, allow_in, bucket_key, refusal}

-- A call of `Allow`, with its reading of the clock.
pub record Call : Type 0 where
  pub tenant_id : String
  pub project_id : String
  pub policy : Policy
  pub now : Time

module _ {f : Float} where
  unfoldable pub allow_single : Shard f → Call → Shard f × Decision
  allow_single s c =
      if sle c.policy.requests_per_minute 0 || sle c.policy.burst 0
      then (s, refusal)
      else allow_in c.policy c.now (bucket_key c.tenant_id c.project_id) (sweep_locked c.now s)

  unfoldable pub run_single : Shard f → List Call → Shard f × List Decision
  run_single s [] = (s, [])
  run_single s (c ∷ calls) =
      let (s', d) = allow_single s c in let (s'', ds) = run_single s' calls in (s'', d ∷ ds)
