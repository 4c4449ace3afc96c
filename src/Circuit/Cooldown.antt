-- ===== src/Circuit/Cooldown.antt =====
-- The cooldown of internal/resilience/circuit/breaker.go stays within its configuration.
use lite_aig.Base.{arith}
use lite_aig.Base.Word.{Int64}
use lite_aig.Base.Int.{pos, ◌≤ℤ◌}
use lite_aig.Base.Float.{Float}
use lite_aig.Circuit.{Config, cooldown}

-- Where the initial cooldown is positive and at most the maximum, every cooldown is, whatever the
-- floating-point escalation does, a product that leaves the range of a Duration included.
pub cooldown_bounds :
    (f : Float) (c : Config f) (open_count : Int64)
    → pos 1 ≤ℤ c.cooldown_initial
    → c.cooldown_initial ≤ℤ c.max_cooldown
    → (pos 1 ≤ℤ cooldown f c open_count) × (cooldown f c open_count ≤ℤ c.max_cooldown)
unfolding cooldown
cooldown_bounds f c open_count positive below = ground arith
