-- ===== src/Rate/Window.antt =====
-- The minutes of internal/policy/rate/limiter.go, and the arithmetic of a reconciliation.
use lite_aig.Base.{ℕ, ◌+◌, ◌-◌, ◌<◌, ◌≡◌, true, arith}
use lite_aig.Base.Word.{half, add64, sub64, slt}
use lite_aig.Base.Clock.{Time}
use lite_aig.Rate.{same_minute, reconciled}

pub same_minute_refl : (a : Time) → same_minute a a ≡ true
unfolding same_minute
same_minute_refl a = ground arith

pub same_minute_sym : (a b : Time) → same_minute a b ≡ true → same_minute b a ≡ true
unfolding same_minute
same_minute_sym a b h = ground arith

pub same_minute_trans :
    (a b c : Time) → same_minute a b ≡ true → same_minute b c ≡ true → same_minute a c ≡ true
unfolding same_minute
same_minute_trans a b c h k = ground arith

-- Where no number reaches 2 ^ 62, a reconciliation takes the estimate away and adds the use, and
-- stops at 0.
pub reconciled_lem :
    (used estimated actual : ℕ)
    → used < half
    → estimated < half
    → used + actual < half
    → reconciled used estimated actual ≡ used + actual - estimated
unfolding reconciled add64 sub64 slt
reconciled_lem used estimated actual h k l = ground arith
