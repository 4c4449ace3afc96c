-- ===== src/Base/Clock.antt =====
-- time.Time as nanoseconds since Go's zero time, and time.Duration as an integer.
use lite_aig.Base.Tests.{if◌then◌else◌}
use lite_aig.Base.Int.{ℤ, pos, negsuc, pos_part, neg_part, sub_ℕ, ltb_ℤ}
use Prim.Native.Nat.{ℕ, ◌+◌, ◌-◌, ◌*◌}

abbrev pub Time : Type 0
Time = ℕ

abbrev pub Duration : Type 0
Duration = ℤ

-- The zero time.
abbrev pub zero_time : Time
zero_time = 0

abbrev pub max_duration : Duration
max_duration = pos 9223372036854775807

abbrev pub min_duration : Duration
min_duration = negsuc 9223372036854775807

-- t.Sub(u), which stops at the ends of the range of a Duration.
unfoldable pub sub_time : Time → Time → Duration
sub_time t u =
    let d = sub_ℕ t u in
    if ltb_ℤ max_duration d then max_duration else if ltb_ℤ d min_duration then min_duration else d

-- t.Add(d), for a result that is not before the zero time.
unfoldable pub add_time : Time → Duration → Time
add_time t d = t + pos_part d - neg_part d

abbrev pub second : ℕ
second = 1000000000

abbrev pub minute : ℕ
minute = 60 * second
