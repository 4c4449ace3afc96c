-- ===== src/Retry/Tests.antt =====
-- Waits at concrete numbers, and the theorem at one.
use lite_aig.Base.{◌≡◌, refl}
use lite_aig.Base.Word.{add64, slt, sle}
use lite_aig.Retry.{default_policy, doubled, retry_rounds, backoff}

default_waits :
    (backoff default_policy 1 7 ≡ 200000007)
    × (backoff default_policy 3 0 ≡ 800000000)
    × (backoff default_policy 9 0 ≡ 4000000000)
unfolding backoff retry_rounds doubled add64 slt sle
default_waits = (refl, refl, refl)
