-- ===== src/Rate/Tests.antt =====
-- A meter over two minutes, and the theorems at concrete calls.
use lite_aig.Base.{◌+◌, ◌-◌, ◌≤◌, ◌≡◌, refl, List, [], ◌∷◌, true, false, arith}
use lite_aig.Base.Assoc.{lookup, insert}
use lite_aig.Base.Word.{add64, sub64, slt, sle}
use lite_aig.Base.Int.{pos}
use lite_aig.Base.Clock.{sub_time, add_time}
use lite_aig.Rate.{
  Meter, TpmBucket, new_meter, scope_key, limit_of, same_minute, current_bucket, reserve,
  reconciled, reconcile, next_minute, window_state,
}
use lite_aig.Rate.Usage.{usage}
use lite_aig.Rate.Reconcile.{reconcile_next_minute}
use lite_aig.Rate.Limits.{Call, reserves, reconciles, step, run, by_key, run-new_meter-within}

abbrev start : Meter
start = new_meter (by_key (λ k. 100))

abbrev used_40 : Meter
used_40 = record {
  policy = by_key (λ k. 100);
  scopes = ("t:p", record { window = 30000000000; used = 40 }) ∷ [];
}

-- The call over the limit is to wait for the next minute.
over_limit :
    (reserve used_40 "t" "p" 61 50000000000).1
    ≡ record { allowed = false; retry_after = pos 10000000000 }
unfolding reserve limit_of scope_key current_bucket same_minute next_minute lookup insert add64 slt
    sle sub_time add_time
over_limit = refl

use_of_40 : window_state used_40 "t" "p" ≡ (30000000000, 40, 100, true)
unfolding window_state limit_of scope_key lookup
use_of_40 = refl

-- 60 tokens are reserved in the second minute, and a reservation of the first one takes 50 of
-- them away.
reconcile_next_minute_example :
    let m' = (reserve used_40 "t" "p" 50 50000000000).0 in
    let m'' = (reserve m' "t" "p" 60 70000000000).0 in
    (usage m'' "t" "p" 70000000000 ≡ 60)
    × (usage (reconcile m'' "t" "p" 50 0 70000000000) "t" "p" 70000000000 ≡ 60 + 0 - 50)
unfolding limit_of usage current_bucket lookup scope_key same_minute
reconcile_next_minute_example =
    reconcile_next_minute used_40 "t" "p" 50 60 0 50000000000 70000000000 (omega arith)
      (omega arith) (omega arith) (omega arith) (omega arith) (omega arith) (omega arith) refl

abbrev calls : List Call
calls =
    reserves "t" "p" 60 50000000000
    ∷ reserves "t" "p" 30 52000000000
    ∷ reconciles "t" "p" 60 10 55000000000
    ∷ reserves "t" "p" 70 56000000000
    ∷ []

abbrev last_bucket : TpmBucket
last_bucket = record { window = 50000000000; used = 40 }

run-new_meter-within_example : last_bucket.used ≤ 100
unfolding run step reserve reconcile reconciled new_meter limit_of scope_key current_bucket
    same_minute lookup insert add64 sub64 slt sle
run-new_meter-within_example =
    run-new_meter-within (λ k. 100) calls "t:p" last_bucket
      (omega arith, (omega arith, ((omega arith, omega arith), (omega arith, tt)))) refl
