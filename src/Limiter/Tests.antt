-- ===== src/Limiter/Tests.antt =====
-- The limiter on concrete calls, and the property at concrete inputs.
use Prim.Native.String.{String}
use lite_aig.Base.{ℕ, ◌≡◌, refl, List, [], ◌∷◌, true, false, is_some, str_eq, if◌then◌else◌, map}
use lite_aig.Base.Assoc.{lookup, insert, retain}
use lite_aig.Base.Float.{whole}
use lite_aig.Base.Word.{sle, slt, signed}
use lite_aig.Base.Clock.{Time, sub_time}
use lite_aig.Limiter.{
  Policy, Shard, minutes, min_float, fnv, shard_index, new_shards, new, sweep_locked, sweep_due,
  bucket_exists, bucket_or_new, refilled, wait_for, take_token, allow_in, set_shard, allow_at,
  allow, bucket_key,
}
use lite_aig.Limiter.Single.{Call, allow_single, run_single}
use lite_aig.Limiter.Sharded.{run, run_refines_single}

-- Each text has one byte here, so that the keys fall into two shards.
abbrev bytes : String → List ℕ
bytes s = if str_eq s "t:a" then 97 ∷ [] else 98 ∷ []

abbrev policy : Policy
policy = record { requests_per_minute = 2; burst = 1 }

abbrev call : String → Time → Call
call project now = record { tenant_id = "t"; project_id = project; policy = policy; now = now }

-- A second call at once has no token, another project has its own, and after a minute there is one.
abbrev calls : List Call
calls = call "a" 1000 ∷ call "a" 1000 ∷ call "b" 1000 ∷ call "a" 60000001000 ∷ []

program : Unit {0}
unfolding minutes min_float fnv shard_index new_shards new sweep_locked sweep_due bucket_exists
    bucket_or_new refilled wait_for take_token allow_in set_shard allow_at allow bucket_key
    allow_single run_single run lookup insert retain sle slt signed sub_time
program = tt

run_limits :
    map (λ d. d.allowed) (run {f = whole} bytes (new (λ i. 1000)) calls).1
    ≡ true ∷ false ∷ true ∷ true ∷ []
unfolding program
run_limits = refl

-- FNV-1a of one byte.
fnv_a : fnv 2166136261 (97 ∷ []) ≡ 3826002220
unfolding program
fnv_a = refl

run_refines_single_example :
    let start : Shard whole = record { buckets = []; last_sweep = 1000 } in
    let (l, decisions) = run bytes (new {f = whole} (λ i. 1000)) calls in
    let (m, single_decisions) = run_single start calls in
    (decisions ≡ single_decisions)
    × (bucket_exists bytes l "t:a" ≡ is_some (lookup "t:a" m.buckets))
run_refines_single_example = run_refines_single whole bytes (λ i. 1000) 1000 calls "t:a" (λ i. refl)
