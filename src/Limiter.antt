-- ===== src/Limiter.antt =====
-- internal/policy/rate/limiter.go, `Limiter`: a bucket of tokens for each tenant and project, in
-- sixteen shards. `bytes` is the encoding of a text; a call reads the clock once.
pub mod Single
pub mod Sharded
mod Tests
use Prim.Native.String.{◌++◌ as str_append}
use Prim.Native.Nat.{bit_xor}
use lite_aig.Base.{
  ℕ, zero, suc, ◌+◌, ◌*◌, ◌/◌, ◌%◌, ◌^◌, if◌then◌else◌, Option, none, some, List, [], ◌∷◌, String,
  Bool, true, false, not, ◌||◌, is_some, get_elem?,
}
use lite_aig.Base.Assoc.{Assoc, lookup, insert, retain}
use lite_aig.Base.Int.{ℤ, pos, negsuc, ltb_ℤ, leb_ℤ, sub_ℕ}
use lite_aig.Base.Word.{Int64, sle, signed}
use lite_aig.Base.Clock.{Time, Duration, sub_time, minute, second}
use lite_aig.Base.Float.{Float}

pub record Policy : Type 0 where
  pub requests_per_minute : Int64
  pub burst : Int64

pub record Decision : Type 0 where
  pub allowed : Bool
  pub retry_after : Duration

pub record Bucket (f : Float) : Type 0 where
  pub tokens : f.F
  pub last : Time

pub record Shard (f : Float) : Type 0 where
  pub buckets : Assoc (Bucket f)
  pub last_sweep : Time

abbrev pub sweep_interval : ℤ
sweep_interval = pos (60 * second)

abbrev pub idle_ttl : ℤ
idle_ttl = pos (10 * minute)

abbrev pub shard_count : ℕ
shard_count = 16

-- The array of the shards.
abbrev pub Limiter : Float → Type 0
Limiter f = List (Shard f)

-- Duration.Minutes: the whole minutes, and the rest as a fraction.
unfoldable pub minutes : (f : Float) → Duration → f.F
minutes f (pos n) =
    f.add (f.of_int (pos (n / minute)))
      (f.div (f.of_int (pos (n % minute))) (f.of_int (pos minute)))
minutes f (negsuc n) =
    f.add (f.of_int (sub_ℕ 0 (suc n / minute)))
      (f.div (f.of_int (sub_ℕ 0 (suc n % minute))) (f.of_int (pos minute)))

-- The smaller of two floats.
unfoldable pub min_float : (f : Float) → f.F → f.F → f.F
min_float f a b = if f.ltb b a then b else a

-- The loop of `shardIndex`, FNV-1a on 32 bits.
unfoldable pub fnv : ℕ → List ℕ → ℕ
fnv h [] = h
fnv h (b ∷ bs) = fnv (bit_xor h b * 16777619 % 2 ^ 32) bs

unfoldable pub shard_index : (String → List ℕ) → String → ℕ
shard_index bytes key = fnv 2166136261 (bytes key) % shard_count

-- How long the caller is to wait.
unfoldable pub wait_for : (f : Float) → Policy → f.F → Duration
wait_for f p tokens = f.to_int (
    f.mul (f.div (f.sub (f.of_int (pos 1)) tokens) (f.of_int (signed p.requests_per_minute)))
      (f.of_int (pos minute)))

abbrev pub refusal : Decision
refusal = record { allowed = false; retry_after = pos minute }

unfoldable pub bucket_key : String → String → String
bucket_key tenant_id project_id = str_append tenant_id (str_append ":" project_id)

module _ {f : Float} where
  -- `New` reads the clock once for each shard.
  unfoldable pub new_shards : ℕ → (ℕ → Time) → Limiter f
  new_shards zero clock = []
  new_shards (suc n) clock =
      record { buckets = []; last_sweep = clock 0 } ∷ new_shards n (λ i. clock (suc i))

  unfoldable pub sweep_locked : Time → Shard f → Shard f
  sweep_locked now s = if ltb_ℤ (sub_time now s.last_sweep) sweep_interval then s else record {
    buckets = retain (λ b. not (leb_ℤ idle_ttl (sub_time now b.last))) s.buckets;
    last_sweep = now;
  }

  unfoldable pub sweep_due : Time → Limiter f → Limiter f
  sweep_due now [] = []
  sweep_due now (s ∷ l) = sweep_locked now s ∷ sweep_due now l

  unfoldable pub bucket_exists : (String → List ℕ) → Limiter f → String → Bool
  bucket_exists bytes l key = elim (get_elem? l (shard_index bytes key)) [
    | none ↦ false
    | some s ↦ is_some (lookup key s.buckets)
  ]

  -- The bucket of a key, or a full one.
  unfoldable pub bucket_or_new : Policy → Time → Option (Bucket f) → Bucket f
  bucket_or_new p now none = record { tokens = f.of_int (signed p.burst); last = now }
  bucket_or_new p now (some b) = b

  -- The tokens after the time since the last call.
  unfoldable pub refilled : Policy → Time → Bucket f → f.F
  refilled p now b =
      let elapsed = minutes f (sub_time now b.last) in
      let zero_f = f.of_int (pos 0) in
      let gained = if f.ltb elapsed zero_f then zero_f else elapsed in
      min_float f (f.of_int (signed p.burst))
        (f.add b.tokens (f.mul gained (f.of_int (signed p.requests_per_minute))))

  unfoldable pub take_token : Policy → Time → Option (Bucket f) → Bucket f × Decision
  take_token p now found =
      let tokens = refilled p now (bucket_or_new p now found) in
      if f.leb (f.of_int (pos 1)) tokens
      then (
        record { tokens = f.sub tokens (f.of_int (pos 1)); last = now },
        record { allowed = true; retry_after = pos 0 },
      )
      else (
        record { tokens = tokens; last = now },
        record { allowed = false; retry_after = wait_for f p tokens },
      )

  unfoldable pub allow_in : Policy → Time → String → Shard f → Shard f × Decision
  allow_in p now key s =
      let (b, d) = take_token p now (lookup key s.buckets) in
      (record s { buckets = insert key b s.buckets }, d)

  -- The write to the shard at an index.
  unfoldable pub set_shard : Limiter f → ℕ → Shard f → Limiter f
  set_shard [] i s = []
  set_shard (x ∷ l) zero s = s ∷ l
  set_shard (x ∷ l) (suc i) s = x ∷ set_shard l i s

  -- The index is always within the array.
  unfoldable pub allow_at : Policy → Time → String → ℕ → Limiter f → Limiter f × Decision
  allow_at p now key i l = elim (get_elem? l i) [
    | none ↦ (l, refusal)
    | some s ↦ let (s', d) = allow_in p now key s in (set_shard l i s', d)
  ]

  unfoldable pub allow :
      (String → List ℕ) → Limiter f → String → String → Policy → Time → Limiter f × Decision
  allow bytes l tenant_id project_id p now =
      if sle p.requests_per_minute 0 || sle p.burst 0
      then (l, refusal)
      else let key = bucket_key tenant_id project_id in
        allow_at p now key (shard_index bytes key) (sweep_due now l)

unfoldable pub new : {f : Float} → (ℕ → Time) → Limiter f
new clock = new_shards shard_count clock
