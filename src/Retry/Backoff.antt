-- ===== src/Retry/Backoff.antt =====
-- `Backoff` of internal/resilience/retry/policy.go is capped exponential backoff.
use Prim.Native.Nat.{min}
use native.Mathlib.Nat.{pow-suc}
use lite_aig.Base.{
  ℕ, zero, suc, ◌+◌, ◌-◌, ◌*◌, ◌^◌, ◌≤◌, ◌<◌, ◌≡◌, sym, ap, ◌∙◌, arith, leb, Bool-cases, inl, inr,
  true, false,
}
use lite_aig.Base.Word.{half, slt_small, sle_small, add64_fits}
use lite_aig.Retry.{Policy, doubled, retry_rounds, backoff}

-- A quarter of the range: twice a smaller number is not negative.
abbrev quarter : ℕ
quarter = 4611686018427387904

leb→le : (a b : ℕ) → leb a b ≡ true → a ≤ b
leb→le a b h = ground arith

leb→lt : (a b : ℕ) → leb a b ≡ false → b < a
leb→lt a b h = ground arith

pow_pos : (n : ℕ) → 1 ≤ 2 ^ n
pow_pos zero = omega arith
pow_pos (suc n) = omega (arith, pow_pos n, pow-suc 2 n)

min-doubled :
    (n value max_backoff : ℕ)
    → value < quarter
    → max_backoff < quarter
    → min max_backoff (doubled n value max_backoff) ≡ min max_backoff (value * 2 ^ n)
unfolding doubled
min-doubled zero value max_backoff h k = omega arith
min-doubled (suc n) value max_backoff h k =
    let twice = value + value in
    let grows : twice ≤ twice * 2 ^ n = grind (arith, pow_pos n) in
    let shift : value * 2 ^ suc n ≡ twice * 2 ^ n =
      omega (arith, ap (λ (t : ℕ). value * t) (pow-suc 2 n)) in
    let small = add64_fits value value (omega arith) in
    let test = sle_small max_backoff twice (omega arith) (omega arith) in
    elim (Bool-cases (leb max_backoff twice)) [
      | inl reached ↦ rw (small, test) (rw reached (omega (arith, leb→le _ _ reached)))
      | inr below ↦
          rw (small, test)
            (rw below (
              min-doubled n twice max_backoff (omega (arith, leb→lt _ _ below)) k
              ∙ ap (min max_backoff) (sym shift)))
    ]

doubled_small :
    (n value max_backoff : ℕ)
    → value < quarter
    → max_backoff < quarter
    → doubled n value max_backoff < quarter
unfolding doubled
doubled_small zero value max_backoff h k = h
doubled_small (suc n) value max_backoff h k = ground (
  arith,
  add64_fits value value,
  sle_small max_backoff (value + value),
  doubled_small n (value + value) max_backoff,
)

retry_rounds_lem : (n : ℕ) → 1 ≤ n → n < half → retry_rounds n ≡ n - 1
unfolding retry_rounds
retry_rounds_lem n low high = ground (arith, sle_small n 1)

-- Where the base, the maximum and the jitter are below 2 ^ 62 nanoseconds, the wait before the n-th
-- retry is the base doubled n - 1 times plus the jitter, or the maximum if that is less.
pub backoff-min :
    (p : Policy) (retry_number jitter : ℕ)
    → p.base_backoff < quarter
    → p.max_backoff < quarter
    → jitter < quarter
    → 1 ≤ retry_number
    → retry_number < half
    → backoff p retry_number jitter
      ≡ min p.max_backoff (p.base_backoff * 2 ^ (retry_number - 1) + jitter)
unfolding backoff
backoff-min p retry_number jitter b m j low high =
    let n = retry_number - 1 in
    let value = doubled n p.base_backoff p.max_backoff in
    let small = doubled_small n p.base_backoff p.max_backoff b m in
    rw
      (
        retry_rounds_lem retry_number low high,
        add64_fits value jitter (omega arith),
        slt_small p.max_backoff (value + jitter) (omega arith) (omega arith),
      )
      (ground (arith, min-doubled n p.base_backoff p.max_backoff b m))
