-- ===== src/Base/Float.antt =====
-- Go's float64 as a type with operations. No law is assumed here: a theorem that needs one names
-- it as a hypothesis. `whole` is an instance for tests, with whole numbers for floats.
use lite_aig.Base.Int.{ℤ, pos, ltb_ℤ, leb_ℤ, sub_ℕ, pos_part, neg_part}
use Prim.Native.Nat.{◌+◌, ◌*◌, ◌/◌}
use mathlib.Core.Bool.{Bool}

pub record Float : Type 1 where
  pub F : Type 0
  pub of_int : ℤ → F
  pub to_int : F → ℤ
  pub add : F → F → F
  pub sub : F → F → F
  pub mul : F → F → F
  pub div : F → F → F
  pub ltb : F → F → Bool
  pub leb : F → F → Bool
  pub max_float : F

abbrev pub whole : Float
whole = record {
  F = ℤ;
  of_int = λ z. z;
  to_int = λ z. z;
  add = λ a b. sub_ℕ (pos_part a + pos_part b) (neg_part a + neg_part b);
  sub = λ a b. sub_ℕ (pos_part a + neg_part b) (neg_part a + pos_part b);
  mul = λ a b.
      sub_ℕ (pos_part a * pos_part b + neg_part a * neg_part b)
        (pos_part a * neg_part b + neg_part a * pos_part b);
  div = λ a b. sub_ℕ (pos_part a / pos_part b) (neg_part a / pos_part b);
  ltb = ltb_ℤ;
  leb = leb_ℤ;
  max_float = pos 9223372036854775807;
}
