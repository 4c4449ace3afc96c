-- ===== src/Budget/Windows.antt =====
-- The ledger of one budget window, and the sum of the estimates that are not settled.
use lite_aig.Base.{
  ◌<◌, ◌≡◌, refl, if◌then◌else◌, none, some, String, Bool, true, false, not, [], ◌∷◌, arith,
}
use lite_aig.Base.Assoc.{Assoc, lookup, insert, retain}
use lite_aig.Base.Word.{Int64, word, add64, sub64}
use lite_aig.Base.Clock.{Time}

pub record ReservationState : Type 0 where
  pub estimate : Int64
  pub final : Bool

pub record Window : Type 0 where
  pub start : Time
  pub reserved : Int64
  pub consumed : Int64
  pub reservations : Assoc ReservationState

-- The estimates of the reservations that are not final, added up.
unfoldable pub open_sum : Assoc ReservationState → Int64
open_sum [] = 0
open_sum ((k, r) ∷ m) = if r.final then open_sum m else add64 r.estimate (open_sum m)

open_sum-lt : (m : Assoc ReservationState) → open_sum m < word
unfolding open_sum add64
open_sum-lt [] = omega arith
open_sum-lt ((k, r) ∷ m) = ground (arith, open_sum-lt m)

pub open_sum-insert_new :
    (id : String) (e : Int64) (m : Assoc ReservationState)
    → lookup id m ≡ none
    → open_sum (insert id (record { estimate = e; final = false }) m) ≡ add64 (open_sum m) e
unfolding open_sum insert lookup add64
open_sum-insert_new id e [] h = omega arith
open_sum-insert_new id e ((k, r) ∷ m) h = ground (arith, open_sum-insert_new id e m, open_sum-lt m)

-- Closing a reservation takes its estimate out of the sum.
pub open_sum-close :
    (id : String) (r : ReservationState) (m : Assoc ReservationState)
    → lookup id m ≡ some r
    → r.final ≡ false
    → r.estimate < word
    → open_sum (insert id (record r { final = true }) m) ≡ sub64 (open_sum m) r.estimate
unfolding open_sum insert lookup add64 sub64
open_sum-close id r [] h f lt = cc
open_sum-close id r ((k, s) ∷ m) h f lt = ground (arith, open_sum-close id r m, open_sum-lt m)

pub open_sum-retain :
    (m : Assoc ReservationState) → open_sum (retain (λ r. not r.final) m) ≡ open_sum m
unfolding open_sum retain
open_sum-retain [] = refl
open_sum-retain ((k, r) ∷ m) = ground (arith, open_sum-retain m)
