-- ===== src/Approval/Distinct.antt =====
-- Approvers that differ, as internal/controlplane/approval/approval.go collects them.
use lite_aig.Base.{
  ◌≡◌, refl, List, [], ◌∷◌, ◌++◌, String, str_eq, eq_iff, true, false, ◌||◌, arith, contains,
  is_distinct,
}

contains-append :
    (xs : List String) (a s : String) → contains (xs ++ a ∷ []) s ≡ contains xs s || str_eq a s
unfolding contains
contains-append [] a s = ground arith
contains-append (x ∷ xs) a s = ground (arith, contains-append xs a s)

pub contains-append_ne :
    (xs : List String) (a s : String)
    → contains xs s ≡ false
    → str_eq a s ≡ false
    → contains (xs ++ a ∷ []) s ≡ false
contains-append_ne xs a s h k = rw (contains-append xs a s, h, k) refl

pub is_distinct-append :
    (xs : List String) (a : String)
    → is_distinct xs ≡ true
    → contains xs a ≡ false
    → is_distinct (xs ++ a ∷ []) ≡ true
unfolding is_distinct contains
is_distinct-append [] a h k = refl
is_distinct-append (x ∷ xs) a h k =
    ground (arith, eq_iff x a, eq_iff a x, contains-append xs a x, is_distinct-append xs a)
