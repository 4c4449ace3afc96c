-- ===== src/Base/Sort.antt =====
-- A stable sort by a Boolean order, as sort.SliceStable does it, and how often a list's elements
-- pass a test.
use lite_aig.Base.Tests.{if◌then◌else◌, Bool-cases}
use lite_aig.Base.Lists.{All, take, drop}
use Prim.Native.Nat.{ℕ, zero, suc, ◌+◌}
use mathlib.Core.Path.{◌≡◌, refl}
use mathlib.Core.Logic.{inl, inr}
use mathlib.Core.Bool.{Bool, true, false}
use mathlib.Core.List.{List, [], ◌∷◌, ◌++◌, map}
use native.Mathlib.Omega.{arith}

module _ {ℓ} {A : Type ℓ} where
  unfoldable pub count : (A → Bool) → List A → ℕ
  count p [] = 0
  count p (x ∷ xs) = let rest = count p xs in if p x then suc rest else rest

  pub count-append : (p : A → Bool) (xs ys : List A) → count p (xs ++ ys) ≡ count p xs + count p ys
  unfolding count
  count-append p [] ys = omega arith
  count-append p (x ∷ xs) ys = ground (arith, count-append p xs ys)

module _ {ℓ κ} {A : Type ℓ} {B : Type κ} where
  pub count-map :
      (g : A → B) (q : B → Bool) (xs : List A) → count q (map g xs) ≡ count (λ x. q (g x)) xs
  unfolding count
  count-map g q [] = refl
  count-map g q (x ∷ xs) = ground (arith, count-map g q xs)

module _ {ℓ} {A : Type ℓ} (less : A → A → Bool) where
  -- Before the first element that is not less.
  unfoldable pub insert_sorted : A → List A → List A
  insert_sorted x [] = x ∷ []
  insert_sorted x (y ∷ ys) =
      let rest = insert_sorted x ys in if less y x then y ∷ rest else x ∷ y ∷ ys

  unfoldable pub sort_stable : List A → List A
  sort_stable [] = []
  sort_stable (x ∷ xs) = insert_sorted x (sort_stable xs)

  count-insert_sorted :
      (p : A → Bool) (x : A) (ys : List A) → count p (insert_sorted x ys) ≡ count p (x ∷ ys)
  unfolding insert_sorted count
  count-insert_sorted p x [] = refl
  count-insert_sorted p x (y ∷ ys) = ground (arith, count-insert_sorted p x ys)

  pub count-sort_stable : (p : A → Bool) (xs : List A) → count p (sort_stable xs) ≡ count p xs
  unfolding sort_stable count
  count-sort_stable p [] = refl
  count-sort_stable p (x ∷ xs) =
      ground (arith, count-insert_sorted p x (sort_stable xs), count-sort_stable p xs)

-- What holds of every element is kept by a sort, and by a part of the list.
module _ {ℓ κ} {A : Type ℓ} (P : A → Type κ) where
  insert_sorted-All :
      (less : A → A → Bool) (x : A) (ys : List A) → P x → All P ys → All P (insert_sorted less x ys)
  unfolding insert_sorted
  insert_sorted-All less x [] p h = (p, tt)
  insert_sorted-All less x (y ∷ ys) p h = elim (Bool-cases (less y x)) [
    | inl lt ↦ rw lt (h.0, insert_sorted-All less x ys p h.1)
    | inr ge ↦ rw ge (p, h)
  ]

  pub sort_stable-All : (less : A → A → Bool) (xs : List A) → All P xs → All P (sort_stable less xs)
  unfolding sort_stable
  sort_stable-All less [] h = tt
  sort_stable-All less (x ∷ xs) h =
      insert_sorted-All less x (sort_stable less xs) h.0 (sort_stable-All less xs h.1)

  pub take-All : (n : ℕ) (xs : List A) → All P xs → All P (take n xs)
  take-All zero xs h = tt
  take-All (suc n) [] h = tt
  take-All (suc n) (x ∷ xs) h = (h.0, take-All n xs h.1)

  pub drop-All : (n : ℕ) (xs : List A) → All P xs → All P (drop n xs)
  drop-All zero xs h = h
  drop-All (suc n) [] h = tt
  drop-All (suc n) (x ∷ xs) h = drop-All n xs h.1

-- Each element stands in the relation to the next one.
module _ {ℓ κ} {A : Type ℓ} (R : A → A → Type κ) where
  abbrev pub HeadIn : A → List A → Type κ
  HeadIn x [] = Unit
  HeadIn x (y ∷ ys) = R x y

  abbrev pub IsChain : List A → Type κ
  IsChain [] = Unit
  IsChain (x ∷ xs) = HeadIn x xs × IsChain xs

  module _ (less : A → A → Bool) (before : (x y : A) → less y x ≡ true → R y x)
      (after : (x y : A) → less y x ≡ false → R x y) where
    head_insert : (z x : A) (ys : List A) → R z x → HeadIn z ys → HeadIn z (insert_sorted less x ys)
    unfolding insert_sorted
    head_insert z x [] r h = r
    head_insert z x (y ∷ ys) r h = elim (Bool-cases (less y x)) [
      | inl lt ↦ rw lt h
      | inr ge ↦ rw ge r
    ]

    insert-IsChain : (x : A) (ys : List A) → IsChain ys → IsChain (insert_sorted less x ys)
    unfolding insert_sorted
    insert-IsChain x [] h = (tt, tt)
    insert-IsChain x (y ∷ ys) h = elim (Bool-cases (less y x)) [
      | inl lt ↦ rw lt (head_insert y x ys (before x y lt) h.0, insert-IsChain x ys h.1)
      | inr ge ↦ rw ge (after x y ge, h)
    ]

    pub sort_stable-IsChain : (xs : List A) → IsChain (sort_stable less xs)
    unfolding sort_stable
    sort_stable-IsChain [] = tt
    sort_stable-IsChain (x ∷ xs) = insert-IsChain x (sort_stable less xs) (sort_stable-IsChain xs)
