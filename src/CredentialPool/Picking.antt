-- ===== src/CredentialPool/Picking.antt =====
-- `Picker` of internal/resilience/credentialpool/pool.go gives out its order once.
use lite_aig.Base.{
  ℕ, zero, suc, ◌+◌, ◌≤◌, ◌<◌, ◌≡◌, Option-cases, inl, inr, refl, sym, ap, ◌∙◌, Option, none, some,
  List, [], ◌∷◌, String, arith, length, get_elem?, drop,
}
use lite_aig.CredentialPool.{Picker, next}

-- What so many calls of `Next` give, up to the first that finds the order exhausted.
unfoldable pub picks : ℕ → Picker → List String
picks zero p = []
picks (suc n) p =
    let (p', answer) = next p in
    let rest = picks n p' in elim answer [ none ↦ [] | some id ↦ id ∷ rest ]

drop-none : (xs : List String) (i : ℕ) → get_elem? xs i ≡ none → drop i xs ≡ []
drop-none [] zero h = refl
drop-none [] (suc i) h = refl
drop-none (x ∷ xs) zero h = cc
drop-none (x ∷ xs) (suc i) h = drop-none xs i h

drop-some :
    (xs : List String) (i : ℕ) (x : String)
    → get_elem? xs i ≡ some x
    → drop i xs ≡ x ∷ drop (suc i) xs
drop-some [] i x h = cc
drop-some (y ∷ ys) zero x h = let same : y ≡ x = cc in ap (λ z. z ∷ ys) same
drop-some (y ∷ ys) (suc i) x h = drop-some ys i x h

get_elem?_below : (xs : List String) (i : ℕ) (x : String) → get_elem? xs i ≡ some x → i < length xs
get_elem?_below [] i x h = cc
get_elem?_below (y ∷ ys) zero x h = omega arith
get_elem?_below (y ∷ ys) (suc i) x h = omega (arith, get_elem?_below ys i x h)

abbrev at : List String → ℕ → Picker
at order i = record { order = order; index = i }

next-none :
    (order : List String) (i : ℕ)
    → get_elem? order i ≡ none
    → next (at order i) ≡ (at order i, none)
unfolding next
next-none order i h = rw h refl

next-some :
    (order : List String) (i : ℕ) (x : String)
    → get_elem? order i ≡ some x
    → next (at order i) ≡ (at order (suc i), some x)
unfolding next
next-some order i x h = rw h refl

-- The picks after one call of `Next`.
after : ℕ → Picker × Option String → List String
after n (p, none) = []
after n (p, some id) = id ∷ picks n p

picks-suc : (n : ℕ) (p : Picker) → picks (suc n) p ≡ after n (next p)
unfolding picks after
picks-suc n p = by_answer (next p)
  where
    by_answer :
        (r : Picker × Option String)
        → (elim r.1 as (λ _. List String) [ none ↦ [] | some id ↦ id ∷ picks n r.0 ]) ≡ after n r
    by_answer (q, none) = refl
    by_answer (q, some id) = refl

picks-drop :
    (n : ℕ) (order : List String) (i : ℕ)
    → length order ≤ n + i
    → picks (suc n) (at order i) ≡ drop i order
unfolding after
picks-drop zero order i h = elim (Option-cases (get_elem? order i)) [
  | inl e ↦
      picks-suc _ (at order i) ∙ ap (after _) (next-none order i e) ∙ sym (drop-none order i e)
  | inr (x, e) ↦ absurd (omega (arith, h, get_elem?_below order i x e))
]
picks-drop (suc n) order i h = elim (Option-cases (get_elem? order i)) [
  | inl e ↦
      picks-suc _ (at order i) ∙ ap (after _) (next-none order i e) ∙ sym (drop-none order i e)
  | inr (x, e) ↦
      picks-suc (suc n) (at order i)
      ∙ ap (after (suc n)) (next-some order i x e)
      ∙ ap (λ l. x ∷ l) (picks-drop n order (suc i) (omega (arith, h)))
      ∙ sym (drop-some order i x e)
]

-- A new picker gives every credential of its order once, in order, and is then exhausted: one call
-- of `Next` more than there are credentials gives no more.
pub picks_all :
    (order : List String) → picks (suc (length order)) (record { order = order; index = 0 }) ≡ order
picks_all order = picks-drop (length order) order 0 (omega arith)
