-- ===== src/Lease/Capacity.antt =====
-- The capacity of a scope of internal/platform/coordination/memory.go.
use lite_aig.Base.{
  ℕ, ◌≤◌, ◌<◌, ◌≢◌, refl, sym, subst, inl, inr, ◌⊎◌, Option, none, some, List, [], ◌∷◌, String,
  str_eq, eq_iff, arith, All, is_some, length, Bool-cases, some_of_is_some, ltb, if_intro,
  false≢true, ◌∙◌,
}
use lite_aig.Base.Assoc.{
  lookup, IsMap, insert-IsMap, retain-IsMap, delete-IsMap, length-insert-le, length-insert_old,
  length-retain-le, length-delete-le,
}
use lite_aig.Base.Word.{Int64, half, slt, slt_small}
use lite_aig.Base.Clock.{Time, Duration, add_time}
use lite_aig.Lease.{Leases, Coordinator, new, leases_of, prune, take_lease}
use lite_aig.Lease.Scopes.{
  Call, acquires, renews, releases, cleans, step, change, leases_of-step, leases_of-step_ne,
}

-- No id is leased twice, and there are no more leases than the capacity.
pub record IsWithin (capacity : ℕ) (l : Leases) : Type 0 where
  pub distinct : IsMap l
  pub bounded : length l ≤ capacity

-- The call asks for no more than this capacity, if it acquires in the scope.
abbrev pub Asks : String → ℕ → String × Call → Type 0
Asks scope capacity (other, acquires c ttl now id) = (other ≢ scope) ⊎ (c ≤ capacity)
Asks scope capacity (other, _) = Unit

AsksHere : ℕ → Call → Type 0
AsksHere capacity (acquires c ttl now id) = c ≤ capacity
AsksHere capacity _ = Unit

prune-IsWithin : (n : ℕ) (l : Leases) (now : Time) → IsWithin n l → IsWithin n (prune l now)
unfolding prune
prune-IsWithin n l now h = record {
  distinct = retain-IsMap _ l h.distinct;
  bounded = omega (arith, length-retain-le (λ expiry. ltb now expiry) l, h.bounded);
}

take_lease-IsWithin :
    (n : ℕ) (l : Leases) (c : Int64) (ttl : Duration) (now : Time) (id : Option String)
    → n < half
    → c ≤ n
    → IsWithin n l
    → IsWithin n (take_lease l c ttl now id).0
unfolding take_lease
take_lease-IsWithin n l c ttl now none small le h = ground (arith, h)
take_lease-IsWithin n l c ttl now (some i) small le h =
    let grown = length-insert-le i (add_time now ttl) l in
    let distinct' = insert-IsMap i (add_time now ttl) l h.distinct in
    elim (Bool-cases (slt (length l) c)) [
      | inl room ↦ rw room (record {
        distinct = distinct';
        bounded = ground (arith, grown, slt_small (length l) c, h.bounded);
      })
      | inr full ↦ rw full h
    ]

change-IsWithin :
    (n : ℕ) (l : Leases) (c : Call)
    → n < half
    → AsksHere n c
    → IsWithin n l
    → IsWithin n (change l c)
unfolding change AsksHere
change-IsWithin n l (acquires c ttl now id) small a h =
    take_lease-IsWithin n (prune l now) c ttl now id small a (prune-IsWithin n l now h)
change-IsWithin n l (renews id ttl now) small a h =
    let h' = prune-IsWithin n l now h in
    let l' = prune l now in
    if_intro (IsWithin n) (is_some (lookup id l')) _ _
      (λ held.
        let (w, e) = some_of_is_some (lookup id l') held in
        record {
          distinct = insert-IsMap id (add_time now ttl) l' h'.distinct;
          bounded = omega (arith, length-insert_old id (add_time now ttl) w l' e, h'.bounded);
        })
      (λ _. h')
change-IsWithin n l (releases id) small a h = record {
  distinct = delete-IsMap id l h.distinct;
  bounded = omega (arith, length-delete-le id l, h.bounded);
}
change-IsWithin n l (cleans now) small a h = prune-IsWithin n l now h

asks_here : (scope : String) (n : ℕ) (c : Call) → Asks scope n (scope, c) → AsksHere n c
unfolding AsksHere
asks_here scope n (acquires c ttl now id) (inl ne) = absurd (ne refl)
asks_here scope n (acquires c ttl now id) (inr le) = le
asks_here scope n (renews id ttl now) a = tt
asks_here scope n (releases id) a = tt
asks_here scope n (cleans now) a = tt

unfoldable pub run : Coordinator → List (String × Call) → Coordinator
run m [] = m
run m (c ∷ cs) = run (step m c) cs

run-IsWithin :
    (scope : String) (n : ℕ) (m : Coordinator) (cs : List (String × Call))
    → n < half
    → All (Asks scope n) cs
    → IsWithin n (leases_of m scope)
    → IsWithin n (leases_of (run m cs) scope)
unfolding run
run-IsWithin scope n m [] small a h = h
run-IsWithin scope n m ((other, c) ∷ cs) small a h =
    run-IsWithin scope n (step m (other, c)) cs small a.1 (elim (Bool-cases (str_eq other scope)) [
      | inl test ↦
          let same = (eq_iff other scope).0 test in
          subst (λ s. IsWithin n (leases_of (step m (s, c)) scope)) (sym same)
            (rw (leases_of-step m scope c) (
              change-IsWithin n (leases_of m scope) c small
                (asks_here scope n c (subst (λ s. Asks scope n (s, c)) same a.0)) h))
      | inr test ↦
          rw
            (leases_of-step_ne m other scope c
              (λ e. false≢true (sym test ∙ (eq_iff other scope).1 e)))
            h
    ])

-- After any calls on a new coordinator, if every call that acquires in a scope asks for at most
-- the same capacity, the scope has no more leases than that, each under an id of its own.
pub run-new-IsWithin :
    (scope : String) (capacity : ℕ) (cs : List (String × Call))
    → capacity < half
    → All (Asks scope capacity) cs
    → IsWithin capacity (leases_of (run new cs) scope)
unfolding new lookup
run-new-IsWithin scope capacity cs small a =
    run-IsWithin scope capacity new cs small a (record { distinct = tt; bounded = omega arith })
