-- ===== src/Coordination/Windows.antt =====
-- `Reserve` of internal/platform/coordination/memory.go books all windows or none.
use lite_aig.Base.{
  ◌≡◌, ◌≢◌, refl, sym, ap, ◌∙◌, none, some, List, [], ◌∷◌, String, str_eq, eq_iff, Bool, true,
  false, ◌&&◌, arith, if◌then◌else◌, Bool-cases, inl, inr, ◌⊎◌, false≢true, contains, is_distinct,
}
use lite_aig.Base.Assoc.{Assoc, insert, lookup-insert, lookup-insert_self}
use lite_aig.Base.Int.{pos}
use lite_aig.Base.Float.{Float}
use lite_aig.Coordination.{
  BudgetWindow, ReserveRequest, Ledger, Answer, reserved, refused, invalid, tenant_of, put_tenant,
  value_of, is_window, has_room, check_windows, keys_of, change_all, put_held, book, conclude,
  reserve,
}

-- Every window is valid and has room.
unfoldable pub all_fit : {f : Float} → Assoc f.F → f.F → List (BudgetWindow f) → Bool
all_fit tenant estimate [] = true
all_fit tenant estimate (w ∷ ws) =
    let rest = all_fit tenant estimate ws in is_window w && has_room tenant estimate w && rest

module _ (f : Float) where
  value_of-insert :
      (k j : String) (v : f.F) (m : Assoc f.F)
      → value_of f (insert k v m) j ≡ (if str_eq k j then v else value_of f m j)
  unfolding value_of
  value_of-insert k j v m = ground (arith, lookup-insert k j v m)

  -- A change of distinct windows changes each of them once, and no other.
  value_of-change_all :
      (g : f.F → f.F) (ks : List String) (m : Assoc f.F) (j : String)
      → is_distinct ks ≡ true
      → value_of f (change_all f g ks m) j
        ≡ (if contains ks j then g (value_of f m j) else value_of f m j)
  unfolding change_all is_distinct contains
  value_of-change_all g [] m j h = refl
  value_of-change_all g (k ∷ ks) m j h = ground (
    arith,
    eq_iff k j,
    value_of-insert k j (g (value_of f m k)) m,
    value_of-change_all g ks (insert k (g (value_of f m k)) m) j,
  )

  tenant_of-put : (l : Ledger f) (t : String) (m : Assoc f.F) → tenant_of (put_tenant l t m) t ≡ m
  unfolding tenant_of put_tenant
  tenant_of-put l t m =
      ap (λ o. elim o [ none ↦ [] | some a ↦ a ]) (lookup-insert_self t m l.windows)

  check_windows-all_fit :
      (tenant : Assoc f.F) (estimate : f.F) (ws : List (BudgetWindow f))
      → all_fit tenant estimate ws ≡ true
      → check_windows tenant estimate ws ≡ reserved
  unfolding check_windows all_fit
  check_windows-all_fit tenant estimate [] h = refl
  check_windows-all_fit tenant estimate (w ∷ ws) h =
      ground (arith, check_windows-all_fit tenant estimate ws)

  check_windows-refused :
      (tenant : Assoc f.F) (estimate : f.F) (ws : List (BudgetWindow f))
      → all_fit tenant estimate ws ≡ false
      → check_windows tenant estimate ws ≢ reserved
  unfolding check_windows all_fit
  check_windows-refused tenant estimate [] h = absurd (false≢true (sym h))
  check_windows-refused tenant estimate (w ∷ ws) h =
      ground (arith, check_windows-refused tenant estimate ws)

  tenant_of-book :
      (l : Ledger f) (r : ReserveRequest f)
      → tenant_of (book l r) r.tenant_id
        ≡ change_all f (λ v. f.add v r.estimate) (keys_of r.windows) (tenant_of l r.tenant_id)
  unfolding book put_held put_tenant insert tenant_of
  tenant_of-book l r = tenant_of-put l r.tenant_id _

  -- All windows or none: a request with an id, an estimate that is not negative and windows with
  -- different keys is reserved exactly if every window is valid and has room for the estimate.
  -- Every window of the request then has the estimate more, and the tenant's other windows are as
  -- they were; and if it is not reserved, all the tenant's windows are as they were.
  pub reserve_all_or_none :
      (l : Ledger f) (r : ReserveRequest f) (key : String)
      → str_eq r.reservation_id "" ≡ false
      → f.ltb r.estimate (f.of_int (pos 0)) ≡ false
      → is_distinct (keys_of r.windows) ≡ true
      → let (l', answer) = reserve l r in
        let before = value_of f (tenant_of l r.tenant_id) key in
        let after = value_of f (tenant_of l' r.tenant_id) key in
        let fits = all_fit (tenant_of l r.tenant_id) r.estimate r.windows in
        ((fits ≡ true)
          × (answer ≡ reserved)
          × (after
              ≡ (if contains (keys_of r.windows) key then f.add before r.estimate else before)))
        ⊎ ((fits ≡ false) × (answer ≢ reserved) × (after ≡ before))
  unfolding reserve conclude
  reserve_all_or_none l r key named counts distinct = rw named (
      rw counts (elim (Bool-cases (all_fit (tenant_of l r.tenant_id) r.estimate r.windows)) [
        | inl fits ↦ inl (
            rw (check_windows-all_fit (tenant_of l r.tenant_id) r.estimate r.windows fits)
              (fits, booked.0, booked.1))
        | inr short ↦ inr (
            let (answered, kept) =
              unbooked (check_windows (tenant_of l r.tenant_id) r.estimate r.windows)
                (check_windows-refused (tenant_of l r.tenant_id) r.estimate r.windows short) in
            (short, answered, kept))
      ]))
    where
      before : f.F
      before = value_of f (tenant_of l r.tenant_id) key

      booked :
          ((conclude l r reserved).1 ≡ reserved)
          × (value_of f (tenant_of (conclude l r reserved).0 r.tenant_id) key
              ≡ (if contains (keys_of r.windows) key then f.add before r.estimate else before))
      booked = (
        refl,
        ap (λ m. value_of f m key) (tenant_of-book l r)
            ∙ value_of-change_all (λ v. f.add v r.estimate) (keys_of r.windows)
                (tenant_of l r.tenant_id) key distinct,
      )

      unbooked :
          (a : Answer)
          → a ≢ reserved
          → ((conclude l r a).1 ≢ reserved)
            × (value_of f (tenant_of (conclude l r a).0 r.tenant_id) key ≡ before)
      unbooked reserved h = absurd (h refl)
      unbooked refused h =
          (h, ap (λ m. value_of f m key) (tenant_of-put l r.tenant_id (tenant_of l r.tenant_id)))
      unbooked (invalid e) h =
          (h, ap (λ m. value_of f m key) (tenant_of-put l r.tenant_id (tenant_of l r.tenant_id)))
