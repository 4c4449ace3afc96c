-- ===== src/Coordination/Finality.antt =====
-- A reservation of `MemoryBudgetLedger` of internal/platform/coordination/memory.go is settled once.
use lite_aig.Base.{◌≡◌, refl, ap, ◌∙◌, Option, none, some, [], String, true, false, if◌then◌else◌}
use lite_aig.Base.Assoc.{lookup, insert, lookup-insert_self}
use lite_aig.Base.Float.{Float}
use lite_aig.Routing.Scores.{read}
use lite_aig.Coordination.{
  Held, Ledger, Error, reservation_not_found, already_finalized, tenant_of, put_tenant, change_all,
  put_held, find, finalize, reconcile, release,
}

module _ {f : Float} where
  -- The reservation under an id.
  unfoldable pub held_of : Ledger f → String → String → Option (Held f)
  held_of l t id = lookup id (read [] l.reservations t)

  pub held_of-put :
      (l : Ledger f) (t id : String) (h : Held f) → held_of (put_held l t id h) t id ≡ some h
  unfolding held_of put_held
  held_of-put l t id h =
      ap (λ o. lookup id (elim o [ none ↦ [] | some m ↦ m ]))
        (lookup-insert_self t (insert id h (read [] l.reservations t)) l.reservations)
      ∙ lookup-insert_self id h (read [] l.reservations t)

  found_of : Option (Held f) → Error × Option (Held f)
  found_of o = elim o [
    | none ↦ (reservation_not_found, none)
    | some h ↦ if h.final then (already_finalized, none) else (reservation_not_found, some h)
  ]

  find_lem : (l : Ledger f) (t id : String) → find l t id ≡ found_of (held_of l t id)
  unfolding find found_of held_of
  find_lem l t id = refl

  -- A final reservation is settled no more, whatever the change.
  final_lem :
      (l : Ledger f) (t id : String) (h : Held f) (change : Held f → f.F → f.F)
      → held_of l t id ≡ some h
      → h.final ≡ true
      → finalize l t id change (find l t id) ≡ (l, some already_finalized)
  unfolding finalize found_of
  final_lem l t id h change held final =
      ap (finalize l t id change) (find_lem l t id ∙ ap found_of held) ∙ rw final refl

  settled_lem :
      (l : Ledger f) (t id : String) (h : Held f) (change : Held f → f.F → f.F)
      → held_of l t id ≡ some h
      → h.final ≡ false
      → finalize l t id change (find l t id) ≡ (
        put_held
            (put_tenant l t (change_all f (change h) h.windows (tenant_of l t)))
            t
            id
            (record h { final = true }),
        none,
      )
  unfolding finalize found_of
  settled_lem l t id h change held open_yet =
      ap (finalize l t id change) (find_lem l t id ∙ ap found_of held) ∙ rw open_yet refl

  -- A reservation that is held and not final is settled by `Reconcile` or by `Release` without an
  -- error, and once it is, both of them answer that it is final and change nothing.
  pub settled_once :
      (l : Ledger f) (t id : String) (h : Held f) (actual again : f.F)
      → held_of l t id ≡ some h
      → h.final ≡ false
      → let (l', e) = reconcile l t id actual in
        let (l'', e') = release l t id in
        (e ≡ none)
        × (reconcile l' t id again ≡ (l', some already_finalized))
        × (release l' t id ≡ (l', some already_finalized))
        × (e' ≡ none)
        × (reconcile l'' t id again ≡ (l'', some already_finalized))
        × (release l'' t id ≡ (l'', some already_finalized))
  unfolding reconcile release
  settled_once l t id h actual again held open_yet =
      let done : Held f = record h { final = true } in
      let by = λ (change : Held f → f.F → f.F).
        put_tenant l t (change_all f (change h) h.windows (tenant_of l t)) in
      let a = settled_lem l t id h (λ q v. f.add v (f.sub actual q.estimate)) held open_yet in
      let b = settled_lem l t id h (λ q v. f.sub v q.estimate) held open_yet in
      let reconciled = held_of-put (by (λ q v. f.add v (f.sub actual q.estimate))) t id done in
      let released = held_of-put (by (λ q v. f.sub v q.estimate)) t id done in
      rw (a, b)
        (
          refl,
          final_lem (put_held (by (λ q v. f.add v (f.sub actual q.estimate))) t id done) t id done
              (λ q v. f.add v (f.sub again q.estimate)) reconciled refl,
          final_lem (put_held (by (λ q v. f.add v (f.sub actual q.estimate))) t id done) t id done
              (λ q v. f.sub v q.estimate) reconciled refl,
          refl,
          final_lem (put_held (by (λ q v. f.sub v q.estimate)) t id done) t id done
              (λ q v. f.add v (f.sub again q.estimate)) released refl,
          final_lem (put_held (by (λ q v. f.sub v q.estimate)) t id done) t id done
              (λ q v. f.sub v q.estimate) released refl,
        )
