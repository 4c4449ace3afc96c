-- ===== src/Enforcer/Shared.antt =====
-- internal/app/budgetenforcer.go over the ledger in memory of
-- internal/platform/coordination/memory.go.
use lite_aig.Base.{
  ◌≡◌, refl, Option, none, some, [], ◌∷◌, String, str_eq, true, false, ◌||◌, Bool-cases, inl, inr,
}
use lite_aig.Base.Int.{pos}
use lite_aig.Base.Word.{Int64, signed}
use lite_aig.Base.Clock.{Time}
use lite_aig.Base.Float.{Float}
use lite_aig.Budget
use lite_aig.Budget.{Policy, Reservation}
use lite_aig.Coordination
use lite_aig.Coordination.{
  ReserveRequest, Ledger, Held, reserved, refused, invalid, book, conclude, check_windows,
  tenant_of, keys_of,
}
use lite_aig.Coordination.Finality.{held_of, held_of-put}
use lite_aig.Enforcer.{
  Enforcer, err, slice_overshoot, record_tenant, roll_back, note_answer, on_slice, admit_slice,
  on_answer, after_manager, reserve, put_entry, fail_mode, request_of, distributed_windows,
  window_key,
}
use lite_aig.Enforcer.Slices
use lite_aig.Enforcer.Slices.{Authority}
use lite_aig.Enforcer.FailMode.{BudgetLedger, ReserveResult, apply_mode, reserve_in_mode}

-- The result and the error that an answer of the ledger in memory stands for.
unfoldable pub to_result :
    {f : Float}
    → Ledger f × Coordination.Answer
    → Ledger f × ReserveResult × Option Coordination.Error
to_result (l, reserved) = (l, record { reserved = true; active = 0; degraded = false }, none)
to_result (l, refused) = (l, record { reserved = false; active = 0; degraded = false }, none)
to_result (l, invalid e) = (l, record { reserved = false; active = 0; degraded = false }, some e)

-- The ledger in memory as the interface; it can always be reached, and its `Sweep` does nothing.
unfoldable pub in_memory : {f : Float} → BudgetLedger f (Ledger f) Coordination.Error
in_memory = record {
  reserve = λ l r. to_result (Coordination.reserve l r);
  reconcile = Coordination.reconcile;
  release = Coordination.release;
  sweep = λ l tenant limit. (l, 0, none);
  is_unavailable = λ e. false;
}

module _ {f : Float} (l : Ledger f) (r : ReserveRequest f) where
  held : Held f
  held = record { estimate = r.estimate; windows = keys_of r.windows; final = false }

  conclude-held :
      (a : Coordination.Answer)
      → (conclude l r a).1 ≡ reserved
      → held_of (conclude l r a).0 r.tenant_id r.reservation_id ≡ some held
  unfolding conclude book held
  conclude-held reserved h = held_of-put _ r.tenant_id r.reservation_id held
  conclude-held refused h = cc
  conclude-held (invalid e) h = cc

  -- What the ledger in memory has reserved, it holds.
  reserve-held :
      (Coordination.reserve l r).1 ≡ reserved
      → held_of (Coordination.reserve l r).0 r.tenant_id r.reservation_id ≡ some held
  unfolding Coordination.reserve
  reserve-held =
      elim (Bool-cases (str_eq r.reservation_id "" || f.ltb r.estimate (f.of_int (pos 0)))) [
        | inl bad ↦ rw (bad, Coordination.reserve) (λ h. cc)
        | inr fine ↦
            rw (fine, Coordination.reserve)
              (conclude-held (check_windows (tenant_of l r.tenant_id) r.estimate r.windows))
      ]

module _ {f : Float} {L E : Type 0} (api : BudgetLedger f L E) (stamp : Time → String) where
  on_slice-distributed :
      (e : Enforcer f L) (p : Policy) (id : String) (r : Reservation)
      (s : Authority f × Slices.Admission)
      → (on_slice api stamp e p id r s).0.distributed ≡ e.distributed
  unfolding on_slice roll_back put_entry
  on_slice-distributed e p id r (b, Slices.admitted) = refl
  on_slice-distributed e p id r (b, Slices.overshoot) = refl

  admit_slice-distributed :
      (e : Enforcer f L) (p : Policy) (id : String) (estimate : Int64) (r : Reservation)
      → (admit_slice api stamp e p id estimate r).0.distributed ≡ e.distributed
  unfolding admit_slice
  admit_slice-distributed e p id estimate r = elim (Bool-cases (str_eq p.consistency "")) [
    | inl plain ↦ rw (plain, admit_slice) refl
    | inr sliced ↦ rw (sliced, admit_slice) (on_slice-distributed e p id r _)
  ]

module _ {f : Float} (stamp : Time → String) (p : Policy) (id : String) (estimate : Int64) where
  -- A run that ends in an overshoot has passed the shared ledger, and leaves it as it was then.
  overshoot-distributed :
      (e : Enforcer f (Ledger f)) (r : Reservation) (t : Ledger f × Coordination.Answer)
      → (on_answer in_memory stamp e p id estimate r
          (apply_mode in_memory (fail_mode (in_memory {f = f}) stamp p) (to_result t))).1
        ≡ err slice_overshoot
      → (t.1 ≡ reserved)
        × ((on_answer in_memory stamp e p id estimate r (
              apply_mode in_memory
                (fail_mode (in_memory {f = f}) stamp p)
                (to_result t))).0.distributed
            ≡ some t.0)
  unfolding on_answer note_answer apply_mode to_result in_memory
  overshoot-distributed e r (l, reserved) h =
      (refl, admit_slice-distributed in_memory stamp _ p id estimate r)
  overshoot-distributed e r (l, refused) h = cc
  overshoot-distributed e r (l, invalid x) h = cc

  after_manager_overshoot :
      (e : Enforcer f (Ledger f)) (l : Ledger f) (r : Budget.Result Reservation)
      → e.distributed ≡ some l
      → (after_manager in_memory stamp e p id estimate r).1 ≡ err slice_overshoot
      → let t = Coordination.reserve l (request_of (in_memory {f = f}) stamp p id estimate) in
        (t.1 ≡ reserved)
        × ((after_manager in_memory stamp e p id estimate r).0.distributed ≡ some t.0)
  unfolding after_manager reserve_in_mode in_memory to_result
  after_manager_overshoot e l (Budget.err x) shared = λ h. cc
  after_manager_overshoot e l (Budget.ok r) shared =
      rw (shared, after_manager)
        (overshoot-distributed e r
          (Coordination.reserve l (request_of (in_memory {f = f}) stamp p id estimate)))

  -- A `Reserve` that the region's slice refuses leaves its estimate in the shared ledger: there the
  -- reservation is still held, and not final, although the caller got an error.
  pub reserve_overshoot_held :
      (e : Enforcer f (Ledger f)) (l : Ledger f) (t₁ t₂ now : Time)
      → e.distributed ≡ some l
      → (reserve in_memory stamp e p id estimate t₁ t₂ now).1 ≡ err slice_overshoot
      → (l' : Ledger f) × ((reserve in_memory stamp e p id estimate t₁ t₂ now).0.distributed
          ≡ some l')
        × (held_of l' p.tenant_id id
            ≡ some (record {
              estimate = f.of_int (signed estimate);
              windows = window_key (in_memory {f = f}) stamp p ∷ [];
              final = false;
            }))
  unfolding reserve record_tenant held request_of distributed_windows keys_of
  reserve_overshoot_held e l t₁ t₂ now shared refuses =
      let (m, r) = Budget.reserve e.manager p id estimate t₁ t₂ now in
      let e' : Enforcer f (Ledger f) = record (record_tenant e p.id p.tenant_id) { manager = m } in
      let (passed, kept) = after_manager_overshoot e' l r shared refuses in
      let request = request_of (in_memory {f = f}) stamp p id estimate in
      ((Coordination.reserve l request).0, kept, reserve-held l request passed)
