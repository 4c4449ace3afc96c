-- ===== src/Budget/Limits.antt =====
-- When `Reserve` of internal/finops/budget/manager.go admits, and what the limit then bounds.
use lite_aig.Base.{
  ℕ, ◌+◌, ◌≤◌, ◌<◌, ◌≡◌, ◌≢◌, inl, inr, Bool-cases, ◌&&◌, ◌⊎◌, refl, none, String, str_eq, eq_iff,
  Bool, true, false, arith, ltb, if◌then◌else◌,
}
use lite_aig.Base.Assoc.{lookup, insert, lookup-insert_self}
use lite_aig.Base.Word.{Int64, word, half, add64, slt, slt_small, slt_wrapped, add64_fits}
use lite_aig.Base.Clock.{Time}
use lite_aig.Budget.Windows.{Window}
use lite_aig.Budget.{
  Policy, Manager, ok, err, exceeded, is_valid, sweep_locked, open_window, charge, admit, reserve,
  usage,
}

-- The ledger that a call of `Reserve` finds or opens.
unfoldable pub opened : Manager → Policy → Time → Window
opened m p now = (open_window (sweep_locked m now) p now).1

-- The true total that the ledger would stand at.
abbrev pub total : Window → Int64 → ℕ
total w estimate = w.reserved + w.consumed + estimate

-- The test by which hard mode refuses.
abbrev pub over : Window → Policy → Int64 → Bool
over w p estimate =
    str_eq p.mode "hard" && slt p.token_limit (add64 (add64 w.reserved w.consumed) estimate)

projected_fits :
    (w : Window) (estimate : Int64)
    → total w estimate < word
    → add64 (add64 w.reserved w.consumed) estimate ≡ total w estimate
projected_fits w estimate h =
    ground (arith, add64_fits w.reserved w.consumed, add64_fits (w.reserved + w.consumed) estimate)

is_hard : (p : Policy) → p.mode ≡ "hard" → str_eq p.mode "hard" ≡ true
is_hard p h = (eq_iff p.mode "hard").1 h

is_soft : (p : Policy) → p.mode ≡ "soft" → str_eq p.mode "soft" ≡ true
is_soft p h = (eq_iff p.mode "soft").1 h

not_hard : (p : Policy) → p.mode ≡ "soft" → str_eq p.mode "hard" ≡ false
not_hard p h = rw h

over_hard :
    (w : Window) (p : Policy) (estimate : Int64)
    → p.mode ≡ "hard"
    → p.token_limit < half
    → total w estimate < half
    → over w p estimate ≡ ltb p.token_limit (total w estimate)
over_hard w p estimate hard limit fits =
    rw (is_hard p hard, projected_fits w estimate (omega arith))
      (slt_small p.token_limit (total w estimate) limit fits)

module _ (m : Manager) (p : Policy) (id : String) (estimate : Int64) (t₁ t₂ now : Time)
    (valid : is_valid p id estimate t₁ t₂ ≡ true)
    (unused : lookup id (opened m p now).reservations ≡ none) where
  pub reserve_new :
      let (m', w) = open_window (sweep_locked m now) p now in
      reserve m p id estimate t₁ t₂ now ≡ (
        if over w p estimate then (m', err exceeded) else (
          record m' { windows = insert p.id (charge w id estimate) m'.windows },
          ok (record {
            id = id;
            policy_id = p.id;
            estimated_tokens = estimate;
            warning =
                str_eq p.mode "soft"
                && slt p.token_limit (add64 (add64 w.reserved w.consumed) estimate);
          }),
        ))
  unfolding reserve admit opened
  reserve_new = rw (valid, unused, reserve, admit)

  -- For a valid call in hard mode with an unused id, where the true total is below 2 ^ 63: the
  -- reservation is refused exactly if the total would pass the limit, and otherwise the counters
  -- then stand at that total.
  pub reserve_hard :
      p.token_limit < half
      → p.mode ≡ "hard"
      → total (opened m p now) estimate < half
      → let (m', r) = reserve m p id estimate t₁ t₂ now in
        let (reserved, consumed) = usage m' p.id in
        ((r ≡ err exceeded) × (p.token_limit < total (opened m p now) estimate))
        ⊎ ((r ≢ err exceeded)
            × (reserved + consumed ≡ total (opened m p now) estimate)
            × (reserved + consumed ≤ p.token_limit))
  unfolding opened usage charge
  reserve_hard limit hard fits =
      let (m', w) = open_window (sweep_locked m now) p now in
      let test = over_hard w p estimate hard limit fits in
      let stored = lookup-insert_self p.id (charge w id estimate) m'.windows in
      elim (Bool-cases (over w p estimate)) [
        | inl refused ↦ rw reserve_new (rw refused (inl (refl, ground (arith, test))))
        | inr admitted ↦
            rw reserve_new
              (rw admitted (ground (arith, test, stored, add64_fits w.reserved estimate)))
      ]

  -- The sum wraps: where the true total is at least 2 ^ 63 and below 2 ^ 64, so above every limit,
  -- a valid call in hard mode with an unused id is not refused.
  pub reserve_hard_overflow :
      p.token_limit < half
      → p.mode ≡ "hard"
      → half ≤ total (opened m p now) estimate
      → total (opened m p now) estimate < word
      → (p.token_limit < total (opened m p now) estimate)
        × ((reserve m p id estimate t₁ t₂ now).1 ≢ err exceeded)
  unfolding opened
  reserve_hard_overflow limit hard large fits =
      let w = (open_window (sweep_locked m now) p now).1 in
      let admitted : over w p estimate ≡ false =
        rw (is_hard p hard, projected_fits w estimate fits)
          (slt_wrapped p.token_limit (total w estimate) limit large fits) in
      (omega arith, rw reserve_new (rw admitted (ground arith)))

  -- A valid call in soft mode with an unused id is never refused; where the true total is below
  -- 2 ^ 63, the warning says whether the total passes the limit, and the counters stand at it.
  pub reserve_soft :
      p.token_limit < half
      → p.mode ≡ "soft"
      → total (opened m p now) estimate < half
      → let (m', r) = reserve m p id estimate t₁ t₂ now in
        let (reserved, consumed) = usage m' p.id in
        (r
          ≡ ok (record {
            id = id;
            policy_id = p.id;
            estimated_tokens = estimate;
            warning = ltb p.token_limit (total (opened m p now) estimate);
          }))
        × (reserved + consumed ≡ total (opened m p now) estimate)
  unfolding opened usage charge
  reserve_soft limit soft fits =
      let (m', w) = open_window (sweep_locked m now) p now in
      let stored = lookup-insert_self p.id (charge w id estimate) m'.windows in
      let test : slt p.token_limit (add64 (add64 w.reserved w.consumed) estimate)
          ≡ ltb p.token_limit (total w estimate) =
        rw (projected_fits w estimate (omega arith))
          (slt_small p.token_limit (total w estimate) limit fits) in
      let admitted : over w p estimate ≡ false = rw (not_hard p soft) in
      rw reserve_new (
        rw admitted (
          rw (is_soft p soft, test) (refl, ground (arith, stored, add64_fits w.reserved estimate))))
