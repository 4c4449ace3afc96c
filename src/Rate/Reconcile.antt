-- ===== src/Rate/Reconcile.antt =====
-- What `Reconcile` of internal/policy/rate/limiter.go makes of a reservation, in its minute and
-- after it.
use lite_aig.Base.{
  ◌+◌, ◌-◌, ◌≤◌, ◌<◌, ◌≡◌, refl, sym, ap, ◌∙◌, some, String, true, false, ◌&&◌, arith, ltb,
  Bool-cases, inl, inr, false≢true,
}
use lite_aig.Base.Assoc.{lookup, insert, lookup-insert_self}
use lite_aig.Base.Word.{Int64, half, add64, sle, sle_small, add64_fits}
use lite_aig.Base.Clock.{Time}
use lite_aig.Rate.{
  Meter, TpmBucket, scope_key, limit_of, same_minute, current_bucket, reserve, reconciled,
  reconcile,
}
use lite_aig.Rate.Window.{same_minute_trans, same_minute_sym, reconciled_lem}
use lite_aig.Rate.Usage.{usage, usage-stored, counted, passes, current_bucket-window}

-- The bucket that an admitted reservation leaves.
reserve-lookup :
    (m : Meter) (t p : String) (estimated : Int64) (now : Time)
    → 0 < limit_of m t p
    → limit_of m t p < half
    → 0 < estimated
    → usage m t p now + estimated ≤ limit_of m t p
    → let b = current_bucket (lookup (scope_key t p) m.scopes) now in
      lookup (scope_key t p) (reserve m t p estimated now).0.scopes
      ≡ some (record b { used = usage m t p now + estimated })
unfolding reserve usage
reserve-lookup m t p estimated now pos_limit limit pos_estimate fits =
    let b = current_bucket (lookup (scope_key t p) m.scopes) now in
    let within : ltb (limit_of m t p) (usage m t p now + estimated) ≡ false = ground arith in
    rw (counted m t p estimated now pos_limit limit pos_estimate (omega arith)) (
      rw (passes m t p estimated now pos_limit limit pos_estimate (omega arith) ∙ within) (
        lookup-insert_self (scope_key t p) (record b { used = add64 b.used estimated }) m.scopes
        ∙ ap (λ u. some (record b { used = u })) (add64_fits b.used estimated (omega arith))))

-- The use after a reconciliation of a positive estimate, in the minute of the bucket.
usage-reconcile :
    (m : Meter) (t p : String) (estimated actual : Int64) (b : TpmBucket) (now : Time)
    → lookup (scope_key t p) m.scopes ≡ some b
    → same_minute b.window now ≡ true
    → 0 < estimated
    → estimated < half
    → b.used + actual < half
    → usage (reconcile m t p estimated actual now) t p now ≡ b.used + actual - estimated
unfolding reconcile
usage-reconcile m t p estimated actual b now stored h pos_estimate small fits =
    let counts : (sle estimated 0 && sle actual 0) ≡ false =
      rw (sle_small estimated 0 small (omega arith)) (ground arith) in
    let b' : TpmBucket = record b { used = reconciled b.used estimated actual } in
    rw counts (
      rw (stored) (
        rw h (
          usage-stored (record m { scopes = insert (scope_key t p) b' m.scopes }) t p b' now
            (lookup-insert_self (scope_key t p) b' m.scopes) h
          ∙ reconciled_lem b.used estimated actual (omega arith) small fits)))

-- In the minute of the reservation: where the use with the estimate is within a positive limit
-- below 2 ^ 63, and the numbers stay below 2 ^ 63, `Reserve` and then `Reconcile` in the same
-- minute leave the use as it was before, and the actual tokens on top.
pub reconcile-reserve :
    (m : Meter) (t p : String) (estimated actual : Int64) (now later : Time)
    → 0 < limit_of m t p
    → limit_of m t p < half
    → 0 < estimated
    → usage m t p now + estimated ≤ limit_of m t p
    → usage m t p now + estimated + actual < half
    → same_minute now later ≡ true
    → usage (reconcile (reserve m t p estimated now).0 t p estimated actual later) t p later
      ≡ usage m t p now + actual
reconcile-reserve m t p estimated actual now later pos_limit limit pos_estimate fits small same =
    let b = current_bucket (lookup (scope_key t p) m.scopes) now in
    usage-reconcile (reserve m t p estimated now).0 t p estimated actual
      (record b { used = usage m t p now + estimated }) later
      (reserve-lookup m t p estimated now pos_limit limit pos_estimate fits)
      (same_minute_trans b.window now later
        (current_bucket-window (lookup (scope_key t p) m.scopes) now) same)
      pos_estimate (omega arith) small
    ∙ omega arith

-- The use in a minute that is not the one of the bucket.
usage-stale :
    (m : Meter) (t p : String) (b : TpmBucket) (now : Time)
    → lookup (scope_key t p) m.scopes ≡ some b
    → same_minute b.window now ≡ false
    → usage m t p now ≡ 0
unfolding usage current_bucket
usage-stale m t p b now stored h = ap (λ o. (current_bucket o now).used) stored ∙ rw h refl

limit_of-reserve :
    (m : Meter) (t p : String) (estimated : Int64) (now : Time)
    → limit_of (reserve m t p estimated now).0 t p ≡ limit_of m t p
unfolding reserve limit_of
limit_of-reserve m t p estimated now = ground arith

-- After its minute a reservation is reconciled against the reservations of another minute: where
-- both of two reservations, in two minutes, have positive estimates and are within a positive limit
-- below 2 ^ 63, the second estimate and the first's actual tokens together stay below 2 ^ 63, and
-- the first one is reconciled in the minute of the second, the use of that minute is the second
-- estimate plus the first's actual tokens, less the first estimate (and at least 0), although
-- only the second was reserved in it.
pub reconcile_next_minute :
    (m : Meter) (t p : String) (first second actual : Int64) (now later : Time)
    → 0 < limit_of m t p
    → limit_of m t p < half
    → 0 < first
    → usage m t p now + first ≤ limit_of m t p
    → 0 < second
    → second ≤ limit_of m t p
    → second + actual < half
    → same_minute now later ≡ false
    → let m' = (reserve m t p first now).0 in
      let m'' = (reserve m' t p second later).0 in
      (usage m'' t p later ≡ second)
      × (usage (reconcile m'' t p first actual later) t p later ≡ second + actual - first)
reconcile_next_minute m t p first second actual now later pos_limit limit pos_first fits pos_second
      within small apart =
    (
      usage-stored m'' t p b'' later held window ∙ raised,
      usage-reconcile m'' t p first actual b'' later held window pos_first (omega arith)
            (omega (arith, raised))
          ∙ omega (arith, raised),
    )
  where
    m' : Meter
    m' = (reserve m t p first now).0

    m'' : Meter
    m'' = (reserve m' t p second later).0

    b : TpmBucket
    b = current_bucket (lookup (scope_key t p) m.scopes) now

    opened : same_minute b.window later ≡ false
    opened = not_same b.window (current_bucket-window (lookup (scope_key t p) m.scopes) now)
      where
        not_same : (w : Time) → same_minute w now ≡ true → same_minute w later ≡ false
        not_same w h = elim (Bool-cases (same_minute w later)) [
          | inl k ↦
              absurd
                (false≢true (sym apart ∙ same_minute_trans now w later (same_minute_sym w now h) k))
          | inr k ↦ k
        ]

    stale : usage m' t p later ≡ 0
    stale =
        usage-stale m' t p (record b { used = usage m t p now + first }) later
          (reserve-lookup m t p first now pos_limit limit pos_first fits) opened

    kept : limit_of m' t p ≡ limit_of m t p
    kept = limit_of-reserve m t p first now

    b'' : TpmBucket
    b'' = record (current_bucket (lookup (scope_key t p) m'.scopes) later) {
      used = usage m' t p later + second;
    }

    raised : b''.used ≡ second
    raised = omega (arith, stale)

    held : lookup (scope_key t p) m''.scopes ≡ some b''
    held =
        reserve-lookup m' t p second later (omega (arith, kept)) (omega (arith, kept)) pos_second
          (omega (arith, kept, stale))

    window : same_minute b''.window later ≡ true
    window = current_bucket-window (lookup (scope_key t p) m'.scopes) later
