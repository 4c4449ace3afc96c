-- ===== src/Rate/Limits.antt =====
-- The limits of internal/policy/rate/limiter.go over any calls.
use lite_aig.Base.{
  ◌+◌, ◌≤◌, ◌<◌, ◌≡◌, refl, sym, subst, Option, none, some, List, [], ◌∷◌, String, str_eq, eq_iff,
  ◌&&◌, ◌||◌, arith, if◌then◌else◌, Bool-cases, inl, inr, All, if_intro,
}
use lite_aig.Base.Assoc.{lookup, insert, lookup-insert}
use lite_aig.Base.Word.{Int64, half, add64, slt, sle, slt_small, add64_fits}
use lite_aig.Base.Clock.{Time}
use lite_aig.Rate.{
  Meter, TpmBucket, new_meter, scope_key, limit_of, same_minute, current_bucket, reserve,
  reconciled, reconcile,
}
use lite_aig.Rate.Window.{reconciled_lem}

pub data Call : Type 0 where
  reserves : String → String → Int64 → Time → Call
  reconciles : String → String → Int64 → Int64 → Time → Call

unfoldable pub step : Meter → Call → Meter
step m (reserves t p estimated now) = (reserve m t p estimated now).0
step m (reconciles t p estimated actual now) = reconcile m t p estimated actual now

unfoldable pub run : Meter → List Call → Meter
run m [] = m
run m (c ∷ cs) = run (step m c) cs

-- A policy that gives a limit to each key.
abbrev pub by_key : (String → Int64) → Option (String → String → Int64)
by_key limit = some (λ t p. limit (scope_key t p))

module _ (limit : String → Int64) where
  -- The numbers of the call do not pass 2 ^ 63, and no more tokens are used than estimated.
  abbrev pub Fits : Call → Type 0
  Fits (reserves t p estimated now) = limit (scope_key t p) + estimated < half
  Fits (reconciles t p estimated actual now) =
      (actual ≤ estimated) × (limit (scope_key t p) + estimated < half)

  -- The bucket uses no more than the limit of its key.
  abbrev Within : String → Option TpmBucket → Type 0
  Within k none = Unit
  Within k (some b) = b.used ≤ limit k

  record IsWithin (m : Meter) : Type 0 where
    by_limit : m.policy ≡ by_key limit
    within : (k : String) → Within k (lookup k m.scopes)

  insert-Within :
      (m : Meter) (k : String) (b : TpmBucket)
      → IsWithin m
      → b.used ≤ limit k
      → IsWithin (record m { scopes = insert k b m.scopes })
  insert-Within m k b h le = record {
    by_limit = h.by_limit;
    within = λ j. subst (Within j) (sym (lookup-insert k j b m.scopes)) (
        if_intro (Within j) (str_eq k j) (some b) (lookup j m.scopes)
          (λ hit. subst (λ (i : String). b.used ≤ limit i) ((eq_iff k j).0 hit) le)
          (λ _. h.within j));
  }

  current-Within :
      (k : String) (o : Option TpmBucket) (now : Time)
      → Within k o
      → (current_bucket o now).used ≤ limit k
  unfolding current_bucket
  current-Within k none now h = omega arith
  current-Within k (some b) now h = ground (arith, h)

  limit_of_key : (m : Meter) (t p : String) → IsWithin m → limit_of m t p ≡ limit (scope_key t p)
  unfolding limit_of
  limit_of_key m t p h = rw (h.by_limit, limit_of) refl

  reserve-IsWithin :
      (m : Meter) (t p : String) (estimated : Int64) (now : Time)
      → limit (scope_key t p) + estimated < half
      → IsWithin m
      → IsWithin (reserve m t p estimated now).0
  unfolding reserve
  reserve-IsWithin m t p estimated now fits h =
      let k = scope_key t p in
      let b = current_bucket (lookup k m.scopes) now in
      let used = current-Within k (lookup k m.scopes) now (h.within k) in
      let limited = limit_of_key m t p h in
      elim (Bool-cases (sle (limit_of m t p) 0 || sle estimated 0)) [
        | inl free ↦ rw free h
        | inr counts ↦
            rw counts (elim (Bool-cases (slt (limit_of m t p) (add64 b.used estimated))) [
              | inl over ↦ rw over (insert-Within m k b h used)
              | inr below ↦ rw below (
                  insert-Within m k (record b { used = add64 b.used estimated }) h
                    (ground (
                      arith,
                      limited,
                      add64_fits b.used estimated,
                      slt_small (limit_of m t p) (b.used + estimated),
                    )))
            ])
      ]

  reconcile-IsWithin :
      (m : Meter) (t p : String) (estimated actual : Int64) (now : Time)
      → actual ≤ estimated
      → limit (scope_key t p) + estimated < half
      → IsWithin m
      → IsWithin (reconcile m t p estimated actual now)
  unfolding reconcile
  reconcile-IsWithin m t p estimated actual now le fits h =
      if_intro IsWithin (sle estimated 0 && sle actual 0) _ _ (λ _. h)
        (λ _. changed (lookup (scope_key t p) m.scopes) (h.within (scope_key t p)))
    where
      changed :
          (o : Option TpmBucket)
          → Within (scope_key t p) o
          → IsWithin (elim o [
            | none ↦ m
            | some b ↦
                if same_minute b.window now
                then record m {
                  scopes =
                      insert
                        (scope_key t p)
                        (record b { used = reconciled b.used estimated actual })
                        m.scopes;
                }
                else m
          ])
      changed none w = h
      changed (some b) w =
          if_intro IsWithin (same_minute b.window now) _ _
            (λ _.
              insert-Within m (scope_key t p)
                (record b { used = reconciled b.used estimated actual }) h
                (omega (
                  arith,
                  reconciled_lem b.used estimated actual (omega arith) (omega arith) (omega arith),
                )))
            (λ _. h)

  run-IsWithin : (m : Meter) (cs : List Call) → All Fits cs → IsWithin m → IsWithin (run m cs)
  unfolding run step
  run-IsWithin m [] fits h = h
  run-IsWithin m (reserves t p estimated now ∷ cs) fits h =
      run-IsWithin (reserve m t p estimated now).0 cs fits.1
        (reserve-IsWithin m t p estimated now fits.0 h)
  run-IsWithin m (reconciles t p estimated actual now ∷ cs) fits h =
      run-IsWithin (reconcile m t p estimated actual now) cs fits.1
        (reconcile-IsWithin m t p estimated actual now fits.0.0 fits.0.1 h)

  -- Where the policy gives a limit to each key, each estimate and its limit stay below 2 ^ 63
  -- together, and no reconciliation has more tokens than its estimate: after any calls on a new
  -- meter, no bucket uses more than the limit of its key.
  pub run-new_meter-within :
      (cs : List Call) (k : String) (b : TpmBucket)
      → All Fits cs
      → lookup k (run (new_meter (by_key limit)) cs).scopes ≡ some b
      → b.used ≤ limit k
  unfolding new_meter lookup
  run-new_meter-within cs k b fits e =
      let start : IsWithin (new_meter (by_key limit)) = record {
        by_limit = refl;
        within = λ j. tt;
      } in
      subst (Within k) e ((run-IsWithin (new_meter (by_key limit)) cs fits start).within k)
