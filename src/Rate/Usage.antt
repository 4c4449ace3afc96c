-- ===== src/Rate/Usage.antt =====
-- What the meter of internal/policy/rate/limiter.go says is used in the minute, after its calls.
use lite_aig.Base.{
  ◌+◌, ◌<◌, ◌≡◌, refl, sym, ap, ◌∙◌, Option, none, some, String, true, false, not, ◌||◌, arith, ltb,
  if◌then◌else◌, Bool-cases, inl, inr,
}
use lite_aig.Base.Assoc.{lookup, insert, lookup-insert_self}
use lite_aig.Base.Word.{Int64, half, add64, slt, sle, slt_small, sle_small, add64_fits}
use lite_aig.Base.Clock.{Time}
use lite_aig.Rate.{Meter, TpmBucket, scope_key, limit_of, same_minute, current_bucket, reserve}
use lite_aig.Rate.Window.{same_minute_refl}

-- The tokens that count in the minute of `now`.
unfoldable pub usage : Meter → String → String → Time → Int64
usage m t p now = (current_bucket (lookup (scope_key t p) m.scopes) now).used

pub current_bucket-window :
    (o : Option TpmBucket) (now : Time) → same_minute (current_bucket o now).window now ≡ true
unfolding current_bucket
current_bucket-window none now = same_minute_refl now
current_bucket-window (some b) now = ground (arith, same_minute_refl now)

current_bucket_of :
    (b : TpmBucket) (now : Time) → same_minute b.window now ≡ true → current_bucket (some b) now ≡ b
unfolding current_bucket
current_bucket_of b now h = rw h

-- A bucket that is stored in its minute is the current one.
pub usage-stored :
    (m : Meter) (t p : String) (b : TpmBucket) (now : Time)
    → lookup (scope_key t p) m.scopes ≡ some b
    → same_minute b.window now ≡ true
    → usage m t p now ≡ b.used
unfolding usage
usage-stored m t p b now stored h =
    ap (λ o. (current_bucket o now).used) stored ∙ ap (λ b'. b'.used) (current_bucket_of b now h)

module _ (m : Meter) (t p : String) (estimated : Int64) (now : Time)
    (limit_pos : 0 < limit_of m t p) (limit_small : limit_of m t p < half)
    (estimate_pos : 0 < estimated) (small : usage m t p now + estimated < half) where
  abbrev bucket : TpmBucket
  bucket = current_bucket (lookup (scope_key t p) m.scopes) now

  pub used_here : usage m t p now ≡ bucket.used
  unfolding usage
  used_here = refl

  pub counted : (sle (limit_of m t p) 0 || sle estimated 0) ≡ false
  counted =
      rw
        (
          sle_small (limit_of m t p) 0 limit_small (omega arith),
          sle_small estimated 0 (omega arith) (omega arith),
        )
        (ground arith)

  pub passes :
      slt (limit_of m t p) (add64 bucket.used estimated)
      ≡ ltb (limit_of m t p) (usage m t p now + estimated)
  unfolding usage
  passes =
      rw (add64_fits bucket.used estimated (omega arith))
        (slt_small (limit_of m t p) (bucket.used + estimated) limit_small (omega arith))

  -- Where the limit and the estimate are positive and the use with the estimate is below 2 ^ 63:
  -- `Reserve` allows the call exactly if that sum is within the limit, the use of the minute is
  -- then the sum, and it stays as it was if the call is refused.
  pub usage-reserve :
      let (m', d, _) = reserve m t p estimated now in
      let total = usage m t p now + estimated in
      (d.allowed ≡ not (ltb (limit_of m t p) total))
      × (usage m' t p now ≡ (if ltb (limit_of m t p) total then usage m t p now else total))
  unfolding reserve
  usage-reserve =
      let stored = λ (m' : Meter) (b : TpmBucket). usage-stored m' t p b now in
      let kept = lookup-insert_self (scope_key t p) bucket m.scopes in
      let raised =
        lookup-insert_self (scope_key t p) (record bucket { used = add64 bucket.used estimated })
          m.scopes in
      let window = current_bucket-window (lookup (scope_key t p) m.scopes) now in
      let refusing : usage (record m { scopes = insert (scope_key t p) bucket m.scopes }) t p now
          ≡ usage m t p now =
        stored _ bucket kept window ∙ sym used_here in
      let admitting : usage
            (record m {
              scopes =
                  insert (scope_key t p) (record bucket { used = add64 bucket.used estimated })
                    m.scopes;
            })
            t p now
          ≡ usage m t p now + estimated =
        stored _ (record bucket { used = add64 bucket.used estimated }) raised window
        ∙ add64_fits bucket.used estimated (omega (arith, used_here))
        ∙ ap (λ u. u + estimated) (sym used_here) in
      elim (Bool-cases (ltb (limit_of m t p) (usage m t p now + estimated))) [
        | inl over ↦ rw counted (rw (passes ∙ over) (rw over (refl, refusing)))
        | inr within ↦ rw counted (rw (passes ∙ within) (rw within (refl, admitting)))
      ]
