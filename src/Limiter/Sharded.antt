-- ===== src/Limiter/Sharded.antt =====
-- The sixteen shards of internal/policy/rate/limiter.go decide as one table would.
use lite_aig.Base.{
  ℕ, zero, suc, ◌<◌, ◌≡◌, ◌≢◌, refl, if◌then◌else◌, Option, none, some, List, [], ◌∷◌, String, ◌||◌,
  not, length, get_elem?, arith, Bool-cases, inl, inr, ap, ◌∙◌, sym, subst, is_some,
}
use mathlib.Core.Option.{some-injective}
use native.Mathlib.Decide.{ℕ_discrete}
use lite_aig.Base.Assoc.{
  lookup, IsMap, lookup-insert, lookup-insert_ne, lookup-retain, retain-IsMap, insert-IsMap,
}
use lite_aig.Base.Word.{sle}
use lite_aig.Base.Int.{ltb_ℤ, leb_ℤ}
use lite_aig.Base.Clock.{Time, sub_time}
use lite_aig.Base.Float.{Float}
use lite_aig.Limiter.{
  Policy, Decision, Bucket, Shard, Limiter, shard_count, shard_index, new_shards, new, sweep_locked,
  sweep_due, set_shard, take_token, allow_in, allow_at, allow, bucket_key, bucket_exists, idle_ttl,
  sweep_interval,
}
use lite_aig.Limiter.Single.{Call, allow_single, run_single}

shard_index-lt : (bytes : String → List ℕ) (key : String) → shard_index bytes key < shard_count
unfolding shard_index
shard_index-lt bytes key = omega arith

length-new_shards : (f : Float) (n : ℕ) (clock : ℕ → Time) → length (new_shards {f = f} n clock) ≡ n
unfolding new_shards
length-new_shards f zero clock = refl
length-new_shards f (suc n) clock = ap suc (length-new_shards f n (λ i. clock (suc i)))

module _ {f : Float} (bytes : String → List ℕ) where
  unfoldable pub run : Limiter f → List Call → Limiter f × List Decision
  run l [] = (l, [])
  run l (c ∷ calls) =
      let (l', d) = allow bytes l c.tenant_id c.project_id c.policy c.now in
      let (l'', ds) = run l' calls in (l'', d ∷ ds)

  -- One shard beside the single table: swept at the same time, and with the same bucket for every
  -- key that belongs to the shard.
  pub record Agrees (m : Shard f) (i : ℕ) (s : Shard f) : Type 0 where
    pub swept : s.last_sweep ≡ m.last_sweep
    pub distinct : IsMap s.buckets
    pub same :
        (key : String) → shard_index bytes key ≡ i → lookup key s.buckets ≡ lookup key m.buckets

  pub record Splits (m : Shard f) (l : Limiter f) : Type 0 where
    pub width : length l ≡ shard_count
    pub distinct : IsMap m.buckets
    pub agrees : (i : ℕ) (s : Shard f) → get_elem? l i ≡ some s → Agrees m i s

  sweep-Agrees :
      (m s : Shard f) (i : ℕ) (now : Time)
      → IsMap m.buckets
      → Agrees m i s
      → Agrees (sweep_locked now m) i (sweep_locked now s)
  unfolding sweep_locked
  sweep-Agrees m s i now distinct h =
      let test = λ (t : Time). ltb_ℤ (sub_time now t) sweep_interval in
      let live = λ (b : Bucket f). not (leb_ℤ idle_ttl (sub_time now b.last)) in
      elim (Bool-cases (test m.last_sweep)) [
        | inl early ↦ rw (early, ap test h.swept ∙ early, sweep_locked) h
        | inr due ↦
            rw (due, ap test h.swept ∙ due, sweep_locked)
              (record {
                swept = refl;
                distinct = retain-IsMap live s.buckets h.distinct;
                same = λ key home.
                    lookup-retain live key s.buckets h.distinct
                    ∙ ap
                        (λ (o : Option (Bucket f)). elim o [
                          | none ↦ none
                          | some v ↦ if live v then some v else none
                        ])
                        (h.same key home)
                    ∙ sym (lookup-retain live key m.buckets distinct);
              })
      ]

  sweep-IsMap : (m : Shard f) (now : Time) → IsMap m.buckets → IsMap (sweep_locked now m).buckets
  sweep-IsMap m now distinct =
      (sweep-Agrees m m 0 now distinct
        (record { swept = refl; distinct = distinct; same = λ key _. refl })).distinct

  length-sweep : (now : Time) (l : Limiter f) → length (sweep_due now l) ≡ length l
  unfolding sweep_due
  length-sweep now [] = refl
  length-sweep now (s ∷ l) = ap suc (length-sweep now l)

  get_elem-sweep :
      (now : Time) (l : Limiter f) (i : ℕ) (s' : Shard f)
      → get_elem? (sweep_due now l) i ≡ some s'
      → (s : Shard f) × (get_elem? l i ≡ some s) × (sweep_locked now s ≡ s')
  unfolding sweep_due
  get_elem-sweep now [] i s' h = cc
  get_elem-sweep now (s ∷ l) zero s' h = (s, refl, some-injective _ _ h)
  get_elem-sweep now (s ∷ l) (suc i) s' h = get_elem-sweep now l i s' h

  sweep-Splits :
      (m : Shard f) (l : Limiter f) (now : Time)
      → Splits m l
      → Splits (sweep_locked now m) (sweep_due now l)
  sweep-Splits m l now h = record {
    width = length-sweep now l ∙ h.width;
    distinct = sweep-IsMap m now h.distinct;
    agrees = λ i s' e.
        let (s, old, swept) = get_elem-sweep now l i s' e in
        subst (Agrees (sweep_locked now m) i) swept
          (sweep-Agrees m s i now h.distinct (h.agrees i s old));
  }

  length-set : (l : Limiter f) (i : ℕ) (s : Shard f) → length (set_shard l i s) ≡ length l
  unfolding set_shard
  length-set [] i s = refl
  length-set (x ∷ l) zero s = refl
  length-set (x ∷ l) (suc i) s = ap suc (length-set l i s)

  get_elem-set_self :
      (l : Limiter f) (i : ℕ) (s x : Shard f)
      → get_elem? l i ≡ some x
      → get_elem? (set_shard l i s) i ≡ some s
  unfolding set_shard
  get_elem-set_self [] i s x h = cc
  get_elem-set_self (y ∷ l) zero s x h = refl
  get_elem-set_self (y ∷ l) (suc i) s x h = get_elem-set_self l i s x h

  get_elem-set_ne :
      (l : Limiter f) (i j : ℕ) (s : Shard f)
      → i ≢ j
      → get_elem? (set_shard l i s) j ≡ get_elem? l j
  unfolding set_shard
  get_elem-set_ne [] i j s h = refl
  get_elem-set_ne (y ∷ l) zero zero s h = absurd (h refl)
  get_elem-set_ne (y ∷ l) zero (suc j) s h = refl
  get_elem-set_ne (y ∷ l) (suc i) zero s h = refl
  get_elem-set_ne (y ∷ l) (suc i) (suc j) s h = get_elem-set_ne l i j s (omega (arith, h))

  get_elem-shard : (l : Limiter f) (i : ℕ) → i < length l → (x : Shard f) × (get_elem? l i ≡ some x)
  get_elem-shard [] i h = absurd (omega arith)
  get_elem-shard (x ∷ l) zero h = (x, refl)
  get_elem-shard (x ∷ l) (suc i) h = get_elem-shard l i (omega arith)

  module _ (m : Shard f) (l : Limiter f) (h : Splits m l) (p : Policy) (now : Time) (key : String)
      (s : Shard f) (found : get_elem? l (shard_index bytes key) ≡ some s) where
    here : Agrees m (shard_index bytes key) s
    here = h.agrees (shard_index bytes key) s found

    same_token : take_token p now (lookup key s.buckets) ≡ take_token p now (lookup key m.buckets)
    same_token = ap (take_token p now) (here.same key refl)

    -- The shard that is written still agrees with the table.
    written-Agrees :
        Agrees (allow_in p now key m).0 (shard_index bytes key) (allow_in p now key s).0
    unfolding allow_in
    written-Agrees = record {
      swept = here.swept;
      distinct = insert-IsMap key _ s.buckets here.distinct;
      same = λ q home.
          rw
            (
              lookup-insert key q _ s.buckets,
              lookup-insert key q _ m.buckets,
              same_token,
              here.same q home,
            )
            refl;
    }

    -- The others do not hold the key.
    other-Agrees :
        (j : ℕ) (s' : Shard f)
        → shard_index bytes key ≢ j
        → Agrees m j s'
        → Agrees (allow_in p now key m).0 j s'
    unfolding allow_in
    other-Agrees j s' apart agree = record {
      swept = agree.swept;
      distinct = agree.distinct;
      same = λ q home.
          agree.same q home
          ∙ sym (lookup-insert_ne key q _ m.buckets (λ e. apart (ap (shard_index bytes) e ∙ home)));
    }

    allow_at-Splits :
        let (l', d') = allow_at p now key (shard_index bytes key) l in
        let (m', d) = allow_in p now key m in Splits m' l' × (d' ≡ d)
    unfolding allow_at allow_in
    allow_at-Splits =
        let i = shard_index bytes key in
        rw (found, allow_at)
          (
            record {
              width = length-set l i (allow_in p now key s).0 ∙ h.width;
              distinct = insert-IsMap key _ m.buckets h.distinct;
              agrees = λ j s' e. elim (ℕ_discrete i j) [
                | yes same ↦
                    let new_shard = (allow_in p now key s).0 in
                    let at_i =
                      subst (λ k. get_elem? (set_shard l i new_shard) k ≡ some s') (sym same) e in
                    let self =
                      some-injective _ _ (sym (get_elem-set_self l i new_shard s found) ∙ at_i) in
                    subst (λ k. Agrees (allow_in p now key m).0 k s') same
                      (subst (Agrees (allow_in p now key m).0 i) self written-Agrees)
                | no apart ↦
                    other-Agrees j s' apart
                      (h.agrees j s' (sym (get_elem-set_ne l i j _ apart) ∙ e))
              ];
            },
            ap (λ t. t.1) same_token,
          )

  step-Splits :
      (m : Shard f) (l : Limiter f) (c : Call)
      → Splits m l
      → let (l', d') = allow bytes l c.tenant_id c.project_id c.policy c.now in
        let (m', d) = allow_single m c in Splits m' l' × (d' ≡ d)
  unfolding allow allow_single
  step-Splits m l c h =
      let swept = sweep-Splits m l c.now h in
      let key = bucket_key c.tenant_id c.project_id in
      let l₀ = sweep_due c.now l in
      let (s, found) =
        get_elem-shard l₀ (shard_index bytes key) (rw swept.width (shard_index-lt bytes key)) in
      elim (Bool-cases (sle c.policy.requests_per_minute 0 || sle c.policy.burst 0)) [
        | inl off ↦ rw (off, allow, allow_single) (h, refl)
        | inr on ↦
            rw (on, allow, allow_single)
              (allow_at-Splits (sweep_locked c.now m) l₀ swept c.policy c.now key s found)
      ]

  run-Splits :
      (calls : List Call) (m : Shard f) (l : Limiter f)
      → Splits m l
      → Splits (run_single m calls).0 (run l calls).0 × ((run l calls).1 ≡ (run_single m calls).1)
  unfolding run run_single
  run-Splits [] m l h = (h, refl)
  run-Splits (c ∷ calls) m l h =
      let (h', answer) = step-Splits m l c h in
      let (h'', answers) = run-Splits calls _ _ h' in (h'', rw (answer, answers) refl)

  get_elem-new_shards :
      (n : ℕ) (clock : ℕ → Time) (i : ℕ) (s : Shard f)
      → get_elem? (new_shards n clock) i ≡ some s
      → record { buckets = []; last_sweep = clock i } ≡ s
  unfolding new_shards
  get_elem-new_shards zero clock i s h = cc
  get_elem-new_shards (suc n) clock zero s h = some-injective _ _ h
  get_elem-new_shards (suc n) clock (suc i) s h = get_elem-new_shards n (λ k. clock (suc k)) i s h

  new-Splits :
      (clock : ℕ → Time) (t : Time)
      → ((i : ℕ) → clock i ≡ t)
      → Splits (record { buckets = []; last_sweep = t }) (new clock)
  unfolding new
  new-Splits clock t still = record {
    width = length-new_shards f 16 clock;
    distinct = tt;
    agrees = λ i s e.
        subst (Agrees (record { buckets = []; last_sweep = t }) i)
          (get_elem-new_shards 16 clock i s e)
          (record { swept = still i; distinct = tt; same = λ key home. refl });
  }

-- A limiter whose shards were made at one reading of the clock decides any sequence of calls as one
-- table without shards does, and then holds a bucket for exactly the same keys: neither the hash of
-- a key nor the keys that share its shard make a difference.
pub run_refines_single :
    (f : Float) (bytes : String → List ℕ) (clock : ℕ → Time) (t : Time) (calls : List Call)
    (key : String)
    → ((i : ℕ) → clock i ≡ t)
    → let start : Shard f = record { buckets = []; last_sweep = t } in
      let (l, decisions) = run bytes (new {f = f} clock) calls in
      let (m, single_decisions) = run_single start calls in
      (decisions ≡ single_decisions) × (bucket_exists bytes l key ≡ is_some (lookup key m.buckets))
unfolding bucket_exists
run_refines_single f bytes clock t calls key still =
    let start : Shard f = record { buckets = []; last_sweep = t } in
    let l : Limiter f = (run bytes (new clock) calls).0 in
    let (splits, answers) =
      run-Splits bytes calls start (new clock) (new-Splits bytes clock t still) in
    let (s, found) =
      get_elem-shard bytes l (shard_index bytes key) (rw splits.width (shard_index-lt bytes key)) in
    (answers, rw (found, bucket_exists) (ap is_some ((splits.agrees _ s found).same key refl)))
