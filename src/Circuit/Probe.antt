-- ===== src/Circuit/Probe.antt =====
-- One probe for each half-open window of internal/resilience/circuit/breaker.go.
use lite_aig.Base.{
  ℕ, suc, ◌+◌, ◌≤◌, ◌≡◌, ◌≢◌, refl, sym, ap, subst, false≢true, ◌&&◌, ◌∙◌, inl, inr, List, [], ◌∷◌,
  str_eq, eq_iff, Bool, true, false, arith, if◌then◌else◌, All, Bool-cases,
}
use lite_aig.Base.Clock.{Time}
use lite_aig.Base.Float.{Float}
use lite_aig.Circuit.Entries.{
  entry_of-record_result, entry_of-reset_tuple, entry_of-allow_ne, entry_of-open_tuple,
  entry_of-allow, answer-allow,
}
use lite_aig.Circuit.{
  State, opened, half_open, TupleKey, Entry, Config, Breaker, entry_key, entry_of, cooling,
  open_tuple, allow_entry, allow, record_result, reset_tuple,
}

pub data Call : Type 0 where
  allows : TupleKey → (ℕ → Time) → Call
  asks : TupleKey → (ℕ → Time) → Call
  records : TupleKey → Bool → (ℕ → Time) → Call
  resets : TupleKey → (ℕ → Time) → Call

module _ {f : Float} where
  unfoldable pub step : Breaker f → Call → Breaker f × Bool
  step b (allows k clock) = let (b', answer, _) = allow b k clock in (b', answer)
  step b (asks k clock) = let (b', _) = open_tuple b k clock in (b', false)
  step b (records k success clock) = ((record_result b k success clock).0, false)
  step b (resets k clock) = ((reset_tuple b k clock).0, false)

abbrev call_key : Call → TupleKey
call_key (allows k clock) = k
call_key (asks k clock) = k
call_key (records k success clock) = k
call_key (resets k clock) = k

-- The call neither records a result for the tuple nor resets it.
abbrev pub Unsettled : TupleKey → Call → Type 0
Unsettled k (records j success clock) = entry_key j ≢ entry_key k
Unsettled k (resets j clock) = entry_key j ≢ entry_key k
Unsettled k _ = Unit

-- How many calls of `Allow` for the tuple are answered with true.
unfoldable pub admissions : {f : Float} → TupleKey → Breaker f → List Call → ℕ
admissions k b [] = 0
admissions k b (c ∷ cs) =
    let (b', answer) = step b c in
    let rest = admissions k b' cs in
    if str_eq (entry_key (call_key c)) (entry_key k)
    then (if answer then suc rest else rest)
    else rest

-- The circuit is neither closed nor reset.
abbrev pub is_broken : State → Bool
is_broken opened = true
is_broken half_open = true
is_broken _ = false

-- The probe of the half-open window is out.
abbrev pub IsHeld : Entry → Type 0
IsHeld e = (e.state ≡ half_open) × (e.probe_taken ≡ true)

abbrev weight : Bool → ℕ
weight true = 1
weight false = 0

-- What `Allow` does to an entry that is broken.
allow_entry_broken :
    {f : Float} (c : Config f) (k : TupleKey) (e : Entry) (clock : ℕ → Time)
    → is_broken e.state ≡ true
    → let (e', answer, _) = allow_entry c k e e.state clock in
      (is_broken e'.state ≡ true)
      × (answer ≡ true → IsHeld e')
      × (IsHeld e → (answer ≡ false) × IsHeld e')
unfolding allow_entry
allow_entry_broken c k e clock h = ground arith

-- One call keeps a broken circuit broken; if it admits a call for the tuple, the probe is out, and
-- while the probe is out none is admitted.
record Kept {f : Float} (k : TupleKey) (b b' : Breaker f) (admits : Bool) : Type 0 where
  broken : is_broken (entry_of b' k).state ≡ true
  held : admits ≡ true → IsHeld (entry_of b' k)
  refused : IsHeld (entry_of b k) → (admits ≡ false) × IsHeld (entry_of b' k)

Kept-other :
    {f : Float} (k : TupleKey) (b b' : Breaker f)
    → entry_of b' k ≡ entry_of b k
    → is_broken (entry_of b k).state ≡ true
    → Kept k b b' false
Kept-other k b b' e h = record {
  broken = rw e h;
  held = λ a. cc;
  refused = λ p. (refl, subst IsHeld (sym e) p);
}

-- Whether the call is one of `Allow` for the tuple that is answered with true.
abbrev admits : {f : Float} → TupleKey → Breaker f → Call → Bool
admits k b c = str_eq (entry_key (call_key c)) (entry_key k) && (step b c).1

Kept-allow :
    {f : Float} (k j : TupleKey) (b : Breaker f) (clock : ℕ → Time)
    → is_broken (entry_of b k).state ≡ true
    → Kept k b (allow b j clock).0 (str_eq (entry_key j) (entry_key k) && (allow b j clock).1)
Kept-allow k j b clock h = elim (Bool-cases (str_eq (entry_key j) (entry_key k))) [
  | inl test ↦
      let same = (eq_iff (entry_key j) (entry_key k)).0 test in
      let (broken', held', refused') = allow_entry_broken b.config j (entry_of b k) clock h in
      rw (test, answer-allow b j k clock same)
        (record {
          broken = rw (entry_of-allow b j k clock same) broken';
          held = λ a. rw (entry_of-allow b j k clock same) (held' a);
          refused = λ p. rw (entry_of-allow b j k clock same) (refused' p);
        })
  | inr test ↦ rw test (
      Kept-other k b (allow b j clock).0
        (entry_of-allow_ne b j k clock
          (λ e. false≢true (sym test ∙ (eq_iff (entry_key j) (entry_key k)).1 e)))
        h)
]

and_false : (x : Bool) → (x && false) ≡ false
and_false true = refl
and_false false = refl

step-Kept :
    {f : Float} (k : TupleKey) (b : Breaker f) (c : Call)
    → Unsettled k c
    → is_broken (entry_of b k).state ≡ true
    → Kept k b (step b c).0 (admits k b c)
unfolding step
step-Kept k b (allows j clock) u h = Kept-allow k j b clock h
step-Kept k b (asks j clock) u h =
    rw (and_false (str_eq (entry_key j) (entry_key k)))
      (Kept-other k b (open_tuple b j clock).0 (entry_of-open_tuple b j k clock) h)
step-Kept k b (records j success clock) u h = rw (and_false (str_eq (entry_key j) (entry_key k))) (
    Kept-other k b (record_result b j success clock).0
      (entry_of-record_result b j k success clock u) h)
step-Kept k b (resets j clock) u h =
    rw (and_false (str_eq (entry_key j) (entry_key k)))
      (Kept-other k b (reset_tuple b j clock).0 (entry_of-reset_tuple b j k clock u) h)

admissions_cons :
    {f : Float} (k : TupleKey) (b : Breaker f) (c : Call) (cs : List Call)
    → admissions k b (c ∷ cs) ≡ weight (admits k b c) + admissions k (step b c).0 cs
unfolding admissions
admissions_cons k b c cs = ground arith

-- Once the probe of a half-open tuple is out, `Allow` admits no call for the tuple until a result
-- is recorded for it or it is reset, whatever the clock reads and whatever is called for others.
pub admissions_held :
    {f : Float} (k : TupleKey) (b : Breaker f) (cs : List Call)
    → All (Unsettled k) cs
    → IsHeld (entry_of b k)
    → admissions k b cs ≡ 0
unfolding admissions
admissions_held k b [] u h = refl
admissions_held k b (c ∷ cs) u h =
    let kept = step-Kept k b c u.0 (rw h.0) in
    let (none_admitted, h') = kept.refused h in
    omega (
      arith,
      admissions_cons k b c cs,
      ap weight none_admitted,
      admissions_held k (step b c).0 cs u.1 h',
    )

-- Once the circuit of a tuple is open or half-open, `Allow` admits at most one call for the tuple
-- until a result is recorded for it or it is reset, whatever the clock reads and whatever is
-- called for other tuples.
pub admissions_broken :
    {f : Float} (k : TupleKey) (b : Breaker f) (cs : List Call)
    → All (Unsettled k) cs
    → is_broken (entry_of b k).state ≡ true
    → admissions k b cs ≤ 1
unfolding admissions
admissions_broken k b [] u h = omega arith
admissions_broken k b (c ∷ cs) u h =
    let kept = step-Kept k b c u.0 h in
    elim (Bool-cases (admits k b c)) [
      | inl admitted ↦ omega (
        arith,
        admissions_cons k b c cs,
        ap weight admitted,
        admissions_held k (step b c).0 cs u.1 (kept.held admitted),
      )
      | inr refused ↦ omega (
        arith,
        admissions_cons k b c cs,
        ap weight refused,
        admissions_broken k (step b c).0 cs u.1 kept.broken,
      )
    ]

-- An open circuit that has cooled down admits a call, and then its probe is out.
pub allow_probe :
    {f : Float} (b : Breaker f) (k : TupleKey) (clock : ℕ → Time)
    → (entry_of b k).state ≡ opened
    → cooling b.config (entry_of b k) (clock 0) ≡ false
    → ((allow b k clock).1 ≡ true) × IsHeld (entry_of (allow b k clock).0 k)
unfolding allow_entry
allow_probe b k clock h cooled =
    ground (arith, answer-allow b k k clock refl, entry_of-allow b k k clock refl)
