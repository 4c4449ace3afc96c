-- ===== src/Circuit.antt =====
-- internal/resilience/circuit/breaker.go: the circuit breaker of each deployment and credential.
-- A method is atomic; `clock i` is its i-th reading of the clock. What it saves, deletes and
-- announces is a list of effects, kept in the order in which they happen.
pub mod Cooldown
pub mod Entries
pub mod Probe
pub mod Trips
mod Tests
use Prim.Native.String.{◌++◌ as str_append}
use lite_aig.Base.{
  ℕ, zero, suc, ◌+◌, ◌-◌, ◌*◌, ◌/◌, if◌then◌else◌, Option, none, some, List, [], ◌∷◌, ◌++◌, String,
  str_eq, Bool, true, false, not, ◌&&◌, ◌||◌,
}
use lite_aig.Base.Assoc.{Assoc, lookup, insert, delete}
use lite_aig.Base.Word.{Int64, add64, sub64, slt, sle, signed}
use lite_aig.Base.Int.{ℤ, pos, ltb_ℤ, leb_ℤ, sub_ℕ, pos_part, neg_part}
use lite_aig.Base.Clock.{Time, Duration, zero_time, sub_time}
use lite_aig.Base.Float.{Float}

-- The state constants, and any other text that a stored fact may hold.
pub data State : Type 0 where
  closed opened half_open reset : State
  other : String → State

pub record TupleKey : Type 0 where
  pub deployment_id : String
  pub credential_id : String

pub record Transition : Type 0 where
  pub key : TupleKey
  pub from : State
  pub to : State
  pub reason : String
  pub at : Time

-- `Fact`. The two times are Unix milliseconds.
pub record Fact : Type 0 where
  pub key : TupleKey
  pub state : State
  pub opened_at_ms : ℤ
  pub last_probe_at_ms : ℤ
  pub sample_count : Int64
  pub failure_count : Int64
  pub open_count : Int64

pub record Entry : Type 0 where
  pub state : State
  pub samples : Int64
  pub failures : Int64
  pub opened_at : Time
  pub last_probe_at : Time
  pub probe_taken : Bool
  pub open_count : Int64

pub data Effect : Type 0 where
  saved : Fact → Effect
  deleted : TupleKey → Effect
  notified : Transition → Effect

-- The zero value with the state closed, as `get` makes it.
abbrev pub new_entry : Entry
new_entry = record {
  state = closed;
  samples = 0;
  failures = 0;
  opened_at = zero_time;
  last_probe_at = zero_time;
  probe_taken = false;
  open_count = 0;
}

-- The key of the table of entries.
unfoldable pub entry_key : TupleKey → String
entry_key k = str_append k.deployment_id (str_append ":" k.credential_id)

-- time.UnixMilli and its inverse.
abbrev pub unix_epoch_ms : ℕ
unix_epoch_ms = 62135596800000

pub unix_milli : Time → ℤ
unix_milli t = sub_ℕ (t / 1000000) unix_epoch_ms

pub of_unix_milli : ℤ → Time
of_unix_milli z = (unix_epoch_ms + pos_part z - neg_part z) * 1000000

module _ (f : Float) where
  -- `Config`; of the store and the observer only whether they are there.
  pub record Config : Type 0 where
    pub min_samples : Int64
    pub error_rate : f.F
    pub cooldown_initial : Duration
    pub cooldown_factor : f.F
    pub max_cooldown : Duration
    pub has_store : Bool
    pub has_observer : Bool

  pub record Breaker : Type 0 where
    pub config : Config
    pub entries : Assoc Entry

pub new : {f : Float} → Config f → Breaker f
new c = record { config = c; entries = [] }

pub set_config : {f : Float} → Breaker f → Config f → Breaker f
set_config b c = record b { config = c }

-- The loop of `cooldown`: the factor is applied so many times.
unfoldable pub escalate : (f : Float) → f.F → ℕ → Duration → Duration
escalate f factor zero d = d
escalate f factor (suc n) d = escalate f factor n (f.to_int (f.mul (f.of_int d) factor))

-- The number of rounds of the loop, for a count that was raised to 1.
unfoldable pub rounds : Int64 → ℕ
rounds open_count = if sle open_count 0 then 0 else open_count - 1

unfoldable pub cooldown : (f : Float) → Config f → Int64 → Duration
cooldown f c open_count =
    let d =
      if f.ltb (f.of_int (pos 1)) c.cooldown_factor
      then escalate f c.cooldown_factor (rounds open_count) c.cooldown_initial
      else c.cooldown_initial in
    let capped =
      if ltb_ℤ (pos 0) c.max_cooldown && ltb_ℤ c.max_cooldown d then c.max_cooldown else d in
    if leb_ℤ capped (pos 0) then c.cooldown_initial else capped

abbrev pub entry_of : {f : Float} → Breaker f → TupleKey → Entry
entry_of b k = elim (lookup (entry_key k) b.entries) [ none ↦ new_entry | some e ↦ e ]

pub put_entry : {f : Float} → Breaker f → TupleKey → Entry → Breaker f
put_entry b k e = record b { entries = insert (entry_key k) e b.entries }

-- `get`: the entry, made if it is missing.
unfoldable pub get : {f : Float} → Breaker f → TupleKey → Breaker f × Entry
get b k = (put_entry b k (entry_of b k), entry_of b k)

unfoldable pub cooling : {f : Float} → Config f → Entry → Time → Bool
cooling {f} c e now = ltb_ℤ (sub_time now e.opened_at) (cooldown f c e.open_count)

unfoldable pub is_opened : State → Bool
is_opened opened = true
is_opened _ = false

-- `openNow`.
unfoldable pub open_now : {f : Float} → Config f → Entry → Time → Bool
open_now c e now = if is_opened e.state then cooling c e now else false

-- `Open`.
unfoldable pub open_tuple : {f : Float} → Breaker f → TupleKey → (ℕ → Time) → Breaker f × Bool
open_tuple b k clock = let (b', e) = get b k in (b', open_now b.config e (clock 0))

pub fact_of : TupleKey → Entry → Fact
fact_of k e = record {
  key = k;
  state = e.state;
  opened_at_ms = unix_milli e.opened_at;
  last_probe_at_ms = unix_milli e.last_probe_at;
  sample_count = e.samples;
  failure_count = e.failures;
  open_count = e.open_count;
}

-- `persistLocked` and `notify`.
pub persist : {f : Float} → Config f → TupleKey → Entry → List Effect
persist c k e = if c.has_store then saved (fact_of k e) ∷ [] else []

pub notify : {f : Float} → Config f → Transition → List Effect
notify c t = if c.has_observer then notified t ∷ [] else []

-- `notifyLocked`.
pub persist_and_notify :
    {f : Float} → Config f → TupleKey → Entry → State → State → Time → List Effect
persist_and_notify c k e from to at =
    persist c k e ++ notify c (record { key = k; from = from; to = to; reason = ""; at = at })

-- What `Allow` makes of an entry, by its state. In the open state `transitionLocked` saves and
-- announces the entry before the probe is marked.
pub allow_entry :
    {f : Float} → Config f → TupleKey → Entry → State → (ℕ → Time) → Entry × Bool × List Effect
allow_entry c k e closed clock = (e, true, [])
allow_entry c k e opened clock =
    if cooling c e (clock 0)
    then (e, false, [])
    else let half = record e { state = half_open } in
      (
        record half { last_probe_at = clock 2; probe_taken = true },
        true,
        persist c k half
            ++ notify c (record {
              key = k;
              from = opened;
              to = half_open;
              reason = "cooldown_elapsed";
              at = clock 1;
            }),
      )
allow_entry c k e _ clock =
    if e.probe_taken
    then (e, false, [])
    else (record e { last_probe_at = clock 0; probe_taken = true }, true, [])

pub allow : {f : Float} → Breaker f → TupleKey → (ℕ → Time) → Breaker f × Bool × List Effect
allow b k clock =
    let (b', e) = get b k in
    let (e', answer, effects) = allow_entry b.config k e e.state clock in
    (put_entry b' k e', answer, effects)

-- The test that opens a closed circuit.
pub trips : {f : Float} → Config f → Int64 → Int64 → Bool
trips {f} c samples failures =
    not (slt samples c.min_samples)
    && f.ltb c.error_rate (f.div (f.of_int (signed failures)) (f.of_int (signed samples)))

-- What `Record` makes of an entry, by its state.
pub record_entry :
    {f : Float} → Config f → TupleKey → Entry → State → Bool → (ℕ → Time) → Entry × List Effect
record_entry c k e half_open true clock =
    let e' = record e {
      state = closed;
      samples = 0;
      failures = 0;
      open_count = 0;
      probe_taken = false;
    } in
    (e', persist_and_notify c k e' half_open closed (clock 0))
record_entry c k e half_open false clock =
    let e' = record e {
      open_count = add64 e.open_count 1;
      opened_at = clock 0;
      probe_taken = false;
      state = opened;
    } in
    (e', persist_and_notify c k e' half_open opened (clock 1))
record_entry c k e opened success clock = (e, [])
record_entry c k e _ success clock =
    let counted : Entry = record e {
      samples = add64 e.samples 1;
      failures = if success then e.failures else add64 e.failures 1;
    } in
    if trips c counted.samples counted.failures
    then (let e' : Entry = record counted {
      open_count = 1;
      opened_at = clock 0;
      probe_taken = false;
      state = opened;
    } in
        (e', persist_and_notify c k e' closed opened (clock 1)))
    else (counted, [])

-- `Record`.
pub record_result : {f : Float} → Breaker f → TupleKey → Bool → (ℕ → Time) → Breaker f × List Effect
record_result b k success clock =
    let (b', e) = get b k in
    let (e', effects) = record_entry b.config k e e.state success clock in
    (put_entry b' k e', effects)

pub is_closed : State → Bool
is_closed closed = true
is_closed _ = false

-- `Reset`. The cleared entry leaves the table.
pub reset_tuple : {f : Float} → Breaker f → TupleKey → (ℕ → Time) → Breaker f × List Effect
reset_tuple b k clock =
    let (b', e) = get b k in
    (
      record b' { entries = delete (entry_key k) b'.entries },
      (if b.config.has_store then deleted k ∷ [] else [])
          ++ (if is_closed e.state
              then []
              else notify b.config
                  (record { key = k; from = e.state; to = reset; reason = "drift"; at = clock 0 })),
    )

-- The entry that `Start` makes of a stored fact; the mark of a probe is not stored.
pub restore_entry : Entry → Fact → Entry
restore_entry e fact = record e {
  state = fact.state;
  samples = fact.sample_count;
  failures = fact.failure_count;
  open_count = fact.open_count;
  opened_at = of_unix_milli fact.opened_at_ms;
  last_probe_at = of_unix_milli fact.last_probe_at_ms;
}

-- `Start`, for the facts that the store has returned.
pub start : {f : Float} → Breaker f → List Fact → Breaker f
start b [] = b
start b (fact ∷ facts) =
    let (b', e) = get b fact.key in start (put_entry b' fact.key (restore_entry e fact)) facts
