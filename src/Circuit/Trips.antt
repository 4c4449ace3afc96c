-- ===== src/Circuit/Trips.antt =====
-- The life of a circuit of internal/resilience/circuit/breaker.go across several calls.
use Prim.Native.Nat.{◌/◌}
use lite_aig.Base.{
  ℕ, ◌*◌, ◌≡◌, refl, ◌∙◌, [], ◌∷◌, eq_refl, Bool, true, false, arith, if◌then◌else◌,
}
use lite_aig.Base.Int.{ltb_ℤ}
use lite_aig.Base.Word.{add64}
use lite_aig.Base.Assoc.{lookup}
use lite_aig.Base.Clock.{Time, sub_time}
use lite_aig.Base.Float.{Float}
use lite_aig.Circuit.{
  closed, half_open, TupleKey, Entry, Config, Breaker, entry_key, entry_of, new, put_entry, get,
  cooldown, cooling, trips, open_now, is_opened, open_tuple, allow_entry, allow, record_entry,
  record_result, fact_of, restore_entry, start, unix_milli, of_unix_milli,
}
use lite_aig.Circuit.Entries.{entry_of-put}

-- `Open` and `Allow` agree: a tuple that `Open` excludes from routing is not admitted by `Allow`
-- at the same reading of the clock.
pub allow-open_tuple :
    {f : Float} (b : Breaker f) (k : TupleKey) (clock : ℕ → Time)
    → (open_tuple b k clock).1 ≡ true
    → (allow b k clock).1 ≡ false
unfolding open_tuple allow open_now is_opened allow_entry get
allow-open_tuple b k clock h = ground arith

-- excluded from routing exactly while less than the cooldown of the new count has passed.
module _ {f : Float} (b : Breaker f) (k : TupleKey) where
  entry_of-record_self :
      (success : Bool) (clock : ℕ → Time)
      → entry_of (record_result b k success clock).0 k
        ≡ (record_entry b.config k (entry_of b k) (entry_of b k).state success clock).0
  unfolding record_result get
  entry_of-record_self success clock = entry_of-put (get b k).0 k k _ ∙ rw (eq_refl (entry_key k))

  config-record :
      (success : Bool) (clock : ℕ → Time) → (record_result b k success clock).0.config ≡ b.config
  unfolding record_result get put_entry
  config-record success clock = refl

  -- A half-open tuple for which a failure is recorded has one opening more, and is excluded from
  -- routing exactly while the time since then is less than the cooldown of that many openings.
  pub open_tuple-record_failure :
      (clock later : ℕ → Time)
      → (entry_of b k).state ≡ half_open
      → (open_tuple (record_result b k false clock).0 k later).1
        ≡ ltb_ℤ
            (sub_time (later 0) (clock 0))
            (cooldown f b.config (add64 (entry_of b k).open_count 1))
  unfolding open_tuple open_now is_opened cooling record_entry get
  open_tuple-record_failure clock later h =
      ground (arith, entry_of-record_self false clock, config-record false clock)

  -- A closed tuple that a recorded result trips is excluded from routing exactly while the time
  -- since then is less than the cooldown of one opening.
  pub open_tuple-record_trip :
      (success : Bool) (clock later : ℕ → Time)
      → let e = entry_of b k in
        e.state ≡ closed
        → trips b.config (add64 e.samples 1) (if success then e.failures else add64 e.failures 1)
          ≡ true
        → (open_tuple (record_result b k success clock).0 k later).1
          ≡ ltb_ℤ (sub_time (later 0) (clock 0)) (cooldown f b.config 1)
  unfolding open_tuple open_now is_opened cooling record_entry get
  open_tuple-record_trip success clock later h t =
      ground (arith, entry_of-record_self success clock, config-record success clock)

  -- A half-open tuple for which a success is recorded is admitted by the next `Allow`, and its
  -- counters are those of a new entry.
  pub allow-record_success :
      (clock later : ℕ → Time)
      → (entry_of b k).state ≡ half_open
      → let b' = (record_result b k true clock).0 in
        let e = entry_of b' k in
        ((allow b' k later).1 ≡ true)
        × (e.state ≡ closed)
        × (e.samples ≡ 0)
        × (e.failures ≡ 0)
        × (e.open_count ≡ 0)
        × (e.probe_taken ≡ false)
  unfolding allow allow_entry record_entry get
  allow-record_success clock later h = ground (arith, entry_of-record_self true clock)

of_unix_milli-unix_milli : (t : Time) → of_unix_milli (unix_milli t) ≡ t / 1000000 * 1000000
unfolding of_unix_milli unix_milli
of_unix_milli-unix_milli t = ground arith

-- A restart: a new breaker that is started from the fact saved for an entry has that entry again,
-- with its times cut to milliseconds and the mark of a probe that was out cleared.
pub start-fact_of :
    {f : Float} (c : Config f) (k : TupleKey) (e : Entry)
    → entry_of (start (new c) (fact_of k e ∷ [])) k ≡ record e {
      opened_at = e.opened_at / 1000000 * 1000000;
      last_probe_at = e.last_probe_at / 1000000 * 1000000;
      probe_taken = false;
    }
unfolding start new fact_of restore_entry get lookup
start-fact_of c k e =
    entry_of-put _ k k _
    ∙ rw (eq_refl (entry_key k)) (
        ground
          (arith, of_unix_milli-unix_milli e.opened_at, of_unix_milli-unix_milli e.last_probe_at))
