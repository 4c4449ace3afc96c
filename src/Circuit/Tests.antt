-- ===== src/Circuit/Tests.antt =====
-- A circuit through its states, and the theorems at concrete calls.
use lite_aig.Base.{ℕ, ◌≤◌, ◌≡◌, refl, List, [], ◌∷◌, true, false}
use lite_aig.Base.Assoc.{lookup, insert}
use lite_aig.Base.Int.{pos}
use lite_aig.Base.Word.{slt, sle, add64, signed}
use lite_aig.Base.Clock.{Time, sub_time}
use lite_aig.Base.Float.{whole}
use lite_aig.Circuit.{
  closed, opened, half_open, TupleKey, Entry, Config, Breaker, new, new_entry, entry_key, entry_of,
  put_entry, get, cooldown, escalate, rounds, cooling, open_now, is_opened, open_tuple, allow_entry,
  allow, record_entry, record_result, trips, fact_of, start,
}
use lite_aig.Circuit.Probe.{
  Call, allows, asks, records, IsHeld, admissions, admissions_held, admissions_broken,
}

abbrev config : Config whole
config = record {
  min_samples = 1;
  error_rate = pos 0;
  cooldown_initial = pos 30;
  cooldown_factor = pos 2;
  max_cooldown = pos 100;
  has_store = true;
  has_observer = true;
}

abbrev key : TupleKey
key = record { deployment_id = "d"; credential_id = "c" }

abbrev other_key : TupleKey
other_key = record { deployment_id = "e"; credential_id = "c" }

-- A clock that stands still.
abbrev at : Time → ℕ → Time
at t i = t

-- The circuit opened at time 10.
abbrev opened_entry : Entry
opened_entry = record new_entry {
  state = opened;
  samples = 1;
  failures = 1;
  opened_at = 10;
  open_count = 1;
}

abbrev broken : Breaker whole
broken = record { config = config; entries = ("d:c", opened_entry) ∷ [] }

abbrev probing : Breaker whole
probing = record {
  config = config;
  entries =
      ("d:c", record opened_entry { state = half_open; last_probe_at = 40; probe_taken = true })
      ∷ [];
}

record_opens : (record_result (new config) key false (at 10)).0 ≡ broken
unfolding record_result record_entry get put_entry new entry_key lookup insert trips signed slt
    add64
record_opens = refl

cooldowns : (cooldown whole config 2 ≡ pos 60) × (cooldown whole config 3 ≡ pos 100)
unfolding cooldown escalate rounds sle
cooldowns = (refl, refl)

allow_half_open : (allow broken key (at 40)).0 ≡ probing
unfolding allow allow_entry get put_entry entry_key lookup insert cooling cooldown escalate rounds
    sle sub_time
allow_half_open = refl

abbrev crowd : List Call
crowd = allows key (at 50) ∷ allows other_key (at 50) ∷ asks key (at 60) ∷ allows key (at 70) ∷ []

crowd_admitted : admissions key broken crowd ≡ 1
unfolding admissions allow open_tuple allow_entry get put_entry entry_key lookup insert cooling
    cooldown escalate rounds sle sub_time lite_aig.Circuit.Probe.step
crowd_admitted = refl

admissions_broken_example : admissions key broken crowd ≤ 1
unfolding entry_key lookup
admissions_broken_example = admissions_broken key broken crowd (tt, (tt, (tt, (tt, tt)))) refl
