-- ===== src/Lease/Tests.antt =====
-- Leases in use, and the theorems at concrete calls.
use lite_aig.Base.{
  eq_iff, false≢true, ◌≡◌, refl, inl, inr, some, List, [], ◌∷◌, String, false, arith,
}
use lite_aig.Base.Assoc.{lookup, insert, delete, retain}
use lite_aig.Base.Int.{pos}
use lite_aig.Base.Word.{slt}
use lite_aig.Base.Clock.{add_time}
use lite_aig.Base.Float.{whole}
use lite_aig.Circuit.{Config, Breaker, TupleKey, opened, new_entry}
use lite_aig.Lease.{
  Coordinator, Acquired, acquired, full, new, leases_of, put_leases, prune, take_lease, acquire,
  renew, release,
}
use lite_aig.Lease.Scopes.{Call, acquires, renews, releases, cleans}
use lite_aig.Lease.Capacity.{IsWithin, run, run-new-IsWithin}
use lite_aig.Lease.Gate.{Gate}

abbrev calls : List (String × Call)
calls =
    ("s", acquires 2 (pos 60) 10 (some "a"))
    ∷ ("s", acquires 2 (pos 60) 20 (some "b"))
    ∷ ("t", acquires 9 (pos 60) 20 (some "c"))
    ∷ ("s", acquires 2 (pos 60) 30 (some "d"))
    ∷ ("s", renews "a" (pos 60) 40)
    ∷ ("s", releases "b")
    ∷ ("s", cleans 50)
    ∷ []

-- The third lease of the scope is refused, and one of the two is released.
calls_leave_one : leases_of (run new calls) "s" ≡ ("a", 100) ∷ []
unfolding run new lite_aig.Lease.Scopes.step acquire take_lease put_leases prune renew release
    lite_aig.Lease.cleanup lookup insert delete retain slt add_time
calls_leave_one = refl

run-new-IsWithin_example : IsWithin 2 (leases_of (run new calls) "s")
run-new-IsWithin_example = run-new-IsWithin "s" 2 calls (omega arith) (
  inr (omega arith),
  (
    inr (omega arith),
    (inl (λ e. false≢true ((eq_iff "t" "s").1 e)), (inr (omega arith), (tt, (tt, (tt, tt))))),
  ),
)

abbrev config : Config whole
config = record {
  min_samples = 1;
  error_rate = pos 0;
  cooldown_initial = pos 30;
  cooldown_factor = pos 2;
  max_cooldown = pos 100;
  has_store = false;
  has_observer = false;
}

abbrev key : TupleKey
key = record { deployment_id = "d"; credential_id = "c" }

abbrev broken : Breaker whole
broken = record {
  config = config;
  entries =
      (
        "d:c",
        record new_entry {
          state = opened;
          samples = 1;
          failures = 1;
          opened_at = 10;
          open_count = 1;
        },
      )
      ∷ [];
}

abbrev gate : Gate whole
gate = record { circuit = some broken; coordinator = new }
