-- ===== src/Cache/Tests.antt =====
-- The cache on concrete calls, and the properties at concrete inputs.
use lite_aig.Base.{none, some, [], ◌∷◌, List, ◌≡◌, refl, arith, length, ◌≤◌}
use lite_aig.Base.Assoc.{lookup, insert, delete}
use lite_aig.Base.Int.{pos}
use lite_aig.Base.Word.{add64, slt, sle}
use lite_aig.Base.Clock.{sub_time}
use lite_aig.Cache.{
  Entry, new, deref, unlink, back, remove, to_front, count_hit, count_miss, count_put,
  count_eviction, is_expired, element_of, get, evict, push, put, delete_key,
}
use lite_aig.Cache.Links.{view, IsLinked}
use lite_aig.Cache.History.{
  Call, get_call, put_call, delete_call, step, run, ideal_run, run_refines,
}

program : Unit {0}
unfolding new deref unlink back remove to_front count_hit count_miss count_put count_eviction
    is_expired element_of get evict push put delete_key step run lookup insert delete add64 slt sle
    sub_time view
program = tt

abbrev entry : Entry
entry = record { response = "{}"; stored_at = 100; ttl = pos 50 }

-- `a` is read before the third key arrives, so `b` is the one to go; at time 200 `a` has expired.
abbrev calls : List Call
calls =
    put_call "a" entry
    ∷ put_call "b" entry
    ∷ get_call "a" 120
    ∷ put_call "c" (record entry { ttl = pos 0 })
    ∷ get_call "b" 121
    ∷ get_call "a" 200
    ∷ get_call "c" 1000
    ∷ delete_call "c"
    ∷ []

run_evicts :
    (run (new 2) calls).1
    ≡ none
      ∷ none
      ∷ some entry
      ∷ none
      ∷ none
      ∷ none
      ∷ some (record entry { ttl = pos 0 })
      ∷ none
      ∷ []
unfolding program
run_evicts = refl

run_counts : (run (new 2) calls).0.stats ≡ record { hits = 2; misses = 2; puts = 3; evictions = 1 }
unfolding program
run_counts = refl

default_capacity : (new 0).capacity ≡ 1024
unfolding program
default_capacity = refl

run_refines_example :
    let (s, answers) = run (new 2) calls in
    let (ideal, ideal_answers) = ideal_run (new 2).capacity [] calls in
    (answers ≡ ideal_answers)
    × (view s.order ≡ ideal)
    × IsLinked s
    × (length s.entries ≤ (new 2).capacity)
unfolding program
run_refines_example = run_refines 2 calls (omega arith)
