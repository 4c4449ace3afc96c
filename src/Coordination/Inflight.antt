-- ===== src/Coordination/Inflight.antt =====
-- The counters of `MemoryInflightCounter` of internal/platform/coordination/memory.go.
use lite_aig.Base.{ℕ, ◌+◌, ◌<◌, ◌≡◌, String, str_eq, eq_iff, arith, if◌then◌else◌}
use lite_aig.Base.Assoc.{insert, lookup-insert}
use lite_aig.Base.Word.{half, add64, sub64, add64_fits, sub64_fits, slt_small}
use lite_aig.Coordination.{Counters, count_of, incr, decr}

count_of-insert :
    (scope other : String) (n : ℕ) (m : Counters)
    → count_of (insert scope n m) other ≡ (if str_eq scope other then n else count_of m other)
unfolding count_of
count_of-insert scope other n m = ground (arith, lookup-insert scope other n m)

-- Where the counter is below 2 ^ 63 - 1, an increment and then a decrement of a scope leave every
-- counter as it was, and in between the scope's counter is one more.
pub decr-incr :
    (m : Counters) (scope other : String)
    → count_of m scope + 1 < half
    → ((incr m scope).1 ≡ count_of m scope + 1)
      × (count_of (decr (incr m scope).0 scope) other ≡ count_of m other)
unfolding incr decr
decr-incr m scope other small =
    let n = count_of m scope in
    let raised = add64_fits n 1 (omega (arith, small)) in
    let m' = insert scope (add64 n 1) m in
    ground (
      arith,
      raised,
      eq_iff scope other,
      eq_iff scope scope,
      count_of-insert scope scope (add64 n 1) m,
      count_of-insert scope other (add64 n 1) m,
      slt_small 0 (n + 1),
      sub64_fits (n + 1) 1,
      count_of-insert scope other (sub64 (n + 1) 1) m',
    )
