-- ===== src/Lease.antt =====
-- internal/platform/coordination/memory.go, `MemoryLeaseCoordinator`: concurrency leases of one
-- process; and internal/resilience/leasegate/gate.go, which asks the circuit first. The reading of
-- the clock and the new random id are arguments.
pub mod Scopes
pub mod Capacity
pub mod Renewal
pub mod Gate
mod Tests
use lite_aig.Base.{
  ℕ, if◌then◌else◌, Option, none, some, List, [], ◌∷◌, String, Bool, true, false, not, ltb, length,
  is_some,
}
use lite_aig.Base.Assoc.{Assoc, lookup, insert, delete, retain}
use lite_aig.Base.Word.{Int64, slt}
use lite_aig.Base.Clock.{Time, Duration, add_time}

abbrev pub Leases : Type 0
Leases = Assoc Time

pub record Coordinator : Type 0 where
  pub scopes : Assoc Leases

-- `newLeaseID` reads the random source, which may fail.
pub data Acquired : Type 0 where
  acquired : String → Acquired
  full : Acquired
  id_error : Acquired

pub new : Coordinator
new = record { scopes = [] }

-- `leases`: the leases of a scope. The table that Go makes for a scope that has none is put back
-- by the callers below.
abbrev pub leases_of : Coordinator → String → Leases
leases_of m scope = elim (lookup scope m.scopes) [ none ↦ [] | some l ↦ l ]

pub put_leases : Coordinator → String → Leases → Coordinator
put_leases m scope l = record m { scopes = insert scope l m.scopes }

-- `prune`: the leases that have not expired.
pub prune : Leases → Time → Leases
prune l now = retain (λ expiry. ltb now expiry) l

-- What `Acquire` does with the pruned leases.
pub take_lease : Leases → Int64 → Duration → Time → Option String → Leases × Acquired
take_lease l capacity ttl now id =
    if not (slt (length l) capacity)
    then (l, full)
    else elim id [ none ↦ (l, id_error) | some i ↦ (insert i (add_time now ttl) l, acquired i) ]

pub acquire :
    Coordinator → String → Int64 → Duration → Time → Option String → Coordinator × Acquired
acquire m scope capacity ttl now id =
    let (l, answer) = take_lease (prune (leases_of m scope) now) capacity ttl now id in
    (put_leases m scope l, answer)

pub renew : Coordinator → String → String → Duration → Time → Coordinator × Bool
renew m scope id ttl now =
    let l = prune (leases_of m scope) now in
    if is_some (lookup id l)
    then (put_leases m scope (insert id (add_time now ttl) l), true)
    else (put_leases m scope l, false)

pub release : Coordinator → String → String → Coordinator
release m scope id = put_leases m scope (delete id (leases_of m scope))

pub cleanup : Coordinator → String → Time → Coordinator
cleanup m scope now = put_leases m scope (prune (leases_of m scope) now)
