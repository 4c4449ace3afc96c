-- ===== src/Lease/Scopes.antt =====
-- The leases of one scope of internal/platform/coordination/memory.go, under the four methods.
use lite_aig.Base.{◌≡◌, ◌≢◌, ap, Option, none, some, [], String, arith, if◌then◌else◌, is_some}
use lite_aig.Base.Assoc.{lookup, insert, delete, lookup-insert_self, lookup-insert_ne}
use lite_aig.Base.Word.{Int64}
use lite_aig.Base.Clock.{Time, Duration, add_time}
use lite_aig.Lease.{
  Leases, Coordinator, leases_of, put_leases, prune, take_lease, acquire, renew, release, cleanup,
}

abbrev or_empty : Option Leases → Leases
or_empty o = elim o [ none ↦ [] | some l ↦ l ]

pub leases_of-put_self :
    (m : Coordinator) (scope : String) (l : Leases) → leases_of (put_leases m scope l) scope ≡ l
unfolding put_leases
leases_of-put_self m scope l = ap or_empty (lookup-insert_self scope l m.scopes)

pub leases_of-put_ne :
    (m : Coordinator) (scope other : String) (l : Leases)
    → scope ≢ other
    → leases_of (put_leases m scope l) other ≡ leases_of m other
unfolding put_leases
leases_of-put_ne m scope other l ne = ap or_empty (lookup-insert_ne scope other l m.scopes ne)

-- A call on a scope.
pub data Call : Type 0 where
  acquires : Int64 → Duration → Time → Option String → Call
  renews : String → Duration → Time → Call
  releases : String → Call
  cleans : Time → Call

unfoldable pub step : Coordinator → String × Call → Coordinator
step m (scope, acquires capacity ttl now id) = (acquire m scope capacity ttl now id).0
step m (scope, renews id ttl now) = (renew m scope id ttl now).0
step m (scope, releases id) = release m scope id
step m (scope, cleans now) = cleanup m scope now

-- What the call does to the leases of its scope.
unfoldable pub change : Leases → Call → Leases
change l (acquires capacity ttl now id) = (take_lease (prune l now) capacity ttl now id).0
change l (renews id ttl now) =
    let l' = prune l now in if is_some (lookup id l') then insert id (add_time now ttl) l' else l'
change l (releases id) = delete id l
change l (cleans now) = prune l now

-- A call changes the leases of its own scope, and of no other.
pub leases_of-step :
    (m : Coordinator) (scope : String) (c : Call)
    → leases_of (step m (scope, c)) scope ≡ change (leases_of m scope) c
unfolding step change acquire renew release cleanup
leases_of-step m scope (acquires capacity ttl now id) =
    leases_of-put_self m scope (take_lease (prune (leases_of m scope) now) capacity ttl now id).0
leases_of-step m scope (renews id ttl now) =
    let l = prune (leases_of m scope) now in
    ground (
      arith,
      leases_of-put_self m scope l,
      leases_of-put_self m scope (insert id (add_time now ttl) l),
    )
leases_of-step m scope (releases id) = leases_of-put_self m scope (delete id (leases_of m scope))
leases_of-step m scope (cleans now) = leases_of-put_self m scope (prune (leases_of m scope) now)

pub leases_of-step_ne :
    (m : Coordinator) (scope other : String) (c : Call)
    → scope ≢ other
    → leases_of (step m (scope, c)) other ≡ leases_of m other
unfolding step acquire renew release cleanup
leases_of-step_ne m scope other (acquires capacity ttl now id) ne =
    leases_of-put_ne m scope other _ ne
leases_of-step_ne m scope other (renews id ttl now) ne =
    let l = prune (leases_of m scope) now in
    ground (
      arith,
      leases_of-put_ne m scope other l ne,
      leases_of-put_ne m scope other (insert id (add_time now ttl) l) ne,
    )
leases_of-step_ne m scope other (releases id) ne = leases_of-put_ne m scope other _ ne
leases_of-step_ne m scope other (cleans now) ne = leases_of-put_ne m scope other _ ne
