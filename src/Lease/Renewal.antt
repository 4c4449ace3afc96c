-- ===== src/Lease/Renewal.antt =====
-- How long a lease of internal/platform/coordination/memory.go can be renewed.
use lite_aig.Base.{
  ◌≡◌, ap, ◌∙◌, sym, subst, Option, none, some, String, Bool, false, arith, is_some, ltb,
}
use lite_aig.Base.Assoc.{
  lookup, insert, delete, IsMap, lookup-insert_self, lookup-delete_self, lookup-retain,
  insert-IsMap, retain-IsMap, delete-IsMap,
}
use lite_aig.Base.Word.{Int64}
use lite_aig.Base.Clock.{Time, Duration, add_time}
use lite_aig.Lease.{
  Leases, Coordinator, acquired, leases_of, prune, take_lease, acquire, renew, release,
}
use lite_aig.Lease.Scopes.{leases_of-put_self}

-- The lease is held and has not expired.
abbrev pub is_live : Leases → String → Time → Bool
is_live l id now = elim (lookup id l) [ none ↦ false | some expiry ↦ ltb now expiry ]

prune-IsMap : (l : Leases) (now : Time) → IsMap l → IsMap (prune l now)
unfolding prune
prune-IsMap l now h = retain-IsMap _ l h

is_some-prune :
    (l : Leases) (id : String) (now : Time)
    → IsMap l
    → is_some (lookup id (prune l now)) ≡ is_live l id now
unfolding prune
is_some-prune l id now h = ground (arith, lookup-retain (λ expiry. ltb now expiry) id l h)

-- `Renew` succeeds exactly for a lease of the scope that is held and has not expired.
renew_live :
    (m : Coordinator) (scope id : String) (ttl : Duration) (now : Time)
    → IsMap (leases_of m scope)
    → (renew m scope id ttl now).1 ≡ is_live (leases_of m scope) id now
unfolding renew
renew_live m scope id ttl now distinct =
    ground (arith, is_some-prune (leases_of m scope) id now distinct)

-- The leases of the scope after a lease is granted.
leases_of-acquire :
    (m : Coordinator) (scope id : String) (capacity : Int64) (ttl : Duration) (now : Time)
    → (acquire m scope capacity ttl now (some id)).1 ≡ acquired id
    → leases_of (acquire m scope capacity ttl now (some id)).0 scope
      ≡ insert id (add_time now ttl) (prune (leases_of m scope) now)
unfolding acquire take_lease
leases_of-acquire m scope id capacity ttl now granted =
    let l = prune (leases_of m scope) now in
    ground (arith, leases_of-put_self m scope (insert id (add_time now ttl) l))

leases_of-release :
    (m : Coordinator) (scope id : String)
    → leases_of (release m scope id) scope ≡ delete id (leases_of m scope)
unfolding release
leases_of-release m scope id = leases_of-put_self m scope _

live_in : Option Time → Time → Bool
live_in o now = elim o [ none ↦ false | some expiry ↦ ltb now expiry ]

-- Where no id of the scope is leased twice: after a successful `Acquire` the new lease can be
-- renewed exactly before its time to live has passed, and after its `Release` not at all.
pub renew-acquire :
    (m : Coordinator) (scope id : String) (capacity : Int64) (ttl again : Duration)
    (now later : Time)
    → IsMap (leases_of m scope)
    → (acquire m scope capacity ttl now (some id)).1 ≡ acquired id
    → let m' = (acquire m scope capacity ttl now (some id)).0 in
      ((renew m' scope id again later).1 ≡ ltb later (add_time now ttl))
      × ((renew (release m' scope id) scope id again later).1 ≡ false)
unfolding live_in
renew-acquire m scope id capacity ttl again now later distinct granted = (
  renew_live m' scope id again later distinct'
      ∙ ap (λ l. is_live l id later) held
      ∙ ap (λ o. live_in o later) (lookup-insert_self id (add_time now ttl) l),
  renew_live (release m' scope id) scope id again later (
        subst IsMap (sym (leases_of-release m' scope id))
          (delete-IsMap id (leases_of m' scope) distinct'))
      ∙ ap (λ k. is_live k id later) (leases_of-release m' scope id)
      ∙ ap (λ o. live_in o later) (lookup-delete_self id (leases_of m' scope)),
)
  where
    m' : Coordinator
    m' = (acquire m scope capacity ttl now (some id)).0

    l : Leases
    l = prune (leases_of m scope) now

    held : leases_of m' scope ≡ insert id (add_time now ttl) l
    held = leases_of-acquire m scope id capacity ttl now granted

    distinct' : IsMap (leases_of m' scope)
    distinct' =
        subst IsMap (sym held)
          (insert-IsMap id (add_time now ttl) l (prune-IsMap (leases_of m scope) now distinct))
