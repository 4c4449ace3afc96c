-- ===== src/CredentialPool.antt =====
-- internal/resilience/credentialpool/pool.go: the credentials of a pool in the order in which a
-- request tries them. `Hashing` holds the sums and the logarithm that the file imports.
pub mod Rotation
pub mod Picking
mod Tests
use lite_aig.Base.{
  ℕ, suc, ◌%◌, ◌==◌, if◌then◌else◌, Option, none, some, List, [], ◌∷◌, ◌++◌, String, str_eq, Bool,
  true, false, not, ◌&&◌, ◌||◌, length, map, take, drop, get_elem?, ltb,
}
use lite_aig.Base.Assoc.{Assoc, lookup, insert}
use lite_aig.Base.Word.{Int64, slt, sle}
use lite_aig.Base.Int.{pos}
use lite_aig.Base.Float.{Float}
use lite_aig.Base.Sort.{sort_stable}
use lite_aig.Routing.Order.{str_ltb}
use lite_aig.Routing.Snapshot.{Deployment, Snapshot as Tenant}
use lite_aig.Routing.Scores.{Hashing, weighted_score, read}

pub data Strategy : Type 0 where
  round_robin weighted least_inflight quota_aware : Strategy

pub record Member : Type 0 where
  pub credential_id : String
  pub weight : Int64

-- The view of each credential; `quota` gives what is used and the limit.
pub record State (f : Float) : Type 0 where
  pub eligible : String → Bool
  pub inflight : String → Int64
  pub quota : String → f.F × f.F

pub record Pool (f : Float) : Type 0 where
  pub strategy : Strategy
  pub members : List Member
  pub state : Option (State f)

pub record Candidate : Type 0 where
  pub id : String
  pub weight : Int64

-- An order, ErrNoEligibleCredential, or a panic: a pool without a view is asked for a value of it.
pub data Answer (A : Type 0) : Type 0 where
  found : A → Answer A
  no_eligible : Answer A
  panics : Answer A

unfoldable pub strategy_of : String → Option Strategy
strategy_of s =
    if str_eq s "round_robin"
    then some round_robin
    else if str_eq s "weighted"
    then some weighted
    else if str_eq s "least_inflight"
    then some least_inflight
    else if str_eq s "quota_aware"
    then some quota_aware
    else none

-- `New`, or none where it returns an error.
unfoldable pub new_pool : {f : Float} → String → List Member → Option (State f) → Option (Pool f)
new_pool s [] state = none
new_pool s (m ∷ ms) state = elim (strategy_of s) [
  | none ↦ none
  | some strategy ↦ some (record { strategy = strategy; members = m ∷ ms; state = state })
]

unfoldable pub ids_of : Answer (List Candidate) → Answer (List String)
ids_of (found cs) = found (map (λ c. c.id) cs)
ids_of no_eligible = no_eligible
ids_of panics = panics

-- A sort by a view that is not there: it panics once it compares.
unfoldable pub unsorted : List Candidate → Answer (List Candidate)
unsorted cs = if ltb (length cs) 2 then found cs else panics

module _ {f : Float} where
  unfoldable pub is_eligible : Option (State f) → String → Bool
  is_eligible none id = true
  is_eligible (some s) id = s.eligible id

  -- The eligible members, each with a weight of at least 1.
  unfoldable pub candidates : Option (State f) → List Member → List Candidate
  candidates state [] = []
  candidates state (m ∷ ms) =
      let rest = candidates state ms in
      if is_eligible state m.credential_id
      then record { id = m.credential_id; weight = if sle m.weight 0 then 1 else m.weight } ∷ rest
      else rest

  unfoldable pub by_inflight : State f → Candidate → Candidate → Bool
  by_inflight s a b =
      if s.inflight a.id == s.inflight b.id
      then str_ltb a.id b.id
      else slt (s.inflight a.id) (s.inflight b.id)

  unfoldable pub quota_ratio : State f → String → f.F
  quota_ratio s id =
      let (used, limit) = s.quota id in
      if f.leb limit (f.of_int (pos 0)) then f.max_float else f.div used limit

  unfoldable pub by_quota : State f → Candidate → Candidate → Bool
  by_quota s a b =
      let left = quota_ratio s a.id in
      let right = quota_ratio s b.id in
      if f.leb left right && f.leb right left then str_ltb a.id b.id else f.ltb left right

  unfoldable pub scores_of : Hashing f → String → List Candidate → Assoc f.F → Assoc f.F
  scores_of h key [] scores = scores
  scores_of h key (c ∷ cs) scores =
      scores_of h key cs (insert c.id (weighted_score f h key c.id c.weight) scores)

  unfoldable pub by_pool_score : Pool f → Assoc f.F → Candidate → Candidate → Bool
  by_pool_score p scores a b =
      f.ltb (read (f.of_int (pos 0)) scores a.id) (read (f.of_int (pos 0)) scores b.id)

  -- Where the rotation starts in a list that is not empty.
  unfoldable pub start_of : Hashing f → String → List Candidate → ℕ
  start_of h key cs = if str_eq key "" then 0 else h.sum64 key % length cs

  -- The eligible credentials by the pool's strategy.
  unfoldable pub arrange : Hashing f → Pool f → String → List Candidate → Answer (List Candidate)
  arrange h p key cs = elim p.strategy [
    | weighted ↦ found (sort_stable (by_pool_score p (scores_of h key cs [])) cs)
    | least_inflight ↦ elim p.state [
      | none ↦ unsorted cs
      | some s ↦ found (sort_stable (by_inflight s) cs)
    ]
    | quota_aware ↦ elim p.state [
      | none ↦ unsorted cs
      | some s ↦ found (sort_stable (by_quota s) cs)
    ]
    | round_robin ↦ found (drop (start_of h key cs) cs ++ take (start_of h key cs) cs)
  ]

  -- `Order`.
  unfoldable pub order : Hashing f → Pool f → String → Answer (List String)
  order h p key = elim (candidates p.state p.members) [
    | [] ↦ no_eligible
    | c ∷ cs ↦ ids_of (arrange h p key (c ∷ cs))
  ]

-- The first of an order, which has one.
unfoldable pub first_of : Answer (List String) → Answer String
first_of (found []) = panics
first_of (found (id ∷ ids)) = found id
first_of no_eligible = no_eligible
first_of panics = panics

unfoldable pub select : {f : Float} → Hashing f → Pool f → String → Answer String
select h p key = first_of (order h p key)

-- `FromSnapshot`, or none where it returns an error.
unfoldable pub from_snapshot :
    {f : Float} → Tenant f → Deployment → Option (State f) → Option (Pool f)
from_snapshot s d state =
    if not (str_eq d.pool_id "")
    then elim (lookup d.pool_id s.credential_pools) [
      | none ↦ none
      | some pool ↦
          new_pool pool.strategy
            (map (λ m. record { credential_id = m.credential_id; weight = m.weight }) pool.members)
            state
    ]
    else if str_eq d.credential_id ""
    then none
    else new_pool "round_robin" (record { credential_id = d.credential_id; weight = 0 } ∷ []) state

-- `SnapshotState.Eligible`.
unfoldable pub snapshot_eligible :
    {f : Float} → Tenant f → String → Option (String → String → Bool) → String → Bool
snapshot_eligible s deployment_id circuit_open credential_id =
    elim (lookup credential_id s.credentials) [
      | none ↦ false
      | some c ↦
          if not (str_eq c.status "enabled")
          then false
          else elim (lookup c.provider_id s.providers) [
            | none ↦ false
            | some p ↦ if not (str_eq p.status "enabled") then false else elim circuit_open [
              | none ↦ true
              | some view ↦ not (view deployment_id credential_id)
            ]
          ]
    ]

-- Iterates an order for one request.
pub record Picker : Type 0 where
  pub order : List String
  pub index : ℕ

unfoldable pub picker_of : Answer (List String) → Answer Picker
picker_of (found ids) = found (record { order = ids; index = 0 })
picker_of no_eligible = no_eligible
picker_of panics = panics

unfoldable pub new_picker : {f : Float} → Hashing f → Pool f → String → Answer Picker
new_picker h p key = picker_of (order h p key)

-- The next credential, or none for ErrExhausted.
unfoldable pub next : Picker → Picker × Option String
next p = elim (get_elem? p.order p.index) [
  | none ↦ (p, none)
  | some id ↦ (record p { index = suc p.index }, some id)
]
