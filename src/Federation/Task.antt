-- ===== src/Federation/Task.antt =====
-- internal/federation/task.go: the counters of a task and the detector of loops in a chain of agents.
use lite_aig.Base.{
  ℕ, zero, suc, ◌-◌, ◌≤◌, ◌<◌, if◌then◌else◌, List, [], ◌∷◌, ◌++◌, String, str_eq, Bool, true,
  false, ◌&&◌, ◌||◌, ◌≡◌, refl, ap, ◌∙◌, arith, contains, is_distinct, is_distinct-append, length,
  take, length-append, leb, Bool-cases, inl, inr,
}
use lite_aig.Base.Int.{pos}
use lite_aig.Base.Float.{Float}
use lite_aig.Base.Word.{Int64, add64, slt, sle, half, word, sle_small}

pub record TaskLimits (f : Float) : Type 0 where
  pub max_agent_hops : Int64
  pub max_agent_calls : Int64
  pub max_total_cost : f.F
  pub consistency : String

pub record TaskState (f : Float) : Type 0 where
  pub hops : Int64
  pub calls : Int64
  pub total_cost : f.F
  pub crossed_boundary : Bool

unfoldable pub record_crossing : {f : Float} → TaskState f → TaskState f
record_crossing t = record t { crossed_boundary = true }

-- A limit of a counter, which the soft mode raises by `slack`.
unfoldable pub count_ok : Int64 → Int64 → Int64 → Bool
count_ok slack limit count = sle limit 0 || slt count (add64 limit slack)

-- A limit of the cost; 1.1 is the quotient of 11 and 10.
unfoldable pub cost_ok : (f : Float) → Bool → f.F → f.F → Bool
cost_ok f soft limit cost =
    f.leb limit (f.of_int (pos 0))
    || f.ltb cost
        (if soft then f.mul limit (f.div (f.of_int (pos 11)) (f.of_int (pos 10))) else limit)

unfoldable pub should_allow_hop : (f : Float) → TaskLimits f → TaskState f → Bool
should_allow_hop f limits t =
    let soft = str_eq limits.consistency "global_soft" in
    let slack = if soft then 2 else 0 in
    count_ok slack limits.max_agent_hops t.hops
    && count_ok slack limits.max_agent_calls t.calls
    && cost_ok f soft limits.max_total_cost t.total_cost

unfoldable pub consume_hop : (f : Float) → f.F → TaskState f → TaskState f
consume_hop f cost t = record t {
  hops = add64 t.hops 1;
  calls = add64 t.calls 1;
  total_cost = f.add t.total_cost cost;
}

pub record LoopDetector : Type 0 where
  pub path : List String
  pub max_depth : Int64

unfoldable pub new_loop_detector : Int64 → LoopDetector
new_loop_detector max_depth = record {
  path = [];
  max_depth = if sle max_depth 0 then 8 else max_depth;
}

unfoldable pub enter : String → LoopDetector → LoopDetector × Bool
enter agent_id d =
    if contains d.path agent_id
    then (d, false)
    else if sle d.max_depth (length d.path)
    then (d, false)
    else (record d { path = d.path ++ agent_id ∷ [] }, true)

unfoldable pub exit : LoopDetector → LoopDetector
exit d = record d { path = take (length d.path - 1) d.path }

-- Enters, by the agents' ids, and exits.
pub data Hop : Type 0 where
  enter_hop : String → Hop
  exit_hop : Hop

unfoldable pub walk : List Hop → LoopDetector → LoopDetector
walk [] d = d
walk (enter_hop agent_id ∷ hops) d = walk hops (enter agent_id d).0
walk (exit_hop ∷ hops) d = walk hops (exit d)

-- The chain has no agent twice and is not longer than the maximum, which is the detector's.
abbrev pub IsChain : ℕ → LoopDetector → Type 0
IsChain limit d =
    (is_distinct d.path ≡ true)
    × (length d.path ≤ limit)
    × (d.max_depth ≡ limit)
    × (0 < limit)
    × (limit < half)

-- An agent is let in exactly when it is not in the chain and the chain is not full; it is then the
-- last one of the chain, and otherwise nothing changes.
abbrev pub IsGuarded : ℕ → LoopDetector → Type 0
IsGuarded limit d =
    (agent_id : String)
    → enter agent_id d ≡ (
        if contains d.path agent_id || leb limit (length d.path)
        then (d, false)
        else (record d { path = d.path ++ agent_id ∷ [] }, true))

contains-take :
    (limit : ℕ) (xs : List String) (s : String)
    → contains xs s ≡ false
    → contains (take limit xs) s ≡ false
unfolding contains
contains-take zero xs s h = refl
contains-take (suc limit) [] s h = refl
contains-take (suc limit) (x ∷ xs) s h = ground (arith, contains-take limit xs s)

is_distinct-take :
    (limit : ℕ) (xs : List String) → is_distinct xs ≡ true → is_distinct (take limit xs) ≡ true
unfolding is_distinct
is_distinct-take zero xs h = refl
is_distinct-take (suc limit) [] h = refl
is_distinct-take (suc limit) (x ∷ xs) h =
    ground (arith, contains-take limit xs x, is_distinct-take limit xs)

length-take-le : (limit : ℕ) (xs : List String) → length (take limit xs) ≤ length xs
length-take-le zero xs = omega arith
length-take-le (suc limit) [] = omega arith
length-take-le (suc limit) (x ∷ xs) = omega (arith, length-take-le limit xs)

above : (a b : ℕ) → leb a b ≡ false → b < a
above a b h = ground arith

module _ (limit : ℕ) where
  enter-IsGuarded : (d : LoopDetector) → IsChain limit d → IsGuarded limit d
  unfolding enter
  enter-IsGuarded d chain agent_id =
      let same : sle d.max_depth (length d.path) ≡ leb limit (length d.path) =
        ap (λ m. sle m (length d.path)) chain.2
        ∙ sle_small limit (length d.path) chain.4 (omega (arith, chain.1, chain.4)) in
      elim (Bool-cases (contains d.path agent_id)) [
        | inl known ↦ rw known refl
        | inr fresh ↦ rw (fresh, same) refl
      ]

  enter-IsChain :
      (agent_id : String) (d : LoopDetector) → IsChain limit d → IsChain limit (enter agent_id d).0
  enter-IsChain agent_id d chain =
      rw (enter-IsGuarded d chain agent_id) (elim (Bool-cases (contains d.path agent_id)) [
        | inl known ↦ rw known chain
        | inr fresh ↦ elim (Bool-cases (leb limit (length d.path))) [
          | inl full ↦ rw (fresh, full) chain
          | inr room ↦
              rw (fresh, room)
                (
                  is_distinct-append d.path agent_id chain.0 fresh,
                  omega (
                    arith,
                    above limit (length d.path) room,
                    length-append d.path (agent_id ∷ []),
                  ),
                  chain.2,
                  chain.3,
                  chain.4,
                )
        ]
      ])

  exit-IsChain : (d : LoopDetector) → IsChain limit d → IsChain limit (exit d)
  unfolding exit
  exit-IsChain d chain = (
    is_distinct-take _ d.path chain.0,
    omega (arith, chain.1, length-take-le (length d.path - 1) d.path),
    chain.2,
    chain.3,
    chain.4,
  )

  walk-IsChain :
      (hops : List Hop) (d : LoopDetector) → IsChain limit d → IsChain limit (walk hops d)
  unfolding walk
  walk-IsChain [] d chain = chain
  walk-IsChain (enter_hop agent_id ∷ hops) d chain =
      walk-IsChain hops _ (enter-IsChain agent_id d chain)
  walk-IsChain (exit_hop ∷ hops) d chain = walk-IsChain hops _ (exit-IsChain d chain)

new-IsChain :
    (max_depth : Int64)
    → max_depth < word
    → IsChain (if sle max_depth 0 then 8 else max_depth) (new_loop_detector max_depth)
unfolding new_loop_detector is_distinct sle
new-IsChain max_depth fits = elim (Bool-cases (sle max_depth 0)) [
  | inl e ↦ rw e (refl, omega arith, refl, omega arith, omega arith)
  | inr e ↦ rw e (refl, omega arith, refl, ground arith, ground arith)
]

-- Let the maximum be the one that a detector is made with, or eight when that is not positive.
-- Whatever agents enter and leave, the chain never names an agent twice and is never longer than
-- the maximum, and Enter still lets an agent in exactly when the chain does not name it and is
-- shorter than the maximum.
pub walk-new_loop_detector-IsChain :
    (max_depth : Int64) (hops : List Hop)
    → max_depth < word
    → let limit = if sle max_depth 0 then 8 else max_depth in
      let d = walk hops (new_loop_detector max_depth) in IsChain limit d × IsGuarded limit d
walk-new_loop_detector-IsChain max_depth hops fits =
    let chain = walk-IsChain _ hops _ (new-IsChain max_depth fits) in
    (chain, enter-IsGuarded _ _ chain)
