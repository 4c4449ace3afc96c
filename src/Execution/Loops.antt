-- ===== src/Execution/Loops.antt =====
-- A rule for the two loops of `runPlan` of internal/gateway/execution/executor.go.
use lite_aig.Base.{ℕ, zero, suc, ltb, List, [], ◌∷◌, String, Bool, Option-cases, inl, inr}
use lite_aig.Base.Word.{Int64, add64}
use lite_aig.Retry.{Policy}
use lite_aig.Execution.{
  Deployment, Env, Progress, Flow, fall_through, succeeded, stopped, Round, ends, again, round,
  attempt_loop, attempt_count, try_deployment, plan_loop,
}

module _ {S R E : Type 0} (P : Progress S E → Type 0) (PS : Progress S E → R → String → Type 0)
    (PT : Progress S E → E → Type 0) where
  -- What is claimed of the end of a loop.
  abbrev pub InFlow : Flow S R E → Type 0
  InFlow (fall_through p) = P p
  InFlow (succeeded p r d) = PS p r d
  InFlow (stopped p e) = PT p e

  abbrev pub InRound : Round S R E → Type 0
  InRound (ends flow) = InFlow flow
  InRound (again p) = P p

module _ {S I R E : Type 0} (env : Env S I R E) (policy : Policy) (stop : Bool)
    (P : Progress S E → Type 0) (PS : Progress S E → R → String → Type 0)
    (PT : Progress S E → E → Type 0)
    (keep : (invoker : I) (d : Deployment) (more : Bool) (number : Int64) (p : Progress S E)
      → P p
      → InRound P PS PT (round env policy stop invoker d more number p)) where
  -- What every round keeps holds of the end of the inner loop.
  attempt_loop_inv :
      (n : ℕ) (invoker : I) (d : Deployment) (number : Int64) (p : Progress S E)
      → P p
      → InFlow P PS PT (attempt_loop env policy stop n invoker d number p)
  unfolding attempt_loop
  attempt_loop_inv zero invoker d number p h = h
  attempt_loop_inv (suc n) invoker d number p h =
      let next =
        λ (p' : Progress S E) (h' : P p'). attempt_loop_inv n invoker d (add64 number 1) p' h' in
      by_round (round env policy stop invoker d (ltb 0 n) number p) (keep invoker d _ number p h)
        next
    where
      by_round :
          (r : Round S R E)
          → InRound P PS PT r
          → ((p' : Progress S E)
              → P p'
              → InFlow P PS PT (attempt_loop env policy stop n invoker d (add64 number 1) p'))
          → InFlow P PS PT (elim r [
            | ends flow ↦ flow
            | again p' ↦ attempt_loop env policy stop n invoker d (add64 number 1) p'
          ])
      by_round (ends flow) k next = k
      by_round (again p') k next = next p' k

  try_deployment_inv :
      (id : String) (p : Progress S E) → P p → InFlow P PS PT (try_deployment env policy stop id p)
  unfolding try_deployment
  try_deployment_inv id p h = elim (Option-cases (env.deployment id)) [
    | inl e ↦ rw (e, try_deployment) h
    | inr (d, e) ↦ elim (Option-cases (env.resolve d)) [
      | inl e' ↦ rw (e, try_deployment) (rw (e') h)
      | inr (invoker, e') ↦
          rw (e, try_deployment)
            (rw e' (attempt_loop_inv (attempt_count env policy stop) invoker d 1 p h))
    ]
  ]

  -- And of the end of the outer loop.
  pub plan_loop_inv :
      (ids : List String) (p : Progress S E)
      → P p
      → InFlow P PS PT (plan_loop env policy stop ids p)
  unfolding plan_loop
  plan_loop_inv [] p h = h
  plan_loop_inv (id ∷ ids) p h =
      by_flow (try_deployment env policy stop id p) (try_deployment_inv id p h)
        (λ p' h'. plan_loop_inv ids p' h')
    where
      by_flow :
          (flow : Flow S R E)
          → InFlow P PS PT flow
          → ((p' : Progress S E) → P p' → InFlow P PS PT (plan_loop env policy stop ids p'))
          → InFlow P PS PT (elim flow [
            | fall_through p' ↦ plan_loop env policy stop ids p'
            | succeeded p' r d ↦ succeeded p' r d
            | stopped p' e ↦ stopped p' e
          ])
      by_flow (fall_through p') k next = next p' k
      by_flow (succeeded p' r d) k next = k
      by_flow (stopped p' e) k next = k
