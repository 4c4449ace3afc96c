-- ===== src/Routing/Members.antt =====
-- The order of internal/routing/model/planner.go drops no deployment, adds none and repeats none.
use lite_aig.Base.{
  ℕ, ◌%◌, ◌<◌, ◌≡◌, sym, ap, ◌∙◌, Option, none, some, List, ◌++◌, String, str_eq, Bool, arith,
  if_intro, length, take, drop, take-append-drop, All, All-append,
}
use lite_aig.Base.Assoc.{Assoc}
use lite_aig.Base.Word.{Int64, half}
use lite_aig.Base.Float.{Float}
use lite_aig.Base.Sort.{
  count, count-append, sort_stable, count-sort_stable, sort_stable-All, take-All, drop-All,
}
use lite_aig.Routing.Snapshot.{Deployment, RoutePolicy}
use lite_aig.Routing.Scores.{Hashing, DeploymentMetrics, read}
use lite_aig.Routing.Order.{
  Planner, Ordered, start_of, by_id, by_priority, order_weighted, order_round_robin, order_soft,
  order_priority, order, choice_key, counter_key,
}

count-rotate :
    {A : Type 0} (p : A → Bool) (n : ℕ) (xs : List A)
    → count p (drop n xs ++ take n xs) ≡ count p xs
count-rotate p n xs = omega (
  arith,
  count-append p (drop n xs) (take n xs),
  count-append p (take n xs) (drop n xs),
  ap (count p) (take-append-drop n xs),
)

-- The outcome of an order, if it does not panic, passes each test as often as the list given.
abbrev Counts : (Deployment → Bool) → List Deployment → Option (List Deployment) → Type 0
Counts p xs none = Unit
Counts p xs (some ys) = count p ys ≡ count p xs

abbrev pub AllIn : (Deployment → Type 0) → Option (List Deployment) → Type 0
AllIn P none = Unit
AllIn P (some ys) = All P ys

module _ (f : Float) (h : Hashing f) (p : Planner) (policy : RoutePolicy f) (tenant_ref : String)
    (version : Int64) (routing_key request_id : String) (metrics : Assoc (DeploymentMetrics f))
    (eligible : List Deployment) where
  abbrev items : List Deployment
  items = sort_stable by_id eligible

  abbrev ordered : Ordered f
  ordered = order f h p policy tenant_ref version routing_key request_id metrics eligible

  -- A proof for each of the four strategies.
  by_strategy :
      (P : Ordered f → Type 0)
      → P (order_weighted f h p policy (choice_key f h routing_key request_id) items)
      → P (order_round_robin f h p (counter_key tenant_ref policy.id version) items)
      → P (order_soft f h p policy metrics items)
      → P (order_priority f h p items)
      → P ordered
  unfolding order
  by_strategy P w r s d =
      if_intro P (str_eq policy.strategy "weighted") _ _ (λ _. w)
        (λ _.
          if_intro P (str_eq policy.strategy "round_robin") _ _ (λ _. r)
            (λ _. if_intro P (str_eq policy.strategy "soft") _ _ (λ _. s) (λ _. d)))

  counts_items : (q : Deployment → Bool) → count q items ≡ count q eligible
  counts_items q = count-sort_stable by_id q eligible

  counts_sorted :
      (q : Deployment → Bool) (less : Deployment → Deployment → Bool)
      → count q (sort_stable less items) ≡ count q eligible
  counts_sorted q less = count-sort_stable less q items ∙ counts_items q

  rotated :
      (q : Deployment → Bool) (o : Option ℕ)
      → Counts q eligible
          (elim o [ none ↦ none | some start ↦ some (drop start items ++ take start items) ])
  rotated q none = tt
  rotated q (some n) = count-rotate q n items ∙ counts_items q

  count-order_lem : (q : Deployment → Bool) → Counts q eligible ordered.items
  unfolding order_weighted order_round_robin order_soft order_priority
  count-order_lem q =
      by_strategy (λ o. Counts q eligible o.items) (counts_sorted q _)
        (rotated q (
          start_of (read 0 p.round_robin (counter_key tenant_ref policy.id version))
            (length items)))
        (counts_sorted q _) (counts_sorted q by_priority)

  -- For every strategy, unless the program panics: the order passes every test of deployments
  -- exactly as often as the eligible ones do, so it is a rearrangement of them.
  pub count-order :
      (ys : List Deployment) (q : Deployment → Bool)
      → ordered.items ≡ some ys
      → count q ys ≡ count q eligible
  count-order ys q e = by_items ordered.items (count-order_lem q) e
    where
      by_items :
          (o : Option (List Deployment))
          → Counts q eligible o
          → o ≡ some ys
          → count q ys ≡ count q eligible
      by_items none c e = cc
      by_items (some zs) c e = let same : zs ≡ ys = cc in ap (count q) (sym same) ∙ c

  rotated-All :
      (P : Deployment → Type 0) (o : Option ℕ)
      → All P eligible
      → AllIn P (elim o [ none ↦ none | some start ↦ some (drop start items ++ take start items) ])
  rotated-All P none h = tt
  rotated-All P (some n) h =
      let sorted = sort_stable-All P by_id eligible h in
      All-append P (drop n items) (take n items) (drop-All P n items sorted)
        (take-All P n items sorted)

  pub order-All : (P : Deployment → Type 0) → All P eligible → AllIn P ordered.items
  unfolding order_weighted order_round_robin order_soft order_priority
  order-All P h =
      let sorted = sort_stable-All P by_id eligible h in
      by_strategy (λ o. AllIn P o.items) (sort_stable-All P _ items sorted)
        (rotated-All P
          (start_of (read 0 p.round_robin (counter_key tenant_ref policy.id version))
            (length items))
          h)
        (sort_stable-All P _ items sorted) (sort_stable-All P by_priority items sorted)

  start_lem : (value n : ℕ) → value < half → start_of value n ≡ some (value % n)
  unfolding start_of
  start_lem value n small = ground arith

  abbrev pub IsSome : Option (List Deployment) → Type 0
  IsSome none = ⊥
  IsSome (some ys) = Unit

  -- While no counter has reached 2 ^ 63, the order does not panic.
  pub order_total :
      read 0 p.round_robin (counter_key tenant_ref policy.id version) < half → IsSome ordered.items
  unfolding order_weighted order_round_robin order_soft order_priority
  order_total small =
      by_strategy (λ o. IsSome o.items) tt
        (rw
          (
            start_lem (read 0 p.round_robin (counter_key tenant_ref policy.id version))
                (length items) small,
            IsSome,
          )
          tt)
        tt tt
