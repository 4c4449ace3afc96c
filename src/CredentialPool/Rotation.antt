-- ===== src/CredentialPool/Rotation.antt =====
-- The order of internal/resilience/credentialpool/pool.go is a rearrangement of what is eligible.
use lite_aig.Base.{
  ℕ, ◌≡◌, refl, sym, ap, ◌∙◌, Option, none, some, List, [], ◌∷◌, ◌++◌, String, Bool, arith,
  if◌then◌else◌, if_intro, length, map, take, drop, take-append-drop, ltb,
}
use lite_aig.Base.Float.{Float}
use lite_aig.Base.Sort.{count, count-map, count-append, count-sort_stable, sort_stable}
use lite_aig.Routing.Scores.{Hashing}
use lite_aig.CredentialPool.{
  Strategy, round_robin, weighted, least_inflight, quota_aware, Member, State, Pool, Candidate,
  Answer, found, no_eligible, panics, is_eligible, candidates, arrange, ids_of, order, unsorted,
  start_of, by_pool_score, scores_of, by_inflight, by_quota,
}

-- The ids of the members that are eligible, in the order of the pool.
unfoldable pub eligible_ids : {f : Float} → Option (State f) → List Member → List String
eligible_ids state [] = []
eligible_ids state (m ∷ ms) =
    let rest = eligible_ids state ms in
    if is_eligible state m.credential_id then m.credential_id ∷ rest else rest

map-candidates :
    {f : Float} (state : Option (State f)) (ms : List Member)
    → map (λ c. c.id) (candidates state ms) ≡ eligible_ids state ms
unfolding candidates eligible_ids
map-candidates state [] = refl
map-candidates state (m ∷ ms) = ground (arith, map-candidates state ms)

-- An answer that is a rearrangement of the list.
abbrev Rearranges : List Candidate → Answer (List Candidate) → Type 0
Rearranges cs (found ds) = (q : Candidate → Bool) → count q ds ≡ count q cs
Rearranges cs _ = Unit

count-rotate :
    (n : ℕ) (cs : List Candidate) (q : Candidate → Bool)
    → count q (drop n cs ++ take n cs) ≡ count q cs
count-rotate n cs q = omega (
  arith,
  count-append q (drop n cs) (take n cs),
  count-append q (take n cs) (drop n cs),
  ap (count q) (take-append-drop n cs),
)

unsorted_lem : (cs : List Candidate) → Rearranges cs (unsorted cs)
unfolding unsorted
unsorted_lem cs = if_intro (Rearranges cs) (ltb (length cs) 2) _ _ (λ _ q. refl) (λ _. tt)

module _ {f : Float} (h : Hashing f) (p : Pool f) (key : String) where
  arrange_lem : (cs : List Candidate) → Rearranges cs (arrange h p key cs)
  unfolding arrange
  arrange_lem cs = by_strategy p.strategy
    where
      with_state :
          (State f → Candidate → Candidate → Bool) → Option (State f) → Answer (List Candidate)
      with_state less o = elim o [ none ↦ unsorted cs | some s ↦ found (sort_stable (less s) cs) ]

      with_state_lem :
          (less : State f → Candidate → Candidate → Bool) (o : Option (State f))
          → Rearranges cs (with_state less o)
      with_state_lem less none = unsorted_lem cs
      with_state_lem less (some s) = λ q. count-sort_stable (less s) q cs

      by : Strategy → Answer (List Candidate)
      by s = elim s [
        | weighted ↦ found (sort_stable (by_pool_score p (scores_of h key cs [])) cs)
        | least_inflight ↦ with_state by_inflight p.state
        | quota_aware ↦ with_state by_quota p.state
        | round_robin ↦ found (drop (start_of h key cs) cs ++ take (start_of h key cs) cs)
      ]

      by_strategy : (s : Strategy) → Rearranges cs (by s)
      by_strategy weighted = λ q. count-sort_stable _ q cs
      by_strategy least_inflight = with_state_lem by_inflight p.state
      by_strategy quota_aware = with_state_lem by_quota p.state
      by_strategy round_robin = count-rotate (start_of h key cs) cs

  ids_of_lem :
      (cs : List Candidate) (a : Answer (List Candidate)) (ids : List String) (q : String → Bool)
      → Rearranges cs a
      → ids_of a ≡ found ids
      → count q ids ≡ count q (map (λ c. c.id) cs)
  unfolding ids_of
  ids_of_lem cs (found ds) ids q k e =
      let same : map (λ c. c.id) ds ≡ ids = cc in
      ap (count q) (sym same)
      ∙ count-map (λ c. c.id) q ds
      ∙ k (λ c. q c.id)
      ∙ sym (count-map (λ c. c.id) q cs)
  ids_of_lem cs no_eligible ids q k e = cc
  ids_of_lem cs panics ids q k e = cc

  -- An order, by any of the four strategies, names each eligible credential as often as the pool
  -- does, and no other.
  pub order_rearranges :
      (ids : List String) (q : String → Bool)
      → order h p key ≡ found ids
      → count q ids ≡ count q (eligible_ids p.state p.members)
  unfolding order
  order_rearranges ids q e =
      by_candidates (candidates p.state p.members) e
      ∙ ap (count q) (map-candidates p.state p.members)
    where
      from_list : List Candidate → Answer (List String)
      from_list cs = elim cs [ [] ↦ no_eligible | c ∷ rest ↦ ids_of (arrange h p key (c ∷ rest)) ]

      by_candidates :
          (cs : List Candidate)
          → from_list cs ≡ found ids
          → count q ids ≡ count q (map (λ c. c.id) cs)
      by_candidates [] k = cc
      by_candidates (c ∷ rest) k =
          ids_of_lem (c ∷ rest) (arrange h p key (c ∷ rest)) ids q (arrange_lem (c ∷ rest)) k
