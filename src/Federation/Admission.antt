-- ===== src/Federation/Admission.antt =====
-- What a call has that internal/app/federationgate.go lets across the boundary.
use lite_aig.Base.{
  ℕ, suc, ◌<◌, List, [], ◌∷◌, String, str_eq, Bool, true, ◌&&◌, subst, ◌≡◌, refl, arith, contains,
  Option, none, some, leb, get_elem?, Bool-cases, Option-cases, inl, inr,
}
use lite_aig.Base.Assoc.{lookup}
use lite_aig.Federation.Permission.{allowed, evaluate}
use lite_aig.Federation.Gate.{
  Snapshot, Project, AgentEndpoint, Interaction, FederationRelationship, is_external,
  active_verified, granted, direction_allows_outbound, approved_version_matches,
  data_boundary_satisfied, is_enabled, stamped, request_for, refusal, conclude, active_project,
  check_relationship, enforce_a2a_federation, max_a2a_delegation_hops, GateError,
}

-- The facts of a relationship and a project that the call needs.
abbrev pub IsPermitted :
    Snapshot → AgentEndpoint → String → String → FederationRelationship → Project → Type 0
IsPermitted snapshot endpoint capability project_id r project =
    (contains r.project_grants project_id ≡ true)
    × (contains r.capability_grants capability ≡ true)
    × (direction_allows_outbound r.direction ≡ true)
    × (approved_version_matches r.approved_version endpoint.version ≡ true)
    × (data_boundary_satisfied project r ≡ true)
    × (is_enabled snapshot.status ≡ true)

-- The relationship is in the snapshot, for this agent, active and verified.
abbrev pub IsTrusted : Snapshot → AgentEndpoint → FederationRelationship → Type 0
IsTrusted snapshot endpoint r =
    ((k : ℕ) × (get_elem? snapshot.federation_relationships k ≡ some r))
    × (str_eq r.external_agent_id endpoint.agent_id ≡ true)
    × (str_eq r.status "active" ≡ true)
    × (r.has_verified_anchor ≡ true)

refusal-none :
    (snapshot : Snapshot) (project : Project) (r : FederationRelationship)
    (endpoint : AgentEndpoint) (project_id capability : String)
    → refusal snapshot project r endpoint project_id capability ≡ none
    → IsPermitted snapshot endpoint capability project_id r project
unfolding refusal granted allowed evaluate request_for
refusal-none snapshot project r endpoint project_id capability h = ground arith

is_candidate : FederationRelationship → String → Bool
is_candidate s agent_id =
    str_eq s.external_agent_id agent_id && str_eq s.status "active" && s.has_verified_anchor

found-active_verified :
    (rs : List FederationRelationship) (agent_id : String) (r : FederationRelationship)
    → active_verified rs agent_id ≡ some r
    → ((k : ℕ) × (get_elem? rs k ≡ some r))
      × (str_eq r.external_agent_id agent_id ≡ true)
      × (str_eq r.status "active" ≡ true)
      × (r.has_verified_anchor ≡ true)
unfolding active_verified is_candidate
found-active_verified [] agent_id r h = cc
found-active_verified (s ∷ rs) agent_id r h = elim (Bool-cases (is_candidate s agent_id)) [
  | inl e ↦
      let same : s ≡ r = ground arith in
      subst
        (λ t.
          ((k : ℕ) × (get_elem? (s ∷ rs) k ≡ some t))
          × (str_eq t.external_agent_id agent_id ≡ true)
          × (str_eq t.status "active" ≡ true)
          × (t.has_verified_anchor ≡ true))
        same ((0, refl), ground arith, ground arith, ground arith)
  | inr e ↦
      let found = found-active_verified rs agent_id r (ground arith) in
      ((suc found.0.0, found.0.1), found.1, found.2, found.3)
]

found-active_project :
    (held : Option Project) (project : Project)
    → active_project held ≡ some project
    → (held ≡ some project) × (is_enabled project.status ≡ true)
unfolding active_project
found-active_project none project h = cc
found-active_project (some p) project h = elim (Bool-cases (is_enabled p.status)) [
  | inl e ↦
      let same : p ≡ project = ground arith in
      subst (λ q. (some p ≡ some q) × (is_enabled q.status ≡ true)) same (refl, e)
  | inr e ↦ ground arith
]

conclude-none :
    (r : FederationRelationship) (endpoint : AgentEndpoint) (i : Interaction)
    (error : Option GateError)
    → (conclude r endpoint i error).1 ≡ none
    → (error ≡ none) × ((conclude r endpoint i error).0 ≡ stamped r endpoint i)
conclude-none r endpoint i none h = (refl, refl)
conclude-none r endpoint i (some error) h = cc

-- Whoever is admitted has a relationship that the call needs, and carries it.
abbrev pub IsAdmitted : Snapshot → AgentEndpoint → String → Interaction → Interaction → Type 0
IsAdmitted snapshot endpoint capability i after =
    (r : FederationRelationship) × (project : Project) × IsTrusted snapshot endpoint r
    × (lookup i.project_id snapshot.projects ≡ some project)
    × (is_enabled project.status ≡ true)
    × IsPermitted snapshot endpoint capability i.project_id r project
    × (after ≡ stamped r endpoint i)

known_relationship :
    (snapshot : Snapshot) (endpoint : AgentEndpoint) (capability : String) (i : Interaction)
    (r : FederationRelationship)
    → IsTrusted snapshot endpoint r
    → (check_relationship snapshot endpoint capability i (some r)).1 ≡ none
    → IsAdmitted snapshot endpoint capability i
        (check_relationship snapshot endpoint capability i (some r)).0
unfolding check_relationship
known_relationship snapshot endpoint capability i r trusted =
    elim (Option-cases (active_project (lookup i.project_id snapshot.projects))) [
      | inl e ↦ rw (check_relationship, e) (λ h. cc)
      | inr (project, e) ↦
          rw (check_relationship, e)
            (λ h.
              let concluded = conclude-none r endpoint i _ h in
              let held = found-active_project _ project e in
              (
                r,
                project,
                trusted,
                held.0,
                held.1,
                refusal-none snapshot project r endpoint i.project_id capability concluded.0,
                concluded.1,
              ))
    ]

checked_relationship :
    (snapshot : Snapshot) (endpoint : AgentEndpoint) (capability : String) (i : Interaction)
    (found : Option FederationRelationship)
    → active_verified snapshot.federation_relationships endpoint.agent_id ≡ found
    → (check_relationship snapshot endpoint capability i found).1 ≡ none
    → IsAdmitted snapshot endpoint capability i
        (check_relationship snapshot endpoint capability i found).0
unfolding check_relationship
checked_relationship snapshot endpoint capability i none e h = cc
checked_relationship snapshot endpoint capability i (some r) e h =
    known_relationship snapshot endpoint capability i r
      (found-active_verified snapshot.federation_relationships endpoint.agent_id r e) h

-- A call to an external agent that the gate lets through has made fewer than three hops, and the
-- snapshot holds an active, verified relationship with that agent which grants the calling project
-- and the capability and allows the direction, the version and the regions; the tenant and the
-- project are enabled, and the interaction carries that relationship.
pub enforce_admits :
    (snapshot : Snapshot) (endpoint : AgentEndpoint) (capability : String) (hops : ℕ)
    (i : Interaction)
    → is_external snapshot.federated_agents endpoint.agent_id ≡ true
    → (enforce_a2a_federation snapshot endpoint capability hops i).1 ≡ none
    → (hops < max_a2a_delegation_hops)
      × IsAdmitted snapshot endpoint capability i
          (enforce_a2a_federation snapshot endpoint capability hops i).0
unfolding enforce_a2a_federation
enforce_admits snapshot endpoint capability hops i external =
    elim (Bool-cases (leb max_a2a_delegation_hops hops)) [
      | inl e ↦ rw e (λ h. cc)
      | inr e ↦
          rw (e, external)
            (λ h. (ground arith, checked_relationship snapshot endpoint capability i _ refl h))
    ]
