-- ===== src/Federation/Gate.antt =====
-- internal/app/federationgate.go: the gate of an outbound call to an agent. The number of hops that
-- `a2aHopCount` reads from the metadata is an argument; the order of a snapshot's map is that of
-- its list.
use Prim.Native.String.{◌++◌ as str_append}
use lite_aig.Base.{
  ℕ, if◌then◌else◌, List, [], ◌∷◌, String, str_eq, Bool, true, false, not, ◌&&◌, ◌||◌, contains,
  Option, none, some, leb,
}
use lite_aig.Base.Assoc.{Assoc, lookup}
use lite_aig.Federation.Lifecycle.{is_empty}
use lite_aig.Federation.Permission.{PermissionRequest, evaluate, allowed}

pub record FederatedAgent : Type 0 where
  pub id : String
  pub name : String
  pub external_subject : String
  pub status : String
  pub trust_boundary : String

pub record FederationRelationship : Type 0 where
  pub id : String
  pub external_agent_id : String
  pub status : String
  pub assurance_level : String
  pub has_verified_anchor : Bool
  pub direction : String
  pub project_grants : List String
  pub capability_grants : List String
  pub boundary_status : String
  pub processing_regions : List String
  pub approved_version : String

-- The fields of a Project, an endpoint, a snapshot, a context and an interaction that the gate uses.
pub record Project : Type 0 where
  pub status : String
  pub allowed_data_regions : List String

pub record AgentEndpoint : Type 0 where
  pub agent_id : String
  pub version : String

pub record Snapshot : Type 0 where
  pub status : String
  pub federated_agents : List FederatedAgent
  pub federation_relationships : List FederationRelationship
  pub projects : Assoc Project

pub record FederationContext : Type 0 where
  pub relationship_id : String
  pub external_agent_id : String
  pub assurance_level : String

pub record Interaction : Type 0 where
  pub project_id : String
  pub trust_boundary : String
  pub direction : String
  pub federation : Option FederationContext

pub data GateError : Type 0 where
  hop_limit : GateError
  untrusted : GateError
  denied : String → GateError

abbrev pub max_a2a_delegation_hops : ℕ
max_a2a_delegation_hops = 3

unfoldable pub is_external : List FederatedAgent → String → Bool
is_external [] agent_id = false
is_external (agent ∷ rest) agent_id =
    let later = is_external rest agent_id in
    if not (str_eq agent.trust_boundary "external_federated")
    then later
    else if str_eq agent.id agent_id || str_eq agent.external_subject agent_id
    then true
    else later

unfoldable pub active_verified :
    List FederationRelationship → String → Option FederationRelationship
active_verified [] agent_id = none
active_verified (r ∷ rest) agent_id =
    let later = active_verified rest agent_id in
    if not (str_eq r.external_agent_id agent_id)
    then later
    else if not (str_eq r.status "active") || not r.has_verified_anchor
    then later
    else some r

unfoldable pub granted : List String → String → Bool
granted grants name = not (is_empty grants) && contains grants name

unfoldable pub direction_allows_outbound : String → Bool
direction_allows_outbound direction =
    str_eq direction "" || str_eq direction "outbound" || str_eq direction "bidirectional"

unfoldable pub approved_version_matches : String → String → Bool
approved_version_matches approved endpoint_version =
    if str_eq approved "" || str_eq endpoint_version ""
    then true
    else str_eq approved endpoint_version

unfoldable pub is_boundary_status : String → Bool
is_boundary_status status =
    str_eq status ""
    || str_eq status "unknown"
    || str_eq status "declared"
    || str_eq status "contractually_bound"

unfoldable pub regions_meet : List String → List String → Bool
regions_meet [] allowed_regions = false
regions_meet (region ∷ rest) allowed_regions =
    let later = regions_meet rest allowed_regions in
    if contains allowed_regions region then true else later

unfoldable pub data_boundary_satisfied : Project → FederationRelationship → Bool
data_boundary_satisfied project r =
    if not (is_boundary_status r.boundary_status)
    then false
    else if is_empty r.processing_regions || is_empty project.allowed_data_regions
    then true
    else regions_meet r.processing_regions project.allowed_data_regions

abbrev pub is_enabled : String → Bool
is_enabled status = str_eq status "active" || str_eq status ""

-- The interaction of a call that crosses the boundary.
abbrev pub stamped : FederationRelationship → AgentEndpoint → Interaction → Interaction
stamped r endpoint i = record i {
  trust_boundary = "external_federated";
  direction = "outbound";
  federation = some record {
    relationship_id = r.id;
    external_agent_id = endpoint.agent_id;
    assurance_level = r.assurance_level;
  };
}

unfoldable pub request_for :
    Snapshot → Project → FederationRelationship → String → String → PermissionRequest
request_for snapshot project r project_id capability = record {
  system_policy_enabled = true;
  tenant_active = is_enabled snapshot.status;
  project_active = true;
  caller_allowed = true;
  local_delegation_granted = true;
  relationship_active = true;
  project_granted = granted r.project_grants project_id;
  capability_granted = granted r.capability_grants capability;
  data_boundary_satisfied = data_boundary_satisfied project r;
}

-- The checks once the relationship and the project are there, in their order.
unfoldable pub refusal :
    Snapshot → Project → FederationRelationship → AgentEndpoint → String → String → Option GateError
refusal snapshot project r endpoint project_id capability =
    if not (granted r.project_grants project_id)
    then some (
        denied (
          str_append
            "federated call denied: relationship grants no project grant for calling project "
            project_id))
    else if not (granted r.capability_grants capability)
    then some (
        denied (
          str_append "federated call denied: relationship grants no capability grant for "
            capability))
    else if not (direction_allows_outbound r.direction)
    then some (
        denied (
          str_append (str_append "federated call denied: relationship direction " r.direction)
            " does not allow outbound calls"))
    else if not (approved_version_matches r.approved_version endpoint.version)
    then some (
        denied (
          str_append
            (str_append (str_append "federated call denied: endpoint version " endpoint.version)
              " does not match approved version ")
            r.approved_version))
    else if not (data_boundary_satisfied project r)
    then some (
        denied
          "federated call denied: relationship data boundary does not satisfy calling project residency policy")
    else if not (allowed (evaluate (request_for snapshot project r project_id capability)))
    then some (denied "federated permission intersection failed")
    else none

abbrev pub conclude :
    FederationRelationship
    → AgentEndpoint
    → Interaction
    → Option GateError
    → Interaction × Option GateError
conclude r endpoint i (some error) = (i, some error)
conclude r endpoint i none = (stamped r endpoint i, none)

-- The calling project, when it is there and active.
unfoldable pub active_project : Option Project → Option Project
active_project none = none
active_project (some project) = if is_enabled project.status then some project else none

unfoldable pub check_relationship :
    Snapshot
    → AgentEndpoint
    → String
    → Interaction
    → Option FederationRelationship
    → Interaction × Option GateError
check_relationship snapshot endpoint capability i none = (i, some untrusted)
check_relationship snapshot endpoint capability i (some r) =
    elim (active_project (lookup i.project_id snapshot.projects)) [
      | none ↦ (
        i,
        some (denied "federated call denied: calling project is not active or does not exist"),
      )
      | some project ↦
          conclude r endpoint i (refusal snapshot project r endpoint i.project_id capability)
    ]

-- `enforceA2AFederation`, on a request with this interaction and this snapshot.
unfoldable pub enforce_a2a_federation :
    Snapshot → AgentEndpoint → String → ℕ → Interaction → Interaction × Option GateError
enforce_a2a_federation snapshot endpoint capability hops i =
    if leb max_a2a_delegation_hops hops
    then (i, some hop_limit)
    else if not (is_external snapshot.federated_agents endpoint.agent_id)
    then (i, none)
    else check_relationship snapshot endpoint capability i
        (active_verified snapshot.federation_relationships endpoint.agent_id)
