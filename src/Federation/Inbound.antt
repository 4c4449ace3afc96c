-- ===== src/Federation/Inbound.antt =====
-- internal/federation/identity.go, `Resolver`: the relationship behind an inbound call.
use Prim.Native.String.{◌++◌ as str_append}
use lite_aig.Base.{
  if◌then◌else◌, Option, none, some, List, [], ◌∷◌, String, str_eq, Bool, true, false, not, ◌||◌,
}
use lite_aig.Federation.{is_active, Relationship, TrustAnchor}
use lite_aig.Federation.Lifecycle.{Lifecycle, memory_list}

-- The transport credentials of an inbound call.
pub record TransportFacts : Type 0 where
  pub auth_method : String
  pub subject : String
  pub issuer : String

-- The fields of a Principal that depend on the call; the others are constants of the code.
pub record Principal : Type 0 where
  pub tenant_id : String
  pub agent_id : String
  pub auth_method : String
  pub federation_relationship_id : String
  pub external_subject : String

unfoldable pub matches_subject : TrustAnchor → TransportFacts → Bool
matches_subject a facts =
    let plain = str_eq a.subject facts.subject in
    let issued = str_eq a.subject (str_append (str_append facts.issuer ":") facts.subject) in
    if str_eq facts.issuer "" then plain else plain || issued

unfoldable pub matches : List TrustAnchor → TransportFacts → Bool
matches [] facts = false
matches (a ∷ rest) facts =
    let later = matches rest facts in
    if not a.verified then later else if matches_subject a facts then true else later

unfoldable pub principal_of : String → TransportFacts → Relationship → Principal
principal_of tenant_id facts r = record {
  tenant_id = tenant_id;
  agent_id = r.external_agent_id;
  auth_method = facts.auth_method;
  federation_relationship_id = r.id;
  external_subject = facts.subject;
}

unfoldable pub resolve_loop : String → TransportFacts → List Relationship → Option Principal
resolve_loop tenant_id facts [] = none
resolve_loop tenant_id facts (r ∷ rest) =
    let later = resolve_loop tenant_id facts rest in
    if not (is_active r.status)
    then later
    else if matches r.anchors facts
    then some (principal_of tenant_id facts r)
    else later

-- `Resolve`; the order of a loop over the map is that of the association list.
unfoldable pub resolve : {S : Type 0} → String → TransportFacts → Lifecycle S → Option Principal
resolve tenant_id facts l =
    if str_eq facts.auth_method "" || str_eq facts.subject ""
    then none
    else resolve_loop tenant_id facts (memory_list l.states tenant_id)
