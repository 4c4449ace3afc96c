-- ===== src/Federation/Tests.antt =====
-- Relationships, calls and the gate on concrete inputs, and the properties at concrete inputs.
use lite_aig.Base.{
  ◌≡◌, ◌<◌, ◌⊎◌, refl, List, [], ◌∷◌, String, str_eq, true, false, none, some, arith, contains,
  ◌&&◌, ap, sym, false≢true,
}
use lite_aig.Base.Assoc.{Assoc, lookup, insert}
use lite_aig.Base.Clock.{Time}
use lite_aig.Base.Word.{add64, sle}
use lite_aig.Federation.{
  Relationship, TrustAnchor, Status, active_status, revoked, no_relationship, has_verified_anchor,
  any_verified,
}
use lite_aig.Federation.Lifecycle.{
  Lifecycle, new_lifecycle, discover, discover_on, save, load, load_found, memory_get, memory_put,
  memory_list, activate, activate_on, review, review_on, review_current, active, suspend,
  suspend_on, revoke, revoke_on, review_material_change, change_on,
}
use lite_aig.Federation.Inbound.{
  TransportFacts, resolve, resolve_loop, matches, matches_subject, principal_of,
}
use lite_aig.Federation.Versions.{
  Call, discover_call, suspend_call, review_call, apply, IsRefused, stale_copy-IsRefused,
  change_call,
}
use lite_aig.Federation.Trust.{memory, run, discovery_is_not_trust}
use lite_aig.Federation.Ownership.{activate-active, discover_hides}
use lite_aig.Federation.Task.{
  IsChain, IsGuarded, walk, enter_hop, exit_hop, new_loop_detector, enter, exit,
  walk-new_loop_detector-IsChain,
}
use lite_aig.Federation.Permission.{delegated, evaluate_delegation, evaluate_delegation_intersects}
use lite_aig.Federation.Gate.{
  FederationRelationship, AgentEndpoint, Snapshot, Interaction, enforce_a2a_federation, is_external,
  active_verified, granted, direction_allows_outbound, approved_version_matches, is_boundary_status,
  regions_meet, data_boundary_satisfied, request_for, denied, refusal, active_project,
  check_relationship, max_a2a_delegation_hops,
}
use lite_aig.Federation.Permission.{evaluate, allowed}
use lite_aig.Federation.Admission.{IsAdmitted, enforce_admits}

abbrev anchor : TrustAnchor
anchor = record { id = "a"; kind = "jws"; subject = "partner"; verified = true; verified_at = 1 }

abbrev partner : String → Relationship
partner tenant_id = record no_relationship {
  id = "rel";
  tenant_id = tenant_id;
  external_agent_id = "agent";
  anchors = anchor ∷ [];
  project_grants = record { id = "g"; project_id = "p"; granted_by = "u"; created_at = 1 } ∷ [];
  capability_grants = record { id = "c"; capability = "chat"; created_at = 1 } ∷ [];
}

abbrev stored : Status → Relationship
stored status = record (partner "t") { status = status; version = 4 }

abbrev holding : Status → Lifecycle (Assoc Relationship)
holding status = record { states = ("rel", stored status) ∷ []; store = [] }

abbrev facts : TransportFacts
facts = record { auth_method = "federated_jws"; subject = "partner"; issuer = "" }

program : Unit {0}
unfolding discover discover_on save load load_found memory_get memory_put memory_list activate
    activate_on review review_on review_current active suspend suspend_on revoke revoke_on
    review_material_change change_on has_verified_anchor any_verified resolve resolve_loop matches
    matches_subject principal_of apply run lookup insert add64 sle contains enter exit walk
    new_loop_detector delegated evaluate_delegation enforce_a2a_federation is_external
    active_verified granted direction_allows_outbound approved_version_matches is_boundary_status
    regions_meet data_boundary_satisfied request_for refusal active_project check_relationship
    evaluate allowed
program = tt

-- Discovered, approved, called, and changed: the last leaves no trust.
abbrev story : List (Time × Call)
story =
    (5, discover_call (partner "t"))
    ∷ (6, review_call (record (partner "t") { version = 1 }) true)
    ∷ []

story_active : active memory "t" "rel" (run story new_lifecycle) ≡ true
unfolding program
story_active = refl

story_resolved :
    resolve "t" facts (run story new_lifecycle)
    ≡ some record {
      tenant_id = "t";
      agent_id = "agent";
      auth_method = "federated_jws";
      federation_relationship_id = "rel";
      external_subject = "partner";
    }
unfolding program
story_resolved = refl

change_ends_trust :
    active memory "t" "rel"
      (apply memory 8 (change_call "t" "rel" ("publisher" ∷ [])) (run story new_lifecycle)).0
    ≡ false
unfolding program
change_ends_trust = refl

stale_copy-IsRefused_example :
    ((apply memory 8 (suspend_call "t" "rel") (holding active_status)).0 ≡ holding active_status)
    ⊎ (IsRefused (apply memory 8 (suspend_call "t" "rel") (holding active_status)).0 (
          activate memory 9
            (stored active_status)
            (apply memory 8 (suspend_call "t" "rel") (holding active_status)).0)
        × IsRefused (apply memory 8 (suspend_call "t" "rel") (holding active_status)).0 (
            review memory 9
              (stored active_status)
              true
              (apply memory 8 (suspend_call "t" "rel") (holding active_status)).0))
unfolding program
stale_copy-IsRefused_example =
    stale_copy-IsRefused memory 8 9 (suspend_call "t" "rel") (stored active_status)
      (stored active_status) (holding active_status) refl refl (refl, refl, refl) refl

abbrev quiet_calls : List (Time × Call)
quiet_calls =
    (5, discover_call (partner "t"))
    ∷ (6, review_call (record (partner "t") { version = 1 }) false)
    ∷ (7, suspend_call "t" "rel")
    ∷ []

discovery_is_not_trust_example :
    (active memory "t" "rel" (run quiet_calls new_lifecycle) ≡ false)
    × (resolve "t" facts (run quiet_calls new_lifecycle) ≡ none)
discovery_is_not_trust_example =
    discovery_is_not_trust quiet_calls new_lifecycle "t" "rel" facts (refl, (refl, (refl, tt)))
      (tt, tt)

activate-active_example :
    active memory "t" "rel" (activate memory 9 (stored revoked) (holding revoked)).0 ≡ true
unfolding program
activate-active_example =
    activate-active memory 9 (stored revoked) (stored revoked) (holding revoked) (refl, refl, refl)
      refl refl refl refl

discover_hides_example :
    (active memory "t" "rel" (holding active_status) ≡ true)
    × (active memory "t" "rel" (discover memory 9 (partner "u") (holding active_status)).0 ≡ false)
unfolding program
discover_hides_example =
    discover_hides memory 9 (partner "u") (stored active_status) (holding active_status)
      (refl, refl, refl) (λ e. absurd (false≢true (sym (ap (str_eq "t") e)))) refl

walk-new_loop_detector-IsChain_example :
    let d =
      walk
        (enter_hop "a" ∷ enter_hop "b" ∷ enter_hop "a" ∷ exit_hop ∷ enter_hop "c" ∷ [])
        (new_loop_detector 2) in
    IsChain 2 d × IsGuarded 2 d
unfolding program
walk-new_loop_detector-IsChain_example =
    walk-new_loop_detector-IsChain 2
      (enter_hop "a" ∷ enter_hop "b" ∷ enter_hop "a" ∷ exit_hop ∷ enter_hop "c" ∷ []) (omega arith)

walked :
    (walk
      (enter_hop "a" ∷ enter_hop "b" ∷ enter_hop "a" ∷ exit_hop ∷ enter_hop "c" ∷ [])
      (new_loop_detector 2)).path
    ≡ "a" ∷ "c" ∷ []
unfolding program
walked = refl

evaluate_delegation_intersects_example :
    (result : List String) × (evaluate_delegation
        ("read" ∷ "write" ∷ [])
        ("write" ∷ "admin" ∷ [])
        ("write" ∷ [])
      ≡ some result)
    × (contains result "write"
        ≡ contains ("read" ∷ "write" ∷ []) "write"
          && contains ("write" ∷ "admin" ∷ []) "write"
          && contains ("write" ∷ []) "write")
evaluate_delegation_intersects_example =
    evaluate_delegation_intersects ("read" ∷ "write" ∷ []) ("write" ∷ "admin" ∷ []) ("write" ∷ [])
      "write"

abbrev compiled : FederationRelationship
compiled = record {
  id = "rel";
  external_agent_id = "agent";
  status = "active";
  assurance_level = "high";
  has_verified_anchor = true;
  direction = "outbound";
  project_grants = "p" ∷ [];
  capability_grants = "chat" ∷ [];
  boundary_status = "declared";
  processing_regions = "eu" ∷ [];
  approved_version = "";
}

abbrev snapshot : Snapshot
snapshot = record {
  status = "active";
  federated_agents =
      record {
        id = "agent";
        name = "partner";
        external_subject = "partner";
        status = "active";
        trust_boundary = "external_federated";
      }
      ∷ [];
  federation_relationships = compiled ∷ [];
  projects = ("p", record { status = ""; allowed_data_regions = "us" ∷ "eu" ∷ [] }) ∷ [];
}

abbrev endpoint : AgentEndpoint
endpoint = record { agent_id = "agent"; version = "2" }

abbrev interaction : Interaction
interaction = record { project_id = "p"; trust_boundary = ""; direction = ""; federation = none }

refused_capability :
    (enforce_a2a_federation snapshot endpoint "delete" 0 interaction).1
    ≡ some (denied "federated call denied: relationship grants no capability grant for delete")
unfolding program
refused_capability = refl

enforce_admits_example :
    (2 < max_a2a_delegation_hops)
    × IsAdmitted snapshot endpoint "chat" interaction
        (enforce_a2a_federation snapshot endpoint "chat" 2 interaction).0
unfolding program
enforce_admits_example = enforce_admits snapshot endpoint "chat" 2 interaction refl refl
