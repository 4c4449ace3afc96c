-- ===== src/Federation.antt =====
-- internal/federation: relationships with the agents of other organisations (federation.go), the
-- identity of an inbound call (identity.go), and the limits of a task (task.go, permission.go).
pub mod Lifecycle
pub mod Inbound
pub mod Versions
pub mod Trust
pub mod Ownership
pub mod Task
pub mod Permission
pub mod Gate
pub mod Admission
mod Tests
use Prim.Native.String.{◌++◌ as str_append}
use lite_aig.Base.{
  ℕ, if◌then◌else◌, Option, none, some, List, [], ◌∷◌, String, str_eq, Bool, true, false, not, ◌||◌,
  ◌==◌,
}
use lite_aig.Base.Assoc.{Assoc, lookup, insert}
use lite_aig.Base.Word.{Int64, add64}
use lite_aig.Base.Clock.{Time, zero_time}

-- `unset` is the empty text, the status of Relationship{}.
pub data Status : Type 0 where
  unset : Status
  discovered : Status
  candidate : Status
  pending_review : Status
  active_status : Status
  suspended : Status
  revoked : Status

abbrev pub is_active : Status → Bool
is_active active_status = true
is_active _ = false

abbrev pub is_revoked : Status → Bool
is_revoked revoked = true
is_revoked _ = false

-- The states that a review starts from.
abbrev pub is_reviewable : Status → Bool
is_reviewable candidate = true
is_reviewable pending_review = true
is_reviewable _ = false

pub record TrustAnchor : Type 0 where
  pub id : String
  pub kind : String
  pub subject : String
  pub verified : Bool
  pub verified_at : Time

pub record DataBoundary : Type 0 where
  pub status : String
  pub processing_regions : List String
  pub retention : String
  pub training_use : Bool
  pub subprocessors : List String
  pub dpa_reference : String

pub record ProjectGrant : Type 0 where
  pub id : String
  pub project_id : String
  pub granted_by : String
  pub created_at : Time

pub record CapabilityGrant : Type 0 where
  pub id : String
  pub capability : String
  pub created_at : Time

pub record Relationship : Type 0 where
  pub id : String
  pub tenant_id : String
  pub external_agent_id : String
  pub external_subject : String
  pub name : String
  pub status : Status
  pub direction : String
  pub assurance_level : String
  pub agent_card_source : String
  pub auth_method : String
  pub data_boundary : DataBoundary
  pub anchors : List TrustAnchor
  pub project_grants : List ProjectGrant
  pub capability_grants : List CapabilityGrant
  pub pricing_ref : String
  pub approved_version : String
  pub review_status : String
  pub version : Int64
  pub created_at : Time
  pub updated_at : Time

-- Relationship{}, which is returned when there is none.
abbrev pub no_relationship : Relationship
no_relationship = record {
  id = "";
  tenant_id = "";
  external_agent_id = "";
  external_subject = "";
  name = "";
  status = unset;
  direction = "";
  assurance_level = "";
  agent_card_source = "";
  auth_method = "";
  data_boundary = record {
    status = "";
    processing_regions = [];
    retention = "";
    training_use = false;
    subprocessors = [];
    dpa_reference = "";
  };
  anchors = [];
  project_grants = [];
  capability_grants = [];
  pricing_ref = "";
  approved_version = "";
  review_status = "";
  version = 0;
  created_at = zero_time;
  updated_at = zero_time;
}

unfoldable pub any_verified : List TrustAnchor → Bool
any_verified [] = false
any_verified (a ∷ rest) = let later = any_verified rest in if a.verified then true else later

unfoldable pub has_verified_anchor : Relationship → Bool
has_verified_anchor r = any_verified r.anchors

pub data Failure (E : Type 0) : Type 0 where
  not_found : Failure E
  stale_state : Failure E
  unverified : Failure E
  not_granted : Failure E
  already_active : Failure E
  store_failed : E → Failure E
