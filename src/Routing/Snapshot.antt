-- ===== src/Routing/Snapshot.antt =====
-- The part of internal/kernel/runtime/snapshot.go that routing reads: the records of a tenant's
-- snapshot and its lookups by id. A lookup returns a copy, which is the value itself here.
use lite_aig.Base.{List, String}
use lite_aig.Base.Assoc.{Assoc}
use lite_aig.Base.Word.{Int64}
use lite_aig.Base.Float.{Float}

pub record Project : Type 0 where
  pub id : String
  pub status : String
  pub allowed_data_regions : List String
  pub residency_enforcement : String

pub record Provider : Type 0 where
  pub id : String
  pub status : String

pub record Credential : Type 0 where
  pub id : String
  pub provider_id : String
  pub status : String

pub record Deployment : Type 0 where
  pub id : String
  pub provider_id : String
  pub credential_id : String
  pub data_region : String
  pub status : String
  pub pool_id : String
  pub capabilities : List String
  pub context_window : Int64
  pub priority : Int64

pub record PoolMember : Type 0 where
  pub credential_id : String
  pub weight : Int64

pub record CredentialPool : Type 0 where
  pub id : String
  pub strategy : String
  pub members : List PoolMember

pub record LogicalModel : Type 0 where
  pub id : String
  pub alias : String
  pub route_policy_id : String

pub record RoutePolicy (f : Float) : Type 0 where
  pub id : String
  pub project_id : String
  pub strategy : String
  pub deployment_ids : List String
  pub weights : Assoc Int64
  pub score_weights : Assoc f.F
  pub version : Int64

pub record Snapshot (f : Float) : Type 0 where
  pub tenant_ref : String
  pub version : Int64
  pub projects : Assoc Project
  pub providers : Assoc Provider
  pub credentials : Assoc Credential
  pub deployments : Assoc Deployment
  pub route_policies : Assoc (RoutePolicy f)
  pub logical_models : Assoc LogicalModel
  pub credential_pools : Assoc CredentialPool
