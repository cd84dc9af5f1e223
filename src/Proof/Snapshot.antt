-- ===== src/Proof/Snapshot.antt =====
-- packages/openclaw-railway-installer/src/verify-proof.ts: what the checks are given, and a result.
use openclaw_control_plane.Common.{
  ℕ, String, Bool, Option, List, string_eq, nat_eq, option_eq, list_eq,
}

-- `ProofSourceFiles`, with its `templateLock`
pub record LockedTemplate : Type 0 where
  pub upstream_repo : String
  pub upstream_ref : String
  pub pinned_commit : String

pub record ProofSourceFiles : Type 0 where
  pub dockerfile : String
  pub railway_toml : String
  pub template_lock : LockedTemplate

pub record ProofDeployment : Type 0 where
  pub status : String
  pub repo : Option String
  pub branch : Option String
  pub commit_hash : Option String

pub record ProofServiceSource : Type 0 where
  pub repo : Option String
  pub image : Option String
  pub upstream_url : Option String
  pub template_id : Option String
  pub template_service_id : Option String
  pub template_thread_slug : Option String

pub record ProofServiceRuntimeSettings : Type 0 where
  pub builder : Option String
  pub dockerfile_path : Option String
  pub railway_config_file : Option String
  pub root_directory : Option String
  pub start_command : Option String
  pub healthcheck_path : Option String

-- `type` is a keyword here.
pub record ProofDomain : Type 0 where
  pub domain : String
  pub kind : String
  pub target_port : Option ℕ
  pub sync_status : Option String

pub record ProofEndpointStatuses : Type 0 where
  pub setup_health : ℕ
  pub setup : ℕ
  pub openclaw : ℕ

pub record ProofSnapshot : Type 0 where
  pub source_files : ProofSourceFiles
  pub service_source : Option ProofServiceSource
  pub service_runtime : Option ProofServiceRuntimeSettings
  pub latest_deployment : Option ProofDeployment
  pub domains : Option (List ProofDomain)
  pub endpoints : Option ProofEndpointStatuses

pub record ProofExpectations : Type 0 where
  pub public_repo : String
  pub branch : String
  pub expected_commit : Option String
  pub target_port : ℕ

pub record ProofCheck : Type 0 where
  pub name : String
  pub ok : Bool
  pub detail : String

pub record ProofVerificationResult : Type 0 where
  pub ok : Bool
  pub checks : List ProofCheck
