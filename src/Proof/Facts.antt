-- ===== src/Proof/Facts.antt =====
-- What the checks of a proof stand for, as statements on the snapshot.
use openclaw_control_plane.Common.{
  ℕ, String, ◌<>◌, Option, none, some, List, [], ◌≡◌, ◌≢◌, ◌⊎◌, find,
}
use openclaw_control_plane.Common.Text.{codes}
use openclaw_control_plane.Common.Text.Contains.{Contains}
use openclaw_control_plane.Proof.Paths.{normalize, normalize_path}
use openclaw_control_plane.Proof.Snapshot.{
  ProofSourceFiles, ProofExpectations, ProofServiceSource, ProofServiceRuntimeSettings,
  ProofDeployment, ProofDomain, ProofEndpointStatuses, ProofSnapshot,
}
use openclaw_control_plane.Proof.{is_active}

-- A part that is not there has nothing to say.
abbrev pub Optional : {A : Type 0} → Option A → (A → Type 0) → Type 0
Optional none P = Unit {0}
Optional (some a) P = P a

pub record SourceFacts (f : ProofSourceFiles) : Type 0 where
  pub builder : Contains f.railway_toml "builder = \"dockerfile\""
  pub healthcheck : Contains f.railway_toml "healthcheckPath = \"/setup/healthz\""
  pub mount : Contains f.railway_toml "requiredMountPath = \"/data\""
  pub pinned : Contains f.dockerfile ("ARG OPENCLAW_TEMPLATE_REF=" <> f.template_lock.pinned_commit)
  pub upstream : Contains f.dockerfile f.template_lock.upstream_repo
  pub copied : Contains f.dockerfile "COPY --from=template-source /template/src ./src"

-- Neither a text nor one that is empty
abbrev pub IsUnset : Option String → Type 0
IsUnset o = (o ≡ none) ⊎ (o ≡ some "")

pub record ServiceFacts (f : ProofSourceFiles) (e : ProofExpectations) (s : ProofServiceSource)
    : Type 0 where
  pub repo : s.repo ≡ some e.public_repo
  pub image : IsUnset s.image
  pub upstream : Optional s.upstream_url (λ url. ¬ Contains url f.template_lock.upstream_repo)

pub record RuntimeFacts (r : ProofServiceRuntimeSettings) : Type 0 where
  pub builder : normalize r.builder ≡ codes "dockerfile"
  pub root : normalize_path r.root_directory ≡ []
  pub config : normalize_path r.railway_config_file ≡ codes "railway.toml"
  pub dockerfile :
      (normalize_path r.dockerfile_path ≡ [])
      ⊎ (normalize_path r.dockerfile_path ≡ codes "dockerfile")
  pub healthcheck : r.healthcheck_path ≡ some "/setup/healthz"
  pub start :
      (normalize r.start_command ≡ []) ⊎ (normalize r.start_command ≡ codes "node src/server.js")

-- The template is a dependency of the public repository, and not what is deployed.
pub record DeploymentFacts (f : ProofSourceFiles) (e : ProofExpectations) (d : ProofDeployment)
    : Type 0 where
  pub status : d.status ≡ "SUCCESS"
  pub repo : d.repo ≡ some e.public_repo
  pub own : e.public_repo ≢ f.template_lock.upstream_repo
  pub branch : d.branch ≡ some e.branch
  pub commit : IsUnset e.expected_commit ⊎ (d.commit_hash ≡ e.expected_commit)

-- The first domain that is active leads to the port.
pub record DomainFacts (e : ProofExpectations) (domains : List ProofDomain) : Type 0 where
  pub active : ProofDomain
  pub first : find is_active domains ≡ some active
  pub port : active.target_port ≡ some e.target_port

abbrev pub IsServed : ℕ → Type 0
IsServed status = (status ≡ 200) ⊎ (status ≡ 301) ⊎ (status ≡ 302) ⊎ (status ≡ 401)

pub record EndpointFacts (s : ProofEndpointStatuses) : Type 0 where
  pub health : s.setup_health ≡ 200
  pub setup : IsServed s.setup
  pub openclaw : IsServed s.openclaw

-- All that the snapshot has parts for
pub record IsProven (s : ProofSnapshot) (e : ProofExpectations) : Type 0 where
  pub source : SourceFacts s.source_files
  pub service : Optional s.service_source (ServiceFacts s.source_files e)
  pub runtime : Optional s.service_runtime RuntimeFacts
  pub deployment : Optional s.latest_deployment (DeploymentFacts s.source_files e)
  pub domains : Optional s.domains (DomainFacts e)
  pub endpoints : Optional s.endpoints EndpointFacts
