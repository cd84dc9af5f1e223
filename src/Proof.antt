-- ===== src/Proof.antt =====
-- packages/openclaw-railway-installer/src/verify-proof.ts: the checks that an instance on Railway
-- runs the public repository's build of the pinned template.
--
-- A property that is null reads as one that is absent.
pub mod Snapshot
pub mod Paths
pub mod Names
pub mod Facts
pub mod Laws
use openclaw_control_plane.Common.{
  ℕ, String, ◌<>◌, Bool, true, false, not, ◌&&◌, Option, none, some, List, [], ◌∷◌, ◌++◌, map,
  every, find, filter, contains, ◌==◌, string_eq, nat_eq, option_eq, list_eq, get_or, and_then,
  if◌then◌else◌,
}
use openclaw_control_plane.Common.Text.{codes, includes, join_with}
use openclaw_control_plane.Cli.Decimal.{print}
use openclaw_control_plane.Proof.Paths.{normalize, normalize_path, is_allowed_start_command}
use openclaw_control_plane.Proof.Snapshot.{
  LockedTemplate, ProofSourceFiles, ProofDeployment, ProofServiceSource,
  ProofServiceRuntimeSettings, ProofDomain, ProofEndpointStatuses, ProofSnapshot, ProofExpectations,
  ProofCheck, ProofVerificationResult,
}

abbrev check : (name : String) (ok : Bool) (detail : String) → ProofCheck
check name ok detail = record { name = name; ok = ok; detail = detail }

-- A text that is there and not empty: what is truthy.
unfoldable pub is_set : Option String → Bool
is_set none = false
is_set (some text) = not (text == "")

-- What the repository's own files say
unfoldable pub source_checks : ProofSourceFiles → List ProofCheck
source_checks f =
    check "railway.toml uses Dockerfile runtime"
      (includes f.railway_toml "builder = \"dockerfile\"")
      "Railway source should build the OpenClaw runtime Dockerfile, not infer the API shell."
    ∷ check "railway.toml healthcheck targets OpenClaw setup wrapper"
        (includes f.railway_toml "healthcheckPath = \"/setup/healthz\"")
        "Healthcheck must prove the OpenClaw wrapper is serving /setup/healthz."
    ∷ check "railway.toml requires persistent /data"
        (includes f.railway_toml "requiredMountPath = \"/data\"")
        "OpenClaw runtime state should be mounted at /data."
    ∷ check "Dockerfile pins upstream template commit"
        (includes f.dockerfile ("ARG OPENCLAW_TEMPLATE_REF=" <> f.template_lock.pinned_commit))
        "Dockerfile should pull the same pinned wrapper commit as template-lock.json."
    ∷ check "Dockerfile uses upstream runtime dependency"
        (includes f.dockerfile f.template_lock.upstream_repo
          && includes f.dockerfile "COPY --from=template-source /template/src ./src")
        "Public repo should govern the wrapper dependency instead of replacing it with the API shell."
    ∷ []

-- `historicalTemplateMetadata`
historical : ProofServiceSource → List String
unfolding is_set
historical s =
    (if is_set s.template_id then "templateId" ∷ [] else [])
    ++ ((if is_set s.template_service_id then "templateServiceId" ∷ [] else [])
        ++ (if is_set s.template_thread_slug then "templateThreadSlug" ∷ [] else []))

historical_detail : List String → String
historical_detail [] = "No historical template metadata found."
historical_detail names =
    "Railway retains historical "
    <> (join_with ", " names <> "; active source and upstream checks determine ownership.")

-- `!url?.includes(repo)`
abbrev pub is_not_from : Option String → (repo : String) → Bool
is_not_from none repo = true
is_not_from (some url) repo = not (includes url repo)

unfoldable pub service_checks :
    ProofSourceFiles → ProofExpectations → ProofServiceSource → List ProofCheck
unfolding historical historical_detail
service_checks f e s =
    check "Railway service source is public repo" (s.repo == some e.public_repo)
      ("Railway service source repo is " <> (get_or s.repo "unknown" <> "."))
    ∷ check "Railway service is not sourced from an image" (not (is_set s.image))
        ("Railway service source image is " <> (get_or s.image "not set" <> "."))
    ∷ check "Railway service upstream is not the template repo"
        (is_not_from s.upstream_url f.template_lock.upstream_repo)
        ("Railway service upstream URL is " <> (get_or s.upstream_url "not set" <> "."))
    ∷ check "Railway service template metadata is historical only" true
        (historical_detail (historical s))
    ∷ []

unfoldable pub runtime_checks : ProofServiceRuntimeSettings → List ProofCheck
runtime_checks r =
    check "Railway runtime builder uses Dockerfile" (normalize r.builder == codes "dockerfile")
      ("Railway runtime builder is " <> (get_or r.builder "unknown" <> "."))
    ∷ check "Railway runtime uses repo root"
        (contains ([] ∷ codes "." ∷ []) (normalize_path r.root_directory))
        ("Railway runtime root directory is " <> (get_or r.root_directory "repo root" <> "."))
    ∷ check "Railway runtime config file is railway.toml"
        (normalize_path r.railway_config_file == codes "railway.toml")
        ("Railway runtime config file is " <> (get_or r.railway_config_file "not set" <> "."))
    ∷ check "Railway runtime Dockerfile path is repo Dockerfile"
        (contains ([] ∷ codes "dockerfile" ∷ []) (normalize_path r.dockerfile_path))
        ("Railway runtime Dockerfile path is "
          <> (get_or r.dockerfile_path "inherited from railway.toml" <> "."))
    ∷ check "Railway runtime healthcheck targets setup wrapper"
        (r.healthcheck_path == some "/setup/healthz")
        ("Railway runtime healthcheck path is " <> (get_or r.healthcheck_path "unknown" <> "."))
    ∷ check "Railway runtime start command does not override OpenClaw wrapper"
        (is_allowed_start_command r.start_command)
        ("Railway runtime start command is " <> (get_or r.start_command "Dockerfile CMD" <> "."))
    ∷ []

-- The check of the commit, where one is expected
unfoldable pub commit_checks : Option String → ProofDeployment → List ProofCheck
commit_checks expected_commit d =
    if is_set expected_commit
    then check "latest deployment matches expected commit" (d.commit_hash == expected_commit)
        ("Latest Railway deployment commit is " <> (get_or d.commit_hash "unknown" <> "."))
      ∷ []
    else []

unfoldable pub deployment_checks :
    ProofSourceFiles → ProofExpectations → ProofDeployment → List ProofCheck
unfolding commit_checks
deployment_checks f e d =
    check "latest deployment succeeded" (d.status == "SUCCESS")
      ("Latest Railway deployment status is " <> (d.status <> "."))
    ∷ check "latest deployment source is public repo" (d.repo == some e.public_repo)
        ("Latest Railway deployment repo is " <> (get_or d.repo "unknown" <> "."))
    ∷ check "latest deployment does not source upstream template directly"
        (not (d.repo == some f.template_lock.upstream_repo))
        "Railway source should be the public control-plane repo; upstream remains a pinned dependency."
    ∷ check "latest deployment branch matches expected branch" (d.branch == some e.branch)
        ("Latest Railway deployment branch is " <> (get_or d.branch "unknown" <> "."))
    ∷ commit_checks e.expected_commit d

abbrev pub is_active : ProofDomain → Bool
is_active d = d.kind == "service" && d.sync_status == some "ACTIVE"

abbrev pub exists : Option ProofDomain → Bool
exists none = false
exists (some d) = true

-- The two checks on the domain that is active
unfoldable pub active_checks : ProofExpectations → Option ProofDomain → List ProofCheck
active_checks e active =
    check "active Railway service domain exists" (exists active) (elim active [
      | none ↦ "No active service domain found."
      | some d ↦ "Active domain is " <> (d.domain <> ".")
    ])
    ∷ check "active Railway service domain targets OpenClaw wrapper port"
        (and_then active (λ d. d.target_port) == some e.target_port)
        ("Active domain target port is "
          <> (elim (and_then active (λ d. d.target_port)) [
            | none ↦ "unknown"
            | some port ↦ print port
          ]
              <> "."))
    ∷ []

unfoldable pub domain_checks : ProofExpectations → List ProofDomain → List ProofCheck
unfolding active_checks
domain_checks e domains = active_checks e (find is_active domains)

abbrev pub served : List ℕ
served = 200 ∷ 301 ∷ 302 ∷ 401 ∷ []

unfoldable pub endpoint_checks : ProofEndpointStatuses → List ProofCheck
endpoint_checks s =
    check "live setup healthcheck passes" (s.setup_health == 200)
      ("/setup/healthz returned " <> (print s.setup_health <> "."))
    ∷ check "live setup route exists" (contains served s.setup) (
        "/setup returned "
        <> (print s.setup <> "; expected setup HTML, redirect, or Basic auth challenge."))
    ∷ check "live OpenClaw route exists" (contains served s.openclaw) (
        "/openclaw returned "
        <> (print s.openclaw <> "; expected UI HTML, redirect, or Basic auth challenge."))
    ∷ []

-- The checks of a part of the snapshot, where it is there
abbrev pub optional : {A : Type 0} → Option A → (A → List ProofCheck) → List ProofCheck
optional none f = []
optional (some a) f = f a

abbrev pub all_checks : ProofSnapshot → ProofExpectations → List ProofCheck
all_checks s e =
    source_checks s.source_files
    ++ (optional s.service_source (service_checks s.source_files e)
        ++ (optional s.service_runtime runtime_checks
            ++ (optional s.latest_deployment (deployment_checks s.source_files e)
                ++ (optional s.domains (domain_checks e) ++ optional s.endpoints endpoint_checks))))

-- `verifyOpenClawRailwayProof`
unfoldable pub verify_openclaw_railway_proof :
    ProofSnapshot → ProofExpectations → ProofVerificationResult
verify_openclaw_railway_proof s e = record {
  ok = every (λ c. c.ok) (all_checks s e);
  checks = all_checks s e;
}

-- `formatProofVerification`
unfoldable pub format_proof_verification : ProofVerificationResult → String
format_proof_verification result = join_with "\n" (
    map (λ c. (if c.ok then "PASS" else "FAIL") <> (" " <> (c.name <> (": " <> c.detail))))
      result.checks)
