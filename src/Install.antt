-- ===== src/Install.antt =====
-- `installOpenClawOnRailway` of packages/openclaw-railway-installer/src/index.ts.
pub mod Handoff
pub mod Reuse
pub mod Shape
use openclaw_control_plane.Common.{
  ℕ, String, ◌<>◌, Bool, true, false, ◌&&◌, not, Option, none, some, List, [], ◌∷◌, ◌==◌, string_eq,
  option_eq, get_or, if◌then◌else◌,
}
use openclaw_control_plane.EnvFile.{merge_env}
use openclaw_control_plane.Effects.Errors.{Error, not_healthy, inconsistent_approval}
use openclaw_control_plane.Effects.Platform.{Env, SetupAuth, InstallerService, RailwayDomain}
use openclaw_control_plane.Effects.{
  M, pure, throw, require, try_catch, ◌>>=◌, ◌>>◌, run, read_file, write_file, create_secret,
}
use openclaw_control_plane.Railway.{
  default_setup_username, list_services, find_template_service, deployment_status, deployment_id,
  poll_service_until_success, ensure_domain_port, wait_for_setup_ready,
}
use openclaw_control_plane.Instance.{patch_allowed_origins, approve_own_device_pairing}
use openclaw_control_plane.Install.Handoff.{
  InstallResult, describe_device_approval_status, build_handoff,
}

pub record InstallerOptions : Type 0 where
  pub template : Option String
  pub service : Option String
  pub target_port : Option ℕ
  pub poll_seconds : Option ℕ
  pub timeout_minutes : Option ℕ
  pub force_new : Option Bool
  pub setup_username : Option String
  pub setup_password : Option String
  pub gateway_token : Option String
  pub env_local_path : Option String
  pub handoff_path : Option String
  pub write_local_files : Option Bool

pub record RequiredOptions : Type 0 where
  pub template : String
  pub service : String
  pub target_port : ℕ
  pub poll_seconds : ℕ
  pub timeout_minutes : ℕ
  pub force_new : Bool
  pub setup_username : String
  pub setup_password : String
  pub gateway_token : String
  pub env_local_path : String
  pub handoff_path : String
  pub write_local_files : Bool

-- The parts that the two ways to an instance share.
module _ (env : Env) where
  -- `given ?? createSecret(bytes, prefix)`
  unfoldable pub given_or_secret : Option String → ℕ → String → M String
  given_or_secret (some secret) bytes prefix = pure secret
  given_or_secret none bytes prefix = create_secret env bytes prefix

  -- A service that is there is only reused when its deployment succeeded.
  unfoldable pub reuse_service : InstallerService → M InstallerService
  reuse_service s =
      if deployment_status s == some "SUCCESS"
      then pure s
      else throw (not_healthy s.name (get_or (deployment_status s) "unknown"))

  -- The entries merged into an .env file, which may be missing.
  unfoldable pub save_entries : String → List (String × String) → M (Unit {0})
  save_entries path entries = do
    existing ← try_catch (read_file env path) (λ e. pure "")
    write_file env path (merge_env existing entries)

module _ (env : Env) where
  unfoldable pub resolve_options : InstallerOptions → M RequiredOptions
  resolve_options o = do
    password ← given_or_secret env o.setup_password 24 "oc-"
    token ← given_or_secret env o.gateway_token 32 ""
    pure (record {
      template = get_or o.template "clawdbot-railway-template";
      service = get_or o.service "clawdbot-railway-template";
      target_port = get_or o.target_port 8080;
      poll_seconds = get_or o.poll_seconds 15;
      timeout_minutes = get_or o.timeout_minutes 25;
      force_new = get_or o.force_new false;
      setup_username = get_or o.setup_username default_setup_username;
      setup_password = password;
      gateway_token = token;
      env_local_path = get_or o.env_local_path ".env.local";
      handoff_path = get_or o.handoff_path "openclaw-railway-handoff.local.md";
      write_local_files = get_or o.write_local_files true;
    })

  abbrev pub deploy_args : RequiredOptions → List String
  deploy_args o =
      "deploy"
      ∷ "-t"
      ∷ o.template
      ∷ "-v"
      ∷ ("SETUP_PASSWORD=" <> o.setup_password)
      ∷ "-v"
      ∷ ("OPENCLAW_GATEWAY_TOKEN=" <> o.gateway_token)
      ∷ []

  -- A deployment of the template, polled until it succeeds.
  unfoldable pub deploy_service : RequiredOptions → M InstallerService
  deploy_service o = do
    stdout ← run env (deploy_args o) none
    poll_service_until_success env o.service o.poll_seconds o.timeout_minutes none

  -- The service, and whether it was there before.
  unfoldable pub acquire_service :
      RequiredOptions → Option InstallerService → M (InstallerService × Bool)
  acquire_service o none = deploy_service o >>= λ s. pure (s, false)
  acquire_service o (some existing) =
      if o.force_new
      then (deploy_service o >>= λ s. pure (s, false))
      else (reuse_service env existing >>= λ s. pure (s, true))

  unfoldable pub write_env_local : String → InstallResult → M (Unit {0})
  write_env_local path r = save_entries env path (
      ("OPENCLAW_RAILWAY_SETUP_URL", r.setup_url)
      ∷ ("OPENCLAW_RAILWAY_OPENCLAW_URL", r.openclaw_url)
      ∷ ("OPENCLAW_RAILWAY_HEALTH_URL", r.health_url)
      ∷ ("OPENCLAW_RAILWAY_SERVICE_ID", r.service_id)
      ∷ ("OPENCLAW_RAILWAY_SERVICE_NAME", r.service_name)
      ∷ ("OPENCLAW_RAILWAY_SETUP_USERNAME", r.setup_username)
      ∷ ("OPENCLAW_RAILWAY_SETUP_PASSWORD", r.setup_password)
      ∷ [])

  unfoldable pub write_handoff : String → InstallResult → M (Unit {0})
  write_handoff path r = do
    approval ← require (describe_device_approval_status r.device_approval) inconsistent_approval
    write_file env path (build_handoff r approval)

  unfoldable pub write_local_files : RequiredOptions → InstallResult → M (Unit {0})
  write_local_files o r =
      if o.write_local_files
      then (write_env_local o.env_local_path r >> write_handoff o.handoff_path r)
      else pure tt

  -- Everything after the service is there: its domain, its readiness and the two repairs.
  unfoldable pub configure_service : RequiredOptions → InstallerService → Bool → M InstallResult
  configure_service o service reused = do
    domain ← ensure_domain_port env service.name o.target_port
    let base = "https://" <> domain.domain
    let auth : SetupAuth = record { username = o.setup_username; password = o.setup_password }
    wait_for_setup_ready env (base <> "/setup/api/status") auth o.poll_seconds o.timeout_minutes
    origins ← patch_allowed_origins env base auth domain.domain
    device ← approve_own_device_pairing env base auth
    pure (record {
      service_id = service.id;
      service_name = service.name;
      deployment_id = deployment_id service;
      domain = domain.domain;
      setup_url = base <> "/setup";
      openclaw_url = base <> "/openclaw";
      health_url = base <> "/setup/healthz";
      setup_username = o.setup_username;
      setup_password = o.setup_password;
      reused_existing_service = reused;
      allowed_origins_status = origins;
      device_approval = device;
    })

  -- The run with resolved options. `wroteEnvLocal` and `wroteHandoff` of the result are the option
  -- `writeLocalFiles`.
  unfoldable pub install_resolved : RequiredOptions → M InstallResult
  install_resolved o = do
    before ← list_services env
    (service, reused) ← acquire_service o (find_template_service before o.service)
    r ← configure_service o service reused
    write_local_files o r
    pure r

  unfoldable pub install_openclaw_on_railway : InstallerOptions → M InstallResult
  install_openclaw_on_railway options = resolve_options options >>= install_resolved
