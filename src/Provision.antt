-- ===== src/Provision.antt =====
-- `provisionClientInstance` of packages/openclaw-railway-installer/src/provision-client.ts.
pub mod Bootstrap
pub mod Gentle
pub mod Handoff
pub mod Outcomes
pub mod Settling
pub mod Shape
use openclaw_control_plane.Common.{
  ℕ, String, ◌<>◌, Bool, true, false, ◌&&◌, not, Option, none, some, List, [], ◌∷◌, ◌++◌, map, ◌==◌,
  string_eq, contains, filter, head?, length, leb, get_or, if◌then◌else◌,
}
use openclaw_control_plane.Effects.Errors.{
  Error, extra_services, no_new_service, missing_variable, inconsistent_approval,
}
use openclaw_control_plane.Effects.Platform.{Env, SetupAuth, InstallerService, RailwayDomain}
use openclaw_control_plane.Effects.{M, pure, throw, require, ◌>>=◌, ◌>>◌, run, write_file}
use openclaw_control_plane.Railway.{
  default_setup_username, list_services, poll_service_until_success, ensure_domain_port,
  wait_for_setup_ready, read_railway_variable, write_railway_variable,
}
use openclaw_control_plane.Client.{non_empty, redeploy_args}
use openclaw_control_plane.Instance.{patch_allowed_origins, approve_own_device_pairing}
use openclaw_control_plane.Install.{given_or_secret, reuse_service, save_entries}
use openclaw_control_plane.Install.Handoff.{describe_device_approval_status}
use openclaw_control_plane.TemplateLock.{read_template_lock}
use openclaw_control_plane.Provision.Handoff.{ProvisionClientResult, build_provision_handoff}

pub record ProvisionClientOptions : Type 0 where
  pub client_name : String
  pub project_id : Option String
  pub workspace : Option String
  pub target_port : Option ℕ
  pub template_ref : Option String
  pub setup_username : Option String
  pub setup_password : Option String
  pub gateway_token : Option String
  pub poll_seconds : Option ℕ
  pub timeout_minutes : Option ℕ
  pub force_new : Option Bool
  pub env_local_path : Option String
  pub handoff_path : Option String
  pub write_local_files : Option Bool

pub record ResolvedProvisionOptions : Type 0 where
  pub client_name : String
  pub project_id : Option String
  pub workspace : Option String
  pub target_port : ℕ
  pub template_ref : String
  pub setup_username : String
  pub setup_password : String
  pub gateway_token : String
  pub poll_seconds : ℕ
  pub timeout_minutes : ℕ
  pub force_new : Bool
  pub env_local_path : String
  pub handoff_path : String
  pub write_local_files : Bool

-- `selectSoleService`: the only candidate, or none; more than one is an error.
unfoldable pub select_sole_service :
    List InstallerService → (client context : String) → M (Option InstallerService)
select_sole_service [] client context = pure none
select_sole_service (s ∷ []) client context = pure (some s)
select_sole_service (s ∷ s' ∷ rest) client context =
    throw (extra_services context client (length (s ∷ s' ∷ rest)))

abbrev pub ids_of : List InstallerService → List String
ids_of services = map (λ s. s.id) services

-- The services that were not there before.
unfoldable pub created_candidates : (before after : List InstallerService) → List InstallerService
created_candidates before after = filter (λ s. not (contains (ids_of before) s.id)) after

abbrev pub link_args : ResolvedProvisionOptions → List String
link_args o = elim o.project_id [
  | some id ↦ "link" ∷ "--project" ∷ id ∷ "--json" ∷ []
  | none ↦
      ("init" ∷ "--name" ∷ o.client_name ∷ "--json" ∷ [])
      ++ elim o.workspace [ some w ↦ "--workspace" ∷ w ∷ [] | none ↦ [] ]
]

module _ (env : Env) where
  -- `options.templateRef ?? resolveDefaultTemplateRef()`
  unfoldable pub resolve_template_ref : Option String → M String
  resolve_template_ref (some ref) = pure ref
  resolve_template_ref none =
      read_template_lock env "deploy/openclaw-railway/template-lock.json" >>= λ lock.
      pure lock.pinned_commit

  unfoldable pub resolve_provision_options : ProvisionClientOptions → M ResolvedProvisionOptions
  resolve_provision_options o = do
    ref ← resolve_template_ref o.template_ref
    password ← given_or_secret env o.setup_password 24 "oc-"
    token ← given_or_secret env o.gateway_token 32 ""
    pure (record {
      client_name = o.client_name;
      project_id = non_empty o.project_id;
      workspace = non_empty o.workspace;
      target_port = get_or o.target_port 8080;
      template_ref = ref;
      setup_username = get_or o.setup_username default_setup_username;
      setup_password = password;
      gateway_token = token;
      poll_seconds = get_or o.poll_seconds 15;
      timeout_minutes = get_or o.timeout_minutes 25;
      force_new = get_or o.force_new false;
      env_local_path = get_or o.env_local_path ".env.local";
      handoff_path = get_or o.handoff_path "openclaw-railway-client-handoff.local.md";
      write_local_files = get_or o.write_local_files true;
    })

  -- The six variables of a new client.
  abbrev pub variable_entries : ResolvedProvisionOptions → List (String × String)
  variable_entries o =
      ("OPENCLAW_TEMPLATE_REF", o.template_ref)
      ∷ ("PORT", env.print_number o.target_port)
      ∷ ("OPENCLAW_STATE_DIR", "/data/.openclaw")
      ∷ ("OPENCLAW_WORKSPACE_DIR", "/data/workspace")
      ∷ ("SETUP_PASSWORD", o.setup_password)
      ∷ ("OPENCLAW_GATEWAY_TOKEN", o.gateway_token)
      ∷ []

  -- Each entry is written without a deployment.
  unfoldable pub write_variables : (service : String) → List (String × String) → M (Unit {0})
  write_variables service [] = pure tt
  write_variables service ((name, value) ∷ entries) =
      write_railway_variable env name value service true >> write_variables service entries

  -- `up`, and the service that it created.
  unfoldable pub create_service :
      ResolvedProvisionOptions → List InstallerService → M InstallerService
  create_service o before = do
    stdout ← run env ("up" ∷ "--detach" ∷ "--json" ∷ []) none
    after ← list_services env
    created ←
        select_sole_service (created_candidates before after) o.client_name
          "services created by 'railway up'"
    require created (no_new_service o.client_name)

  -- The bootstrap of a new service: its volume, its variables, and its one build.
  unfoldable pub bootstrap_service :
      ResolvedProvisionOptions → List InstallerService → M InstallerService
  bootstrap_service o before = do
    created ← create_service o before
    linked ← run env ("service" ∷ created.name ∷ []) none
    volume ← run env ("volume" ∷ "add" ∷ "--mount-path" ∷ "/data" ∷ []) none
    write_variables created.name (variable_entries o)
    built ← run env (redeploy_args created.name) none
    poll_service_until_success env created.name o.poll_seconds o.timeout_minutes none

  -- The service, and whether it was there before.
  unfoldable pub acquire_client :
      ResolvedProvisionOptions
      → List InstallerService
      → Option InstallerService
      → M (InstallerService × Bool)
  acquire_client o before none = bootstrap_service o before >>= λ s. pure (s, false)
  acquire_client o before (some existing) =
      if o.force_new
      then (bootstrap_service o before >>= λ s. pure (s, false))
      else (reuse_service env existing >>= λ s. pure (s, true))

  unfoldable pub required_variable : (name service : String) → M String
  required_variable name service = do
    value ← read_railway_variable env name service
    require (non_empty value) (missing_variable service name)

  -- The setup password and the gateway token: those of a reused service are read back.
  unfoldable pub client_credentials :
      ResolvedProvisionOptions → InstallerService → Bool → M (String × String)
  client_credentials o service false = pure (o.setup_password, o.gateway_token)
  client_credentials o service true = do
    password ← required_variable "SETUP_PASSWORD" service.name
    token ← required_variable "OPENCLAW_GATEWAY_TOKEN" service.name
    pure (password, token)

  -- Everything after the credentials are known: the domain, the readiness and the two repairs.
  unfoldable pub configure_client :
      ResolvedProvisionOptions → InstallerService → Bool → String × String → M ProvisionClientResult
  configure_client o service reused (setup_password, gateway_token) = do
    domain ← ensure_domain_port env service.name o.target_port
    let base = "https://" <> domain.domain
    let auth : SetupAuth = record { username = o.setup_username; password = setup_password }
    wait_for_setup_ready env (base <> "/setup/api/status") auth o.poll_seconds o.timeout_minutes
    origins ← patch_allowed_origins env base auth domain.domain
    device ← approve_own_device_pairing env base auth
    pure (record {
      service_id = service.id;
      service_name = service.name;
      project_id = o.project_id;
      template_ref = o.template_ref;
      domain = domain.domain;
      setup_url = base <> "/setup";
      openclaw_url = base <> "/openclaw";
      health_url = base <> "/setup/healthz";
      setup_username = o.setup_username;
      setup_password = setup_password;
      gateway_token = gateway_token;
      dashboard_url = (base <> "/openclaw") <> ("#token=" <> gateway_token);
      reused_existing_service = reused;
      allowed_origins_status = origins;
      device_approval = device;
    })

  unfoldable pub write_provision_env_local : String → ProvisionClientResult → M (Unit {0})
  write_provision_env_local path r = save_entries env path (
      ("OPENCLAW_CLIENT_SETUP_URL", r.setup_url)
      ∷ ("OPENCLAW_CLIENT_OPENCLAW_URL", r.openclaw_url)
      ∷ ("OPENCLAW_CLIENT_HEALTH_URL", r.health_url)
      ∷ ("OPENCLAW_CLIENT_SERVICE_ID", r.service_id)
      ∷ ("OPENCLAW_CLIENT_SERVICE_NAME", r.service_name)
      ∷ ("OPENCLAW_CLIENT_TEMPLATE_REF", r.template_ref)
      ∷ ("OPENCLAW_CLIENT_SETUP_USERNAME", r.setup_username)
      ∷ ("OPENCLAW_CLIENT_SETUP_PASSWORD", r.setup_password)
      ∷ ("OPENCLAW_CLIENT_GATEWAY_TOKEN", r.gateway_token)
      ∷ ("OPENCLAW_CLIENT_DASHBOARD_URL", r.dashboard_url)
      ∷ [])

  unfoldable pub write_provision_handoff : String → ProvisionClientResult → M (Unit {0})
  write_provision_handoff path r = do
    approval ← require (describe_device_approval_status r.device_approval) inconsistent_approval
    write_file env path (build_provision_handoff r approval)

  unfoldable pub write_client_files :
      ResolvedProvisionOptions → ProvisionClientResult → M (Unit {0})
  write_client_files o r =
      if o.write_local_files
      then (write_provision_env_local o.env_local_path r
          >> write_provision_handoff o.handoff_path r)
      else pure tt

  -- The run with resolved options. `wroteEnvLocal` and `wroteHandoff` of the result are the option
  -- `writeLocalFiles`.
  unfoldable pub provision_resolved : ResolvedProvisionOptions → M ProvisionClientResult
  provision_resolved o = do
    stdout ← run env (link_args o) none
    before ← list_services env
    existing ← select_sole_service before o.client_name "linked project"
    (service, reused) ← acquire_client o before existing
    credentials ← client_credentials o service reused
    r ← configure_client o service reused credentials
    write_client_files o r
    pure r

  unfoldable pub provision_client_instance : ProvisionClientOptions → M ProvisionClientResult
  provision_client_instance options = resolve_provision_options options >>= provision_resolved
