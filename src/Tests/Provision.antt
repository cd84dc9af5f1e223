-- ===== src/Tests/Provision.antt =====
-- Provisionings on a simulated project.
use openclaw_control_plane.Common.{
  String, Bool, true, false, none, some, List, [], ◌∷◌, ◌≡◌, refl, ◌⊎◌, ◌==◌, string_eq, option_eq,
  nat_eq, if◌then◌else◌,
}
use openclaw_control_plane.Json.{str}
use openclaw_control_plane.Effects.{done, threw, final, write_file, read_file}
use openclaw_control_plane.Effects.Errors.{not_healthy}
use openclaw_control_plane.Effects.Platform.{Env, Event, command, Trace, InstallerService, ok}
use openclaw_control_plane.Effects.Reads.{IsRead, Extends}
use openclaw_control_plane.Railway.{
  ensure_domain_port, existing_or_generated_domain, generate_domain,
}
use openclaw_control_plane.Install.{reuse_service, save_entries}
use openclaw_control_plane.Install.{
  RequiredOptions, deploy_service, acquire_service, configure_service, write_local_files,
  install_resolved,
}
use openclaw_control_plane.Install.Shape.{Reused, Deployed}
use openclaw_control_plane.Install.Reuse.{install_resolved-Deployed}
use openclaw_control_plane.Install.Handoff.{InstallResult, describe_device_approval_status}
use openclaw_control_plane.Provision.{
  ResolvedProvisionOptions, select_sole_service, created_candidates, write_variables,
  create_service, bootstrap_service, acquire_client, required_variable, client_credentials,
  configure_client, write_client_files, provision_resolved,
}
use openclaw_control_plane.Provision.Handoff.{ProvisionClientResult}
use openclaw_control_plane.Provision.Shape.{linked, Kept, Bootstrapped, Started}
use openclaw_control_plane.Provision.Outcomes.{
  provision_resolved-Bootstrapped, provision_resolved-Started,
}
use openclaw_control_plane.Tests.Client.{client}
use openclaw_control_plane.Tests.Instance.{instance_code, served}
use openclaw_control_plane.Tests.Fake.{fake}

provisioning : Unit {0}
unfolding client instance_code write_file read_file ensure_domain_port existing_or_generated_domain
    generate_domain reuse_service save_entries describe_device_approval_status select_sole_service
    created_candidates write_variables create_service bootstrap_service acquire_client
    required_variable client_credentials configure_client write_client_files provision_resolved
provisioning = tt

abbrev is_up : Event → Bool
is_up (command (name ∷ rest) stdin) = name == "up"
is_up _ = false

abbrev uploaded : Trace → String
uploaded [] = "before"
uploaded (e ∷ t) = if is_up e then "after" else uploaded t

abbrev listing : String → InstallerService → String → List InstallerService
listing status s text = if text == "before" then [] else s ∷ []

-- A project that is empty until something is uploaded.
abbrev service_of : String → InstallerService
service_of status = record {
  id = "svc";
  name = "client";
  latest_deployment = some (record { id = some "d1"; status = some status });
}

abbrev project : Bool → String → Env
project empty status = record (fake "OPENCLAW_GATEWAY_TOKEN" "token" 200) {
  run = λ t args stdin. ok (uploaded t);
  services =
      λ out. ok (if empty then listing status (service_of status) out else service_of status ∷ []);
  variables = λ out. ok (("SETUP_PASSWORD", "pw") ∷ ("OPENCLAW_GATEWAY_TOKEN", "token") ∷ []);
  fetch = (served 200 (str "r1" ∷ [])).fetch;
  parse_json = (served 200 []).parse_json;
  stringify = (served 200 []).stringify;
}

abbrev options : ResolvedProvisionOptions
options = record {
  client_name = "client";
  project_id = some "p";
  workspace = none;
  target_port = 8080;
  template_ref = "ref";
  setup_username = "openclaw-admin";
  setup_password = "pw";
  gateway_token = "token";
  poll_seconds = 15;
  timeout_minutes = 25;
  force_new = false;
  env_local_path = ".env.local";
  handoff_path = "handoff.md";
  write_local_files = false;
}

abbrev result_of : Bool → ProvisionClientResult
result_of reused = record {
  service_id = "svc";
  service_name = "client";
  project_id = some "p";
  template_ref = "ref";
  domain = "c.example";
  setup_url = "https://c.example/setup";
  openclaw_url = "https://c.example/openclaw";
  health_url = "https://c.example/setup/healthz";
  setup_username = "openclaw-admin";
  setup_password = "pw";
  gateway_token = "token";
  dashboard_url = "https://c.example/openclaw#token=token";
  reused_existing_service = reused;
  allowed_origins_status = openclaw_control_plane.Instance.patched;
  device_approval = openclaw_control_plane.Instance.approved "r1";
}

abbrev provisioned : Trace
provisioned = final (provision_resolved (project true "SUCCESS") options [])

provision_runs :
    provision_resolved (project true "SUCCESS") options [] ≡ done (result_of false) provisioned
unfolding provisioning
provision_runs = refl

provision_resolved-Bootstrapped_example :
    ((false ≡ true)
      × (existing : InstallerService) × Kept
          (project true "SUCCESS")
          options
          existing
          "c.example"
          []
          provisioned)
    ⊎ ((false ≡ false) × Bootstrapped (project true "SUCCESS") options "c.example" [] provisioned)
provision_resolved-Bootstrapped_example =
    provision_resolved-Bootstrapped (project true "SUCCESS") options [] provisioned
      (result_of false) provision_runs

-- A service that is there is reused.
reuse_runs :
    provision_resolved (project false "SUCCESS") options []
    ≡ done (result_of true) (final (provision_resolved (project false "SUCCESS") options []))
unfolding provisioning
reuse_runs = refl

abbrev refused : Trace
refused = final (provision_resolved (project false "FAILED") options [])

provision_refused :
    provision_resolved (project false "FAILED") options []
    ≡ threw (not_healthy "client" "FAILED") refused
unfolding provisioning
provision_refused = refl

provision_resolved-Started_example :
    Extends IsRead (linked options []) refused
    ⊎ ((existing : InstallerService) × (host : String) × Kept
          (project false "FAILED")
          options
          existing
          host
          []
          refused)
    ⊎ ((host : String) × Started (project false "FAILED") options host [] refused)
provision_resolved-Started_example =
    provision_resolved-Started (project false "FAILED") options [] refused
      (not_healthy "client" "FAILED") provision_refused

-- The marketplace installation on the same projects.
abbrev template : RequiredOptions
template = record {
  template = "clawdbot-railway-template";
  service = "client";
  target_port = 8080;
  poll_seconds = 15;
  timeout_minutes = 25;
  force_new = false;
  setup_username = "openclaw-admin";
  setup_password = "pw";
  gateway_token = "token";
  env_local_path = ".env.local";
  handoff_path = "handoff.md";
  write_local_files = false;
}

abbrev installed_result : InstallResult
installed_result = record {
  service_id = "svc";
  service_name = "client";
  deployment_id = some "d1";
  domain = "c.example";
  setup_url = "https://c.example/setup";
  openclaw_url = "https://c.example/openclaw";
  health_url = "https://c.example/setup/healthz";
  setup_username = "openclaw-admin";
  setup_password = "pw";
  reused_existing_service = true;
  allowed_origins_status = openclaw_control_plane.Instance.patched;
  device_approval = openclaw_control_plane.Instance.approved "r1";
}

abbrev installed : Trace
installed = final (install_resolved (project false "SUCCESS") template [])

install_runs :
    install_resolved (project false "SUCCESS") template [] ≡ done installed_result installed
unfolding provisioning deploy_service acquire_service configure_service write_local_files
    install_resolved
install_runs = refl

install_resolved-Deployed_example :
    ((true ≡ true) × Reused (project false "SUCCESS") template "c.example" [] installed)
    ⊎ ((true ≡ false) × Deployed (project false "SUCCESS") template "c.example" [] installed)
install_resolved-Deployed_example =
    install_resolved-Deployed (project false "SUCCESS") template [] installed installed_result
      install_runs
