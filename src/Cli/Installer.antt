-- ===== src/Cli/Installer.antt =====
-- The parsers of packages/openclaw-railway-installer/src: `parseArgs` of cli.ts, and
-- `parseProvisionArgs`, `parseUpdateRefArgs`, `parseUpdateOpenClawRefArgs` and
-- `parseRotateGatewayTokenArgs` of client-cli.ts.
use openclaw_control_plane.Common.{
  ℕ, String, Bool, true, false, Option, none, some, List, ◌==◌, string_eq, if◌then◌else◌,
}
use openclaw_control_plane.Install.{InstallerOptions}
use openclaw_control_plane.Provision.{ProvisionClientOptions}
use openclaw_control_plane.Cli.{
  Flag, text, number, switch, Parsed, parsed, parse_loop, ◌>>=◌, require,
}

install_flag : String → Option (Flag InstallerOptions)
install_flag arg =
    if arg == "--template"
    then some (text (λ v o. record o { template = some v }))
    else if arg == "--service"
    then some (text (λ v o. record o { service = some v }))
    else if arg == "--target-port"
    then some (number (λ n o. record o { target_port = some n }))
    else if arg == "--poll-seconds"
    then some (number (λ n o. record o { poll_seconds = some n }))
    else if arg == "--timeout-minutes"
    then some (number (λ n o. record o { timeout_minutes = some n }))
    else if arg == "--setup-username"
    then some (text (λ v o. record o { setup_username = some v }))
    else if arg == "--env-local-path"
    then some (text (λ v o. record o { env_local_path = some v }))
    else if arg == "--handoff-path"
    then some (text (λ v o. record o { handoff_path = some v }))
    else if arg == "--force-new"
    then some (switch (λ o. record o { force_new = some true }))
    else if arg == "--no-local-files"
    then some (switch (λ o. record o { write_local_files = some false }))
    else none

abbrev no_install_options : InstallerOptions
no_install_options = record {
  template = none;
  service = none;
  target_port = none;
  poll_seconds = none;
  timeout_minutes = none;
  force_new = none;
  setup_username = none;
  setup_password = none;
  gateway_token = none;
  env_local_path = none;
  handoff_path = none;
  write_local_files = none;
}

-- `parseArgs`
unfoldable pub parse_args : List String → Parsed InstallerOptions
unfolding parse_loop install_flag
parse_args args = parse_loop install_flag args no_install_options

unfoldable pub provision_flag : String → Option (Flag ProvisionClientOptions)
provision_flag arg =
    if arg == "--client-name"
    then some (text (λ v o. record o { client_name = v }))
    else if arg == "--project-id"
    then some (text (λ v o. record o { project_id = some v }))
    else if arg == "--workspace"
    then some (text (λ v o. record o { workspace = some v }))
    else if arg == "--target-port"
    then some (number (λ n o. record o { target_port = some n }))
    else if arg == "--template-ref"
    then some (text (λ v o. record o { template_ref = some v }))
    else if arg == "--setup-username"
    then some (text (λ v o. record o { setup_username = some v }))
    else if arg == "--poll-seconds"
    then some (number (λ n o. record o { poll_seconds = some n }))
    else if arg == "--timeout-minutes"
    then some (number (λ n o. record o { timeout_minutes = some n }))
    else if arg == "--env-local-path"
    then some (text (λ v o. record o { env_local_path = some v }))
    else if arg == "--handoff-path"
    then some (text (λ v o. record o { handoff_path = some v }))
    else if arg == "--force-new"
    then some (switch (λ o. record o { force_new = some true }))
    else if arg == "--no-local-files"
    then some (switch (λ o. record o { write_local_files = some false }))
    else none

-- No flag has been read. A client name that is absent is the empty text, which is no value.
abbrev pub no_provision_options : ProvisionClientOptions
no_provision_options = record {
  client_name = "";
  project_id = none;
  workspace = none;
  target_port = none;
  template_ref = none;
  setup_username = none;
  setup_password = none;
  gateway_token = none;
  poll_seconds = none;
  timeout_minutes = none;
  force_new = none;
  env_local_path = none;
  handoff_path = none;
  write_local_files = none;
}

unfoldable pub check_client_name : ProvisionClientOptions → Parsed ProvisionClientOptions
unfolding require
check_client_name o = require (some o.client_name) "--client-name" >>= λ _. parsed o

-- `parseProvisionArgs`
unfoldable pub parse_provision_args : List String → Parsed ProvisionClientOptions
unfolding parse_loop provision_flag check_client_name
parse_provision_args args =
    parse_loop provision_flag args no_provision_options >>= check_client_name

-- The options of both updates, before the required ones are checked
pub record RefArgs : Type 0 where
  pub service : Option String
  pub next_ref : Option String
  pub expected_current_ref : Option String
  pub setup_username : Option String
  pub force_redeploy : Option Bool
  pub poll_seconds : Option ℕ
  pub timeout_minutes : Option ℕ

-- The flags of an update, by the name of the flag for the ref
ref_flag : String → String → Option (Flag RefArgs)
ref_flag ref_name arg =
    if arg == "--service"
    then some (text (λ v o. record o { service = some v }))
    else if arg == ref_name
    then some (text (λ v o. record o { next_ref = some v }))
    else if arg == "--expected-current-ref"
    then some (text (λ v o. record o { expected_current_ref = some v }))
    else if arg == "--setup-username"
    then some (text (λ v o. record o { setup_username = some v }))
    else if arg == "--force-redeploy"
    then some (switch (λ o. record o { force_redeploy = some true }))
    else if arg == "--poll-seconds"
    then some (number (λ n o. record o { poll_seconds = some n }))
    else if arg == "--timeout-minutes"
    then some (number (λ n o. record o { timeout_minutes = some n }))
    else none

abbrev no_ref_args : RefArgs
no_ref_args = record {
  service = none;
  next_ref = none;
  expected_current_ref = none;
  setup_username = none;
  force_redeploy = none;
  poll_seconds = none;
  timeout_minutes = none;
}

check_ref_args : String → RefArgs → Parsed RefArgs
unfolding require
check_ref_args ref_name o = require o.service "--service" >>= λ _.
    require o.next_ref ref_name >>= λ _.
    require o.expected_current_ref "--expected-current-ref" >>= λ _. parsed o

parse_ref_args : String → List String → Parsed RefArgs
unfolding parse_loop ref_flag check_ref_args
parse_ref_args ref_name args =
    parse_loop (ref_flag ref_name) args no_ref_args >>= check_ref_args ref_name

-- `parseUpdateRefArgs`
unfoldable pub parse_update_ref_args : List String → Parsed RefArgs
unfolding parse_ref_args
parse_update_ref_args args = parse_ref_args "--template-ref" args

-- `parseUpdateOpenClawRefArgs`
unfoldable pub parse_update_openclaw_ref_args : List String → Parsed RefArgs
unfolding parse_ref_args
parse_update_openclaw_ref_args args = parse_ref_args "--openclaw-ref" args

pub record RotateArgs : Type 0 where
  pub service : Option String
  pub setup_username : Option String
  pub poll_seconds : Option ℕ
  pub timeout_minutes : Option ℕ

rotate_flag : String → Option (Flag RotateArgs)
rotate_flag arg =
    if arg == "--service"
    then some (text (λ v o. record o { service = some v }))
    else if arg == "--setup-username"
    then some (text (λ v o. record o { setup_username = some v }))
    else if arg == "--poll-seconds"
    then some (number (λ n o. record o { poll_seconds = some n }))
    else if arg == "--timeout-minutes"
    then some (number (λ n o. record o { timeout_minutes = some n }))
    else none

-- `parseRotateGatewayTokenArgs`
unfoldable pub parse_rotate_gateway_token_args : List String → Parsed RotateArgs
unfolding parse_loop rotate_flag require
parse_rotate_gateway_token_args args =
    parse_loop rotate_flag args (record {
      service = none;
      setup_username = none;
      poll_seconds = none;
      timeout_minutes = none;
    })
    >>= λ o. require o.service "--service" >>= λ _. parsed o
