-- ===== src/Cli/Applier.antt =====
-- The parsers of packages/openclaw-setup-applier/src: `parseArgs` of cli.ts, and
-- `parseBootstrapArgs`, `parseRegressionCheckArgs` and `parseDeleteKeyArgs` of
-- onboarding-cycle-cli.ts.
use openclaw_control_plane.Common.{
  String, Bool, true, false, Option, none, some, List, ◌==◌, string_eq, if◌then◌else◌,
}
use openclaw_control_plane.Cli.{Flag, text, switch, Parsed, parsed, parse_loop, ◌>>=◌, require}

pub record CliOptions : Type 0 where
  pub profile_path : Option String
  pub service : Option String
  pub instance_url : Option String
  pub dry_run : Bool

apply_flag : String → Option (Flag CliOptions)
apply_flag arg =
    if arg == "--profile"
    then some (text (λ v o. record o { profile_path = some v }))
    else if arg == "--service"
    then some (text (λ v o. record o { service = some v }))
    else if arg == "--instance-url"
    then some (text (λ v o. record o { instance_url = some v }))
    else if arg == "--dry-run"
    then some (switch (λ o. record o { dry_run = true }))
    else none

-- `parseArgs`
unfoldable pub parse_apply_args : List String → Parsed CliOptions
unfolding parse_loop apply_flag
parse_apply_args args =
    parse_loop apply_flag args
      (record { profile_path = none; service = none; instance_url = none; dry_run = false })

pub record BootstrapArgs : Type 0 where
  pub client_name : Option String
  pub profile_path : Option String
  pub workspace : Option String
  pub project_id : Option String

bootstrap_flag : String → Option (Flag BootstrapArgs)
bootstrap_flag arg =
    if arg == "--client-name"
    then some (text (λ v o. record o { client_name = some v }))
    else if arg == "--profile"
    then some (text (λ v o. record o { profile_path = some v }))
    else if arg == "--workspace"
    then some (text (λ v o. record o { workspace = some v }))
    else if arg == "--project-id"
    then some (text (λ v o. record o { project_id = some v }))
    else none

-- `parseBootstrapArgs`
unfoldable pub parse_bootstrap_args : List String → Parsed BootstrapArgs
unfolding parse_loop bootstrap_flag require
parse_bootstrap_args args =
    parse_loop bootstrap_flag args
      (record { client_name = none; profile_path = none; workspace = none; project_id = none })
    >>= λ o. require o.client_name "--client-name" >>= λ _.
        require o.profile_path "--profile" >>= λ _. parsed o

pub record RegressionCheckArgs : Type 0 where
  pub service : Option String
  pub instance_url : Option String
  pub profile_path : Option String

regression_flag : String → Option (Flag RegressionCheckArgs)
regression_flag arg =
    if arg == "--service"
    then some (text (λ v o. record o { service = some v }))
    else if arg == "--instance-url"
    then some (text (λ v o. record o { instance_url = some v }))
    else if arg == "--profile"
    then some (text (λ v o. record o { profile_path = some v }))
    else none

-- `parseRegressionCheckArgs`
unfoldable pub parse_regression_check_args : List String → Parsed RegressionCheckArgs
unfolding parse_loop regression_flag require
parse_regression_check_args args =
    parse_loop regression_flag args
      (record { service = none; instance_url = none; profile_path = none })
    >>= λ o. require o.service "--service" >>= λ _. require o.instance_url "--instance-url" >>= λ _.
        require o.profile_path "--profile" >>= λ _. parsed o

delete_key_flag : String → Option (Flag (Option String))
delete_key_flag arg = if arg == "--hash" then some (text (λ v o. some v)) else none

-- `parseDeleteKeyArgs`
unfoldable pub parse_delete_key_args : List String → Parsed String
unfolding parse_loop delete_key_flag require
parse_delete_key_args args = parse_loop delete_key_flag args none >>= λ hash. require hash "--hash"
