-- ===== src/Guard.antt =====
-- packages/openclaw-railway-installer/src/guard-cli.ts: the guard before `railway variable`, and
-- the classification of deployments in verify-deploy.ts.
pub mod Scope
use Prim.Native.Char.{code}
use openclaw_control_plane.Common.{
  ℕ, String, Bool, true, false, ◌&&◌, ◌||◌, not, Option, none, some, List, [], ◌∷◌, ◌==◌, string_eq,
  nat_eq, option_eq, contains, filter, find, head?, if◌then◌else◌, and_then,
}
use openclaw_control_plane.Railway.{terminal_failure_statuses}

abbrev pub secrets_flag : String
secrets_flag = "--i-know-this-prints-secrets"

-- The reasons of a refusal.
pub data GuardResult : Type 0 where
  allowed only_variables missing_service prints_secrets : GuardResult

-- `value.startsWith("-")`
unfoldable pub starts_with_dash : String → Bool
starts_with_dash String.[] = false
starts_with_dash (String.◌∷◌ c s) = code c == 45

abbrev pub is_service_flag : String → Bool
is_service_flag arg = arg == "-s" || arg == "--service"

-- A value that is there, and no flag itself.
abbrev pub is_service_value : Option String → Bool
is_service_value none = false
is_service_value (some value) = not (starts_with_dash value)

-- `hasServiceFlag`
unfoldable pub has_service_flag : List String → Bool
has_service_flag [] = false
has_service_flag (arg ∷ args) =
    is_service_flag arg && is_service_value (head? args) || has_service_flag args

-- The tests behind that of the subcommand.
unfoldable pub check_scope : (subcommand : String) → List String → GuardResult
check_scope subcommand args =
    if has_service_flag args
    then if (subcommand == "list") && not (contains args secrets_flag)
      then prints_secrets
      else allowed
    else missing_service

unfoldable pub check_guard : List String → GuardResult
check_guard (resource ∷ subcommand ∷ args) =
    if (resource == "variable") && (subcommand == "list" || subcommand == "set")
    then check_scope subcommand (resource ∷ subcommand ∷ args)
    else only_variables
check_guard _ = only_variables

unfoldable pub strip_guard_flag : List String → List String
strip_guard_flag args = filter (λ arg. not (arg == secrets_flag)) args

-- `RailwayDeployment`
pub record RailwayDeployment : Type 0 where
  pub status : String
  pub commit_hash : Option String

pub data DeploymentOutcome : Type 0 where
  success failure pending : DeploymentOutcome

unfoldable pub select_deployment_for_commit :
    List RailwayDeployment → String → Option RailwayDeployment
select_deployment_for_commit deployments sha = find (λ d. d.commit_hash == some sha) deployments

unfoldable pub select_latest_deployment : List RailwayDeployment → Option RailwayDeployment
select_latest_deployment deployments = head? deployments

unfoldable pub classify_deployment_status : String → DeploymentOutcome
classify_deployment_status status =
    if status == "SUCCESS"
    then success
    else if contains terminal_failure_statuses status
    then failure
    else pending
