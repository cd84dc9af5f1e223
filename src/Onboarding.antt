-- ===== src/Onboarding.antt =====
-- `bootstrapOnboardingCycle` of packages/openclaw-setup-applier/src/onboarding-cycle.ts: the
-- provisioning, the dry run, the application of the profile, and the two repairs, in this order.
use openclaw_control_plane.Common.{String, ◌<>◌, Option, none, some}
use openclaw_control_plane.Json.{Json}
use openclaw_control_plane.Effects.Platform.{Env, SetupAuth, Reply}
use openclaw_control_plane.Effects.{M, pure, ◌>>=◌}
use openclaw_control_plane.Instance.{
  PatchAllowedOriginsStatus, ApproveOwnDeviceResult, patch_allowed_origins,
  approve_own_device_pairing,
}
use openclaw_control_plane.Provision.{ProvisionClientOptions, provision_client_instance}
use openclaw_control_plane.Provision.Handoff.{ProvisionClientResult}
use openclaw_control_plane.Profile.{ClientProfile, DryRunResult, dry_run_apply_profile}
use openclaw_control_plane.Applier.{ApplyResult, apply_profile}

pub record BootstrapOnboardingCycleOptions : Type 0 where
  pub client_name : String
  pub profile : Json
  pub workspace : Option String
  pub project_id : Option String

pub record BootstrapOnboardingCycleResult : Type 0 where
  pub provision : ProvisionClientResult
  pub dry_run : DryRunResult
  pub apply : ApplyResult
  pub allowed_origins_status : PatchAllowedOriginsStatus
  pub device_approval : ApproveOwnDeviceResult

abbrev pub provision_options : BootstrapOnboardingCycleOptions → ProvisionClientOptions
provision_options o = record {
  client_name = o.client_name;
  project_id = o.project_id;
  workspace = o.workspace;
  target_port = none;
  template_ref = none;
  setup_username = none;
  setup_password = none;
  gateway_token = none;
  poll_seconds = none;
  timeout_minutes = none;
  force_new = none;
  env_local_path = none;
  handoff_path = none;
  write_local_files = none;
}

-- The steps after the provisioning.
unfoldable pub apply_to_client :
    Env
    → (parse : Json → Reply ClientProfile) (management_key : String)
    → BootstrapOnboardingCycleOptions
    → ProvisionClientResult
    → M BootstrapOnboardingCycleResult
apply_to_client env parse management_key o provision = do
  let base = "https://" <> provision.domain
  let auth : SetupAuth = record {
    username = provision.setup_username;
    password = provision.setup_password;
  }
  dry_run ← dry_run_apply_profile env parse o.profile provision.service_name
  apply ← apply_profile env parse base (some auth) management_key o.profile (record {
    service = provision.service_name;
    instance_base_url = base;
    healthcheck_poll_seconds = none;
    healthcheck_timeout_seconds = none;
  })
  origins ← patch_allowed_origins env base auth provision.domain
  device ← approve_own_device_pairing env base auth
  pure (record {
    provision = provision;
    dry_run = dry_run;
    apply = apply;
    allowed_origins_status = origins;
    device_approval = device;
  })

unfoldable pub bootstrap_onboarding_cycle :
    Env
    → (parse : Json → Reply ClientProfile) (management_key : String)
    → BootstrapOnboardingCycleOptions
    → M BootstrapOnboardingCycleResult
bootstrap_onboarding_cycle env parse management_key o =
    provision_client_instance env (provision_options o)
    >>= apply_to_client env parse management_key o
