-- ===== src/Install/Handoff.antt =====
-- The result of an installation and its handoff document: `InstallResult` and `buildHandoff` of
-- packages/openclaw-railway-installer/src/index.ts, with the two `describe` functions of
-- patch-allowed-origins.ts and approve-own-device.ts.
use openclaw_control_plane.Common.{
  String, ◌<>◌, Bool, Option, none, some, [], ◌∷◌, ◌==◌, string_eq, get_or, if◌then◌else◌,
}
use openclaw_control_plane.EnvFile.{join_lines}
use openclaw_control_plane.Instance.{
  PatchAllowedOriginsStatus, patched, already_present, refused_missing_baseline,
  ApproveOwnDeviceResult, approved, no_pending, not_ready,
}

-- `InstallResult`, less the two flags for the local files. The status of the approval and the
-- request id are one value.
pub record InstallResult : Type 0 where
  pub service_id : String
  pub service_name : String
  pub deployment_id : Option String
  pub domain : String
  pub setup_url : String
  pub openclaw_url : String
  pub health_url : String
  pub setup_username : String
  pub setup_password : String
  pub reused_existing_service : Bool
  pub allowed_origins_status : PatchAllowedOriginsStatus
  pub device_approval : ApproveOwnDeviceResult

unfoldable pub describe_patch_allowed_origins_status : PatchAllowedOriginsStatus → String
describe_patch_allowed_origins_status patched = "yes"
describe_patch_allowed_origins_status already_present = "no (already present)"
describe_patch_allowed_origins_status refused_missing_baseline =
    "no (skipped -- instance has no baseline gateway.mode yet; retry once initial setup completes)"

-- `none` where the code throws: an approval without a request id.
unfoldable pub describe_device_approval_status : ApproveOwnDeviceResult → Option String
describe_device_approval_status (approved id) = if id == "" then none else some id
describe_device_approval_status no_pending = some "none pending"
describe_device_approval_status not_ready =
    some
      "skipped -- instance did not report ready (commonly: no baseline gateway.mode yet); retry once initial setup completes"

-- `approval` is the description of the approval.
unfoldable pub build_handoff : InstallResult → (approval : String) → String
build_handoff r approval = join_lines (
    "# OpenClaw Railway Handoff"
    ∷ ""
    ∷ "This file is local-only and should not be committed."
    ∷ ""
    ∷ "## URLs"
    ∷ ""
    ∷ ("- Setup: " <> r.setup_url)
    ∷ ("- OpenClaw UI: " <> r.openclaw_url)
    ∷ ("- Healthcheck: " <> r.health_url)
    ∷ ""
    ∷ "## Railway"
    ∷ ""
    ∷ ("- Service: " <> r.service_name)
    ∷ ("- Service ID: " <> r.service_id)
    ∷ ("- Deployment ID: " <> (get_or r.deployment_id "unknown"))
    ∷ ("- Domain: " <> r.domain)
    ∷ ""
    ∷ "## Setup Auth"
    ∷ ""
    ∷ ("- Username: " <> r.setup_username)
    ∷ ("- Password: " <> r.setup_password)
    ∷ ""
    ∷ "## Post-Deploy Automation"
    ∷ ""
    ∷ ("- Patched allowedOrigins: "
        <> (describe_patch_allowed_origins_status r.allowed_origins_status))
    ∷ ("- Approved device pairing request: " <> approval)
    ∷ ""
    ∷ "## Next Steps"
    ∷ ""
    ∷ "1. Open the setup URL."
    ∷ "2. Use any username or the username above with the setup password."
    ∷ "3. Complete model provider and channel configuration in the setup wizard."
    ∷ "4. Attach client-specific tools, connectors, and workflows only after the shell install is healthy."
    ∷ "5. Store client-owned secrets in their password manager and rotate temporary handoff values after onboarding."
    ∷ ""
    ∷ [])
