-- ===== src/Provision/Handoff.antt =====
-- The result of a provisioning and its handoff document: `ProvisionClientResult` and
-- `buildProvisionHandoff` of packages/openclaw-railway-installer/src/provision-client.ts.
use openclaw_control_plane.Common.{String, ◌<>◌, Bool, Option, none, some, [], ◌∷◌}
use openclaw_control_plane.EnvFile.{join_lines}
use openclaw_control_plane.Instance.{PatchAllowedOriginsStatus, ApproveOwnDeviceResult}
use openclaw_control_plane.Install.Handoff.{describe_patch_allowed_origins_status}

-- `ProvisionClientResult`, less the two flags for the local files. The status of the approval and
-- the request id are one value.
pub record ProvisionClientResult : Type 0 where
  pub service_id : String
  pub service_name : String
  pub project_id : Option String
  pub template_ref : String
  pub domain : String
  pub setup_url : String
  pub openclaw_url : String
  pub health_url : String
  pub setup_username : String
  pub setup_password : String
  pub gateway_token : String
  pub dashboard_url : String
  pub reused_existing_service : Bool
  pub allowed_origins_status : PatchAllowedOriginsStatus
  pub device_approval : ApproveOwnDeviceResult

abbrev project_line : Option String → String
project_line none = ""
project_line (some id) = "- Project ID: " <> (id <> "\n")

-- `approval` is the description of the approval.
unfoldable pub build_provision_handoff : ProvisionClientResult → (approval : String) → String
build_provision_handoff r approval = join_lines (
    "# OpenClaw Client Provisioning Handoff"
    ∷ ""
    ∷ "This file is local-only and should not be committed."
    ∷ ""
    ∷ "## URLs"
    ∷ ""
    ∷ ("- Setup: " <> r.setup_url)
    ∷ ("- OpenClaw UI: " <> r.openclaw_url)
    ∷ ("- Healthcheck: " <> r.health_url)
    ∷ ""
    ∷ "## Client Handoff Link"
    ∷ ""
    ∷ "Hand the client this single link. It fully authenticates the dashboard's"
    ∷ "gateway connection on first open -- no manual token entry, no separate"
    ∷ "\"Connect\" step. (Confirmed live: OpenClaw's Control UI reads a `#token=`"
    ∷ "URL fragment on load and auto-connects.) Not independently confirmed yet"
    ∷ "whether a genuinely new browser/device still hits a one-time pairing"
    ∷ "approval on top of this -- see `openclaw devices approve <requestId>` in"
    ∷ "the wrapper's own pairing-required panel if so."
    ∷ ""
    ∷ ("- " <> r.dashboard_url)
    ∷ ""
    ∷ "## Railway"
    ∷ ""
    ∷ ("- Service: " <> r.service_name)
    ∷ ("- Service ID: " <> r.service_id)
    ∷ ((project_line r.project_id) <> ("- Template ref: " <> r.template_ref))
    ∷ ("- Domain: " <> r.domain)
    ∷ ""
    ∷ "## Setup Auth"
    ∷ ""
    ∷ ("- Username: " <> r.setup_username)
    ∷ ("- Password: " <> r.setup_password)
    ∷ ""
    ∷ "## Post-Deploy Automation"
    ∷ ""
    ∷ ("- Patched allowedOrigins: "
        <> (describe_patch_allowed_origins_status r.allowed_origins_status))
    ∷ ("- Approved device pairing request: " <> approval)
    ∷ ""
    ∷ "## Updating the wrapper version later"
    ∷ ""
    ∷ "Run the update-ref path with this service name, the new ref, and the ref it"
    ∷ "is replacing — it only touches this one service, never any other client or"
    ∷ "control-plane's main."
    ∷ ""
    ∷ "The expected-current-ref argument is required: the update reads the live"
    ∷ "value first and refuses if it is not what you said, so a client cannot be"
    ∷ "redeployed by someone working from a stale assumption. Read the service's"
    ∷ "current OPENCLAW_TEMPLATE_REF before bumping it rather than assuming the ref"
    ∷ "recorded here -- on a rerun that reused an existing service, the live value"
    ∷ "can differ from this document's, and a stale expectation is refused by"
    ∷ "design."
    ∷ ""
    ∷ "The application ref (OPENCLAW_GIT_REF) is a separate pin and is not set as a"
    ∷ "service variable at provisioning time — it exists only as a build-time"
    ∷ "default until its first bump. For that first bump only, pass '<unset>' as"
    ∷ "the expected current ref. See deploy/openclaw-railway/README.md for both"
    ∷ "commands and for the recovery path if an update fails after writing."
    ∷ ""
    ∷ "## Next Steps"
    ∷ ""
    ∷ "1. Open the setup URL."
    ∷ "2. Use any username or the username above with the setup password."
    ∷ "3. Complete model provider and channel configuration in the setup wizard."
    ∷ "4. Store client-owned secrets in their password manager and rotate"
    ∷ "   temporary handoff values after onboarding."
    ∷ ""
    ∷ [])
