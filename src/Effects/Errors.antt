-- ===== src/Effects/Errors.antt =====
-- The errors that the code throws, one constructor for each `throw`, with the values that its
-- message interpolates. `cause` chains are the nested errors.
use openclaw_control_plane.Common.{ℕ, String, Option}

pub data Error : Type 0 where
  -- rejections of what the code calls: the CLI runner, `fetch`, the file system, `JSON.parse`
  external : String → Error
  type_error : String → Error
  -- a loop of the model that has used up its rounds
  out_of_fuel : Error
  -- index.ts
  not_healthy : (service status : String) → Error
  not_found_after_deployment : (service : String) → Error
  deployment_failed : (service status : String) → Error
  deploy_timed_out : (service : String) → Error
  domain_not_generated : (service : String) → Error
  setup_not_ready : (url : String) (timeout_minutes : ℕ) (last_status : Option ℕ) → Error
  -- provision-client.ts
  extra_services : (context client : String) (found : ℕ) → Error
  no_new_service : (client : String) → Error
  missing_variable : (service name : String) → Error
  no_setup_password : Error
  no_domain : Error
  not_answering : (context username : String) (cause : Error) → Error
  expected_but_unset : (name service expected : String) → Error
  expected_unset_but : (name service current : String) → Error
  stale_expectation : (name service current expected : String) → Error
  changed_by_another : (name service expected current : String) → Error
  no_deployment_id : (name service : String) → Error
  nothing_to_rotate : (service : String) → Error
  write_uncertain : (name service : String) (cause : Error) → Error
  -- `RefVerificationError`, in its two forms
  read_back_failed : (name service : String) (cause : Error) → Error
  read_back_differs : (name service : String) (applied : Option String) → Error
  changed_unverified : (name service : String) (cause : Error) → Error
  -- patch-allowed-origins.ts and approve-own-device.ts
  http_status : (method path : String) (status : ℕ) → Error
  not_json : (path : String) → Error
  responded_not_ok : (method path : String) → Error
  origins_unparseable : (cause : Error) → Error
  origin_absent : (origin : String) → Error
  several_pending : (found : ℕ) → Error
  empty_request_id : Error
  inconsistent_approval : Error
  -- template-lock.ts, with the message
  lock_invalid : String → Error
  -- openrouter-provisioning.ts and setup-api-client.ts
  openrouter_status : (status : ℕ) → Error
  no_minted_key : Error
  no_minted_hash : Error
  setup_api_status : (method path : String) (status : ℕ) → Error
  -- apply-profile.ts and onboarding-cycle.ts
  unsupported_channel : (kind : String) → Error
  duplicate_channel : (kind : String) → Error
  wrong_secret_count : (kind : String) (expected found : ℕ) → Error
  several_providers : (found : ℕ) → Error
  not_one_provider : (found : ℕ) → Error
  no_required_secret : Error
  no_key_provisioning : Error
  secret_not_found : (name service : String) → Error
  not_healthy_yet : (url : String) (timeout_seconds last_status : ℕ) → Error
  not_configured : Error
