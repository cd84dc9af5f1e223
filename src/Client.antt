-- ===== src/Client.antt =====
-- packages/openclaw-railway-installer/src/provision-client.ts, the updates of a running client:
-- the compare-and-swap of a ref variable, and the rotation of the gateway token.
--
-- An error's text is a constructor of Effects/Errors.antt with what the text interpolates. What
-- both functions write out alike after their write is one action, `redeploy_and_verify`.
pub mod Phases
pub mod Footprint
pub mod Checks
pub mod Update
pub mod Refinement
pub mod Rotate
use openclaw_control_plane.Common.{
  ℕ, String, ◌<>◌, Bool, true, false, ◌&&◌, not, Option, none, some, List, [], ◌∷◌, ◌==◌, string_eq,
  option_eq, if◌then◌else◌, and_then, get_or,
}
use openclaw_control_plane.Effects.Errors.{
  Error, no_setup_password, no_domain, not_answering, expected_but_unset, expected_unset_but,
  stale_expectation, changed_by_another, no_deployment_id, nothing_to_rotate, write_uncertain,
  read_back_failed, read_back_differs, changed_unverified,
}
use openclaw_control_plane.Effects.Platform.{Env, SetupAuth}
use openclaw_control_plane.Effects.{
  M, pure, throw, require, try_catch, ◌>>=◌, ◌>>◌, run, create_secret,
}
use openclaw_control_plane.Railway.{
  list_services, list_domains, read_railway_variable, write_railway_variable, find_template_service,
  deployment_id, select_domain, poll_service_until_success, wait_for_setup_ready,
  default_setup_username,
}

-- `EXPECTED_REF_UNSET`
abbrev pub expected_ref_unset : String
expected_ref_unset = "<unset>"

-- The parameters of `updateClientRefVariable`.
pub record UpdateParams : Type 0 where
  pub service : String
  pub variable_name : String
  pub next_ref : String
  pub expected_current_ref : String
  pub setup_username : Option String
  pub force_redeploy : Bool
  pub poll_seconds : ℕ
  pub timeout_minutes : ℕ

pub record UpdateResult : Type 0 where
  pub changed : Bool
  pub new_deployment_ready : Bool

-- A text that is there and not empty: what passes `if (!text) throw`.
unfoldable pub non_empty : Option String → Option String
non_empty none = none
non_empty (some text) = if text == "" then none else some text

-- `throw`, or go on.
unfoldable pub refuse : Option Error → M (Unit {0})
refuse none = pure tt
refuse (some e) = throw e

-- The first test on the value that was read: is "unset" what the caller expects?
unfoldable pub check_unset : UpdateParams → Option String → Option Error
check_unset p none =
    if p.expected_current_ref == expected_ref_unset
    then none
    else some (expected_but_unset p.variable_name p.service p.expected_current_ref)
check_unset p (some current) =
    if p.expected_current_ref == expected_ref_unset
    then some (expected_unset_but p.variable_name p.service current)
    else none

-- The test of the branch that changes nothing.
unfoldable pub check_no_op : UpdateParams → Option Error
check_no_op p =
    if p.expected_current_ref == p.next_ref
    then none
    else some (stale_expectation p.variable_name p.service p.next_ref p.expected_current_ref)

-- The last test before the write.
unfoldable pub check_expected : UpdateParams → Option String → Option Error
check_expected p none = none
check_expected p (some current) =
    if current == p.expected_current_ref
    then none
    else some (changed_by_another p.variable_name p.service p.expected_current_ref current)

-- `cause instanceof RefVerificationError`
unfoldable pub is_ref_verification_error : Error → Bool
is_ref_verification_error (read_back_failed name service cause) = true
is_ref_verification_error (read_back_differs name service applied) = true
is_ref_verification_error _ = false

abbrev pub redeploy_args : String → List String
redeploy_args service = "redeploy" ∷ "--service" ∷ service ∷ "--yes" ∷ "--json" ∷ []

module _ (env : Env) where
  -- `contextForFailure` wraps the failure of the readiness poll only.
  unfoldable pub assert_instance_ready :
      (service : String) (setup_username : Option String) (poll_seconds timeout_minutes : ℕ)
      (context : Option String)
      → M (Unit {0})
  assert_instance_ready service setup_username poll_seconds timeout_minutes context = do
    let username = get_or setup_username default_setup_username
    value ← read_railway_variable env "SETUP_PASSWORD" service
    setup_password ← require (non_empty value) no_setup_password
    domains ← list_domains env service
    domain ← require (select_domain domains) no_domain
    try_catch
        (wait_for_setup_ready env ("https://" <> (domain.domain <> "/setup/api/status"))
          (record { username = username; password = setup_password }) poll_seconds timeout_minutes)
        (λ cause.
          throw (elim context [ none ↦ cause | some text ↦ not_answering text username cause ]))

  -- The id of the deployment that is there before the write.
  unfoldable pub prior_deployment_id : (name service : String) → M String
  prior_deployment_id name service = do
    services ← list_services env
    require (and_then (find_template_service services service) deployment_id)
        (no_deployment_id name service)

  unfoldable pub write_or_uncertain : (name value service : String) → M (Unit {0})
  write_or_uncertain name value service =
      try_catch (write_railway_variable env name value service true)
        (λ cause. throw (write_uncertain name service cause))

  -- The verification after the redeploy: the variable reads back as what was written.
  unfoldable pub verify_read_back : (name value service : String) → M (Unit {0})
  verify_read_back name value service = do
    applied ←
        try_catch (read_railway_variable env name service)
          (λ cause. throw (read_back_failed name service cause))
    if applied == some value then pure tt else throw (read_back_differs name service applied)

  -- Everything after the write, with what the outer `catch` makes of its failures.
  unfoldable pub redeploy_and_verify :
      (name value service : String) (setup_username : Option String)
      (poll_seconds timeout_minutes : ℕ) (prior : String)
      → M (Unit {0})
  redeploy_and_verify name value service setup_username poll_seconds timeout_minutes prior =
      try_catch
        (do
          stdout ← run env (redeploy_args service) none
          rolled ← poll_service_until_success env service poll_seconds timeout_minutes (some prior)
          assert_instance_ready service setup_username poll_seconds timeout_minutes none
          verify_read_back name value service)
        (λ cause. throw (
          if is_ref_verification_error cause then cause else changed_unverified name service cause))

  -- The half of `updateClientRefVariable` that writes.
  unfoldable pub change_ref : UpdateParams → M UpdateResult
  change_ref p = do
    prior ← prior_deployment_id p.variable_name p.service
    write_or_uncertain p.variable_name p.next_ref p.service
        >> redeploy_and_verify p.variable_name p.next_ref p.service p.setup_username p.poll_seconds
            p.timeout_minutes prior
    pure (record { changed = true; new_deployment_ready = true })

  -- The half that changes nothing.
  unfoldable pub confirm_ref : UpdateParams → M UpdateResult
  confirm_ref p = do
    refuse (check_no_op p)
    assert_instance_ready p.service p.setup_username p.poll_seconds p.timeout_minutes
        (some (p.variable_name <> (" already reads as '" <> (p.next_ref <> "'"))))
    pure (record { changed = false; new_deployment_ready = false })

  unfoldable pub update_client_ref_variable : UpdateParams → M UpdateResult
  update_client_ref_variable p = do
    current ← read_railway_variable env p.variable_name p.service
    refuse (check_unset p current)
    if current == some p.next_ref && not p.force_redeploy
        then confirm_ref p
        else (refuse (check_expected p current) >> change_ref p)

  unfoldable pub rotate_gateway_token :
      (service : String) (setup_username : Option String) (poll_seconds timeout_minutes : Option ℕ)
      → M (Unit {0})
  rotate_gateway_token service setup_username poll_seconds timeout_minutes = do
    current ← read_railway_variable env "OPENCLAW_GATEWAY_TOKEN" service
    value ← require current (nothing_to_rotate service)
    prior ← prior_deployment_id "OPENCLAW_GATEWAY_TOKEN" service
    next ← create_secret env 32 ""
    write_or_uncertain "OPENCLAW_GATEWAY_TOKEN" next service
    redeploy_and_verify "OPENCLAW_GATEWAY_TOKEN" next service setup_username
        (get_or poll_seconds 15) (get_or timeout_minutes 25) prior

  -- `updateClientTemplateRef` and `updateClientOpenClawRef`: the variable, the requested ref, and
  -- the options with their defaults.
  abbrev pub ref_params :
      (variable_name service next_ref expected_current_ref : String)
      (setup_username : Option String) (force_redeploy : Option Bool)
      (poll_seconds timeout_minutes : Option ℕ)
      → UpdateParams
  ref_params variable_name service next_ref expected_current_ref setup_username force_redeploy
        poll_seconds timeout_minutes =
      record {
        service = service;
        variable_name = variable_name;
        next_ref = next_ref;
        expected_current_ref = expected_current_ref;
        setup_username = setup_username;
        force_redeploy = get_or force_redeploy false;
        poll_seconds = get_or poll_seconds 15;
        timeout_minutes = get_or timeout_minutes 25;
      }

  unfoldable pub update_client_template_ref :
      (service template_ref expected_current_ref : String) (setup_username : Option String)
      (force_redeploy : Option Bool) (poll_seconds timeout_minutes : Option ℕ)
      → M UpdateResult
  update_client_template_ref service template_ref expected_current_ref setup_username force_redeploy
        poll_seconds timeout_minutes =
      update_client_ref_variable (
        ref_params "OPENCLAW_TEMPLATE_REF" service template_ref expected_current_ref setup_username
          force_redeploy poll_seconds timeout_minutes)

  unfoldable pub update_client_openclaw_ref :
      (service openclaw_ref expected_current_ref : String) (setup_username : Option String)
      (force_redeploy : Option Bool) (poll_seconds timeout_minutes : Option ℕ)
      → M UpdateResult
  update_client_openclaw_ref service openclaw_ref expected_current_ref setup_username force_redeploy
        poll_seconds timeout_minutes =
      update_client_ref_variable (
        ref_params "OPENCLAW_GIT_REF" service openclaw_ref expected_current_ref setup_username
          force_redeploy poll_seconds timeout_minutes)
