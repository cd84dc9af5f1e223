-- ===== src/Applier/Regression.antt =====
-- `runRegressionCheck` of packages/openclaw-setup-applier/src/onboarding-cycle.ts.
pub mod Probes
pub mod Cleanup
use openclaw_control_plane.Common.{
  ◌<>◌, bool_eq, ℕ, String, Bool, true, false, ◌&&◌, Option, none, some, List, [], ◌∷◌, ◌==◌,
  nat_eq, option_eq, length, head?, if◌then◌else◌,
}
use openclaw_control_plane.Json.{Json}
use openclaw_control_plane.Effects.Errors.{
  Error, not_one_provider, no_required_secret, no_key_provisioning,
}
use openclaw_control_plane.Effects.Platform.{Env, SetupAuth, Method, Request, Response, Reply}
use openclaw_control_plane.Effects.{M, pure, throw, await, require, try_catch, ◌>>=◌, ◌>>◌, fetch}
use openclaw_control_plane.Railway.{write_railway_variable}
use openclaw_control_plane.Common.Text.{strip_slash}
use openclaw_control_plane.Profile.{
  ClientProfile, ModelProvider, MintKeyRequest, mint_openrouter_key, delete_openrouter_key,
  get_status, is_configured, MintedOpenRouterKey,
}

pub record RegressionCheckOptions : Type 0 where
  pub service : String
  pub instance_base_url : String
  pub setup_username : String
  pub setup_password : String

-- What the result's `error` says of the checks: what they saw, or what they threw.
pub data CheckError : Type 0 where
  check_failed : (status_configured : Bool) (healthz_status : ℕ) → CheckError
  caught : Error → CheckError

-- `statusConfigured`, `healthzStatus` and `error`, as the checks leave them.
pub record Checks : Type 0 where
  pub status_configured : Option Bool
  pub healthz_status : Option ℕ
  pub error : Option CheckError

-- `error` is the checks' message, followed by that of the deletion.
pub record RegressionCheckResult : Type 0 where
  pub passed : Bool
  pub checks : Checks
  pub delete_error : Option Error
  pub minted_key_hash : String
  pub key_deleted : Bool

abbrev pub healthz_request : String → Request
healthz_request base = record {
  method = Method.get;
  url = strip_slash base <> "/setup/healthz";
  authorization = none;
  body = none;
}

-- `passed`, before the deletion.
unfoldable pub checks_passed : Checks → Bool
checks_passed c = c.status_configured == some true && c.healthz_status == some 200

-- What is known once both answers are there.
abbrev pub seen : Bool → ℕ → Checks
seen configured status = record {
  status_configured = some configured;
  healthz_status = some status;
  error = if configured && status == 200 then none else some (check_failed configured status);
}

abbrev pub is_none : Option Error → Bool
is_none none = true
is_none (some e) = false

module _ (env : Env) where
  -- The provider, its secret's name, and the request for a key.
  unfoldable pub regression_request : ClientProfile → M MintKeyRequest
  regression_request profile = do
    provider ←
        require (elim profile.model_providers [ p ∷ [] ↦ some p | _ ↦ none ])
          (not_one_provider (length profile.model_providers))
    name ← require (head? provider.required_secret_names) no_required_secret
    provisioning ← require provider.key_provisioning no_key_provisioning
    pure (record { name = name; provisioning = provisioning })

  unfoldable pub check_health : (base : String) (configured : Bool) → M Checks
  check_health base configured =
      try_catch (fetch env (healthz_request base) >>= λ r. pure (seen configured r.status)) (λ e.
        pure (record {
          status_configured = some configured;
          healthz_status = none;
          error = some (caught e);
        }))

  -- The `try` block. A failure keeps what was found before it.
  unfoldable pub run_checks :
      RegressionCheckOptions → (name : String) → MintedOpenRouterKey → M Checks
  run_checks o name minted =
      try_catch
        (write_railway_variable env name minted.key o.service true
          >> (get_status env o.instance_base_url
                (some (record { username = o.setup_username; password = o.setup_password }))
              >>= λ status. check_health o.instance_base_url (is_configured status)))
        (λ e.
          pure
            (record { status_configured = none; healthz_status = none; error = some (caught e) }))

  -- The `finally` block: the error of the deletion, if it fails.
  unfoldable pub try_delete : (management_key hash : String) → M (Option Error)
  try_delete management_key hash =
      try_catch (delete_openrouter_key env management_key hash >> pure none) (λ e. pure (some e))

  unfoldable pub run_regression_check :
      (parse : Json → Reply ClientProfile) (management_key : String) (candidate : Json)
      → RegressionCheckOptions
      → M RegressionCheckResult
  run_regression_check parse management_key candidate o = do
    profile ← await (parse candidate)
    request ← regression_request profile
    minted ← mint_openrouter_key env management_key request
    checks ← run_checks o request.name minted
    delete_error ← try_delete management_key minted.hash
    let deleted = is_none delete_error
    pure (record {
      passed = deleted && checks_passed checks;
      checks = checks;
      delete_error = delete_error;
      minted_key_hash = minted.hash;
      key_deleted = deleted;
    })
