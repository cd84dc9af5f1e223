-- ===== src/Applier.antt =====
-- `applyProfile` of packages/openclaw-setup-applier/src/apply-profile.ts, and the regression check
-- of onboarding-cycle.ts.
pub mod Apply
pub mod Health
pub mod Preparation
pub mod Failed
pub mod Provider
pub mod Regression
use openclaw_control_plane.Common.{
  ℕ, zero, suc, ◌+◌, ◌*◌, String, ◌<>◌, Bool, true, false, ◌&&◌, ◌||◌, not, Option, none, some,
  List, [], ◌∷◌, map, ◌==◌, string_eq, nat_eq, option_eq, ◌⊎◌, inl, inr, length, head?,
  if◌then◌else◌, get_or, ltb,
}
use openclaw_control_plane.Common.Text.{strip_slash}
use openclaw_control_plane.Json.{Json, str, obj, Fields, end, field, put}
use openclaw_control_plane.Effects.Errors.{
  Error, out_of_fuel, several_providers, not_one_provider, no_required_secret, no_key_provisioning,
  secret_not_found, not_healthy_yet, not_configured,
}
use openclaw_control_plane.Effects.Platform.{
  Env, SetupAuth, Method, Request, Response, is_ok, Reply,
}
use openclaw_control_plane.Effects.{
  M, pure, throw, await, require, try_catch, ◌>>=◌, ◌>>◌, fetch, now, sleep,
}
use openclaw_control_plane.Railway.{lookup_variable, list_railway_variables, write_railway_variable}
use openclaw_control_plane.Profile.{
  ClientProfile, ModelProvider, KeyProvisioning, ChannelPayloadField, telegram_token, discord_token,
  slack_bot_token, slack_app_token, ChannelFieldMapping, map_channels_to_payload_fields, checked,
  mint_openrouter_key, delete_openrouter_key, get_status, run_setup, is_configured,
  MintedOpenRouterKey,
}

pub record ApplyOptions : Type 0 where
  pub service : String
  pub instance_base_url : String
  pub healthcheck_poll_seconds : Option ℕ
  pub healthcheck_timeout_seconds : Option ℕ

pub data ApplyOutcome : Type 0 where
  already_configured applied : ApplyOutcome

pub record ApplyResult : Type 0 where
  pub outcome : ApplyOutcome
  pub minted_key_hash : Option String

-- What `resolveProviderSecret` returns.
pub record Resolution : Type 0 where
  pub value : String
  pub triggered_redeploy : Bool
  pub minted_key_hash : Option String

abbrev pub field_name : ChannelPayloadField → String
field_name telegram_token = "telegramToken"
field_name discord_token = "discordToken"
field_name slack_bot_token = "slackBotToken"
field_name slack_app_token = "slackAppToken"

abbrev pub health_url : String → String
health_url base = strip_slash base <> "/setup/healthz"

abbrev pub health_request : String → Request
health_request base = record {
  method = Method.get;
  url = health_url base;
  authorization = none;
  body = none;
}

-- The fields of the payload that the provider fills.
abbrev pub provider_fields : ModelProvider → (secret : String) → Fields
provider_fields p secret = field "authChoice" (str p.auth_choice) (
    field "flow" (str p.flow) (
      field "authSecret" (str secret) (elim p.custom_provider_api_key_env [
        | none ↦ end
        | some name ↦ field "customProviderApiKeyEnv" (str name) end
      ])))

abbrev pub channel_payload : List (ChannelPayloadField × String) → Fields → Fields
channel_payload [] fs = fs
channel_payload ((f, value) ∷ rest) fs = channel_payload rest (put (field_name f) (str value) fs)

module _ (env : Env) where
  -- The loop of `waitForHealthy`.
  unfoldable pub healthy_loop :
      ℕ → (base : String) (poll_ms timeout_seconds deadline : ℕ) → M (Unit {0})
  healthy_loop zero base poll_ms timeout_seconds deadline = throw out_of_fuel
  healthy_loop (suc fuel) base poll_ms timeout_seconds deadline = do
    response ← fetch env (health_request base)
    let again = healthy_loop fuel base poll_ms timeout_seconds deadline
    if is_ok response then pure tt else do
      time ← now env
      if ltb time deadline
          then (sleep poll_ms >> again)
          else throw (not_healthy_yet (health_url base) timeout_seconds response.status)

  -- One round for each millisecond of the timeout, one for the first look, and one for the last.
  unfoldable pub wait_for_healthy :
      (base : String) (poll_seconds timeout_seconds : Option ℕ) → M (Unit {0})
  wait_for_healthy base poll_seconds timeout_seconds = do
    start ← now env
    let timeout = get_or timeout_seconds 60
    healthy_loop (suc (suc (timeout * 1000))) base (get_or poll_seconds 2 * 1000) timeout
        (start + timeout * 1000)

  -- The end of `resolveProviderSecret`: a new key, written to the service.
  unfoldable pub mint_secret :
      (management_key : String) → ModelProvider → (name service : String) → M Resolution
  mint_secret management_key p name service = do
    provisioning ← require p.key_provisioning (secret_not_found name service)
    minted ←
        mint_openrouter_key env management_key (record { name = name; provisioning = provisioning })
    let redeploys = not (p.custom_provider_api_key_env == none)
    write_railway_variable env name minted.key service (not redeploys)
    pure (record {
      value = minted.key;
      triggered_redeploy = redeploys;
      minted_key_hash = some minted.hash;
    })

  unfoldable pub resolve_provider_secret :
      (management_key : String)
      → ModelProvider
      → List (String × String)
      → (service : String) → M Resolution
  resolve_provider_secret management_key p variables service = do
    name ← require (head? p.required_secret_names) no_required_secret
    elim (lookup_variable name variables) [
      | some existing ↦
          pure (record { value = existing; triggered_redeploy = false; minted_key_hash = none })
      | none ↦ mint_secret management_key p name service
    ]

  -- The values of the channel fields.
  unfoldable pub resolve_channels :
      (service : String)
      → List (String × String)
      → List ChannelFieldMapping
      → M (List (ChannelPayloadField × String))
  resolve_channels service variables [] = pure []
  resolve_channels service variables (m ∷ ms) = do
    value ←
        require (lookup_variable m.secret_name variables) (secret_not_found m.secret_name service)
    rest ← resolve_channels service variables ms
    pure ((m.target, value) ∷ rest)

  -- The provider's part of the payload, whether a redeploy was triggered, and the hash of a key
  -- that was minted.
  unfoldable pub resolve_provider :
      (management_key : String)
      → Option ModelProvider
      → List (String × String)
      → (service : String) → M (Fields × Bool × Option String)
  resolve_provider management_key none variables service = pure (end, false, none)
  resolve_provider management_key (some p) variables service = do
    r ← resolve_provider_secret management_key p variables service
    pure (provider_fields p r.value, r.triggered_redeploy, r.minted_key_hash)

  -- At most one provider is supported.
  unfoldable pub sole_provider : List ModelProvider → M (Option ModelProvider)
  sole_provider [] = pure none
  sole_provider (p ∷ []) = pure (some p)
  sole_provider (p ∷ q ∷ rest) = throw (several_providers (length (p ∷ q ∷ rest)))

  -- The part of `applyProfile` from the payload on.
  unfoldable pub run_and_confirm :
      (base : String) → Option SetupAuth → (payload : Json) → M (Unit {0})
  run_and_confirm base auth payload = do
    answer ← run_setup env base auth payload
    status ← get_status env base auth
    if is_configured status then pure tt else throw not_configured

  -- The part that an unconfigured instance gets.
  unfoldable pub configure :
      (setup_base : String)
      → Option SetupAuth
      → (management_key : String) → ClientProfile
      → ApplyOptions
      → M ApplyResult
  configure setup_base auth management_key profile o = do
    variables ← list_railway_variables env o.service
    provider ← sole_provider profile.model_providers
    (fields, redeployed, hash) ← resolve_provider management_key provider variables o.service
    mappings ← checked env (map_channels_to_payload_fields profile.channels)
    values ← resolve_channels o.service variables mappings
    (if redeployed
        then wait_for_healthy o.instance_base_url o.healthcheck_poll_seconds
            o.healthcheck_timeout_seconds
        else pure tt)
    run_and_confirm setup_base auth (obj (channel_payload values fields))
    pure (record { outcome = applied; minted_key_hash = hash })

  -- `setup_base` and `auth` are those of the setup API client; `parse` is `parseClientProfile`.
  unfoldable pub apply_profile :
      (parse : Json → Reply ClientProfile) (setup_base : String)
      → Option SetupAuth
      → (management_key : String) (candidate : Json) → ApplyOptions
      → M ApplyResult
  apply_profile parse setup_base auth management_key candidate o = do
    profile ← await (parse candidate)
    status ← get_status env setup_base auth
    if is_configured status
        then pure (record { outcome = already_configured; minted_key_hash = none })
        else configure setup_base auth management_key profile o
