-- ===== src/Tests/Applier.antt =====
-- The setup applier on a simulated instance.
use openclaw_control_plane.Common.{
  Bool, true, false, ◌||◌, none, some, List, [], ◌∷◌, ◌≡◌, refl, ◌⊎◌, inr, ◌==◌, string_eq,
  option_eq, nat_eq, bool_eq, if◌then◌else◌,
}
use openclaw_control_plane.Common.Text.{strip_slash}
use openclaw_control_plane.Json
use openclaw_control_plane.Json.{Json, null, bool, num, str, obj, end, field, put}
use openclaw_control_plane.Effects.{done, threw, final}
use openclaw_control_plane.Effects.Errors.{secret_not_found, not_one_provider}
use openclaw_control_plane.Effects.Platform.{Env, Event, fetched, Trace, Reply, ok, Method, post}
use openclaw_control_plane.Profile.{
  ClientProfile, ModelProvider, Channel, ChannelFieldMapping, telegram_token, slack_bot_token,
  slack_app_token, channel_secret_count, channel_fields, map_channel, map_channels,
  map_channels_to_payload_fields, channel_names, is_configured, minted_of, mint_openrouter_key,
  delete_openrouter_key, setup_answer, get_status, run_setup, checked, MintKeyRequest, mint_request,
}
use openclaw_control_plane.Profile.Channels.{
  secrets_of, AreDistinct, map_channels_to_payload_fields-AreDistinct,
}
use openclaw_control_plane.Applier.{
  ApplyOptions, ApplyResult, applied, healthy_loop, wait_for_healthy, mint_secret,
  resolve_provider_secret, resolve_channels, resolve_provider, sole_provider, run_and_confirm,
  configure, apply_profile,
}
use openclaw_control_plane.Applier.Apply.{apply_profile-Failed}
use openclaw_control_plane.Applier.Failed.{Failed}
use openclaw_control_plane.Applier.Regression.{
  RegressionCheckOptions, RegressionCheckResult, checks_passed, regression_request, check_health,
  run_checks, try_delete, run_regression_check,
}
use openclaw_control_plane.Applier.Regression.Cleanup.{
  IsCleanedUp, run_regression_check-IsCleanedUp, run_regression_check_throws,
}
use openclaw_control_plane.Instance.{member}
use openclaw_control_plane.Tests.Client.{client}
use openclaw_control_plane.Tests.Fake.{fake}

-- Opening this opens the applier.
applier : Unit {0}
unfolding client bool_eq strip_slash Json.get put member channel_secret_count channel_fields
    map_channel map_channels map_channels_to_payload_fields is_configured minted_of
    mint_openrouter_key delete_openrouter_key setup_answer get_status run_setup checked healthy_loop
    wait_for_healthy mint_secret resolve_provider_secret resolve_channels resolve_provider
    sole_provider run_and_confirm configure apply_profile checks_passed regression_request
    check_health run_checks try_delete run_regression_check
applier = tt

abbrev is_post : Method → Bool
is_post post = true
is_post _ = false

abbrev is_setup : Event → Bool
is_setup (fetched r) =
    if is_post r.method then r.url == "https://c.example/setup/api/run" else false
is_setup _ = false

-- Was the setup run?
abbrev was_set_up : Trace → Bool
was_set_up [] = false
was_set_up (e ∷ t) = is_setup e || was_set_up t

abbrev answer : Bool → Json
answer configured = obj (
    field "configured" (bool configured)
      (field "key" (str "sk") (field "data" (obj (field "hash" (str "h") end)) end)))

-- An instance that is configured once the setup was run, or from the start.
abbrev instance_of : Bool → Env
instance_of configured = record (fake "OTHER" "token" 200) {
  fetch = λ t r. ok (record { status = 200; body = some (answer (configured || was_set_up t)) });
}

abbrev provider : ModelProvider
provider = record {
  auth_choice = "openrouter";
  flow = "quickstart";
  key_provisioning = some (record { spend_limit_usd = "5"; limit_reset = "monthly" });
  custom_provider_api_key_env = some "MODEL_KEY";
  required_secret_names = "MODEL_KEY" ∷ [];
}

abbrev profile : ClientProfile
profile = record { model_providers = provider ∷ []; channels = [] }

abbrev options : ApplyOptions
options = record {
  service = "client";
  instance_base_url = "https://c.example/";
  healthcheck_poll_seconds = none;
  healthcheck_timeout_seconds = none;
}

abbrev parse : Json → Reply ClientProfile
parse candidate = ok profile

abbrev applied_trace : Trace
applied_trace =
    final (apply_profile (instance_of false) parse "https://c.example" none "mk" null options [])

abbrev minted_result : ApplyResult
minted_result = record { outcome = applied; minted_key_hash = some "h" }

-- A key is minted before the secrets of the channels are looked up: where one is missing, the run
-- fails and the hash of the new key is lost.
abbrev chatty : ClientProfile
chatty = record profile {
  channels = record { kind = "telegram"; required_secret_names = "TELEGRAM_TOKEN" ∷ [] } ∷ [];
}

lost_key :
    apply_profile (instance_of false) (λ c. ok chatty) "https://c.example" none "mk" null options []
    ≡ threw (secret_not_found "TELEGRAM_TOKEN" "client") (
        final (
          apply_profile
            (instance_of false)
            (λ c. ok chatty)
            "https://c.example"
            none
            "mk"
            null
            options
            []))
unfolding applier
lost_key = refl

apply_profile-Failed_example :
    Failed (instance_of false) "https://c.example" none "mk" "client" [] (
      final (
        apply_profile
          (instance_of false)
          (λ c. ok chatty)
          "https://c.example"
          none
          "mk"
          null
          options
          []))
apply_profile-Failed_example =
    apply_profile-Failed (instance_of false) (λ c. ok chatty) "https://c.example" none "mk" null
      options [] _ (secret_not_found "TELEGRAM_TOKEN" "client") lost_key

abbrev check_options : RegressionCheckOptions
check_options = record {
  service = "client";
  instance_base_url = "https://c.example";
  setup_username = "u";
  setup_password = "p";
}

abbrev passed_result : RegressionCheckResult
passed_result = record {
  passed = true;
  checks = record { status_configured = some true; healthz_status = some 200; error = none };
  delete_error = none;
  minted_key_hash = "h";
  key_deleted = true;
}

abbrev checked_trace : Trace
checked_trace = final (run_regression_check (instance_of true) parse "mk" null check_options [])

regression_runs :
    run_regression_check (instance_of true) parse "mk" null check_options []
    ≡ done passed_result checked_trace
unfolding applier
regression_runs = refl

run_regression_check-IsCleanedUp_example :
    IsCleanedUp (instance_of true) "mk" check_options [] passed_result checked_trace
run_regression_check-IsCleanedUp_example =
    run_regression_check-IsCleanedUp (instance_of true) parse "mk" null check_options []
      checked_trace passed_result regression_runs

abbrev parse_none : Json → Reply ClientProfile
parse_none candidate = ok (record { model_providers = []; channels = [] })

regression_refused :
    run_regression_check (instance_of true) parse_none "mk" null check_options []
    ≡ threw (not_one_provider 0) []
unfolding applier
regression_refused = refl

run_regression_check_throws_example :
    (◌≡◌ {A = Trace} [] [])
    ⊎ ((request : MintKeyRequest) × (mint_openrouter_key (instance_of true) "mk" request []
          ≡ threw (not_one_provider 0) [])
        × (◌≡◌ {A = Trace} [] (fetched (mint_request "mk" request) ∷ [])))
run_regression_check_throws_example =
    run_regression_check_throws (instance_of true) parse_none "mk" null check_options [] []
      (not_one_provider 0) regression_refused

abbrev two_channels : List Channel
two_channels =
    record { kind = "slack"; required_secret_names = "BOT" ∷ "APP" ∷ [] }
    ∷ record { kind = "telegram"; required_secret_names = "TG" ∷ [] }
    ∷ []

abbrev two_mapped : List ChannelFieldMapping
two_mapped =
    record { target = slack_bot_token; secret_name = "BOT" }
    ∷ record { target = slack_app_token; secret_name = "APP" }
    ∷ record { target = telegram_token; secret_name = "TG" }
    ∷ []

two_channels_mapped : map_channels_to_payload_fields two_channels ≡ inr two_mapped
unfolding applier
two_channels_mapped = refl

map_channels_to_payload_fields-AreDistinct_example :
    (secrets_of two_mapped ≡ channel_names two_channels) × AreDistinct two_mapped
map_channels_to_payload_fields-AreDistinct_example =
    map_channels_to_payload_fields-AreDistinct two_channels two_mapped two_channels_mapped
