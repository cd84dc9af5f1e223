-- ===== src/Profile.antt =====
-- The client profile that packages/openclaw-setup-applier/src consumes, the API that mints model
-- keys (openrouter-provisioning.ts), the setup API (setup-api-client.ts), and the channel fields
-- and the dry run of apply-profile.ts.
pub mod Channels
use openclaw_control_plane.Common.{
  ℕ, String, ◌<>◌, Bool, true, false, ◌&&◌, ◌||◌, not, Option, none, some, List, [], ◌∷◌, ◌++◌, map,
  ◌==◌, string_eq, nat_eq, contains, ◌⊎◌, inl, inr, length, if◌then◌else◌, and_then, any,
}
use openclaw_control_plane.Common.Text.{strip_slash}
use openclaw_control_plane.Json.{Json, bool, num, str, obj, Fields, end, field, get_of}
use openclaw_control_plane.Effects.Errors.{
  Error, not_json, openrouter_status, no_minted_key, no_minted_hash, setup_api_status,
  unsupported_channel, duplicate_channel, wrong_secret_count,
}
use openclaw_control_plane.Effects.Platform.{
  Env, SetupAuth, Method, Request, Response, is_ok, basic_auth_header, Reply,
}
use openclaw_control_plane.Effects.{M, pure, throw, await, require, ◌>>=◌, ◌>>◌, fetch}
use openclaw_control_plane.Railway.{list_railway_variables}
use openclaw_control_plane.Client.{non_empty}
use openclaw_control_plane.Instance.{member}

-- A number of the profile is the text that is printed for it.
pub record KeyProvisioning : Type 0 where
  pub spend_limit_usd : String
  pub limit_reset : String

pub record ModelProvider : Type 0 where
  pub auth_choice : String
  pub flow : String
  pub key_provisioning : Option KeyProvisioning
  pub custom_provider_api_key_env : Option String
  pub required_secret_names : List String

pub record Channel : Type 0 where
  pub kind : String
  pub required_secret_names : List String

-- The consumed part of a parsed profile.
pub record ClientProfile : Type 0 where
  pub model_providers : List ModelProvider
  pub channels : List Channel

pub data ChannelPayloadField : Type 0 where
  telegram_token discord_token slack_bot_token slack_app_token : ChannelPayloadField

pub record ChannelFieldMapping : Type 0 where
  pub target : ChannelPayloadField
  pub secret_name : String

-- `CHANNEL_SECRET_COUNTS.get(type)`
unfoldable pub channel_secret_count : String → Option ℕ
channel_secret_count kind =
    if kind == "telegram"
    then some 1
    else if kind == "discord"
    then some 1
    else if kind == "slack"
    then some 2
    else none

-- The mappings of a channel with as many secret names as its type has fields.
unfoldable pub channel_fields : String → List String → List ChannelFieldMapping
channel_fields kind (bot ∷ app ∷ []) =
    if kind == "slack"
    then record { target = slack_bot_token; secret_name = bot }
      ∷ record { target = slack_app_token; secret_name = app }
      ∷ []
    else []
channel_fields kind (name ∷ []) =
    record {
      target = if kind == "telegram" then telegram_token else discord_token;
      secret_name = name;
    }
    ∷ []
channel_fields kind _ = []

-- One channel, after the types that were seen.
unfoldable pub map_channel : List String → Channel → Error ⊎ List ChannelFieldMapping
map_channel seen c = elim (channel_secret_count c.kind) [
  | none ↦ inl (unsupported_channel c.kind)
  | some expected ↦
      if contains seen c.kind
      then inl (duplicate_channel c.kind)
      else if length c.required_secret_names == expected
      then inr (channel_fields c.kind c.required_secret_names)
      else inl (wrong_secret_count c.kind expected (length c.required_secret_names))
]

abbrev pub append_checked :
    Error ⊎ List ChannelFieldMapping
    → Error ⊎ List ChannelFieldMapping
    → Error ⊎ List ChannelFieldMapping
append_checked (inl e) rest = inl e
append_checked (inr ms) (inl e) = inl e
append_checked (inr ms) (inr ns) = inr (ms ++ ns)

-- The loop of `mapChannelsToPayloadFields`.
unfoldable pub map_channels : List String → List Channel → Error ⊎ List ChannelFieldMapping
map_channels seen [] = inr []
map_channels seen (c ∷ cs) = append_checked (map_channel seen c) (map_channels (c.kind ∷ seen) cs)

unfoldable pub map_channels_to_payload_fields : List Channel → Error ⊎ List ChannelFieldMapping
map_channels_to_payload_fields channels = map_channels [] channels

-- `names.add(name)` for each name
abbrev pub add_names : List String → List String → List String
add_names seen [] = seen
add_names seen (name ∷ names) =
    let added = if contains seen name then seen else seen ++ (name ∷ []) in add_names added names

abbrev pub provider_names : List ModelProvider → List String
provider_names [] = []
provider_names (p ∷ ps) = p.required_secret_names ++ provider_names ps

abbrev pub channel_names : List Channel → List String
channel_names [] = []
channel_names (c ∷ cs) = c.required_secret_names ++ channel_names cs

unfoldable pub collect_required_secret_names : ClientProfile → List String
collect_required_secret_names p =
    add_names (add_names [] (provider_names p.model_providers)) (channel_names p.channels)

pub record DryRunSecretStatus : Type 0 where
  pub name : String
  pub present : Bool

-- `providers` has the choice and the flow of each provider; every secret is redacted.
pub record DryRunResult : Type 0 where
  pub required_secrets : List DryRunSecretStatus
  pub providers : List (String × String)
  pub channels : List ChannelPayloadField

pub record MintKeyRequest : Type 0 where
  pub name : String
  pub provisioning : KeyProvisioning

pub record MintedOpenRouterKey : Type 0 where
  pub key : String
  pub hash : String

abbrev pub openrouter_keys_url : String
openrouter_keys_url = "https://openrouter.ai/api/v1/keys"

abbrev pub text_of : Option Json → Option String
text_of (some (str s)) = non_empty (some s)
text_of _ = none

-- `isConfigured`
unfoldable pub is_configured : Json → Bool
is_configured status = elim (get_of "configured" status) [ some (bool true) ↦ true | _ ↦ false ]

-- The request that mints a key.
abbrev pub mint_request : (management_key : String) → MintKeyRequest → Request
mint_request management_key r = record {
  method = Method.post;
  url = openrouter_keys_url;
  authorization = some ("Bearer " <> management_key);
  body = some (
      obj (
        field "name" (str r.name) (
          field "limit" (num r.provisioning.spend_limit_usd)
            (field "limit_reset" (str r.provisioning.limit_reset) end))));
}

abbrev pub delete_request : (management_key hash : String) → Request
delete_request management_key hash = record {
  method = Method.delete;
  url = openrouter_keys_url <> ("/" <> hash);
  authorization = some ("Bearer " <> management_key);
  body = none;
}

module _ (env : Env) where
  -- What the answer to a mint request holds.
  unfoldable pub minted_of : Response → M MintedOpenRouterKey
  minted_of response =
      if is_ok response
      then (require response.body (not_json openrouter_keys_url) >>= λ body.
          member env "key" body >>= λ key. require (text_of key) no_minted_key >>= λ secret.
          require (text_of (and_then (get_of "data" body) (get_of "hash"))) no_minted_hash
          >>= λ hash. pure (record { key = secret; hash = hash }))
      else throw (openrouter_status response.status)

  unfoldable pub mint_openrouter_key :
      (management_key : String) → MintKeyRequest → M MintedOpenRouterKey
  mint_openrouter_key management_key r = do
    response ← fetch env (mint_request management_key r)
    minted_of response

  unfoldable pub delete_openrouter_key : (management_key hash : String) → M (Unit {0})
  delete_openrouter_key management_key hash = do
    response ← fetch env (delete_request management_key hash)
    if is_ok response then pure tt else throw (openrouter_status response.status)

  -- A request of the setup API, with the credentials of the client that was created.
  abbrev pub setup_request :
      (base : String) → Option SetupAuth → Method → (path : String) → Option Json → Request
  setup_request base auth method path body = record {
    method = method;
    url = strip_slash base <> path;
    authorization = elim auth [ none ↦ none | some a ↦ some (basic_auth_header env a) ];
    body = body;
  }

  unfoldable pub setup_answer : (method path : String) → Response → M Json
  setup_answer method path response =
      if is_ok response
      then require response.body (not_json path)
      else throw (setup_api_status method path response.status)

  unfoldable pub get_status : (base : String) → Option SetupAuth → M Json
  get_status base auth = do
    response ← fetch env (setup_request base auth Method.get "/setup/api/status" none)
    setup_answer "GET" "/setup/api/status" response

  unfoldable pub run_setup : (base : String) → Option SetupAuth → (payload : Json) → M Json
  run_setup base auth payload = do
    response ← fetch env (setup_request base auth Method.post "/setup/api/run" (some payload))
    setup_answer "POST" "/setup/api/run" response

  -- `throw` on an error of the mapping
  unfoldable pub checked : Error ⊎ List ChannelFieldMapping → M (List ChannelFieldMapping)
  checked (inl e) = throw e
  checked (inr ms) = pure ms

  -- `parse` is `parseClientProfile`, which a validation library decides.
  unfoldable pub dry_run_apply_profile :
      (parse : Json → Reply ClientProfile) (candidate : Json) (service : String) → M DryRunResult
  dry_run_apply_profile parse candidate service = do
    profile ← await (parse candidate)
    variables ← list_railway_variables env service
    mappings ← checked (map_channels_to_payload_fields profile.channels)
    pure (record {
      required_secrets =
          map (λ name. record { name = name; present = any (λ v. v.0 == name) variables })
            (collect_required_secret_names profile);
      providers = map (λ p. (p.auth_choice, p.flow)) profile.model_providers;
      channels = map (λ m. m.target) mappings;
    })
