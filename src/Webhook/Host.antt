-- ===== src/Webhook/Host.antt =====
-- What the webhook route of scripts/wrapper-github-webhook-verify.mjs is given: the process
-- environment, the built-in functions that it calls, and the errors of its configuration.
use openclaw_control_plane.Common.{
  ℕ, String, Bool, false, not, Option, none, some, List, ◌==◌, string_eq, ◌&&◌,
}
use openclaw_control_plane.Common.Text.{is_blank, trim}
use openclaw_control_plane.Json.{Json, str, arr, items}
use openclaw_control_plane.Effects.Platform.{Reply}

pub record Host : Type 0 where
  -- `process.env[name]`
  pub env : String → Option String
  pub parse_json : String → Reply Json
  -- `Number(s)`, where it is an integer that is not negative
  pub integer : String → Option ℕ
  -- `createHmac("sha256", secret).update(body).digest("hex")`
  pub hmac_hex : String → List ℕ → String
  -- `Buffer.from(s, "utf8")` and `buffer.toString("utf8")`
  pub utf8 : String → List ℕ
  pub decode : List ℕ → String
  -- `new RegExp(source)`, which may throw, and its `test`
  pub regexp : String → Option (String → Bool)

-- One constructor for each `throw` of a tagged configuration error.
pub data ConfigError : Type 0 where
  max_bytes_invalid : (raw : String) → ConfigError
  secrets_not_json : (characters : ℕ) → ConfigError
  secrets_not_array : ConfigError
  secret_malformed : ConfigError
  allowlist_not_json : (characters : ℕ) → ConfigError
  allowlist_not_array : ConfigError
  entry_not_object : ConfigError
  repo_malformed : ConfigError
  events_missing : (repo : String) → ConfigError
  event_not_object : (repo : String) → ConfigError
  event_malformed : (repo : String) → ConfigError
  duplicate_event : (repo event : String) → ConfigError
  actions_malformed : (repo event : String) → ConfigError
  mention_missing : (repo : String) → ConfigError
  pattern_invalid : (repo : String) → ConfigError
  duplicate_repo : (repo : String) → ConfigError

pub data Resolved (A : Type 0) : Type 0 where
  resolved : A → Resolved A
  misconfigured : ConfigError → Resolved A

-- `isCleanString`
unfoldable pub is_clean_string : Option Json → Bool
unfolding is_blank trim
is_clean_string (some (str s)) = not (is_blank s) && s == trim s
is_clean_string _ = false

-- A text where the code has checked that there is one.
abbrev pub text_of : Option Json → String
text_of (some (str s)) = s
text_of _ = ""

-- `value === text`
abbrev pub text_is : String → Option Json → Bool
text_is s (some (str t)) = t == s
text_is s _ = false

-- `Array.isArray(value)`, with the elements
abbrev pub array? : Option Json → Option (List Json)
array? (some (arr vs)) = some (items vs)
array? _ = none
