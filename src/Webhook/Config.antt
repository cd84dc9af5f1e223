-- ===== src/Webhook/Config.antt =====
-- The configuration of the webhook route: `resolveGithubWebhookMaxBytes`,
-- `resolveGithubWebhookSecrets` and `resolveSecretsForRequest`.
use openclaw_control_plane.Common.{
  ℕ, ◌*◌, String, Option, none, some, List, [], ◌∷◌, map, ◌==◌, string_eq, nat_eq, any, not,
  if◌then◌else◌,
}
use openclaw_control_plane.Common.Text.{is_blank, utf16_length}
use openclaw_control_plane.Json.{Json}
use openclaw_control_plane.Effects.Platform.{Reply, ok, rejected}
use openclaw_control_plane.Webhook.Host.{
  Host, max_bytes_invalid, secrets_not_json, secrets_not_array, secret_malformed, Resolved,
  resolved, misconfigured, is_clean_string, text_of, array?,
}

abbrev default_max_bytes : ℕ
default_max_bytes = 1024 * 1024

-- The override must be a positive integer.
positive_or_invalid : String → Option ℕ → Resolved ℕ
positive_or_invalid raw none = misconfigured (max_bytes_invalid raw)
positive_or_invalid raw (some n) =
    if n == 0 then misconfigured (max_bytes_invalid raw) else resolved n

override_or_default : Host → Option String → Resolved ℕ
unfolding is_blank positive_or_invalid
override_or_default host none = resolved default_max_bytes
override_or_default host (some raw) =
    if is_blank raw then resolved default_max_bytes else positive_or_invalid raw (host.integer raw)

-- `resolveGithubWebhookMaxBytes`
unfoldable pub resolve_github_webhook_max_bytes : Host → Resolved ℕ
unfolding override_or_default
resolve_github_webhook_max_bytes host =
    override_or_default host (host.env "GITHUB_WEBHOOK_MAX_BODY_BYTES")

-- What the parsed `GITHUB_WEBHOOK_SECRETS` must be.
secrets_of_array : Option (List Json) → Resolved (List String)
unfolding is_clean_string
secrets_of_array none = misconfigured secrets_not_array
secrets_of_array (some entries) =
    if any (λ entry. not (is_clean_string (some entry))) entries
    then misconfigured secret_malformed
    else resolved (map (λ entry. text_of (some entry)) entries)

secrets_of_reply : String → Reply Json → Resolved (List String)
unfolding utf16_length secrets_of_array
secrets_of_reply raw (rejected message) = misconfigured (secrets_not_json (utf16_length raw))
secrets_of_reply raw (ok parsed) = secrets_of_array (array? (some parsed))

-- The single secret that was configured before there could be several.
legacy_secrets : Option String → Resolved (List String)
unfolding is_clean_string
legacy_secrets none = resolved []
legacy_secrets (some legacy) =
    resolved (if is_clean_string (some (Json.str legacy)) then legacy ∷ [] else [])

secrets_or_legacy : Host → Option String → Resolved (List String)
unfolding is_blank secrets_of_reply legacy_secrets
secrets_or_legacy host none = legacy_secrets (host.env "GITHUB_WEBHOOK_SECRET")
secrets_or_legacy host (some raw) =
    if is_blank raw
    then legacy_secrets (host.env "GITHUB_WEBHOOK_SECRET")
    else secrets_of_reply raw (host.parse_json raw)

-- `resolveGithubWebhookSecrets`
unfoldable pub resolve_github_webhook_secrets : Host → Resolved (List String)
unfolding secrets_or_legacy
resolve_github_webhook_secrets host = secrets_or_legacy host (host.env "GITHUB_WEBHOOK_SECRETS")

-- `resolveSecretsForRequest`, with `options.secret`
unfoldable pub resolve_secrets_for_request : Host → Option String → Resolved (List String)
unfolding resolve_github_webhook_secrets
resolve_secrets_for_request host none = resolve_github_webhook_secrets host
resolve_secrets_for_request host (some secret) =
    if secret == "" then resolve_github_webhook_secrets host else resolved (secret ∷ [])
