-- ===== src/Webhook/Forward.antt =====
-- `resolveAgentHookUrl` and `forwardToAgentHook`: the request that hands a delivery to the agent.
pub mod Blind
use openclaw_control_plane.Common.{
  String, ◌<>◌, Bool, true, false, Option, none, some, List, [], ◌∷◌, ◌==◌, string_eq, leb, ◌&&◌,
  get_or, if◌then◌else◌, ℕ,
}
use openclaw_control_plane.Common.Text.{is_blank}
use openclaw_control_plane.Json.{Json, num, str, obj, Fields, end, field, get, put}
use openclaw_control_plane.Effects.Platform.{Reply, ok, rejected}
use openclaw_control_plane.Webhook.Host.{Host}
use openclaw_control_plane.Webhook.Delivery.{
  actor_login_for, resource_number_for, repo_full_name, dig,
}

-- `forward` of the handler's options
pub record ForwardOptions : Type 0 where
  pub hook_url : Option String
  pub hook_token : Option String

pub record HookRequest : Type 0 where
  pub url : String
  pub authorization : Option String
  pub body : Json

-- `value || fallback`
or_default : Option String → String → String
or_default none fallback = fallback
or_default (some value) fallback = if value == "" then fallback else value

default_hook_url : Host → String
unfolding or_default
default_hook_url host =
    "http://"
    <> or_default (host.env "INTERNAL_GATEWAY_HOST") "127.0.0.1"
    <> ":"
    <> or_default (host.env "INTERNAL_GATEWAY_PORT") "18789"
    <> "/hooks/agent"

explicit_or_default : Host → Option String → String
unfolding is_blank default_hook_url
explicit_or_default host none = default_hook_url host
explicit_or_default host (some url) = if is_blank url then default_hook_url host else url

-- `resolveAgentHookUrl`
unfoldable pub resolve_agent_hook_url : Host → String
unfolding explicit_or_default
resolve_agent_hook_url host = explicit_or_default host (host.env "OPENCLAW_AGENT_HOOK_URL")

token_or_env : Host → Option String → Option String
token_or_env host (some token) = some token
token_or_env host none = host.env "OPENCLAW_AGENT_HOOK_TOKEN"

bearer : Option String → Option String
bearer none = none
bearer (some token) = if token == "" then none else some ("Bearer " <> token)

-- A field that `JSON.stringify` drops where its value is `undefined`
field? : String → Option Json → Fields → Fields
field? key none rest = rest
field? key (some v) rest = field key v rest

-- `typeof resource === "number"`, as it is written
number_value : Option String → Option Json
number_value none = none
number_value (some n) = some (num n)

-- `trigger`
trigger : String → Option Json → Fields
unfolding field? number_value resource_number_for actor_login_for
trigger event payload = field "event" (str event) (
    field? "repo" (repo_full_name payload) (
      field? "resource" (number_value (resource_number_for event payload)) (
        field? "actor" (actor_login_for event payload)
          (field? "deliveryId" (dig ("deliveryId" ∷ []) payload) end))))

hook_body : String → String → Option Json → Json
unfolding trigger field?
hook_body dispatch_key event payload = obj (
    field "sessionKey" (str dispatch_key) (
      field? "idempotencyKey" (dig ("deliveryId" ∷ []) payload)
        (field "trigger" (obj (trigger event payload)) end)))

-- The request of `forwardToAgentHook`
unfoldable pub agent_hook_request :
    Host → ForwardOptions → String → String → Option Json → HookRequest
unfolding resolve_agent_hook_url token_or_env bearer hook_body
agent_hook_request host options dispatch_key event payload = record {
  url = get_or options.hook_url (resolve_agent_hook_url host);
  authorization = bearer (token_or_env host options.hook_token);
  body = hook_body dispatch_key event payload;
}

-- What `forwardToAgentHook` makes of the answer: it does not throw.
unfoldable pub is_forwarded : Reply ℕ → Bool
is_forwarded (rejected message) = false
is_forwarded (ok status) = leb 200 status && leb status 299

remove : String → Fields → Fields
remove key end = end
remove key (field k v fs) = if k == key then remove key fs else field k v (remove key fs)

set_delivery_id : Option String → Fields → Fields
unfolding remove put
set_delivery_id none fs = remove "deliveryId" fs
set_delivery_id (some id) fs = put "deliveryId" (str id) fs

-- `{ ...parsedPayload, deliveryId }`: the header wins, also where it is absent.
unfoldable pub with_delivery_id : Option String → Option Json → Option Json
unfolding set_delivery_id
with_delivery_id id (some (obj fs)) = some (obj (set_delivery_id id fs))
with_delivery_id id payload = some (obj (set_delivery_id id end))
