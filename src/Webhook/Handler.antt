-- ===== src/Webhook/Handler.antt =====
-- `planDispatch` and `handleGithubWebhookVerify`. The handler runs without a break from the end of
-- the body to its answer (`respond`), then waits for the agent, and then releases the key of a
-- delivery that did not reach it (`release`).
pub mod Responses
pub mod Stages
pub mod Redelivery
use openclaw_control_plane.Common.{
  ℕ, String, Bool, true, false, not, Option, none, some, List, [], ◌∷◌, ◌==◌, string_eq, contains,
  filter, and_then, if◌then◌else◌, bool_eq,
}
use openclaw_control_plane.Json.{Json, obj, str, Fields, end, field, get_of, get}
use openclaw_control_plane.Effects.Platform.{Reply, ok, rejected}
use openclaw_control_plane.Webhook.Host.{Host, Resolved, resolved, misconfigured}
use openclaw_control_plane.Webhook.Config.{
  resolve_github_webhook_max_bytes, resolve_secrets_for_request,
}
use openclaw_control_plane.Webhook.Delivery.{
  actor_login_for, compute_dedup_key, repo_full_name, dig,
}
use openclaw_control_plane.Webhook.Signature.{verify_any_github_signature}
use openclaw_control_plane.Webhook.Body.{
  StreamEvent, ReadResult, body, too_large, read_timeout, already_ended, read_error,
  max_bytes_error, read_raw_body,
}
use openclaw_control_plane.Webhook.Allowlist.{
  resolve_dispatch_allowlist, Asked, matches_dispatch_allowlist,
}
use openclaw_control_plane.Webhook.Forward.{
  ForwardOptions, HookRequest, agent_hook_request, is_forwarded, with_delivery_id,
}

pub data Dispatch : Type 0 where
  not_enrolled duplicate config_error no_match : Dispatch
  forwarded : (dispatch_key : String) → Dispatch

-- The name that is logged
abbrev pub dispatch_name : Dispatch → String
dispatch_name not_enrolled = "not-enrolled"
dispatch_name duplicate = "duplicate"
dispatch_name config_error = "config-error"
dispatch_name no_match = "no-match"
dispatch_name (forwarded key) = "forwarded"

-- `dedupStore`, a `Set`
abbrev pub Store : Type 0
Store = List String

-- `dedupStore.delete(key)`
unfoldable pub delete_key : String → Store → Store
delete_key key = filter (λ k. not (k == key))

abbrev pub asked : String → Option Json → Asked
asked event payload = record {
  event = event;
  action = dig ("action" ∷ []) payload;
  repo = repo_full_name payload;
  actor = actor_login_for event payload;
  comment = if event == "issue_comment" then dig ("comment" ∷ "body" ∷ []) payload else none;
}

consult : Host → String → Option Json → String → Store → Resolved (List Json) → Dispatch × Store
unfolding matches_dispatch_allowlist actor_login_for
consult host event payload key store (misconfigured e) = (config_error, store)
consult host event payload key store (resolved allowlist) =
    if matches_dispatch_allowlist host allowlist (asked event payload)
    then (forwarded key, key ∷ store)
    else (no_match, store)

plan_keyed : Host → String → Option Json → Store → Option String → Dispatch × Store
unfolding consult resolve_dispatch_allowlist
plan_keyed host event payload store none = (not_enrolled, store)
plan_keyed host event payload store (some key) =
    if contains store key
    then (duplicate, store)
    else consult host event payload key store (resolve_dispatch_allowlist host)

-- `planDispatch`
unfoldable pub plan_dispatch : Host → Option String → Option Json → Store → Dispatch × Store
unfolding plan_keyed compute_dedup_key
plan_dispatch host none payload store = (not_enrolled, store)
plan_dispatch host (some event) payload store =
    plan_keyed host event payload store (compute_dedup_key event payload)

-- `req`, with all that its stream will emit
pub record Request : Type 0 where
  pub method : String
  pub signature : Option String
  pub event : Option String
  pub delivery : Option String
  pub readable_ended : Bool
  pub stream : List StreamEvent

-- What is sent on `res`; `closes` where the connection is closed after it.
pub record Answer : Type 0 where
  pub status : ℕ
  pub allow : Option String
  pub closes : Bool
  pub text : String
  pub logs : List Json

-- A delivery that is to be forwarded after the answer
pub record Pending : Type 0 where
  pub dispatch_key : String
  pub event : String
  pub payload : Option Json

pub record Responded : Type 0 where
  pub answer : Answer
  pub store : Store
  pub pending : Option Pending

abbrev pub plain_answer : ℕ → String → Answer
plain_answer status text = record {
  status = status;
  allow = none;
  closes = false;
  text = text;
  logs = [];
}

abbrev refuse : Answer → Store → Responded
refuse answer store = record { answer = answer; store = store; pending = none }

text_field : String → Option String → Fields → Fields
text_field key none rest = rest
text_field key (some s) rest = field key (str s) rest

value_field : String → Option Json → Fields → Fields
value_field key none rest = rest
value_field key (some v) rest = field key v rest

-- The line that is logged for an accepted delivery
accepted_line : Request → Option Json → Dispatch → Json
unfolding text_field value_field
accepted_line r payload dispatch = obj (
    field "route" (str "/hooks/github-webhook-verify") (
      field "result" (str "accepted") (
        text_field "event" r.event (
          text_field "deliveryId" r.delivery (
            value_field "repo" (repo_full_name payload)
              (field "dispatch" (str (dispatch_name dispatch)) end))))))

rejected_line : Json
rejected_line =
    obj (field "route" (str "/hooks/github-webhook-verify") (field "result" (str "rejected") end))

-- The delivery that the handler forwards, with the header's id
pending_of : Request → Option Json → Dispatch → Option Pending
unfolding with_delivery_id
pending_of r payload (forwarded key) = and_then r.event λ event.
    some
      (record { dispatch_key = key; event = event; payload = with_delivery_id r.delivery payload })
pending_of r payload _ = none

pub accept : Request → Option Json → Dispatch × Store → Responded
unfolding accepted_line pending_of
accept r payload (dispatch, store) = record {
  answer = record (plain_answer 200 "ok") { logs = accepted_line r payload dispatch ∷ [] };
  store = store;
  pending = pending_of r payload dispatch;
}

-- The parsed body, or `undefined`
parsed_payload : Reply Json → Option Json
parsed_payload (ok v) = some v
parsed_payload (rejected message) = none

-- From the body to the answer.
verify : Host → List String → Request → Store → List ℕ → Responded
unfolding verify_any_github_signature parsed_payload accept plan_dispatch rejected_line
verify host secrets r store raw_body =
    if verify_any_github_signature host secrets raw_body r.signature
    then (let payload = parsed_payload (host.parse_json (host.decode raw_body)) in
        accept r payload (plan_dispatch host r.event payload store))
    else refuse (record (plain_answer 401 "") { logs = rejected_line ∷ [] }) store

abbrev bad_request : Answer
bad_request = record (plain_answer 400 "") { closes = true }

-- After `readRawBody` has settled
after_read : Host → List String → Request → Store → ReadResult → Responded
unfolding verify
after_read host secrets r store (body raw_body) = verify host secrets r store raw_body
after_read host secrets r store (max_bytes_error e) = refuse (plain_answer 500 "") store
after_read host secrets r store _ = refuse bad_request store

read_and_verify : Host → List String → Request → Store → Option ReadResult → Option Responded
unfolding after_read
read_and_verify host secrets r store none = none
read_and_verify host secrets r store (some result) = some (after_read host secrets r store result)

check_method : Host → List String → Request → Store → Option Responded
unfolding read_and_verify read_raw_body resolve_github_webhook_max_bytes
check_method host secrets r store =
    if r.method == "POST"
    then read_and_verify host secrets r store
        (read_raw_body (resolve_github_webhook_max_bytes host) r.readable_ended r.stream)
    else some (refuse (record (plain_answer 405 "") { allow = some "POST" }) store)

with_secrets : Host → Request → Store → Resolved (List String) → Option Responded
unfolding check_method
with_secrets host r store (misconfigured e) = some (refuse (plain_answer 500 "") store)
with_secrets host r store (resolved []) = some (refuse (plain_answer 404 "Not Found") store)
with_secrets host r store (resolved (secret ∷ secrets)) =
    check_method host (secret ∷ secrets) r store

-- `handleGithubWebhookVerify` up to its answer; `none` while the body has not been read.
unfoldable pub respond : Host → Option String → Request → Store → Option Responded
unfolding with_secrets resolve_secrets_for_request
respond host secret r store = with_secrets host r store (resolve_secrets_for_request host secret)

-- After the forward: a failed one gives its key back.
unfoldable pub release : String → Bool → Store → Store
unfolding delete_key
release key true store = store
release key false store = delete_key key store

forward_pending : Host → ForwardOptions → (HookRequest → Reply ℕ) → Store → Option Pending → Store
unfolding release is_forwarded agent_hook_request
forward_pending host options fetch store none = store
forward_pending host options fetch store (some p) =
    release p.dispatch_key
      (is_forwarded (fetch (agent_hook_request host options p.dispatch_key p.event p.payload)))
      store

-- `handleGithubWebhookVerify`, where nothing else runs while it waits for the agent
unfoldable pub handle_github_webhook_verify :
    Host
    → Option String
    → ForwardOptions
    → (HookRequest → Reply ℕ)
    → Request
    → Store
    → Option (Answer × Store)
unfolding respond forward_pending
handle_github_webhook_verify host secret options fetch r store =
    and_then (respond host secret r store) λ responded.
      some (responded.answer, forward_pending host options fetch responded.store responded.pending)
