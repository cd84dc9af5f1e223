-- ===== src/Tests/Webhook.antt =====
-- Runs of the webhook route: a delivery that is signed, allowed and forwarded, and its redelivery.
use openclaw_control_plane.Common.{
  ℕ, String, Bool, true, false, none, some, List, [], ◌∷◌, ◌≡◌, ◌≢◌, ◌≤◌, ◌+◌, ◌↔◌, refl, ◌==◌,
  string_eq, nat_eq, contains, if◌then◌else◌,
}
use openclaw_control_plane.Common.Text.{codes}
use openclaw_control_plane.Json.{Json, num, str, arr, obj, nil, cons, Fields, end, field, get}
use openclaw_control_plane.Effects.Platform.{Reply, ok, rejected}
use openclaw_control_plane.Webhook.Host.{Host, resolved}
use openclaw_control_plane.Webhook.Body.{chunk, ended, body, too_large, read_raw_body}
use openclaw_control_plane.Webhook.Body.Laws.{Carries, read_raw_body-Carries}
use openclaw_control_plane.Webhook.Allowlist.{
  resolve_dispatch_allowlist, Asked, matches_dispatch_allowlist,
}
use openclaw_control_plane.Webhook.Allowlist.Grants.{grants, matches_dispatch_allowlist-grants}
use openclaw_control_plane.Webhook.Delivery.{compute_dedup_key}
use openclaw_control_plane.Webhook.Forward.{
  ForwardOptions, agent_hook_request, is_forwarded, with_delivery_id,
}
use openclaw_control_plane.Webhook.Forward.Blind.{
  with_comment_body, agent_hook_request-comment_body,
}
use openclaw_control_plane.Webhook.Handler.{Request, Pending, Responded, respond, release}
use openclaw_control_plane.Webhook.Handler.Responses.{Verified, respond-Verified, respond_answers}
use openclaw_control_plane.Webhook.Handler.Redelivery.{respond-release}
use openclaw_control_plane.Webhook.Server.{answer, settle, Reach, here, next}
use openclaw_control_plane.Webhook.Server.Once.{count, Reach-once}

abbrev comment_fields : Fields
comment_fields =
    field "id" (num "7")
      (field "body" (str "@bot review") (field "user" (obj (field "login" (str "alice") end)) end))

abbrev payload_fields : Fields
payload_fields = field "action" (str "created") (
    field "repository" (obj (field "full_name" (str "o/r") end)) (
      field "issue" (obj (field "number" (num "5") end))
        (field "comment" (obj comment_fields) end)))

abbrev allowlist : Json
allowlist = obj (
    field "repo" (str "o/r") (
      field "events"
        (arr (
          cons
            (obj (
              field "event" (str "issue_comment") (
                field "actions" (arr (cons (str "created") nil)) (
                  field "trustedMention"
                    (obj (
                      field "actors" (arr (cons (str "alice") nil))
                        (field "pattern" (str "@bot") end)))
                    end))))
            nil))
        end))

abbrev host : Host
host = record {
  env = λ name.
      if name == "GITHUB_DISPATCH_ALLOWLIST"
      then some "allowlist"
      else if name == "GITHUB_WEBHOOK_SECRET"
      then some "s3cret"
      else none;
  parse_json = λ text.
      if text == "allowlist" then ok (arr (cons allowlist nil)) else ok (obj payload_fields);
  integer = λ text. none;
  hmac_hex = λ secret raw_body. secret;
  utf8 = codes;
  decode = λ bytes. "payload";
  regexp = λ source. some (λ text. true);
}

abbrev request : Request
request = record {
  method = "POST";
  signature = some "sha256=s3cret";
  event = some "issue_comment";
  delivery = some "d-1";
  readable_ended = false;
  stream = chunk (1 ∷ 2 ∷ []) ∷ chunk (3 ∷ []) ∷ ended ∷ [];
}

abbrev key : String
key = "o/r#5/comment-7"

key_runs : compute_dedup_key "issue_comment" (some (obj payload_fields)) ≡ some key
unfolding compute_dedup_key string_eq get
key_runs = refl

allowlist_runs : resolve_dispatch_allowlist host ≡ resolved (allowlist ∷ [])
unfolding resolve_dispatch_allowlist string_eq get nat_eq
allowlist_runs = refl

-- The body that the stream carries
abbrev bytes : List ℕ
bytes = 1 ∷ 2 ∷ 3 ∷ []

read_raw_body-Carries_example :
    (read_raw_body (resolved 3) false request.stream ≡ some (body bytes))
    ↔ (◌≡◌ {A = Bool} false false × Carries 3 request.stream bytes)
read_raw_body-Carries_example = read_raw_body-Carries 3 false request.stream bytes

too_long : read_raw_body (resolved 2) false request.stream ≡ some too_large
unfolding read_raw_body
too_long = refl

abbrev question : Asked
question = record {
  event = "issue_comment";
  action = some (str "created");
  repo = some (str "o/r");
  actor = some (str "alice");
  comment = some (str "@bot review");
}

matches_dispatch_allowlist-grants_example :
    matches_dispatch_allowlist host (allowlist ∷ []) question
    ≡ grants host (allowlist ∷ []) question question.repo
matches_dispatch_allowlist-grants_example =
    matches_dispatch_allowlist-grants host (allowlist ∷ []) question allowlist_runs

granted : matches_dispatch_allowlist host (allowlist ∷ []) question ≡ true
unfolding matches_dispatch_allowlist string_eq get
granted = refl

abbrev options : ForwardOptions
options = record { hook_url = none; hook_token = some "t" }

agent_hook_request-comment_body_example :
    (agent_hook_request host options key "issue_comment" (
        with_delivery_id
          (some "d-1")
          (some (obj (with_comment_body (str "rm -rf") comment_fields payload_fields))))
      ≡ agent_hook_request host options key "issue_comment"
          (with_delivery_id (some "d-1") (some (obj payload_fields))))
    × (compute_dedup_key "issue_comment"
          (some (obj (with_comment_body (str "rm -rf") comment_fields payload_fields)))
        ≡ compute_dedup_key "issue_comment" (some (obj payload_fields)))
unfolding get string_eq
agent_hook_request-comment_body_example =
    agent_hook_request-comment_body host options key "issue_comment" (some "d-1") (str "rm -rf")
      comment_fields payload_fields refl

abbrev waiting : Pending
waiting = record {
  dispatch_key = key;
  event = "issue_comment";
  payload = some (
      obj (
        field "action" (str "created") (
          field "repository" (obj (field "full_name" (str "o/r") end)) (
            field "issue" (obj (field "number" (num "5") end))
              (field "comment" (obj comment_fields) (field "deliveryId" (str "d-1") end))))));
}

abbrev accepted : Responded
accepted = record {
  answer = record {
    status = 200;
    allow = none;
    closes = false;
    text = "ok";
    logs =
        obj (
          field "route" (str "/hooks/github-webhook-verify") (
            field "result" (str "accepted") (
              field "event" (str "issue_comment") (
                field "deliveryId" (str "d-1")
                  (field "repo" (str "o/r") (field "dispatch" (str "forwarded") end))))))
        ∷ [];
  };
  store = key ∷ [];
  pending = some waiting;
}

respond_runs : respond host none request [] ≡ some accepted
unfolding respond string_eq nat_eq get
respond_runs = refl

respond-Verified_example :
    ((accepted.answer.status ≡ 200) ↔ Verified host request [] none)
    × (accepted.answer.status ≢ 200 → (accepted.store ≡ []) × (accepted.pending ≡ none))
respond-Verified_example = respond-Verified host request [] none accepted respond_runs

respond_answers_example : respond host none request [] ≢ none
respond_answers_example = respond_answers host request [] none refl

abbrev unreachable : Reply ℕ
unreachable = rejected "ECONNREFUSED"

respond-release_example :
    (again : Responded) × (respond host none request
        (release key (is_forwarded unreachable) (key ∷ []))
      ≡ some again)
    × (again.pending ≡ (if is_forwarded unreachable then none else some waiting))
unfolding string_eq
respond-release_example =
    respond-release host none request [] (key ∷ []) accepted waiting unreachable respond_runs refl
      refl

-- A delivery that waits for the agent
waiting_run : Reach host none (record { store = key ∷ []; waiting = waiting ∷ []; reached = [] })
waiting_run = next here (answer request accepted respond_runs refl)

-- The same delivery, received
delivered_run : Reach host none (record {
  store = release key (is_forwarded (ok 202)) (key ∷ []);
  waiting = [];
  reached = key ∷ [];
})
unfolding is_forwarded
delivered_run = next waiting_run (settle [] waiting [] (ok 202) refl refl)

Reach-once_example :
    (count key [] + count key (key ∷ []) ≤ 1)
    × (count key [] + count key (key ∷ [])
        ≡ (if contains (release key (is_forwarded (ok 202)) (key ∷ [])) key then 1 else 0))
Reach-once_example = Reach-once delivered_run key
