-- ===== src/Webhook/Delivery.antt =====
-- What scripts/wrapper-github-webhook-verify.mjs reads in a delivery: `actorLoginFor`,
-- `resourceNumberFor`, `pullRequestHeadSha`, `issueCommentId` and `computeDedupKey`.
use openclaw_control_plane.Common.{
  String, ◌<>◌, Option, none, some, List, [], ◌∷◌, ◌==◌, string_eq, if◌then◌else◌, and_then,
}
use openclaw_control_plane.Json.{Json, null, num, str, get_of}

-- `payload?.a?.b`: a property of anything but an object is `undefined`.
abbrev pub dig : List String → Option Json → Option Json
dig [] v = v
dig (k ∷ ks) v = dig ks (and_then v (get_of k))

-- `a ?? b`, where `null` counts as absent
abbrev nullish : Option Json → Option Json → Option Json
nullish none b = b
nullish (some null) b = b
nullish a b = a

-- `typeof n === "number" ? n : undefined`, as it is printed
abbrev number? : Option Json → Option String
number? (some (num n)) = some n
number? _ = none

-- `actorLoginFor`
unfoldable pub actor_login_for : String → Option Json → Option Json
actor_login_for event payload =
    if event == "issue_comment"
    then dig ("comment" ∷ "user" ∷ "login" ∷ []) payload
    else dig ("sender" ∷ "login" ∷ []) payload

-- `resourceNumberFor`
unfoldable pub resource_number_for : String → Option Json → Option String
resource_number_for event payload =
    if event == "pull_request"
    then number?
        (nullish (dig ("pull_request" ∷ "number" ∷ []) payload) (dig ("number" ∷ []) payload))
    else if event == "issue_comment"
    then number? (dig ("issue" ∷ "number" ∷ []) payload)
    else none

non_empty : Option Json → Option String
non_empty (some (str s)) = if s == "" then none else some s
non_empty _ = none

-- `pullRequestHeadSha`
unfoldable pub pull_request_head_sha : Option Json → Option String
unfolding non_empty
pull_request_head_sha payload = non_empty (dig ("pull_request" ∷ "head" ∷ "sha" ∷ []) payload)

-- `issueCommentId`, as it is printed
issue_comment_text : Option Json → Option String
issue_comment_text (some (num n)) = some n
issue_comment_text (some (str s)) = some s
issue_comment_text _ = none

unfoldable pub issue_comment_id : Option Json → Option String
unfolding issue_comment_text
issue_comment_id payload = issue_comment_text (dig ("comment" ∷ "id" ∷ []) payload)

-- `payload?.repository?.full_name`
abbrev pub repo_full_name : Option Json → Option Json
repo_full_name payload = dig ("repository" ∷ "full_name" ∷ []) payload

-- The text after the repository and the number, by the event.
unfoldable pub key_suffix : String → Option Json → Option String
unfolding pull_request_head_sha issue_comment_id
key_suffix event payload =
    if event == "pull_request"
    then and_then (pull_request_head_sha payload) (λ sha. some ("@" <> sha))
    else if event == "issue_comment"
    then and_then (issue_comment_id payload) (λ id. some ("/comment-" <> id))
    else none

-- `computeDedupKey`
unfoldable pub compute_dedup_key : String → Option Json → Option String
unfolding non_empty resource_number_for key_suffix
compute_dedup_key event payload = and_then (non_empty (repo_full_name payload)) λ repo.
    and_then (resource_number_for event payload)
      λ number. and_then (key_suffix event payload) λ suffix. some (repo <> "#" <> number <> suffix)
