-- ===== src/Webhook/Allowlist.antt =====
-- The dispatch allowlist: `validateDispatchAllowlistEntry`, `resolveDispatchAllowlist` and
-- `matchesDispatchAllowlist`.
pub mod Unique
pub mod Validated
pub mod Grants
use openclaw_control_plane.Common.{
  String, Bool, true, false, not, Option, none, some, List, [], ◌∷◌, ◌==◌, string_eq, ◌&&◌, ◌||◌,
  contains, any, every, find, or_else, and_then, if◌then◌else◌,
}
use openclaw_control_plane.Common.Text.{is_blank, utf16_length}
use openclaw_control_plane.Json.{Json, obj, str, get_of, get}
use openclaw_control_plane.Effects.Platform.{Reply, ok, rejected}
use openclaw_control_plane.Webhook.Host.{
  Host, ConfigError, allowlist_not_json, allowlist_not_array, entry_not_object, repo_malformed,
  events_missing, event_not_object, event_malformed, duplicate_event, actions_malformed,
  mention_missing, pattern_invalid, duplicate_repo, Resolved, resolved, misconfigured,
  is_clean_string, text_of, text_is, array?,
}

-- A value that is truthy, an object, and no array.
abbrev pub is_object : Json → Bool
is_object (obj fs) = true
is_object _ = false

-- The names by which the checks and the search compare entries.
abbrev pub repo_of : Json → String
repo_of entry = text_of (get_of "repo" entry)

abbrev pub event_of : Json → String
event_of item = text_of (get_of "event" item)

-- An array that is not empty and whose elements are clean strings.
clean_array : Option (List Json) → Bool
unfolding is_clean_string
clean_array none = false
clean_array (some []) = false
clean_array (some (v ∷ vs)) = every (λ a. is_clean_string (some a)) (v ∷ vs)

is_pattern : Option Json → Bool
unfolding is_blank
is_pattern (some (str p)) = not (is_blank p)
is_pattern _ = false

-- `new RegExp(trusted.pattern)` must not throw.
compiles : Host → Option Json → Bool
compiles host pattern = elim (host.regexp (text_of pattern)) [ none ↦ false | some test ↦ true ]

validate_mention : Host → String → Option Json → Option ConfigError
unfolding clean_array is_pattern compiles
validate_mention host repo trusted =
    if not (
      clean_array (array? (and_then trusted (get_of "actors")))
      && is_pattern (and_then trusted (get_of "pattern")))
    then some (mention_missing repo)
    else if compiles host (and_then trusted (get_of "pattern"))
    then none
    else some (pattern_invalid repo)

validate_event : Host → String → List String → Json → Option ConfigError
unfolding is_clean_string clean_array validate_mention
validate_event host repo seen item =
    if not (is_object item)
    then some (event_not_object repo)
    else if not (is_clean_string (get_of "event" item))
    then some (event_malformed repo)
    else if contains seen (event_of item)
    then some (duplicate_event repo (event_of item))
    else if not (clean_array (array? (get_of "actions" item)))
    then some (actions_malformed repo (event_of item))
    else if event_of item == "issue_comment"
    then validate_mention host repo (get_of "trustedMention" item)
    else none

-- The loop over `entry.events`, with `seenEvents`
validate_events : Host → String → List String → List Json → Option ConfigError
unfolding validate_event
validate_events host repo seen [] = none
validate_events host repo seen (item ∷ rest) =
    or_else (validate_event host repo seen item)
      (validate_events host repo (event_of item ∷ seen) rest)

validate_event_list : Host → String → Option (List Json) → Option ConfigError
unfolding validate_events
validate_event_list host repo none = some (events_missing repo)
validate_event_list host repo (some []) = some (events_missing repo)
validate_event_list host repo (some (item ∷ rest)) = validate_events host repo [] (item ∷ rest)

-- `validateDispatchAllowlistEntry`: the error that it throws
validate_dispatch_allowlist_entry : Host → Json → Option ConfigError
unfolding validate_event_list is_clean_string
validate_dispatch_allowlist_entry host entry =
    if not (is_object entry)
    then some entry_not_object
    else if not (is_clean_string (get_of "repo" entry))
    then some repo_malformed
    else validate_event_list host (repo_of entry) (array? (get_of "events" entry))

pub validate_entries : Host → List Json → Option ConfigError
unfolding validate_dispatch_allowlist_entry
validate_entries host [] = none
validate_entries host (entry ∷ entries) =
    or_else (validate_dispatch_allowlist_entry host entry) (validate_entries host entries)

-- The second loop, with `seenRepos`
pub check_repos : List String → List Json → Option ConfigError
check_repos seen [] = none
check_repos seen (entry ∷ entries) =
    if contains seen (repo_of entry)
    then some (duplicate_repo (repo_of entry))
    else check_repos (repo_of entry ∷ seen) entries

allowlist_unless : List Json → Option ConfigError → Resolved (List Json)
allowlist_unless entries none = resolved entries
allowlist_unless entries (some e) = misconfigured e

allowlist_of_array : Host → Option (List Json) → Resolved (List Json)
unfolding validate_entries check_repos allowlist_unless
allowlist_of_array host none = misconfigured allowlist_not_array
allowlist_of_array host (some entries) =
    allowlist_unless entries (or_else (validate_entries host entries) (check_repos [] entries))

allowlist_of_reply : Host → String → Reply Json → Resolved (List Json)
unfolding utf16_length allowlist_of_array
allowlist_of_reply host raw (rejected message) =
    misconfigured (allowlist_not_json (utf16_length raw))
allowlist_of_reply host raw (ok parsed) = allowlist_of_array host (array? (some parsed))

allowlist_of_variable : Host → Option String → Resolved (List Json)
unfolding is_blank allowlist_of_reply
allowlist_of_variable host none = resolved []
allowlist_of_variable host (some raw) =
    if is_blank raw then resolved [] else allowlist_of_reply host raw (host.parse_json raw)

-- `resolveDispatchAllowlist`
unfoldable pub resolve_dispatch_allowlist : Host → Resolved (List Json)
unfolding allowlist_of_variable
resolve_dispatch_allowlist host = allowlist_of_variable host (host.env "GITHUB_DISPATCH_ALLOWLIST")

-- A delivery, as the allowlist is asked for it.
pub record Asked : Type 0 where
  pub event : String
  pub action : Option Json
  pub repo : Option Json
  pub actor : Option Json
  pub comment : Option Json

-- `list.includes(value)`, where the value must be a string
includes_text : Option (List Json) → Option Json → Bool
includes_text (some vs) (some (str s)) = any (λ v. text_is s (some v)) vs
includes_text _ _ = false

-- `pattern.test(commentBody)`
tests : Option (String → Bool) → Option Json → Bool
tests (some test) (some (str comment)) = test comment
tests _ _ = false

pattern_tests : Host → Option Json → Option Json → Bool
unfolding tests
pattern_tests host (some (str source)) comment = tests (host.regexp source) comment
pattern_tests host _ comment = false

-- The gate on comments: a trusted actor and a mention.
trusts : Host → Asked → Json → Bool
unfolding includes_text pattern_tests
trusts host a item =
    if a.event == "issue_comment"
    then (let trusted = get_of "trustedMention" item in
        includes_text (array? (and_then trusted (get_of "actors"))) a.actor
        && pattern_tests host (and_then trusted (get_of "pattern")) a.comment)
    else true

-- The test by which an item of `events` is found
permits : Asked → Json → Bool
unfolding includes_text
permits a item =
    text_is a.event (get_of "event" item) && includes_text (array? (get_of "actions" item)) a.action

-- A test of what `find` returned
abbrev pub passes : (Json → Bool) → Option Json → Bool
passes test none = false
passes test (some v) = test v

match_events : Host → Asked → Option (List Json) → Bool
unfolding permits trusts
match_events host a none = false
match_events host a (some events) = passes (trusts host a) (find (permits a) events)

match_entry : Host → Asked → Json → Bool
unfolding match_events
match_entry host a entry = match_events host a (array? (get_of "events" entry))

match_repo : Host → List Json → Asked → Option Json → Bool
unfolding match_entry
match_repo host entries a (some (str repo)) =
    if repo == ""
    then false
    else passes (match_entry host a) (find (λ entry. text_is repo (get_of "repo" entry)) entries)
match_repo host entries a _ = false

-- `matchesDispatchAllowlist`
unfoldable pub matches_dispatch_allowlist : Host → List Json → Asked → Bool
unfolding match_repo
matches_dispatch_allowlist host entries a = match_repo host entries a a.repo
