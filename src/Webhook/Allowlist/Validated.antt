-- ===== src/Webhook/Allowlist/Validated.antt =====
-- What the checks of an allowlist that is resolved leave.
use openclaw_control_plane.Webhook.Allowlist.Unique.{Fresh}
use openclaw_control_plane.Common.{
  String, false, Option, none, some, List, [], ◌∷◌, string_eq, contains, or_else, ◌≡◌, refl, sym,
  subst, arith, All, Bool-cases, inl, inr,
}
use openclaw_control_plane.Json.{Json, get_of}
use openclaw_control_plane.Common.Text.{is_blank}
use openclaw_control_plane.Effects.Platform.{Reply, ok, rejected}
use openclaw_control_plane.Webhook.Host.{Host, ConfigError, resolved, array?}
use openclaw_control_plane.Webhook.Allowlist.{
  repo_of, event_of, validate_event, validate_events, validate_event_list,
  validate_dispatch_allowlist_entry, validate_entries, check_repos, allowlist_unless,
  allowlist_of_array, allowlist_of_reply, allowlist_of_variable, resolve_dispatch_allowlist,
}

-- What the checks of a valid allowlist leave.
or_else-none : (a b : Option ConfigError) → or_else a b ≡ none → (a ≡ none) × (b ≡ none)
or_else-none none b h = (refl, h)
or_else-none (some e) b h = cc

validate_event-new :
    (host : Host) (repo : String) (seen : List String) (item : Json)
    → validate_event host repo seen item ≡ none
    → contains seen (event_of item) ≡ false
unfolding validate_event
validate_event-new host repo seen item h = ground arith

validate_events-Fresh :
    (host : Host) (repo : String) (seen : List String) (events : List Json)
    → validate_events host repo seen events ≡ none
    → Fresh event_of seen events
unfolding validate_events
validate_events-Fresh host repo seen [] h = tt
validate_events-Fresh host repo seen (item ∷ rest) h =
    let (first, others) = or_else-none (validate_event host repo seen item) _ h in
    (
      validate_event-new host repo seen item first,
      validate_events-Fresh host repo (event_of item ∷ seen) rest others,
    )

pub check_repos-Fresh :
    (seen : List String) (entries : List Json)
    → check_repos seen entries ≡ none
    → Fresh repo_of seen entries
unfolding check_repos
check_repos-Fresh seen [] h = tt
check_repos-Fresh seen (entry ∷ entries) h = elim (Bool-cases (contains seen (repo_of entry))) [
  | inl e ↦ cc (rw e at h)
  | inr e ↦ (e, check_repos-Fresh (repo_of entry ∷ seen) entries (rw e at h))
]

-- The items of an entry
abbrev pub events_in : Option (List Json) → List Json
events_in none = []
events_in (some events) = events

abbrev pub events_of : Json → List Json
events_of entry = events_in (array? (get_of "events" entry))

validate_event_list-Fresh :
    (host : Host) (repo : String) (events : Option (List Json))
    → validate_event_list host repo events ≡ none
    → (es : List Json) × (events ≡ some es) × Fresh event_of [] es
unfolding validate_event_list
validate_event_list-Fresh host repo none h = cc
validate_event_list-Fresh host repo (some []) h = cc
validate_event_list-Fresh host repo (some (item ∷ rest)) h =
    (item ∷ rest, refl, validate_events-Fresh host repo [] (item ∷ rest) h)

validate_entry-Fresh :
    (host : Host) (entry : Json)
    → validate_dispatch_allowlist_entry host entry ≡ none
    → Fresh event_of [] (events_of entry)
unfolding validate_dispatch_allowlist_entry
validate_entry-Fresh host entry h =
    let (es, e, fresh) =
      validate_event_list-Fresh host (repo_of entry) (array? (get_of "events" entry))
        (ground arith) in
    subst (λ o. Fresh event_of [] (events_in o)) (sym e) fresh

pub validate_entries-Fresh :
    (host : Host) (entries : List Json)
    → validate_entries host entries ≡ none
    → All (λ entry. Fresh event_of [] (events_of entry)) entries
unfolding validate_entries
validate_entries-Fresh host [] h = tt
validate_entries-Fresh host (entry ∷ entries) h =
    let (first, others) = or_else-none (validate_dispatch_allowlist_entry host entry) _ h in
    (validate_entry-Fresh host entry first, validate_entries-Fresh host entries others)

-- The checks that a resolved allowlist has passed.
abbrev pub IsValidated : Host → List Json → Type 0
IsValidated host entries = (validate_entries host entries ≡ none) × (check_repos [] entries ≡ none)

unless_none :
    (vs entries : List Json) (e : Option ConfigError)
    → allowlist_unless vs e ≡ resolved entries
    → (e ≡ none) × (vs ≡ entries)
unfolding allowlist_unless
unless_none vs entries none h = (refl, cc)
unless_none vs entries (some e) h = cc

array-IsValidated :
    (host : Host) (vs : Option (List Json)) (entries : List Json)
    → allowlist_of_array host vs ≡ resolved entries
    → IsValidated host entries
unfolding allowlist_of_array
array-IsValidated host none entries h = cc
array-IsValidated host (some vs) entries h =
    let (e, same) = unless_none vs entries _ h in
    subst (IsValidated host) same (or_else-none (validate_entries host vs) _ e)

reply-IsValidated :
    (host : Host) (raw : String) (reply : Reply Json) (entries : List Json)
    → allowlist_of_reply host raw reply ≡ resolved entries
    → IsValidated host entries
unfolding allowlist_of_reply
reply-IsValidated host raw (rejected message) entries h = cc
reply-IsValidated host raw (ok parsed) entries h =
    array-IsValidated host (array? (some parsed)) entries h

empty-IsValidated :
    (host : Host) (entries : List Json) → resolved [] ≡ resolved entries → IsValidated host entries
unfolding validate_entries check_repos
empty-IsValidated host entries h =
    let same : [] ≡ entries = cc in subst (IsValidated host) same (refl, refl)

variable-IsValidated :
    (host : Host) (variable : Option String) (entries : List Json)
    → allowlist_of_variable host variable ≡ resolved entries
    → IsValidated host entries
unfolding allowlist_of_variable
variable-IsValidated host none entries h = empty-IsValidated host entries h
variable-IsValidated host (some raw) entries h = elim (Bool-cases (is_blank raw)) [
  | inl e ↦ empty-IsValidated host entries (rw e at h)
  | inr e ↦ reply-IsValidated host raw (host.parse_json raw) entries (rw e at h)
]

pub resolved-IsValidated :
    (host : Host) (entries : List Json)
    → resolve_dispatch_allowlist host ≡ resolved entries
    → IsValidated host entries
unfolding resolve_dispatch_allowlist
resolved-IsValidated host entries h =
    variable-IsValidated host (host.env "GITHUB_DISPATCH_ALLOWLIST") entries h
