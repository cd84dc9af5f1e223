-- ===== src/Webhook/Allowlist/Grants.antt =====
-- A valid allowlist means what it says: the first entry that is found decides as all entries would.
use openclaw_control_plane.Webhook.Allowlist.Unique.{
  find-any, All-weaken, AtMostOnce-and, Fresh, Fresh-AtMostOnce,
}
use openclaw_control_plane.Common.{
  String, Bool, true, false, Option, none, some, List, [], ◌∷◌, ◌==◌, string_eq, ◌&&◌, any,
  if◌then◌else◌, ◌≡◌, refl, ap, ◌∙◌, arith, All,
}
use openclaw_control_plane.Json.{Json, str, get_of}
use openclaw_control_plane.Webhook.Host.{Host, resolved, text_of, text_is, array?}
use openclaw_control_plane.Webhook.Allowlist.{
  repo_of, event_of, resolve_dispatch_allowlist, Asked, permits, trusts, match_events, match_entry,
  match_repo, matches_dispatch_allowlist,
}
use openclaw_control_plane.Webhook.Allowlist.Validated.{
  check_repos-Fresh, events_in, events_in, events_of, validate_entries-Fresh, IsValidated,
  resolved-IsValidated,
}

-- The grants as the allowlist reads: some item of some entry for the repository names the event
-- and the action, and trusts the comment.
item_grants : Host → Asked → Json → Bool
item_grants host a item = permits a item && trusts host a item

entry_grants : Host → Asked → Json → Bool
unfolding item_grants
entry_grants host a entry = any (item_grants host a) (events_of entry)

pub grants : Host → List Json → Asked → Option Json → Bool
unfolding entry_grants string_eq
grants host entries a (some (str repo)) =
    if repo == ""
    then false
    else any (λ entry. text_is repo (get_of "repo" entry) && entry_grants host a entry) entries
grants host entries a _ = false

text_of-text_is : (s : String) (v : Option Json) → text_is s v ≡ true → text_of v ≡ s
text_of-text_is s none h = cc
text_of-text_is s (some (str t)) h = ground arith
text_of-text_is s (some v) h = ground arith

events_grant :
    (host : Host) (a : Asked) (events : Option (List Json))
    → Fresh event_of [] (events_in events)
    → match_events host a events ≡ any (item_grants host a) (events_in events)
unfolding match_events permits item_grants
events_grant host a none f = refl
events_grant host a (some events) f = find-any (permits a) (trusts host a) events (
    AtMostOnce-and (λ v. text_is a.event (get_of "event" v)) _ events
      (Fresh-AtMostOnce event_of _ a.event [] events
        (λ v. text_of-text_is a.event (get_of "event" v)) f))

any-cong :
    (p q r : Json → Bool) (xs : List Json)
    → All (λ x. q x ≡ r x) xs
    → any (λ x. p x && q x) xs ≡ any (λ x. p x && r x) xs
any-cong p q r [] h = refl
any-cong p q r (x ∷ xs) (h, hs) = rw (h, any-cong p q r xs hs)

entry_grant :
    (host : Host) (a : Asked) (entry : Json)
    → Fresh event_of [] (events_of entry)
    → match_entry host a entry ≡ entry_grants host a entry
unfolding match_entry entry_grants
entry_grant host a entry f = events_grant host a (array? (get_of "events" entry)) f

match_repo-grants :
    (host : Host) (entries : List Json) (a : Asked) (repo : Option Json)
    → IsValidated host entries
    → match_repo host entries a repo ≡ grants host entries a repo
unfolding match_repo grants match_entry
match_repo-grants host entries a none v = refl
match_repo-grants host entries a (some (str repo)) (valid, unique) =
    let once =
      Fresh-AtMostOnce repo_of (λ entry. text_is repo (get_of "repo" entry)) repo [] entries
        (λ e. text_of-text_is repo (get_of "repo" e)) (check_repos-Fresh [] entries unique) in
    let inner =
      any-cong (λ entry. text_is repo (get_of "repo" entry)) (match_entry host a)
        (entry_grants host a) entries
        (All-weaken (entry_grant host a) entries (validate_entries-Fresh host entries valid)) in
    ap (λ b. if repo == "" then false else b)
      (find-any (λ entry. text_is repo (get_of "repo" entry)) (match_entry host a) entries once
        ∙ inner)
match_repo-grants host entries a (some v) h = ground arith

-- Of a resolved allowlist, the search for the first entry permits a delivery just where some item
-- of some entry for its repository names its event and its action, and trusts its comment.
pub matches_dispatch_allowlist-grants :
    (host : Host) (entries : List Json) (a : Asked)
    → resolve_dispatch_allowlist host ≡ resolved entries
    → matches_dispatch_allowlist host entries a ≡ grants host entries a a.repo
unfolding matches_dispatch_allowlist
matches_dispatch_allowlist-grants host entries a h =
    match_repo-grants host entries a a.repo (resolved-IsValidated host entries h)
