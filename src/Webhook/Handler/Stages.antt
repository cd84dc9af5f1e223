-- ===== src/Webhook/Handler/Stages.antt =====
-- The handler in two stages: what it decides without the store of keys, and what the store adds.
use openclaw_control_plane.Common.{
  ◌⊎◌, ℕ, String, true, false, Option, none, some, List, [], ◌∷◌, ◌≡◌, refl, ap, ◌==◌, string_eq,
  contains, and_then, if◌then◌else◌, Bool-cases, inl, inr,
}
use openclaw_control_plane.Json.{Json}
use openclaw_control_plane.Webhook.Host.{Host, Resolved, resolved, misconfigured}
use openclaw_control_plane.Webhook.Config.{
  resolve_github_webhook_max_bytes, resolve_secrets_for_request,
}
use openclaw_control_plane.Webhook.Delivery.{compute_dedup_key}
use openclaw_control_plane.Webhook.Signature.{verify_any_github_signature}
use openclaw_control_plane.Webhook.Body.{
  ReadResult, body, too_large, read_timeout, already_ended, read_error, max_bytes_error,
  read_raw_body,
}
use openclaw_control_plane.Webhook.Allowlist.{
  resolve_dispatch_allowlist, matches_dispatch_allowlist,
}
use openclaw_control_plane.Webhook.Handler.{
  Dispatch, duplicate, forwarded, Store, asked, consult, plan_keyed, plan_dispatch, Request, Answer,
  Responded, plain_answer, refuse, rejected_line, accept, parsed_payload, verify, bad_request,
  after_read, read_and_verify, check_method, with_secrets, respond,
}

-- The key of a delivery that the allowlist permits, whatever was forwarded before
allowed_key : Host → String → Option Json → String → Resolved (List Json) → Option String
allowed_key host event payload key (misconfigured e) = none
allowed_key host event payload key (resolved allowlist) =
    if matches_dispatch_allowlist host allowlist (asked event payload) then some key else none

unfoldable pub eligible_key : Host → Option String → Option Json → Option String
unfolding allowed_key
eligible_key host none payload = none
eligible_key host (some event) payload =
    and_then (compute_dedup_key event payload)
      λ key. allowed_key host event payload key (resolve_dispatch_allowlist host)

abbrev pub forwarded_key : Dispatch → Option String
forwarded_key (forwarded key) = some key
forwarded_key _ = none

-- What a plan does with an eligible key, and with none
abbrev pub Effect : Store → Option String → Dispatch × Store → Type 0
Effect store none plan = (forwarded_key plan.0 ≡ none) × (plan.1 ≡ store)
Effect store (some key) plan =
    plan ≡ (if contains store key then (duplicate, store) else (forwarded key, key ∷ store))

consult-Effect :
    (host : Host) (event : String) (payload : Option Json) (key : String) (store : Store)
    (allowlist : Resolved (List Json))
    → contains store key ≡ false
    → Effect store
        (allowed_key host event payload key allowlist)
        (consult host event payload key store allowlist)
unfolding consult allowed_key
consult-Effect host event payload key store (misconfigured e) new = (refl, refl)
consult-Effect host event payload key store (resolved allowlist) new =
    elim (Bool-cases (matches_dispatch_allowlist host allowlist (asked event payload))) [
      | inl e ↦ rw (e, new)
      | inr e ↦ rw e (refl, refl)
    ]

old-Effect :
    (store : Store) (key : String) (o : Option String) (plan : Dispatch × Store)
    → (o ≡ none) ⊎ (o ≡ some key)
    → contains store key ≡ true
    → plan ≡ (duplicate, store)
    → Effect store o plan
old-Effect store key none plan h old e = rw e (refl, refl)
old-Effect store key (some k) plan (inl h) old e = cc
old-Effect store key (some k) plan (inr h) old e = let same : k ≡ key = cc in rw (same, old) e

allowed_key_cases :
    (host : Host) (event : String) (payload : Option Json) (key : String)
    (allowlist : Resolved (List Json))
    → (allowed_key host event payload key allowlist ≡ none)
      ⊎ (allowed_key host event payload key allowlist ≡ some key)
unfolding allowed_key
allowed_key_cases host event payload key (misconfigured e) = inl refl
allowed_key_cases host event payload key (resolved allowlist) =
    elim (Bool-cases (matches_dispatch_allowlist host allowlist (asked event payload))) [
      | inl e ↦ inr (rw e)
      | inr e ↦ inl (rw e)
    ]

keyed-Effect :
    (host : Host) (event : String) (payload : Option Json) (store : Store) (key : Option String)
    → Effect store
        (and_then key λ k. allowed_key host event payload k (resolve_dispatch_allowlist host))
        (plan_keyed host event payload store key)
unfolding plan_keyed
keyed-Effect host event payload store none = (refl, refl)
keyed-Effect host event payload store (some key) = elim (Bool-cases (contains store key)) [
  | inl e ↦
      old-Effect store key _ _
        (allowed_key_cases host event payload key (resolve_dispatch_allowlist host)) e (rw e)
  | inr e ↦ rw e (consult-Effect host event payload key store (resolve_dispatch_allowlist host) e)
]

pub plan-Effect :
    (host : Host) (event : Option String) (payload : Option Json) (store : Store)
    → Effect store (eligible_key host event payload) (plan_dispatch host event payload store)
unfolding plan_dispatch eligible_key
plan-Effect host none payload store = (refl, refl)
plan-Effect host (some event) payload store =
    keyed-Effect host event payload store (compute_dedup_key event payload)

-- The handler up to the store: an answer that refuses, or the payload of a verified delivery.
pub data Examined : Type 0 where
  refusal : Answer → Examined
  verified : Option Json → Examined

module _ (host : Host) (r : Request) where
  examine_body : List String → List ℕ → Examined
  examine_body secrets raw_body =
      if verify_any_github_signature host secrets raw_body r.signature
      then verified (parsed_payload (host.parse_json (host.decode raw_body)))
      else refusal (record (plain_answer 401 "") { logs = rejected_line ∷ [] })

  examine_read : List String → ReadResult → Examined
  unfolding examine_body
  examine_read secrets (body raw_body) = examine_body secrets raw_body
  examine_read secrets (max_bytes_error e) = refusal (plain_answer 500 "")
  examine_read secrets _ = refusal bad_request

  examine_posted : List String → Option ReadResult → Option Examined
  unfolding examine_read
  examine_posted secrets none = none
  examine_posted secrets (some result) = some (examine_read secrets result)

  examine_method : List String → Option Examined
  unfolding examine_posted
  examine_method secrets =
      if r.method == "POST"
      then examine_posted secrets
          (read_raw_body (resolve_github_webhook_max_bytes host) r.readable_ended r.stream)
      else some (refusal (record (plain_answer 405 "") { allow = some "POST" }))

  pub examine : Resolved (List String) → Option Examined
  unfolding examine_method
  examine (misconfigured e) = some (refusal (plain_answer 500 ""))
  examine (resolved []) = some (refusal (plain_answer 404 "Not Found"))
  examine (resolved (secret ∷ secrets)) = examine_method (secret ∷ secrets)

  -- What the store makes of it
  unfoldable pub conclude : Store → Examined → Responded
  conclude store (refusal answer) = refuse answer store
  conclude store (verified payload) = accept r payload (plan_dispatch host r.event payload store)

  examine_body-conclude :
      (secrets : List String) (raw_body : List ℕ) (store : Store)
      → verify host secrets r store raw_body ≡ conclude store (examine_body secrets raw_body)
  unfolding verify examine_body conclude
  examine_body-conclude secrets raw_body store =
      elim (Bool-cases (verify_any_github_signature host secrets raw_body r.signature)) [
        | inl e ↦ rw e
        | inr e ↦ rw e
      ]

  examine_read-conclude :
      (secrets : List String) (result : ReadResult) (store : Store)
      → after_read host secrets r store result ≡ conclude store (examine_read secrets result)
  unfolding after_read examine_read conclude
  examine_read-conclude secrets (body raw_body) store = examine_body-conclude secrets raw_body store
  examine_read-conclude secrets too_large store = refl
  examine_read-conclude secrets read_timeout store = refl
  examine_read-conclude secrets already_ended store = refl
  examine_read-conclude secrets (read_error m) store = refl
  examine_read-conclude secrets (max_bytes_error e) store = refl

  abbrev pub concluded : Store → Option Examined → Option Responded
  concluded store o = and_then o λ x. some (conclude store x)

  examine_posted-conclude :
      (secrets : List String) (result : Option ReadResult) (store : Store)
      → read_and_verify host secrets r store result
        ≡ concluded store (examine_posted secrets result)
  unfolding read_and_verify examine_posted
  examine_posted-conclude secrets none store = refl
  examine_posted-conclude secrets (some result) store =
      ap some (examine_read-conclude secrets result store)

  examine_method-conclude :
      (secrets : List String) (store : Store)
      → check_method host secrets r store ≡ concluded store (examine_method secrets)
  unfolding check_method examine_method conclude
  examine_method-conclude secrets store = elim (Bool-cases (r.method == "POST")) [
    | inl e ↦ rw e (examine_posted-conclude secrets _ store)
    | inr e ↦ rw e
  ]

  examine-conclude :
      (rs : Resolved (List String)) (store : Store)
      → with_secrets host r store rs ≡ concluded store (examine rs)
  unfolding with_secrets examine conclude
  examine-conclude (misconfigured e) store = refl
  examine-conclude (resolved []) store = refl
  examine-conclude (resolved (secret ∷ secrets)) store =
      examine_method-conclude (secret ∷ secrets) store

  pub respond-examine :
      (secret : Option String) (store : Store)
      → respond host secret r store
        ≡ concluded store (examine (resolve_secrets_for_request host secret))
  unfolding respond
  respond-examine secret store = examine-conclude (resolve_secrets_for_request host secret) store
