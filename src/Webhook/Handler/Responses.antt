-- ===== src/Webhook/Handler/Responses.antt =====
-- How the webhook handler answers: which requests are accepted, and that the others change nothing.
use openclaw_control_plane.Common.{
  ℕ, String, true, false, Option, none, some, List, [], ◌∷◌, ◌≡◌, ◌≢◌, refl, ◌↔◌, subst, arith,
  ◌==◌, string_eq, any, Any, Bool-cases, inl, inr,
}
use openclaw_control_plane.Webhook.Host.{Host, Resolved, resolved, misconfigured}
use openclaw_control_plane.Webhook.Config.{
  resolve_github_webhook_max_bytes, resolve_secrets_for_request,
}
use openclaw_control_plane.Webhook.Signature.{verify_any_github_signature}
use openclaw_control_plane.Webhook.Signature.Laws.{IsSignature, SignedBy, verify_any-SignedBy}
use openclaw_control_plane.Webhook.Body.{
  ReadResult, body, too_large, read_timeout, already_ended, read_error, max_bytes_error,
  read_raw_body,
}
use openclaw_control_plane.Webhook.Body.Laws.{
  Carries, read_raw_body-Carries, settles, read_raw_body-settles,
}
use openclaw_control_plane.Webhook.Handler.{
  Store, Request, Answer, Responded, refuse, verify, after_read, read_and_verify, check_method,
  with_secrets, respond, rejected_line, bad_request, plain_answer, accept,
}

-- An answer is 200 exactly where `P`, and any other leaves the store alone and forwards nothing.
abbrev Outcome : Type 0 → Store → Responded → Type 0
Outcome P store responded =
    ((responded.answer.status ≡ 200) ↔ P)
    × (responded.answer.status ≢ 200 → (responded.store ≡ store) × (responded.pending ≡ none))

Outcome-iff :
    {P Q : Type 0} {store : Store} (responded : Responded)
    → (P → Q)
    → (Q → P)
    → Outcome P store responded
    → Outcome Q store responded
Outcome-iff responded f g ((a, b), h) = ((λ e. f (a e), λ q. b (g q)), h)

refused :
    {P : Type 0} (answer : Answer) (store : Store)
    → answer.status ≢ 200
    → (P → ⊥)
    → Outcome P store (refuse answer store)
refused answer store h no_way = ((λ e. absurd (h e), λ p. absurd (no_way p)), λ other. (refl, refl))

module _ (host : Host) (r : Request) (store : Store) where
  verify_outcome :
      (secrets : List String) (bytes : List ℕ)
      → Outcome (SignedBy host secrets bytes r.signature) store (verify host secrets r store bytes)
  unfolding verify accept
  verify_outcome secrets bytes =
      let (forth, back) = verify_any-SignedBy host secrets bytes r.signature in
      elim (Bool-cases (verify_any_github_signature host secrets bytes r.signature)) [
        | inl e ↦ rw e ((λ _. forth e, λ _. refl), λ other. absurd (other refl))
        | inr e ↦ rw e (
            refused (record (plain_answer 401 "") { logs = rejected_line ∷ [] }) store (omega arith)
              (λ s. cc (back s)))
      ]

  -- The body that was read, and its signature
  abbrev ReadAndSigned : List String → ReadResult → Type 0
  ReadAndSigned secrets result =
      (bytes : List ℕ) × (result ≡ body bytes) × SignedBy host secrets bytes r.signature

  after_read_outcome :
      (secrets : List String) (result : ReadResult)
      → Outcome (ReadAndSigned secrets result) store (after_read host secrets r store result)
  unfolding after_read
  after_read_outcome secrets (body bytes) =
      Outcome-iff (verify host secrets r store bytes) (λ s. (bytes, refl, s))
        (λ (other, e, s).
          let same : other ≡ bytes = cc in subst (λ b. SignedBy host secrets b r.signature) same s)
        (verify_outcome secrets bytes)
  after_read_outcome secrets (max_bytes_error e) =
      refused (plain_answer 500 "") store (omega arith) (λ (b, e, s). cc)
  after_read_outcome secrets too_large = refused bad_request store (omega arith) (λ (b, e, s). cc)
  after_read_outcome secrets read_timeout =
      refused bad_request store (omega arith) (λ (b, e, s). cc)
  after_read_outcome secrets already_ended =
      refused bad_request store (omega arith) (λ (b, e, s). cc)
  after_read_outcome secrets (read_error m) =
      refused bad_request store (omega arith) (λ (b, e, s). cc)

  abbrev pub limit : Resolved ℕ
  limit = resolve_github_webhook_max_bytes host

  abbrev read : Option ReadResult
  read = read_raw_body limit r.readable_ended r.stream

  -- A request that was posted, read and signed
  abbrev PostedAndSigned : List String → Type 0
  PostedAndSigned secrets =
      (r.method ≡ "POST")
      × (bytes : List ℕ) × (read ≡ some (body bytes))
      × SignedBy host secrets bytes r.signature

  read_outcome :
      (secrets : List String) (result : Option ReadResult) (responded : Responded)
      → read_and_verify host secrets r store result ≡ some responded
      → Outcome
          ((bytes : List ℕ) × (result ≡ some (body bytes))
            × SignedBy host secrets bytes r.signature)
          store
          responded
  unfolding read_and_verify
  read_outcome secrets none responded h = cc
  read_outcome secrets (some result) responded h =
      let same : after_read host secrets r store result ≡ responded = cc in
      subst (Outcome _ store) same (
        Outcome-iff (after_read host secrets r store result) (λ (bytes, e, s). (bytes, rw e, s))
          (λ (bytes, e, s). (bytes, cc, s)) (after_read_outcome secrets result))

  check_method_outcome :
      (secrets : List String) (responded : Responded)
      → check_method host secrets r store ≡ some responded
      → Outcome (PostedAndSigned secrets) store responded
  unfolding check_method
  check_method_outcome secrets responded h = elim (Bool-cases (r.method == "POST")) [
    | inl e ↦
        let posted : r.method ≡ "POST" = ground arith in
        Outcome-iff responded (λ (bytes, q, s). (posted, bytes, q, s))
          (λ (m, bytes, q, s). (bytes, q, s)) (read_outcome secrets read responded (rw e at h))
    | inr e ↦
        let same : refuse (record (plain_answer 405 "") { allow = some "POST" }) store ≡ responded =
          cc (rw e at h) in
        let other : r.method ≢ "POST" = ground arith in
        subst (Outcome _ store) same (
          refused (record (plain_answer 405 "") { allow = some "POST" }) store (omega arith)
            (λ p. other p.0))
  ]

  -- What the handler accepts: the secrets are configured, and the request was posted, read within
  -- the limit and signed.
  abbrev pub Verified : Option String → Type 0
  Verified secret =
      (secrets : List String) × (max_bytes : ℕ) × (bytes : List ℕ) × (resolve_secrets_for_request
          host secret
        ≡ resolved secrets)
      × (limit ≡ resolved max_bytes)
      × (r.method ≡ "POST")
      × (r.readable_ended ≡ false)
      × Carries max_bytes r.stream bytes
      × SignedBy host secrets bytes r.signature

  with_secrets_outcome :
      (rs : Resolved (List String)) (responded : Responded)
      → with_secrets host r store rs ≡ some responded
      → Outcome
          ((secrets : List String) × (rs ≡ resolved secrets) × PostedAndSigned secrets)
          store
          responded
  unfolding with_secrets
  with_secrets_outcome (misconfigured e) responded h =
      let same : refuse (plain_answer 500 "") store ≡ responded = cc in
      subst (Outcome _ store) same (refused (plain_answer 500 "") store (omega arith) (λ p. cc p.1))
  with_secrets_outcome (resolved []) responded h =
      let same : refuse (plain_answer 404 "Not Found") store ≡ responded = cc in
      subst (Outcome _ store) same (
        refused (plain_answer 404 "Not Found") store (omega arith)
          (λ (secrets, e, (m, bytes, q, (header, s, some_secret))).
            no_secret secrets header bytes (cc) some_secret))
    where
      no_secret :
          (secrets : List String) (header : String) (bytes : List ℕ)
          → secrets ≡ []
          → Any (IsSignature host bytes header) secrets
          → ⊥
      no_secret [] header bytes e s = s
      no_secret (x ∷ xs) header bytes e s = cc
  with_secrets_outcome (resolved (secret ∷ secrets)) responded h =
      Outcome-iff responded (λ p. (secret ∷ secrets, refl, p))
        (λ (others, e, p).
          let same : others ≡ secret ∷ secrets = cc in subst PostedAndSigned same p)
        (check_method_outcome (secret ∷ secrets) responded h)

  -- A body that was read, in terms of the stream
  read-Carries :
      (bytes : List ℕ) (rl : Resolved ℕ)
      → (read_raw_body rl r.readable_ended r.stream ≡ some (body bytes)) ↔ (
          (max_bytes : ℕ) × (rl ≡ resolved max_bytes)
          × (r.readable_ended ≡ false)
          × Carries max_bytes r.stream bytes)
  unfolding read_raw_body
  read-Carries bytes (misconfigured e) = ((λ h. cc), λ p. cc p.1)
  read-Carries bytes (resolved n) =
      let (forth, back) = read_raw_body-Carries n r.readable_ended r.stream bytes in
      (
        (λ h. let (a, c) = forth h in (n, refl, a, c)),
        λ (m, e, a, c).
            let same : m ≡ n = cc in back (a, subst (λ k. Carries k r.stream bytes) same c),
      )

  -- An answer is 200 just where the request was posted, its body was read to the end within the
  -- limit, and its header is the signature of that body under a configured secret. Any other answer
  -- leaves the store of keys as it was and forwards nothing.
  pub respond-Verified :
      (secret : Option String) (responded : Responded)
      → respond host secret r store ≡ some responded
      → Outcome (Verified secret) store responded
  unfolding respond
  respond-Verified secret responded h =
      Outcome-iff responded
        (λ (secrets, e, (m, bytes, q, s)).
          let (n, l, a, c) = (read-Carries bytes limit).0 q in
          (secrets, n, bytes, e, l, m, a, c, s))
        (λ (secrets, n, bytes, e, l, m, a, c, s).
          (secrets, e, (m, bytes, (read-Carries bytes limit).1 (n, l, a, c), s)))
        (with_secrets_outcome (resolve_secrets_for_request host secret) responded h)

  read_answers :
      (secrets : List String) (result : Option ReadResult)
      → result ≢ none
      → read_and_verify host secrets r store result ≢ none
  unfolding read_and_verify
  read_answers secrets none h = λ e. h refl
  read_answers secrets (some result) h = λ e. cc

  answers :
      (rs : Resolved (List String))
      → any settles r.stream ≡ true
      → with_secrets host r store rs ≢ none
  unfolding with_secrets check_method
  answers (misconfigured e) h = λ pending. cc
  answers (resolved []) h = λ pending. cc
  answers (resolved (secret ∷ secrets)) h = elim (Bool-cases (r.method == "POST")) [
    | inl e ↦ rw e (
        read_answers (secret ∷ secrets) read
          (read_raw_body-settles limit r.readable_ended r.stream h))
    | inr e ↦ rw e (λ pending. cc)
  ]

  -- A request is answered where its stream ends, fails or is timed out.
  pub respond_answers :
      (secret : Option String) → any settles r.stream ≡ true → respond host secret r store ≢ none
  unfolding respond
  respond_answers secret h = answers (resolve_secrets_for_request host secret) h
