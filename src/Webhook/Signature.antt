-- ===== src/Webhook/Signature.antt =====
-- `computeGithubSignature`, `verifyGithubSignature` and `verifyAnyGithubSignature`.
pub mod Laws
use openclaw_control_plane.Common.{
  ℕ, String, ◌<>◌, Bool, true, false, Option, none, some, List, [], ◌∷◌, ◌==◌, string_eq, nat_eq,
  ◌&&◌, ◌||◌, length, if◌then◌else◌,
}
use openclaw_control_plane.Webhook.Host.{Host}

-- `computeGithubSignature`
unfoldable pub compute_github_signature : Host → String → List ℕ → String
compute_github_signature host secret raw_body = "sha256=" <> host.hmac_hex secret raw_body

-- `timingSafeEqual` of two buffers of one length
unfoldable pub timing_safe_equal : List ℕ → List ℕ → Bool
timing_safe_equal [] [] = true
timing_safe_equal (a ∷ as') (b ∷ bs) = a == b && timing_safe_equal as' bs
timing_safe_equal _ _ = false

-- `verifyGithubSignature`
unfoldable pub verify_github_signature : Host → String → List ℕ → Option String → Bool
unfolding compute_github_signature timing_safe_equal
verify_github_signature host secret raw_body none = false
verify_github_signature host secret raw_body (some header) =
    if secret == "" || header == ""
    then false
    else (let expected = host.utf8 (compute_github_signature host secret raw_body) in
        let actual = host.utf8 header in
        if length expected == length actual then timing_safe_equal expected actual else false)

-- The loop over the secrets: each is compared, whatever was found before.
verify_loop : Host → List ℕ → Option String → List String → Bool → Bool
unfolding verify_github_signature
verify_loop host raw_body header [] matched = matched
verify_loop host raw_body header (secret ∷ secrets) matched =
    verify_loop host raw_body header secrets
      (if verify_github_signature host secret raw_body header then true else matched)

-- `verifyAnyGithubSignature`
unfoldable pub verify_any_github_signature : Host → List String → List ℕ → Option String → Bool
unfolding verify_loop
verify_any_github_signature host [] raw_body header = false
verify_any_github_signature host (secret ∷ secrets) raw_body header =
    verify_loop host raw_body header (secret ∷ secrets) false
