-- ===== src/Webhook/Signature/Laws.antt =====
-- A header verifies exactly when it is the signature of the body under some configured secret.
use openclaw_control_plane.Common.{
  ℕ, String, Bool, true, false, Option, none, some, List, [], ◌∷◌, ◌≡◌, ◌≢◌, refl, ◌↔◌, ◌∙◌, sym,
  string_eq, nat_eq, ◌||◌, any, any-Any, Any-any, Any, Any-weaken, arith, inl, inr,
}
use openclaw_control_plane.Webhook.Host.{Host}
use openclaw_control_plane.Webhook.Signature.{
  compute_github_signature, timing_safe_equal, verify_github_signature, verify_loop,
  verify_any_github_signature,
}

timing_safe_equal-eq : (xs ys : List ℕ) → timing_safe_equal xs ys ≡ true → xs ≡ ys
unfolding timing_safe_equal
timing_safe_equal-eq [] [] h = refl
timing_safe_equal-eq [] (y ∷ ys) h = cc
timing_safe_equal-eq (x ∷ xs) [] h = cc
timing_safe_equal-eq (x ∷ xs) (y ∷ ys) h = ground (arith, timing_safe_equal-eq xs ys)

timing_safe_equal_self : (xs : List ℕ) → timing_safe_equal xs xs ≡ true
unfolding timing_safe_equal
timing_safe_equal_self [] = refl
timing_safe_equal_self (x ∷ xs) = ground (arith, timing_safe_equal_self xs)

-- A header that is the signature of the body under a secret, as bytes
pub record IsSignature (host : Host) (raw_body : List ℕ) (header secret : String) : Type 0 where
  pub has_secret : secret ≢ ""
  pub has_header : header ≢ ""
  pub same : host.utf8 (compute_github_signature host secret raw_body) ≡ host.utf8 header

verify_github_signature-IsSignature :
    (host : Host) (secret : String) (raw_body : List ℕ) (header : String)
    → (verify_github_signature host secret raw_body (some header) ≡ true)
      ↔ IsSignature host raw_body header secret
unfolding verify_github_signature
verify_github_signature-IsSignature host secret raw_body header = (
  λ h. record {
    has_secret = ground arith;
    has_header = ground arith;
    same =
        timing_safe_equal-eq (host.utf8 (compute_github_signature host secret raw_body))
          (host.utf8 header) (ground arith);
  },
  λ s. signed s.has_secret s.has_header s.same,
)
  where
    signed :
        secret ≢ ""
        → header ≢ ""
        → host.utf8 (compute_github_signature host secret raw_body) ≡ host.utf8 header
        → verify_github_signature host secret raw_body (some header) ≡ true
    signed hs hh e = rw e (ground (arith, timing_safe_equal_self (host.utf8 header)))

unsigned :
    (host : Host) (raw_body : List ℕ) (secrets : List String)
    → Any (λ secret. verify_github_signature host secret raw_body none ≡ true) secrets
    → ⊥
unfolding verify_github_signature
unsigned host raw_body [] h = h
unsigned host raw_body (secret ∷ secrets) (inl h) = cc
unsigned host raw_body (secret ∷ secrets) (inr h) = unsigned host raw_body secrets h

verify_loop-any :
    (host : Host) (raw_body : List ℕ) (header : Option String) (secrets : List String)
    (matched : Bool)
    → verify_loop host raw_body header secrets matched
      ≡ (matched || any (λ secret. verify_github_signature host secret raw_body header) secrets)
unfolding verify_loop
verify_loop-any host raw_body header [] matched = ground arith
verify_loop-any host raw_body header (secret ∷ secrets) matched =
    verify_loop-any host raw_body header secrets _ ∙ ground arith

verify_any-any :
    (host : Host) (secrets : List String) (raw_body : List ℕ) (header : Option String)
    → verify_any_github_signature host secrets raw_body header
      ≡ any (λ secret. verify_github_signature host secret raw_body header) secrets
unfolding verify_any_github_signature
verify_any-any host [] raw_body header = refl
verify_any-any host (secret ∷ secrets) raw_body header =
    verify_loop-any host raw_body header (secret ∷ secrets) false

-- What a header must be, for some of the secrets.
abbrev pub SignedBy : Host → List String → List ℕ → Option String → Type 0
SignedBy host secrets raw_body signature =
    (header : String) × (signature ≡ some header)
    × Any (λ secret. IsSignature host raw_body header secret) secrets

pub verify_any-SignedBy :
    (host : Host) (secrets : List String) (raw_body : List ℕ) (signature : Option String)
    → (verify_any_github_signature host secrets raw_body signature ≡ true)
      ↔ SignedBy host secrets raw_body signature
verify_any-SignedBy host secrets raw_body signature = (λ h. forth signature (found h), back)
  where
    found :
        verify_any_github_signature host secrets raw_body signature ≡ true
        → Any (λ secret. verify_github_signature host secret raw_body signature ≡ true) secrets
    found h = any-Any _ secrets (sym (verify_any-any host secrets raw_body signature) ∙ h)

    forth :
        (o : Option String)
        → Any (λ secret. verify_github_signature host secret raw_body o ≡ true) secrets
        → SignedBy host secrets raw_body o
    forth none s = absurd (unsigned host raw_body secrets s)
    forth (some header) s = (
      header,
      refl,
      Any-weaken (λ secret. (verify_github_signature-IsSignature host secret raw_body header).0)
          secrets s,
    )

    verified :
        (header : String)
        → signature ≡ some header
        → (secret : String) → IsSignature host raw_body header secret
        → verify_github_signature host secret raw_body signature ≡ true
    verified header e secret k =
        rw e ((verify_github_signature-IsSignature host secret raw_body header).1 k)

    back :
        SignedBy host secrets raw_body signature
        → verify_any_github_signature host secrets raw_body signature ≡ true
    back (header, e, s) =
        verify_any-any host secrets raw_body signature
        ∙ Any-any _ secrets (Any-weaken (λ secret k. verified header e secret k) secrets s)
