-- ===== src/Proof/Laws.antt =====
-- What a proof verification that passes says of the snapshot.
use openclaw_control_plane.Common.{
  ℕ, String, true, not, Option, none, some, List, ◌≡◌, ◌⊎◌, inl, inr, refl, sym, ◌∙◌, subst, ◌↔◌,
  ◌++◌, every, every-append, find, contains, arith, string_eq, nat_eq, option_eq, list_eq,
  Bool-cases,
}
use openclaw_control_plane.Common.Text.{includes}
use openclaw_control_plane.Common.Text.Contains.{Contains, includes-Contains}
use openclaw_control_plane.Proof.Paths.{normalize_path_lem, is_allowed_start_command}
use openclaw_control_plane.Proof.Snapshot.{
  ProofSourceFiles, ProofExpectations, ProofServiceSource, ProofServiceRuntimeSettings,
  ProofDeployment, ProofDomain, ProofEndpointStatuses, ProofSnapshot, ProofCheck,
}
use openclaw_control_plane.Proof.{
  is_active, is_set, source_checks, service_checks, runtime_checks, deployment_checks,
  commit_checks, active_checks, domain_checks, endpoint_checks, optional, is_not_from, served,
  verify_openclaw_railway_proof,
}
use openclaw_control_plane.Proof.Facts.{
  Optional, SourceFacts, IsUnset, ServiceFacts, RuntimeFacts, DeploymentFacts, DomainFacts,
  IsServed, EndpointFacts, IsProven,
}

abbrev Pass : List ProofCheck → Type 0
Pass checks = every (λ c. c.ok) checks ≡ true

source_lem : (f : ProofSourceFiles) → Pass (source_checks f) ↔ SourceFacts f
unfolding source_checks
source_lem f = (
  λ h. record {
    builder = (includes-Contains _ _).0 (ground arith);
    healthcheck = (includes-Contains _ _).0 (ground arith);
    mount = (includes-Contains _ _).0 (ground arith);
    pinned = (includes-Contains _ _).0 (ground arith);
    upstream = (includes-Contains _ _).0 (ground arith);
    copied = (includes-Contains _ _).0 (ground arith);
  },
  λ k.
      let a = (includes-Contains _ _).1 k.builder in
      let b = (includes-Contains _ _).1 k.healthcheck in
      let c = (includes-Contains _ _).1 k.mount in
      let d = (includes-Contains _ _).1 k.pinned in
      let e = (includes-Contains _ _).1 k.upstream in
      let g = (includes-Contains _ _).1 k.copied in ground arith,
)

unset_lem : (o : Option String) → (not (is_set o) ≡ true) ↔ IsUnset o
unfolding is_set
unset_lem none = (λ h. inl refl, λ k. refl)
unset_lem (some s) = (λ h. ground arith, λ k. ground arith)

not_from_lem :
    (o : Option String) (repo : String)
    → (is_not_from o repo ≡ true) ↔ Optional o (λ url. ¬ Contains url repo)
not_from_lem none repo = (λ h. tt, λ k. refl)
not_from_lem (some url) repo = (
  λ h c. let found = (includes-Contains url repo).1 c in ground arith,
  λ k. elim (Bool-cases (includes url repo)) [
    | inl e ↦ absurd (k ((includes-Contains url repo).0 e))
    | inr e ↦ ground arith
  ],
)

served_lem : (n : ℕ) → (contains served n ≡ true) ↔ IsServed n
served_lem n = (λ h. ground arith, λ k. ground arith)

endpoint_lem : (s : ProofEndpointStatuses) → Pass (endpoint_checks s) ↔ EndpointFacts s
unfolding endpoint_checks
endpoint_lem s = (
  λ h. record {
    health = ground arith;
    setup = (served_lem s.setup).0 (ground arith);
    openclaw = (served_lem s.openclaw).0 (ground arith);
  },
  λ k.
      let a = (served_lem s.setup).1 k.setup in
      let b = (served_lem s.openclaw).1 k.openclaw in let c = k.health in ground arith,
)

service_lem :
    (f : ProofSourceFiles) (e : ProofExpectations) (s : ProofServiceSource)
    → Pass (service_checks f e s) ↔ ServiceFacts f e s
unfolding service_checks
service_lem f e s = (
  λ h. record {
    repo = ground arith;
    image = (unset_lem s.image).0 (ground arith);
    upstream = (not_from_lem s.upstream_url f.template_lock.upstream_repo).0 (ground arith);
  },
  λ k.
      let a = k.repo in
      let b = (unset_lem s.image).1 k.image in
      let c = (not_from_lem s.upstream_url f.template_lock.upstream_repo).1 k.upstream in
      ground arith,
)

runtime_lem : (r : ProofServiceRuntimeSettings) → Pass (runtime_checks r) ↔ RuntimeFacts r
unfolding runtime_checks is_allowed_start_command
runtime_lem r = (
  λ h. record {
    builder = ground arith;
    root = let whole = normalize_path_lem r.root_directory in ground arith;
    config = ground arith;
    dockerfile = ground arith;
    healthcheck = ground arith;
    start = ground arith;
  },
  λ k.
      let a = k.builder in
      let b = k.root in
      let c = k.config in
      let d = k.dockerfile in let e = k.healthcheck in let g = k.start in ground arith,
)

commit_lem :
    (expected : Option String) (d : ProofDeployment)
    → Pass (commit_checks expected d) ↔ (IsUnset expected ⊎ (d.commit_hash ≡ expected))
unfolding commit_checks is_set
commit_lem none d = (λ h. inl (inl refl), λ k. refl)
commit_lem (some text) d = (λ h. ground arith, λ k. ground arith)

deployment_lem :
    (f : ProofSourceFiles) (e : ProofExpectations) (d : ProofDeployment)
    → Pass (deployment_checks f e d) ↔ DeploymentFacts f e d
unfolding deployment_checks
deployment_lem f e d = (
  λ h. record {
    status = ground arith;
    repo = ground arith;
    own = λ same. ground arith;
    branch = ground arith;
    commit = (commit_lem e.expected_commit d).0 (ground arith);
  },
  λ k.
      let a = k.status in
      let b = k.repo in
      let c = k.own in
      let g = k.branch in let l = (commit_lem e.expected_commit d).1 k.commit in ground arith,
)

active_lem :
    (e : ProofExpectations) (domains : List ProofDomain) (active : Option ProofDomain)
    → find is_active domains ≡ active
    → Pass (active_checks e active) ↔ DomainFacts e domains
unfolding active_checks
active_lem e domains none p = (λ h. cc, λ k. let found = k.first in cc)
active_lem e domains (some d) p = (
  λ h. record { active = d; first = p; port = ground arith },
  λ k.
      let same : k.active ≡ d = cc (k.first, p) in
      let port = subst (λ x. x.target_port ≡ some e.target_port) same k.port in ground arith,
)

domain_lem :
    (e : ProofExpectations) (domains : List ProofDomain)
    → Pass (domain_checks e domains) ↔ DomainFacts e domains
unfolding domain_checks
domain_lem e domains = active_lem e domains (find is_active domains) refl

optional_lem :
    {A : Type 0} (checks : A → List ProofCheck) {P : A → Type 0}
    → ((a : A) → Pass (checks a) ↔ P a)
    → (o : Option A) → Pass (optional o checks) ↔ Optional o P
optional_lem checks k none = (λ h. tt, λ h. refl)
optional_lem checks k (some a) = k a

split :
    {P Q : Type 0} (xs ys : List ProofCheck) → Pass xs ↔ P → Pass ys ↔ Q → Pass (xs ++ ys) ↔ (P × Q)
split xs ys p q = (
  λ h. let both = sym (every-append _ xs ys) ∙ h in (p.0 (ground arith), q.0 (ground arith)),
  λ (a, b). let left = p.1 a in let right = q.1 b in every-append _ xs ys ∙ ground arith,
)

-- A verification of a proof passes just where everything that the snapshot has a part for is as it
-- should be: the files build the pinned template with its health check and its volume; the service
-- is sourced from the public repository, and from no image; its runtime settings lead to the same
-- files and override nothing; the last deployment is a successful one of the expected branch and
-- commit of the public repository, which is not the template's; the first domain that is active
-- leads to the wrapper's port; and the routes answer.
pub verify_openclaw_railway_proof-IsProven :
    (s : ProofSnapshot) (e : ProofExpectations)
    → ((verify_openclaw_railway_proof s e).ok ≡ true) ↔ IsProven s e
unfolding verify_openclaw_railway_proof
verify_openclaw_railway_proof-IsProven s e =
    let f = s.source_files in
    let endpoints = optional s.endpoints endpoint_checks in
    let domains = optional s.domains (domain_checks e) in
    let deployment = optional s.latest_deployment (deployment_checks f e) in
    let runtime = optional s.service_runtime runtime_checks in
    let service = optional s.service_source (service_checks f e) in
    let whole =
      split (source_checks f) (service ++ (runtime ++ (deployment ++ (domains ++ endpoints))))
        (source_lem f)
        (split service (runtime ++ (deployment ++ (domains ++ endpoints)))
          (optional_lem (service_checks f e) (service_lem f e) s.service_source)
          (split runtime (deployment ++ (domains ++ endpoints))
            (optional_lem runtime_checks runtime_lem s.service_runtime)
            (split deployment (domains ++ endpoints)
              (optional_lem (deployment_checks f e) (deployment_lem f e) s.latest_deployment)
              (split domains endpoints (optional_lem (domain_checks e) (domain_lem e) s.domains)
                (optional_lem endpoint_checks endpoint_lem s.endpoints))))) in
    (
      λ h.
          let (a, (b, (c, (d, (g, l))))) = whole.0 h in
          record {
            source = a;
            service = b;
            runtime = c;
            deployment = d;
            domains = g;
            endpoints = l;
          },
      λ k. whole.1 (k.source, (k.service, (k.runtime, (k.deployment, (k.domains, k.endpoints))))),
    )
