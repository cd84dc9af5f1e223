-- ===== src/TemplateLock/Validation.antt =====
-- Which lock files pass.
use openclaw_control_plane.Common.{
  String, Bool, true, false, Option, some, ◌≡◌, refl, string_eq, and_then, ◌↔◌,
}
use openclaw_control_plane.Json.{Json, get_of}
use openclaw_control_plane.Effects.{done, pure, require, ◌>>=◌}
use openclaw_control_plane.Effects.Errors.{Error}
use openclaw_control_plane.Effects.Platform.{Trace}
use openclaw_control_plane.Effects.Triple.{
  Triple, Triple-pure, Triple-throw, Triple-if, Triple-require, Triple-bind, Triple-given,
  Triple-done,
}
use openclaw_control_plane.TemplateLock.{
  TemplateLock, is_sha, is_object, text_field, is_flag, check, parse_template_lock,
}

Triple-check :
    {P : Trace → Type 0} (b : Bool) (message : String)
    → Triple P (check b message) (λ _ t. P t × (b ≡ true)) (λ _. P)
unfolding check
Triple-check b message =
    Triple-if b (λ e. Triple-pure tt (λ t h. (h, e))) (λ _. Triple-throw _ (λ t h. h))

Triple-demand :
    {A : Type 0} {P : Trace → Type 0} (o : Option A) (e : Error)
    → Triple P (require o e) (λ a t. P t × (o ≡ some a)) (λ _. P)
Triple-demand o e = Triple-require o e (λ a t w h. (h, w)) (λ t w h. h)

-- A lock that a candidate holds, with the policy that the proof instances need.
pub record IsLockOf (candidate : Json) (lock : TemplateLock) : Type 0 where
  pub object : is_object candidate ≡ true
  pub template : text_field "template" (some candidate) ≡ some lock.template
  pub repo : text_field "upstreamRepo" (some candidate) ≡ some lock.upstream_repo
  pub branch : text_field "upstreamBranch" (some candidate) ≡ some lock.upstream_branch
  pub ref : text_field "upstreamRef" (some candidate) ≡ some lock.upstream_ref
  pub commit : text_field "pinnedCommit" (some candidate) ≡ some lock.pinned_commit
  pub sha : is_sha lock.pinned_commit ≡ true
  pub approved : (s : String) × (text_field "approvedBranch" (get_of "mirror" candidate) ≡ some s)
  pub status : (s : String) × (text_field "status" (get_of "mirror" candidate) ≡ some s)
  pub mirrored :
      is_flag true
        (and_then (get_of "mirror" candidate) (get_of "requiredForImmutableProofInstance"))
      ≡ true
  pub cadence : (s : String) × (text_field "updateCadence" (get_of "policy" candidate) ≡ some s)
  pub manual : is_flag false (and_then (get_of "policy" candidate) (get_of "autoApply")) ≡ true
  pub smoked :
      is_flag true (and_then (get_of "policy" candidate) (get_of "requiresSmokeBeforeBump")) ≡ true

Triple-parse_template_lock :
    (candidate : Json) (t : Trace)
    → Triple
        (λ u. u ≡ t)
        (parse_template_lock candidate)
        (λ lock u. IsLockOf candidate lock)
        (λ _ u. u ≡ t)
unfolding parse_template_lock
Triple-parse_template_lock candidate t = Triple-bind (Triple-check _ _) (λ _. Triple-given λ object.
    Triple-bind (Triple-demand _ _) (λ template. Triple-given λ e1.
      Triple-bind (Triple-demand _ _) (λ repo. Triple-given λ e2.
        Triple-bind (Triple-demand _ _) (λ branch. Triple-given λ e3.
          Triple-bind (Triple-demand _ _) (λ ref. Triple-given λ e4.
            Triple-bind (Triple-demand _ _) (λ commit. Triple-given λ e5.
              Triple-bind (Triple-check _ _) (λ _. Triple-given λ sha.
                Triple-bind (Triple-demand _ _) (λ approved. Triple-given λ e6.
                  Triple-bind (Triple-demand _ _) (λ status. Triple-given λ e7.
                    Triple-bind (Triple-check _ _) (λ _. Triple-given λ mirrored.
                      Triple-bind (Triple-demand _ _) (λ cadence. Triple-given λ e8.
                        Triple-bind (Triple-check _ _) (λ _. Triple-given λ manual.
                          Triple-bind (Triple-check _ _) (λ _. Triple-given λ smoked.
                            Triple-pure _ (λ u h. record {
                              object = object;
                              template = e1;
                              repo = e2;
                              branch = e3;
                              ref = e4;
                              commit = e5;
                              sha = sha;
                              approved = (approved, e6);
                              status = (status, e7);
                              mirrored = mirrored;
                              cadence = (cadence, e8);
                              manual = manual;
                              smoked = smoked;
                            }))))))))))))))

-- A candidate is accepted as a lock just when it holds that lock, with a pinned commit of 40 hex
-- digits, a required mirror, no automatic updates and a smoke before each bump.
pub parse_template_lock-IsLockOf :
    (candidate : Json) (lock : TemplateLock) (t : Trace)
    → parse_template_lock candidate t ≡ done lock t ↔ IsLockOf candidate lock
unfolding parse_template_lock ◌>>=◌ require check pure
parse_template_lock-IsLockOf candidate lock t = (
  λ e. Triple-done (Triple-parse_template_lock candidate t) refl e,
  λ h. rw h.object (
      rw h.template (
        rw h.repo (
          rw h.branch (
            rw h.ref (
              rw h.commit (
                rw h.sha (
                  rw h.approved.1 (
                    rw h.status.1
                      (rw h.mirrored (rw h.cadence.1 (rw h.manual (rw h.smoked refl)))))))))))),
)
