-- ===== src/Client/Phases.antt =====
-- The steps of Client.antt against the trace: what only reads, and what the tail after a write does.
use openclaw_control_plane.Common.{
  ℕ, String, true, Option, none, some, ◌≡◌, refl, subst, if◌then◌else◌, ◌==◌, option_eq, string_eq,
  arith, ◌∷◌,
}
use openclaw_control_plane.Effects.Errors.{
  Error, not_answering, read_back_failed, read_back_differs, changed_unverified,
}
use openclaw_control_plane.Effects.Platform.{Env, Trace, command}
use openclaw_control_plane.Effects.Reads.{
  IsStable, variable_list, Quiet, standing, unchanged, unverified,
}
use openclaw_control_plane.Effects.Triple.{
  Triple, Triple-pure, Triple-throw, Triple-if, Triple-bind, Triple-try, Triple-require, Triple-run,
  Triple-error,
}
use openclaw_control_plane.Railway.{variable_list_args}
use openclaw_control_plane.Railway.Calls.{Reads, Triple-read_railway_variable}
use openclaw_control_plane.Railway.Reading.{
  Quiet-list_services, Quiet-list_domains, Quiet-read_railway_variable, Quiet-poll,
  Quiet-wait_for_setup_ready,
}
use openclaw_control_plane.Client.{
  refuse, assert_instance_ready, prior_deployment_id, verify_read_back, redeploy_and_verify,
  redeploy_args, is_ref_verification_error,
}

-- A variable was read last, with this value, from a trace where `P` holds.
pub data Observed (env : Env) (name service : String) (value : Option String) (P : Trace → Type 0)
    : Trace → Type 0 where
  observed :
      {t : Trace}
      → Reads env name service t value
      → P t
      → Observed env name service value P (command (variable_list_args service) none ∷ t)

abbrev pub ReadBack : Env → (name service value : String) → (Trace → Type 0) → Trace → Type 0
ReadBack env name service value P = Observed env name service (some value) P

Observed-IsStable :
    {env : Env} {name service : String} {value : Option String} {P : Trace → Type 0} {t : Trace}
    → IsStable P
    → Observed env name service value P t
    → P t
Observed-IsStable stable (observed w h) = stable.read variable_list h

Observed-ReadBack :
    {env : Env} {name service value : String} {applied : Option String} {P : Trace → Type 0}
    {t : Trace}
    → (applied == some value) ≡ true
    → Observed env name service applied P t
    → ReadBack env name service value P t
Observed-ReadBack {env} {name} {service} {value} {applied} {P} {t} e h =
    let same : applied ≡ some value = ground arith in
    subst (λ v. Observed env name service v P t) same h

not_answering_lem :
    (username : String) (context : Option String) (cause : Error)
    → standing cause ≡ unchanged
    → standing (elim context [ none ↦ cause | some text ↦ not_answering text username cause ])
      ≡ unchanged
not_answering_lem username none cause h = h
not_answering_lem username (some text) cause h = refl

unverified_lem :
    (name service : String) (cause : Error)
    → standing
        (if is_ref_verification_error cause then cause else changed_unverified name service cause)
      ≡ unverified
unfolding is_ref_verification_error
unverified_lem name service (read_back_failed n s c) = refl
unverified_lem name service (read_back_differs n s a) = refl
unverified_lem name service _ = refl

module _ (env : Env) {P : Trace → Type 0} (stable : IsStable P) where
  pub Quiet-assert_instance_ready :
      (service : String) (setup_username : Option String) (poll_seconds timeout_minutes : ℕ)
      (context : Option String)
      → Quiet P
          (assert_instance_ready env service setup_username poll_seconds timeout_minutes context)
  unfolding assert_instance_ready
  Quiet-assert_instance_ready service setup_username poll_seconds timeout_minutes context =
      Triple-bind (Quiet-read_railway_variable env stable _ service) (λ value.
        Triple-bind (Triple-require _ _ (λ a t e h. h) (λ t e h. (h, refl))) (λ password.
          Triple-bind (Quiet-list_domains env stable service) (λ domains.
            Triple-bind (Triple-require _ _ (λ a t e h. h) (λ t e h. (h, refl))) (λ domain.
              Triple-try (Quiet-wait_for_setup_ready env stable _ _ _ _)
                (λ cause. Triple-throw _ (λ t (h, u). (h, not_answering_lem _ context cause u)))))))

  pub Quiet-prior_deployment_id :
      (name service : String) → Quiet P (prior_deployment_id env name service)
  unfolding prior_deployment_id
  Quiet-prior_deployment_id name service =
      Triple-bind (Quiet-list_services env stable)
        (λ services. Triple-require _ _ (λ a t e h. h) (λ t e h. (h, refl)))

  -- The last event of a verification that passes is the read that found the value.
  Triple-verify_read_back :
      (name value service : String)
      → Triple P
          (verify_read_back env name value service)
          (λ _. ReadBack env name service value P)
          (λ _. P)
  unfolding verify_read_back
  Triple-verify_read_back name value service =
      Triple-bind {Q = λ applied. Observed env name service applied P}
        (Triple-try {F = λ _. P}
          (Triple-read_railway_variable env name service (λ v t w h. observed w h)
            (λ s t h. stable.read variable_list h))
          (λ cause. Triple-throw _ (λ t h. h)))
        (λ applied.
          Triple-if (applied == some value) (λ e. Triple-pure tt (λ t h. Observed-ReadBack e h))
            (λ _. Triple-throw _ (λ t h. Observed-IsStable stable h)))

  -- After the write: one redeploy, then reads. A failure says that the change is not confirmed.
  pub Triple-redeploy_and_verify :
      {P₀ : Trace → Type 0} (name value service : String) (setup_username : Option String)
      (poll_seconds timeout_minutes : ℕ) (prior : String)
      → ((t : Trace) → P₀ t → P (command (redeploy_args service) none ∷ t))
      → Triple P₀
          (redeploy_and_verify env name value service setup_username poll_seconds timeout_minutes
            prior)
          (λ _. ReadBack env name service value P)
          (λ e t. P t × (standing e ≡ unverified))
  unfolding redeploy_and_verify
  Triple-redeploy_and_verify name value service setup_username poll_seconds timeout_minutes prior
        enter =
      Triple-try {F = λ _. P}
        (Triple-bind {Q = λ _. P} (Triple-run env _ _ (λ s t e h. enter t h) (λ s t h. enter t h))
          (λ stdout.
            Triple-bind (Triple-error (λ e t h. h.0) (Quiet-poll env stable service _ _ _))
              (λ rolled.
                Triple-bind
                  (Triple-error (λ e t h. h.0) (Quiet-assert_instance_ready service _ _ _ _))
                  (λ _. Triple-verify_read_back name value service))))
        (λ cause. Triple-throw _ (λ t h. (h, unverified_lem name service cause)))

pub Triple-refuse :
    {P : Trace → Type 0} (o : Option Error)
    → Triple P (refuse o) (λ _ t. P t × (o ≡ none)) (λ e t. P t × (o ≡ some e))
unfolding refuse
Triple-refuse none = Triple-pure tt (λ t h. (h, refl))
Triple-refuse (some e) = Triple-throw e (λ t h. (h, refl))
