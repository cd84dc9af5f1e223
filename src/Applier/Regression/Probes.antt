-- ===== src/Applier/Regression/Probes.antt =====
-- The probes of `runRegressionCheck` between the mint and the deletion, and the deletion.
use openclaw_control_plane.Common.{
  false, String, true, Option, none, some, ◌∷◌, nat_eq, bool_eq, option_eq, ◌≡◌, refl, sym, ap,
  subst, ◌⊎◌, inl, inr, arith, Bool-cases,
}
use openclaw_control_plane.Json.{Json}
use openclaw_control_plane.Effects.{done}
use openclaw_control_plane.Effects.Errors.{Error}
use openclaw_control_plane.Effects.Platform.{
  Env, Event, fetched, Trace, Response, is_ok, ok, SetupAuth,
}
use openclaw_control_plane.Effects.Reads.{IsRead, got, Extends, same, more}
use openclaw_control_plane.Effects.Triple.{
  Triple, Keeps, Triple-pure, Triple-throw, Triple-if, Triple-require, Triple-bind, Triple-try,
  Triple-fetch, Triple-error, Triple-given,
}
use openclaw_control_plane.Railway.Calls.{Triple-write_railway_variable}
use openclaw_control_plane.Client.Footprint.{write_event}
use openclaw_control_plane.Instance.Answers.{Keeps-member}
use openclaw_control_plane.Profile.{
  MintKeyRequest, MintedOpenRouterKey, mint_request, delete_request, minted_of, mint_openrouter_key,
  delete_openrouter_key, get_status, is_configured,
}
use openclaw_control_plane.Applier.Regression.{
  RegressionCheckOptions, Checks, checks_passed, seen, is_none, healthz_request, check_health,
  run_checks, try_delete,
}
use openclaw_control_plane.Applier.Preparation.{status_event, Triple-status}

-- What happens between the mint and the deletion: the key is written to the service, without a
-- deployment, and the instance is read.
pub data IsProbe (name service key : String) : Event → Type 0 where
  probing : {e : Event} → IsRead e → IsProbe name service key e
  storing : IsProbe name service key (write_event name key service)

-- The deletion of a key was answered with success, at a trace.
pub record IsDeleted (env : Env) (management_key hash : String) (t : Trace) : Type 0 where
  pub response : Response
  pub answered : env.fetch t (delete_request management_key hash) ≡ ok response
  pub success : is_ok response ≡ true

abbrev pub setup_auth : RegressionCheckOptions → Option SetupAuth
setup_auth o = some (record { username = o.setup_username; password = o.setup_password })

abbrev pub probe_event : Env → RegressionCheckOptions → Event
probe_event env o = status_event env o.instance_base_url (setup_auth o)

-- From `t`, the key was written, the status was read and reported configured, and the health check
-- was answered with 200.
pub record IsSound (env : Env) (o : RegressionCheckOptions) (name key : String) (t u : Trace)
    : Type 0 where
  pub status : Json
  pub reported :
      get_status env o.instance_base_url (setup_auth o) (write_event name key o.service ∷ t)
      ≡ done status (probe_event env o ∷ write_event name key o.service ∷ t)
  pub configured : is_configured status ≡ true
  pub response : Response
  pub answered :
      env.fetch
        (probe_event env o ∷ write_event name key o.service ∷ t)
        (healthz_request o.instance_base_url)
      ≡ ok response
  pub healthy : response.status ≡ 200
  pub last :
      u
      ≡ fetched (healthz_request o.instance_base_url)
        ∷ probe_event env o
        ∷ write_event name key o.service
        ∷ t

module _ (env : Env) where
  pub Keeps-minted_of : {P : Trace → Type 0} (r : Response) → Keeps P (minted_of env r)
  unfolding minted_of
  Keeps-minted_of r =
      Triple-if (is_ok r)
        (λ _. Triple-bind (Triple-require r.body _ (λ a t e h. h) (λ t e h. h)) (λ body.
          Triple-bind (Keeps-member env _ body) (λ key.
            Triple-bind (Triple-require _ _ (λ a t e h. h) (λ t e h. h)) (λ secret.
              Triple-bind (Triple-require _ _ (λ a t e h. h) (λ t e h. h))
                (λ hash. Triple-pure _ (λ t h. h))))))
        (λ _. Triple-throw _ (λ t h. h))

  pub Triple-mint :
      {P Q : Trace → Type 0} (key : String) (r : MintKeyRequest)
      → ((t : Trace) → P t → Q (fetched (mint_request key r) ∷ t))
      → Triple P (mint_openrouter_key env key r) (λ _. Q) (λ _. Q)
  unfolding mint_openrouter_key
  Triple-mint {Q} key r enter =
      Triple-bind {Q = λ _. Q} (Triple-fetch env _ (λ a t e h. enter t h) (λ s t h. enter t h))
        (λ a. Keeps-minted_of a)

  -- The deletion is requested after `before`; where it has no error, it was answered with success.
  abbrev pub Asked : (P : Trace → Type 0) (key hash : String) → Option Error → Trace → Type 0
  Asked P key hash failure u =
      (before : Trace) × P before
      × (u ≡ fetched (delete_request key hash) ∷ before)
      × ((is_none failure ≡ false) ⊎ IsDeleted env key hash before)

  abbrev Sent : (P : Trace → Type 0) (key hash : String) → Trace → Type 0
  Sent P key hash u = (before : Trace) × P before × (u ≡ fetched (delete_request key hash) ∷ before)

  pub Triple-delete :
      {P : Trace → Type 0} (key hash : String)
      → Triple P (try_delete env key hash) (Asked P key hash) (λ _ t. ⊥)
  unfolding try_delete delete_openrouter_key
  Triple-delete {P} key hash =
      Triple-try {F = λ _. Sent P key hash}
        (Triple-bind
          {Q = λ _ u.
            (before : Trace) × P before
            × (u ≡ fetched (delete_request key hash) ∷ before)
            × IsDeleted env key hash before}
          (Triple-bind
            {Q = λ r u.
              (before : Trace) × P before
              × (u ≡ fetched (delete_request key hash) ∷ before)
              × (env.fetch before (delete_request key hash) ≡ ok r)}
            (Triple-fetch env _ (λ r t e h. (t, h, refl, e)) (λ s t h. (t, h, refl)))
            (λ r.
              Triple-if (is_ok r)
                (λ yes. Triple-pure tt (λ u (before, h, l, e).
                  (before, h, l, record { response = r; answered = e; success = yes })))
                (λ _. Triple-throw _ (λ u (before, h, l, e). (before, h, l)))))
          (λ _. Triple-pure none (λ u (before, h, l, d). (before, h, l, inr d))))
        (λ e. Triple-pure _ (λ u (before, h, l). (before, h, l, inl refl)))

  module _ (o : RegressionCheckOptions) (name key : String) (t : Trace) where
    abbrev pub Probed : Trace → Type 0
    Probed u = Extends (IsProbe name o.service key) t u

    abbrev stored : Trace
    stored = write_event name key o.service ∷ t

    abbrev reported : Trace
    reported = probe_event env o ∷ stored

    abbrev checked : Trace
    checked = fetched (healthz_request o.instance_base_url) ∷ reported

    Probed-stored : Probed stored
    Probed-stored = more storing same

    Probed-reported : Probed reported
    Probed-reported = more (probing got) Probed-stored

    Probed-at : {x : Trace} (u : Trace) → u ≡ x → Probed x → Probed u
    Probed-at u e h = subst Probed (sym e) h

    -- What the checks found, and what it means.
    abbrev pub Found : Checks → Trace → Type 0
    Found c u = Probed u × ((checks_passed c ≡ false) ⊎ IsSound env o name key t u)

    sound_lem :
        (status : Json) (r : Response) (u : Trace)
        → get_status env o.instance_base_url (setup_auth o) stored ≡ done status reported
        → env.fetch reported (healthz_request o.instance_base_url) ≡ ok r
        → u ≡ checked
        → (checks_passed (seen (is_configured status) r.status) ≡ false)
          ⊎ IsSound env o name key t u
    unfolding checks_passed
    sound_lem status r u run answer last =
        elim (Bool-cases (checks_passed (seen (is_configured status) r.status))) [
          | inl e ↦ inr (record {
            status = status;
            reported = run;
            configured = ground (arith, e);
            response = r;
            answered = answer;
            healthy = ground (arith, e);
            last = last;
          })
          | inr e ↦ inl e
        ]

    Triple-check_health :
        (status : Json)
        → get_status env o.instance_base_url (setup_auth o) stored ≡ done status reported
        → Triple
            (λ u. u ≡ reported)
            (check_health env o.instance_base_url (is_configured status))
            Found
            (λ _ u. ⊥)
    unfolding check_health checks_passed
    Triple-check_health status run =
        Triple-try {F = λ _. Probed}
          (Triple-bind
            {Q = λ r u.
              (u ≡ checked) × (env.fetch reported (healthz_request o.instance_base_url) ≡ ok r)}
            (Triple-fetch env _
              (λ r u e h. (
                ap (λ x. fetched (healthz_request o.instance_base_url) ∷ x) h,
                subst (λ x. env.fetch x (healthz_request o.instance_base_url) ≡ ok r) h e,
              ))
              (λ s u h. more (probing got) (Probed-at u h Probed-reported)))
            (λ r. Triple-pure _ (λ u (l, e).
              (Probed-at u l (more (probing got) Probed-reported), sound_lem status r u run e l))))
          (λ e. Triple-pure _ (λ u h. (h, inl (ground arith))))

    -- The checks never throw.
    pub Triple-run_checks :
        (minted : MintedOpenRouterKey)
        → minted.key ≡ key
        → Triple (λ u. u ≡ t) (run_checks env o name minted) Found (λ _ u. ⊥)
    unfolding run_checks checks_passed
    Triple-run_checks minted same_key =
        Triple-try {F = λ _. Probed}
          (Triple-bind {Q = λ _ u. u ≡ stored}
            (Triple-write_railway_variable env name minted.key o.service true
              (λ _ u _ h. cc (h, same_key))
              (λ s u h.
                Probed-at (write_event name minted.key o.service ∷ u) (cc (h, same_key))
                  Probed-stored))
            (λ _.
              Triple-bind
                (Triple-error (λ e u h. Probed-at u h Probed-reported)
                  (Triple-status env o.instance_base_url (setup_auth o) stored))
                (λ status.
                  Triple-given
                    λ run. Triple-error (λ e u h. absurd h) (Triple-check_health status run))))
          (λ e. Triple-pure _ (λ u h. (h, inl (ground arith))))
