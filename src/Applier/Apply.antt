-- ===== src/Applier/Apply.antt =====
-- What `applyProfile` does, by how it returns.
use openclaw_control_plane.Common.{
  false, String, true, Option, none, ◌∷◌, ◌≡◌, refl, sym, ap, subst, ◌⊎◌, inl, inr, string_eq,
  option_eq, nat_eq,
}
use openclaw_control_plane.Json.{Json}
use openclaw_control_plane.Effects.{done, threw}
use openclaw_control_plane.Effects.Platform.{Env, command, Trace, SetupAuth, Reply}
use openclaw_control_plane.Effects.Reads.{got, variable_list, same, more}
use openclaw_control_plane.Effects.Triple.{
  Triple, Triple-pure, Triple-throw, Triple-if, Triple-await, Triple-bind, Triple-fetch,
  Triple-error, Triple-given, Triple-threw, Triple-weaken,
}
use openclaw_control_plane.Railway.{variable_list_args, list_railway_variables}
use openclaw_control_plane.Railway.Calls.{Triple-query}
use openclaw_control_plane.Profile.{ClientProfile, get_status, run_setup, is_configured}
use openclaw_control_plane.Applier.{
  ApplyOptions, already_configured, applied, ApplyResult, run_and_confirm, configure, apply_profile,
}
use openclaw_control_plane.Applier.Failed.{Failed, unprepared, prepared, ran, Failed-at}
use openclaw_control_plane.Effects.Errors.{Error}
use openclaw_control_plane.Applier.Provider.{idle, Triple-resolve_provider}
use openclaw_control_plane.Applier.Preparation.{
  status_event, run_event, Listed, Prepared, Prepared-IsStable, Triple-status,
  Keeps-wait_for_healthy, Keeps-setup_answer, Keeps-checked, Keeps-sole_provider,
  Keeps-resolve_channels,
}

-- An applied profile: from `t`, the status was read, the secrets were prepared, the setup was run
-- once, and as the last event of the run the status was read again, and reported configured.
pub record IsApplied (env : Env) (base : String) (auth : Option SetupAuth)
    (management_key service : String) (t : Trace) (hash : Option String) (u : Trace) : Type 0 where
  pub payload : Json
  pub before : Trace
  pub prepared : Prepared env management_key service (status_event env base auth ∷ t) hash before
  pub status : Json
  pub confirmed :
      get_status env base auth (run_event env base auth payload ∷ before) ≡ done status u
  pub configured : is_configured status ≡ true
  pub last : u ≡ status_event env base auth ∷ run_event env base auth payload ∷ before

-- How a run from `t` that returns left the instance, by what the status that it read first says.
abbrev pub Outcome :
    Env
    → (base : String) → Option SetupAuth
    → (management_key service : String) → Trace
    → ApplyResult
    → Trace
    → Type 0
Outcome env base auth management_key service t r u =
    (status : Json) × (get_status env base auth t ≡ done status (status_event env base auth ∷ t))
    × (((is_configured status ≡ true)
          × (r ≡ record { outcome = already_configured; minted_key_hash = none })
          × (u ≡ status_event env base auth ∷ t))
        ⊎ ((is_configured status ≡ false)
            × (r.outcome ≡ applied)
            × IsApplied env base auth management_key service t r.minted_key_hash u))

module _ (env : Env) (base : String) (auth : Option SetupAuth) (key : String) where
  -- What a run that throws has done.
  abbrev Fails : (service : String) → Trace → Error → Trace → Type 0
  Fails service t e u = Failed env base auth key service t u

  Triple-run_and_confirm :
      (service : String) (t : Trace) (hash : Option String) (payload : Json)
      → Triple
          (Prepared env key service (status_event env base auth ∷ t) hash)
          (run_and_confirm env base auth payload)
          (λ _ u. IsApplied env base auth key service t hash u)
          (Fails service t)
  unfolding run_and_confirm run_setup
  Triple-run_and_confirm service t hash payload = record { at = λ w h. (confirm w h).at w refl }
    where
      stopped :
          (w : Trace)
          → Prepared env key service (status_event env base auth ∷ t) hash w
          → (u : Trace) → u ≡ run_event env base auth payload ∷ w
          → Failed env base auth key service t u
      stopped w h u k = Failed-at u k (ran hash payload h same)

      reported :
          (w : Trace)
          → Prepared env key service (status_event env base auth ∷ t) hash w
          → (u : Trace) → u ≡ status_event env base auth ∷ run_event env base auth payload ∷ w
          → Failed env base auth key service t u
      reported w h u k = Failed-at u k (ran hash payload h (more got same))

      confirm :
          (w : Trace)
          → Prepared env key service (status_event env base auth ∷ t) hash w
          → Triple
              (λ u. u ≡ w)
              (run_and_confirm env base auth payload)
              (λ _ u. IsApplied env base auth key service t hash u)
              (Fails service t)
      confirm w h =
          Triple-bind {Q = λ _ u. u ≡ run_event env base auth payload ∷ w}
            (Triple-bind {Q = λ _ u. u ≡ run_event env base auth payload ∷ w}
              (Triple-fetch env _ (λ r u e k. ap (λ x. run_event env base auth payload ∷ x) k)
                (λ s u k.
                  stopped w h (run_event env base auth payload ∷ u)
                    (ap (λ x. run_event env base auth payload ∷ x) k)))
              (λ r. Triple-error (λ e u k. stopped w h u k) (Keeps-setup_answer env _ _ r)))
            (λ answer.
              Triple-bind (Triple-error (λ e u k. reported w h u k) (Triple-status env base auth _))
                (λ s. Triple-given λ run.
                  Triple-if (is_configured s)
                    (λ yes. Triple-pure tt (λ u k. record {
                      payload = payload;
                      before = w;
                      prepared = h;
                      status = s;
                      confirmed =
                          subst
                            (λ x.
                              get_status env base auth (run_event env base auth payload ∷ w)
                              ≡ done s x)
                            (sym k) run;
                      configured = yes;
                      last = k;
                    }))
                    (λ _. Triple-throw _ (λ u k. reported w h u k))))

  -- How a run of the setup that returns left the instance.
  abbrev Configured : (service : String) → Trace → ApplyResult → Trace → Type 0
  Configured service t r u =
      (r.outcome ≡ applied) × IsApplied env base auth key service t r.minted_key_hash u

  Triple-configure :
      (profile : ClientProfile) (o : ApplyOptions) (t : Trace)
      → Triple
          (λ u. u ≡ status_event env base auth ∷ t)
          (configure env base auth key profile o)
          (Configured o.service t)
          (Fails o.service t)
  unfolding configure list_railway_variables
  Triple-configure profile o t =
      Triple-bind
        {Q = λ variables u.
          (u ≡ command (variable_list_args o.service) none ∷ status_event env base auth ∷ t)
          × Listed env o.service (status_event env base auth ∷ t) variables}
        (Triple-query env _ _
          (λ vs u w h. (
            ap (λ x. command (variable_list_args o.service) none ∷ x) h,
            subst (λ x. Listed env o.service x vs) h w,
          ))
          (λ s u h.
            Failed-at (command (variable_list_args o.service) none ∷ u)
              (ap (λ x. command (variable_list_args o.service) none ∷ x) h)
              (unprepared (more variable_list (more got same)))))
        (λ variables. Triple-given λ w.
          Triple-bind
            (Triple-error (λ e u h. idle env base auth key o.service t variables w u h)
              (Keeps-sole_provider env _))
            (λ provider.
              Triple-bind
                (Triple-resolve_provider env base auth key o.service t variables w provider)
                (λ (fields, redeployed, hash).
                  let stable =
                    Prepared-IsStable env key o.service (status_event env base auth ∷ t) hash in
                  Triple-bind (Triple-error (λ e u h. prepared hash h) (Keeps-checked env _))
                    (λ mappings.
                      Triple-bind
                        (Triple-error (λ e u h. prepared hash h)
                          (Keeps-resolve_channels env _ _ mappings))
                        (λ values.
                          Triple-bind
                            {Q = λ _.
                              Prepared env key o.service (status_event env base auth ∷ t) hash}
                            (Triple-if redeployed
                              (λ _.
                                Triple-error (λ e u h. prepared hash h)
                                  (Keeps-wait_for_healthy env stable _ _ _))
                              (λ _. Triple-pure tt (λ u h. h)))
                            (λ _.
                              Triple-bind (Triple-run_and_confirm o.service t hash _)
                                (λ _. Triple-pure _ (λ u h. (refl, h)))))))))

  Triple-apply :
      (parse : Json → Reply ClientProfile) (candidate : Json) (o : ApplyOptions) (t : Trace)
      → Triple
          (λ u. u ≡ t)
          (apply_profile env parse base auth key candidate o)
          (Outcome env base auth key o.service t)
          (Fails o.service t)
  unfolding apply_profile
  Triple-apply parse candidate o t =
      Triple-bind {Q = λ _ u. u ≡ t}
        (Triple-await _ (λ a u e h. h) (λ s u h. Failed-at u h (unprepared same)))
        (λ profile.
          Triple-bind
            (Triple-error (λ e u h. Failed-at u h (unprepared (more got same)))
              (Triple-status env base auth t))
            (λ s. Triple-given λ run.
              Triple-if (is_configured s)
                (λ yes. Triple-pure _ (λ u h. (s, run, inl (yes, refl, h))))
                (λ not_yet.
                  Triple-weaken (λ r u (h, k). (s, run, inr (not_yet, h, k))) (λ e u h. h)
                    (Triple-configure profile o t))))

-- An application that throws has done nothing but reading; or, after reads, it has asked for a key
-- as its last act, or has sent the write of a key that was minted, under the key's name, as its
-- last act; or it has made the preparation of an application that returns, and then either only
-- read, or run the setup once and then only read.
pub apply_profile-Failed :
    (env : Env) (parse : Json → Reply ClientProfile) (base : String) (auth : Option SetupAuth)
    (management_key : String) (candidate : Json) (o : ApplyOptions) (t u : Trace) (e : Error)
    → apply_profile env parse base auth management_key candidate o t ≡ threw e u
    → Failed env base auth management_key o.service t u
apply_profile-Failed env parse base auth key candidate o t u e h =
    Triple-threw (Triple-apply env base auth key parse candidate o t) refl h
