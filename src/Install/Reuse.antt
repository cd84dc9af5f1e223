-- ===== src/Install/Reuse.antt =====
-- What a run of `installOpenClawOnRailway` deploys.
use openclaw_control_plane.Common.{
  String, Bool, true, false, Option, none, some, List, ◌∷◌, ◌≡◌, refl, sym, ap, subst, ◌⊎◌, inl,
  inr, arith, string_eq, option_eq, ◌==◌,
}
use openclaw_control_plane.Effects.{done}
use openclaw_control_plane.Effects.Errors.{Error}
use openclaw_control_plane.Effects.Platform.{Env, command, Trace, InstallerService}
use openclaw_control_plane.Effects.Reads.{service_list, Extends, Extends-trans, same, more}
use openclaw_control_plane.Effects.Triple.{
  Triple, Keeps, Triple-pure, Triple-throw, Triple-if, Triple-require, Triple-bind, Triple-run,
  Triple-error, Triple-done, Triple-given, Triple-and, Triple-assume, Triple-write_file,
}
use openclaw_control_plane.Railway.{
  service_list_args, list_services, find_template_service, deployment_status,
}
use openclaw_control_plane.Railway.Calls.{Triple-query}
use openclaw_control_plane.Railway.Poll.{
  find_template_service-name, poll_service_until_success-IsRolledOver,
}
use openclaw_control_plane.Railway.Reading.{Quiet-poll, Quiet-wait_for_setup_ready}
use openclaw_control_plane.Install.{
  RequiredOptions, reuse_service, deploy_service, acquire_service, configure_service,
  write_env_local, write_handoff, write_local_files, install_resolved,
}
use openclaw_control_plane.Install.Handoff.{InstallResult}
use openclaw_control_plane.Provision.Gentle.{
  IsGentle, settling, saving, IsGentleStable, every_host, still, Keeps-patch_allowed_origins,
  Keeps-approve_own_device_pairing, Keeps-save_entries,
}
use openclaw_control_plane.Provision.Settling.{reading, stable, Keeps-ensure_domain_port}
use openclaw_control_plane.Install.Shape.{deploy_event, Lists, scope_of, Reused, Deployed}

module _ (env : Env) (o : RequiredOptions) (host : String) {P : Trace → Type 0}
    (s : IsGentleStable (scope_of o host) P) where
  open s use {gentle}

  Keeps-write_local_files : (r : InstallResult) → Keeps P (write_local_files env o r)
  unfolding write_local_files write_env_local write_handoff
  Keeps-write_local_files r =
      Triple-if o.write_local_files
        (λ _. Triple-bind (Keeps-save_entries env s _ _ (inl refl)) (λ _.
          Triple-bind (Triple-require _ _ (λ a t e h. h) (λ t e h. h)) (λ approval.
            Triple-write_file env _ _ (λ x t h. gentle (saving (inr refl)) h)
              (λ x t h. gentle (saving (inr refl)) h))))
        (λ _. Triple-pure tt (λ t h. h))

-- What the configuration leaves, by the host of the domain, which the result tells.
module _ (env : Env) (o : RequiredOptions) {Q : String → Trace → Type 0}
    (s : (host : String) → IsGentleStable (scope_of o host) (Q host)) where
  Keeps-configure_service :
      (service : InstallerService) (reused : Bool)
      → service.name ≡ o.service
      → Triple
          (λ t. (host : String) → Q host t)
          (configure_service env o service reused)
          (λ r t. Q r.domain t × (r.reused_existing_service ≡ reused))
          (λ _ t. (host : String) × Q host t)
  unfolding configure_service
  Keeps-configure_service service reused named =
      Triple-bind
        (Triple-error (λ e t h. ("", h ""))
          (Keeps-ensure_domain_port env (every_host o.service o.env_local_path o.handoff_path s) _ _
            named))
        (λ d.
          Triple-assume (λ t h. h d.domain)
            (Triple-bind
              (Triple-error (λ e t h. (d.domain, h.0))
                (Quiet-wait_for_setup_ready env (still (s d.domain)) _ _ _ _))
              (λ _.
                Triple-bind
                  (Triple-error (λ e t h. (d.domain, h))
                    (Keeps-patch_allowed_origins env (s d.domain) _ _))
                  (λ origins.
                    Triple-bind
                      (Triple-error (λ e t h. (d.domain, h))
                        (Keeps-approve_own_device_pairing env (s d.domain) _))
                      (λ device. Triple-pure _ (λ t h. (h, refl)))))))

module _ (env : Env) (o : RequiredOptions) (t : Trace) where
  abbrev Left : Trace → Type 0
  Left u = (host : String) × (Extends (IsGentle (scope_of o host)) t u ⊎ Deployed env o host t u)

  -- How a run that throws left the project.
  abbrev Halted : Error → Trace → Type 0
  Halted e u = Left u

  abbrev Outcome : Bool → String → Trace → Type 0
  Outcome true host u = Reused env o host t u
  Outcome false host u = Deployed env o host t u

  abbrev Settled : Bool → Trace → Type 0
  Settled reused u = (host : String) → Outcome reused host u

  Outcome-IsGentleStable :
      (reused : Bool) (host : String) → IsGentleStable (scope_of o host) (Outcome reused host)
  Outcome-IsGentleStable true host = record {
    gentle = λ k h. record {
      before = h.before;
      listed = h.listed;
      existing = h.existing;
      found = h.found;
      succeeded = h.succeeded;
      spared = h.spared;
      after = more k h.after;
    };
  }
  Outcome-IsGentleStable false host = record {
    gentle = λ k h. record {
      before = h.before;
      listed = h.listed;
      allowed = h.allowed;
      after = more k h.after;
    };
  }

  Outcome-Halted :
      (reused : Bool) (e : Error) (u : Trace) (host : String) → Outcome reused host u → Halted e u
  Outcome-Halted true e u host h =
      (host, inl (Extends-trans (more (settling (reading service_list)) same) h.after))
  Outcome-Halted false e u host h = (host, inr h)

  Settled-Halted : (reused : Bool) (e : Error) (u : Trace) → Settled reused u → Halted e u
  Settled-Halted reused e u h = Outcome-Halted reused e u "" (h "")

  module _ (before : List InstallerService) (w : Lists env t before) where
    abbrev point : Trace
    point = command service_list_args none ∷ t

    point_halted : (u : Trace) → u ≡ point → Left u
    point_halted u h = (
      "",
      inl (
          subst (Extends (IsGentle (scope_of o "")) t) (sym h)
            (more (settling (reading service_list)) same)),
    )

    Triple-deploy_service :
        (find_template_service before o.service ≡ none) ⊎ (o.force_new ≡ true)
        → Triple
            (λ u. u ≡ point)
            (deploy_service env o)
            (λ s u. Settled false u × (s.name ≡ o.service))
            Halted
    unfolding deploy_service
    Triple-deploy_service allowed =
        Triple-bind {Q = λ _. Settled false}
          (Triple-run env _ _ (λ s u e h. deployed u h) (λ s u h. ("", inr (deployed u h ""))))
          (λ stdout.
            Triple-and
              (λ v s u run.
                (poll_service_until_success-IsRolledOver env o.service none _ _ v u s run).named)
              (Triple-error (λ e u h. Settled-Halted false e u h.0)
                (Quiet-poll env
                  (stable (
                    every_host o.service o.env_local_path o.handoff_path
                      (Outcome-IsGentleStable false)))
                  _ _ _ none)))
      where
        deployed : (u : Trace) → u ≡ point → Settled false (deploy_event env o ∷ u)
        deployed u h host = record {
          before = before;
          listed = w;
          allowed = allowed;
          after =
              subst
                (λ x.
                  Extends (IsGentle (scope_of o host)) (deploy_event env o ∷ point)
                    (deploy_event env o ∷ x))
                (sym h) same;
        }

    Triple-acquire_service :
        (existing : Option InstallerService)
        → find_template_service before o.service ≡ existing
        → Triple
            (λ u. u ≡ point)
            (acquire_service env o existing)
            (λ (s, reused) u. Settled reused u × (s.name ≡ o.service))
            Halted
    unfolding acquire_service reuse_service
    Triple-acquire_service none e =
        Triple-bind (Triple-deploy_service (inl e)) (λ s. Triple-pure _ (λ u h. h))
    Triple-acquire_service (some existing) e =
        Triple-if o.force_new
          (λ forced.
            Triple-bind (Triple-deploy_service (inr forced)) (λ s. Triple-pure _ (λ u h. h)))
          (λ spared.
            Triple-bind {Q = λ s u. Settled true u × (s.name ≡ o.service)}
              (Triple-if (deployment_status existing == some "SUCCESS")
                (λ success. Triple-pure _ (λ u h. (
                  λ host. record {
                    before = before;
                    listed = w;
                    existing = existing;
                    found = e;
                    succeeded = ground arith;
                    spared = spared;
                    after = subst (Extends (IsGentle (scope_of o host)) point) (sym h) same;
                  },
                  find_template_service-name before o.service existing e,
                )))
                (λ _. Triple-throw _ (λ u h. point_halted u h)))
              (λ s. Triple-pure _ (λ u h. h)))

  Triple-install :
      Triple
        (λ u. u ≡ t)
        (install_resolved env o)
        (λ r u. (reused : Bool) × Outcome reused r.domain u × (r.reused_existing_service ≡ reused))
        Halted
  unfolding install_resolved list_services
  Triple-install =
      Triple-bind {Q = λ before u. (u ≡ command service_list_args none ∷ t) × Lists env t before}
        (Triple-query env _ _
          (λ a u w h.
            (ap (λ x. command service_list_args none ∷ x) h, subst (λ x. Lists env x a) h w))
          (λ s u h. (
            "",
            inl (
                subst (Extends (IsGentle (scope_of o "")) t)
                  (ap (λ x. command service_list_args none ∷ x) (sym h))
                  (more (settling (reading service_list)) same)),
          )))
        (λ before. Triple-given λ w.
          Triple-bind {Q = λ (s, reused) u. Settled reused u × (s.name ≡ o.service)}
            (Triple-acquire_service before w _ refl)
            (λ (service, reused). Triple-given λ named.
              Triple-bind
                (Triple-error (λ e u (host, h). Outcome-Halted reused e u host h)
                  (Keeps-configure_service env o (Outcome-IsGentleStable reused) service reused
                    named))
                (λ r. Triple-given λ same_flag.
                  Triple-bind
                    (Triple-error (λ e u h. Outcome-Halted reused e u r.domain h)
                      (Keeps-write_local_files env o r.domain
                        (Outcome-IsGentleStable reused r.domain) r))
                    (λ _. Triple-pure r (λ u h. (reused, h, same_flag))))))

  Outcome-cases :
      (host : String) (u : Trace) (reused flag : Bool)
      → Outcome reused host u
      → flag ≡ reused
      → ((flag ≡ true) × Reused env o host t u) ⊎ ((flag ≡ false) × Deployed env o host t u)
  Outcome-cases host u true flag h e = inl (e, h)
  Outcome-cases host u false flag h e = inr (e, h)

-- An installation that returns has reused the service, which was listed with a deployment that has
-- succeeded, with nothing deployed; or, where the service was not listed or `--force-new` was
-- given, it has deployed the template once. Beside that it has only read, set up the domain of that
-- service, sent configs and approvals of devices to the setup API of the domain of its result, and
-- written the two local files of its options.
pub install_resolved-Deployed :
    (env : Env) (o : RequiredOptions) (t u : Trace) (r : InstallResult)
    → install_resolved env o t ≡ done r u
    → ((r.reused_existing_service ≡ true) × Reused env o r.domain t u)
      ⊎ ((r.reused_existing_service ≡ false) × Deployed env o r.domain t u)
install_resolved-Deployed env o t u r e =
    let (reused, h, flag) = Triple-done (Triple-install env o t) refl e in
    Outcome-cases env o t _ u reused _ h flag
