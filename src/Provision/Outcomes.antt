-- ===== src/Provision/Outcomes.antt =====
-- What a run of `provisionClientInstance` does to the linked project.
use openclaw_control_plane.Common.{
  String, Bool, true, false, Option, none, some, List, [], ◌∷◌, ◌≡◌, refl, sym, ap, subst, ◌⊎◌, inl,
  inr, string_eq, option_eq, ◌==◌, arith,
}
use openclaw_control_plane.Effects.{done, threw, pure, ◌>>=◌, ◌>>◌}
use openclaw_control_plane.Effects.Errors.{Error}
use openclaw_control_plane.Effects.Platform.{Env, command, Trace, InstallerService}
use openclaw_control_plane.Effects.Reads.{IsRead, service_list, Extends, same, more}
use openclaw_control_plane.Effects.Triple.{
  Triple, Triple-pure, Triple-throw, Triple-if, Triple-bind, Triple-run, Triple-error, Triple-done,
  Triple-threw, Triple-given,
}
use openclaw_control_plane.Railway.{service_list_args, list_services, deployment_status}
use openclaw_control_plane.Railway.Calls.{Triple-query}
use openclaw_control_plane.Install.{reuse_service}
use openclaw_control_plane.Provision.{
  ResolvedProvisionOptions, link_args, acquire_client, client_credentials, configure_client,
  write_client_files, provision_resolved,
}
use openclaw_control_plane.Provision.Gentle.{
  IsGentle, IsGentleStable, every_host, Keeps-configure_client, Keeps-write_client_files,
}
use openclaw_control_plane.Provision.Settling.{IsSettlingStable, Keeps-client_credentials}
use openclaw_control_plane.Provision.Handoff.{ProvisionClientResult}
use openclaw_control_plane.Provision.Bootstrap.{Both, both, Triple-select, Triple-bootstrap_service}
use openclaw_control_plane.Provision.Shape.{
  scope_of, Kept, linked, opened, Lists, Started, Bootstrapped,
}

module _ (env : Env) (o : ResolvedProvisionOptions) (t : Trace) where
  -- How a run that throws left the project.
  abbrev pub Halted : Error → Trace → Type 0
  Halted e u =
      Extends IsRead (linked o t) u
      ⊎ ((existing : InstallerService) × (host : String) × Kept env o existing host t u)
      ⊎ ((host : String) × Started env o host t u)

  -- How the project is left with this service and the host of its domain.
  abbrev Outcome : Bool → InstallerService → String → Trace → Type 0
  Outcome true s host u = Kept env o s host t u
  Outcome false s host u = Both env o t host s.name u

  -- Before the host is known, whatever it will be
  abbrev Settled : Bool → InstallerService → Trace → Type 0
  Settled reused s u = (host : String) → Outcome reused s host u

  Outcome-IsGentleStable :
      (reused : Bool) (s : InstallerService) (host : String)
      → IsGentleStable (scope_of o s.name host) (Outcome reused s host)
  Outcome-IsGentleStable true s host = record {
    gentle = λ k h. record {
      listed = h.listed;
      succeeded = h.succeeded;
      spared = h.spared;
      after = more k h.after;
    };
  }
  Outcome-IsGentleStable false s host = both env o t host s.name

  Settled-IsSettlingStable :
      (reused : Bool) (s : InstallerService) → IsSettlingStable s.name (Settled reused s)
  Settled-IsSettlingStable reused s =
      every_host s.name o.env_local_path o.handoff_path (Outcome-IsGentleStable reused s)

  Outcome-Halted :
      (reused : Bool) (s : InstallerService) (e : Error) (u : Trace) (host : String)
      → Outcome reused s host u
      → Halted e u
  Outcome-Halted true s e u host h = inr (inl (s, host, h))
  Outcome-Halted false s e u host h = inr (inr (host, h.1))

  opened_read : (u : Trace) → u ≡ opened o t → Extends IsRead (linked o t) u
  opened_read u e = subst (Extends IsRead (linked o t)) (sym e) (more service_list same)

  Triple-acquire_client :
      (before : List InstallerService) (existing : Option InstallerService)
      → Lists env (linked o t) before
      → (existing ≡ none → before ≡ [])
      → ((s : InstallerService) → existing ≡ some s → before ≡ s ∷ [])
      → Triple
          (λ u. u ≡ opened o t)
          (acquire_client env o before existing)
          (λ (s, reused) u. Settled reused s u)
          Halted
  unfolding acquire_client reuse_service
  Triple-acquire_client before none w empty only =
      Triple-bind
        (Triple-error (λ e u h. inr (inr h))
          (Triple-bootstrap_service env o t before w (inl (empty refl))))
        (λ s. Triple-pure _ (λ u h. h))
  Triple-acquire_client before (some existing) w empty only =
      Triple-if o.force_new
        (λ forced.
          Triple-bind
            (Triple-error (λ e u h. inr (inr h))
              (Triple-bootstrap_service env o t before w (inr forced)))
            (λ s. Triple-pure _ (λ u h. h)))
        (λ spared.
          Triple-bind {Q = λ s u. (host : String) → Kept env o s host t u}
            (Triple-if (deployment_status existing == some "SUCCESS")
              (λ success. Triple-pure _ (λ u e host. record {
                listed = subst (Lists env (linked o t)) (only existing refl) w;
                succeeded = ground arith;
                spared = spared;
                after =
                    subst (Extends (IsGentle (scope_of o existing.name host)) (opened o t)) (sym e)
                      same;
              }))
              (λ _. Triple-throw _ (λ u e. inl (opened_read u e))))
            (λ s. Triple-pure _ (λ u h. h)))

  -- What follows on the acquisition of a service
  Triple-serve :
      (service : InstallerService) (reused : Bool)
      → Triple
          (Settled reused service)
          (client_credentials env o service reused >>= λ credentials.
            configure_client env o service reused credentials >>= λ r.
            write_client_files env o r >> pure r)
          (λ r u.
            (reused : Bool) × (s : InstallerService) × Outcome reused s r.domain u
            × (r.reused_existing_service ≡ reused))
          Halted
  Triple-serve service reused =
      Triple-bind
        (Triple-error (λ e u h. Outcome-Halted reused service e u "" (h ""))
          (Keeps-client_credentials env (Settled-IsSettlingStable reused service) o service reused))
        (λ credentials.
          Triple-bind
            (Triple-error (λ e u (host, h). Outcome-Halted reused service e u host h)
              (Keeps-configure_client env service.name o.env_local_path o.handoff_path
                (Outcome-IsGentleStable reused service) o service reused credentials refl))
            (λ r. Triple-given λ same_flag.
              Triple-bind
                (Triple-error (λ e u h. Outcome-Halted reused service e u r.domain h)
                  (Keeps-write_client_files env (Outcome-IsGentleStable reused service r.domain) o r
                    refl refl))
                (λ _. Triple-pure r (λ u h. (reused, service, h, same_flag)))))

  -- The run, and what its result says of the project.
  Triple-provision :
      Triple
        (λ u. u ≡ t)
        (provision_resolved env o)
        (λ r u.
          (reused : Bool) × (s : InstallerService) × Outcome reused s r.domain u
          × (r.reused_existing_service ≡ reused))
        Halted
  unfolding provision_resolved list_services
  Triple-provision =
      Triple-bind {Q = λ _ u. u ≡ linked o t}
        (Triple-run env _ _ (λ s u e h. ap (λ x. command (link_args o) none ∷ x) h)
          (λ s u h. inl (
            subst (λ x. Extends IsRead (linked o t) (command (link_args o) none ∷ x)) (sym h)
              same)))
        (λ stdout.
          Triple-bind {Q = λ before u. (u ≡ opened o t) × Lists env (linked o t) before}
            (Triple-query env _ _
              (λ a u w h.
                (ap (λ x. command service_list_args none ∷ x) h, subst (λ x. Lists env x a) h w))
              (λ s u h. inl (opened_read _ (ap (λ x. command service_list_args none ∷ x) h))))
            (λ before. Triple-given λ w.
              Triple-bind (Triple-error (λ e u h. inl (opened_read u h)) (Triple-select before _ _))
                (λ existing.
                  Triple-bind {Q = λ (s, reused) u. Settled reused s u}
                    (record {
                      at = λ u (h, empty, only).
                          (Triple-acquire_client before existing w empty only).at u h;
                    })
                    (λ (service, reused). Triple-serve service reused))))

Outcome-cases :
    (env : Env) (o : ResolvedProvisionOptions) (t u : Trace) (reused flag : Bool)
    (s : InstallerService) (host : String)
    → Outcome env o t reused s host u
    → flag ≡ reused
    → ((flag ≡ true) × (existing : InstallerService) × Kept env o existing host t u)
      ⊎ ((flag ≡ false) × Bootstrapped env o host t u)
Outcome-cases env o t u true flag s host h e = inl (e, s, h)
Outcome-cases env o t u false flag s host h e = inr (e, h.0.0)

-- A provisioning that returns has reused the only service that the linked project listed, with
-- nothing deployed and no variable written; or, where the linked project listed no service or
-- `--force-new` was given, it has uploaded once, and given the only service that is listed after
-- that and was not before its volume, its six variables, each without a deployment, and then one
-- build. Beside that it has only read, set up the domain of that service, sent configs and approvals
-- of devices to the setup API of the domain of its result, and written the two local files of its
-- options.
pub provision_resolved-Bootstrapped :
    (env : Env) (o : ResolvedProvisionOptions) (t u : Trace) (r : ProvisionClientResult)
    → provision_resolved env o t ≡ done r u
    → ((r.reused_existing_service ≡ true)
        × (existing : InstallerService) × Kept env o existing r.domain t u)
      ⊎ ((r.reused_existing_service ≡ false) × Bootstrapped env o r.domain t u)
provision_resolved-Bootstrapped env o t u r e =
    let (reused, s, h, flag) = Triple-done (Triple-provision env o t) refl e in
    Outcome-cases env o t u reused _ s r.domain h flag

-- A provisioning that throws has linked the project, or tried to, and then only read; or it has
-- found the only service of the linked project to reuse, deployed nothing and written no variable,
-- and touched the domain of no other service; or, where the linked project listed no service or
-- `--force-new` was given, it has run one upload, and of the services touched one only, by its name:
-- what it selected, wrote variables to, built and set up the domain of. Configs and approvals of
-- devices it has sent to one host at most.
pub provision_resolved-Started :
    (env : Env) (o : ResolvedProvisionOptions) (t u : Trace) (e : Error)
    → provision_resolved env o t ≡ threw e u
    → Extends IsRead (linked o t) u
      ⊎ ((existing : InstallerService) × (host : String) × Kept env o existing host t u)
      ⊎ ((host : String) × Started env o host t u)
provision_resolved-Started env o t u e h = Triple-threw (Triple-provision env o t) refl h
