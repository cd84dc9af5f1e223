-- ===== src/Provision/Bootstrap.antt =====
-- The bootstrap of a new service: what it leaves in the trace.
use openclaw_control_plane.Common.{
  String, Bool, true, false, not, none, some, List, [], ◌∷◌, ◌≡◌, refl, sym, ap, subst, contains,
  All, filter-All, string_eq, option_eq, arith,
}
use mathlib.Core.Option.{some-injective}
use openclaw_control_plane.Effects.{run}
use openclaw_control_plane.Effects.Platform.{Env, Event, command, Trace, InstallerService}
use openclaw_control_plane.Effects.Reads.{service_list, Extends, same, more}
use openclaw_control_plane.Effects.Triple.{
  Triple, Triple-pure, Triple-throw, Triple-require, Triple-bind, Triple-run, Triple-error,
  Triple-given, Triple-assume, Triple-and, Triple-weaken,
}
use openclaw_control_plane.Railway.{list_services, service_list_args, poll_service_until_success}
use openclaw_control_plane.Railway.Calls.{Triple-query, Triple-write_railway_variable}
use openclaw_control_plane.Railway.Poll.{poll_service_until_success-IsRolledOver}
use openclaw_control_plane.Railway.Reading.{Quiet-poll}
use openclaw_control_plane.Client.Footprint.{write_event, redeploy_event}
use openclaw_control_plane.Provision.{
  ResolvedProvisionOptions, select_sole_service, ids_of, created_candidates, variable_entries,
  write_variables, create_service, bootstrap_service,
}
use openclaw_control_plane.Provision.Gentle.{IsGentle, settling, IsGentleStable, every_host}
use openclaw_control_plane.Provision.Settling.{reading, IsSettlingStable, stable}
use openclaw_control_plane.Provision.Shape.{
  up_event, scope_of, select_event, volume_event, written, IsBootstrap, harmless, selecting,
  attaching, writing, building, IsAllowed, linked, opened, Lists, Started, IsCreated, Bootstrapped,
}

false_of_not : (b : Bool) → not b ≡ true → b ≡ false
false_of_not b h = ground arith

-- The sole candidate is new.
candidate_new :
    (before after : List InstallerService) (s : InstallerService)
    → created_candidates before after ≡ s ∷ []
    → contains (ids_of before) s.id ≡ false
unfolding created_candidates
candidate_new before after s h =
    let every : All (λ x. not (contains (ids_of before) x.id) ≡ true) (s ∷ []) =
      subst (All _) h (filter-All (λ x. not (contains (ids_of before) x.id)) after) in
    false_of_not _ every.0

pub Triple-select :
    {P : Trace → Type 0} (services : List InstallerService) (client context : String)
    → Triple P
        (select_sole_service services client context)
        (λ o t.
          P t
          × (o ≡ none → services ≡ [])
          × ((s : InstallerService) → o ≡ some s → services ≡ s ∷ []))
        (λ _. P)
unfolding select_sole_service
Triple-select [] client context = Triple-pure _ (λ t h. (h, λ e. refl, λ s e. cc))
Triple-select (s ∷ []) client context =
    Triple-pure _ (λ t h. (h, λ e. cc, λ s' e. ap (λ x. x ∷ []) (some-injective s s' e)))
Triple-select (s ∷ s' ∷ rest) client context = Triple-throw _ (λ t h. h)

-- Writes leave their events; a failure leaves some of them.
Triple-write_variables :
    {R : Trace → Type 0} (env : Env) (service : String) (entries : List (String × String))
    (t : Trace)
    → R t
    → ((name value : String) (u : Trace) → R u → R (write_event name value service ∷ u))
    → Triple
        (λ u. u ≡ t)
        (write_variables env service entries)
        (λ _ u. u ≡ written service entries t)
        (λ _. R)
unfolding write_variables
Triple-write_variables env service [] t start step = Triple-pure tt (λ u h. h)
Triple-write_variables {R} env service ((name, value) ∷ entries) t start step =
    Triple-bind {Q = λ _ u. u ≡ write_event name value service ∷ t}
      (Triple-write_railway_variable env name value service true
        (λ _ u _ h. ap (λ x. write_event name value service ∷ x) h)
        (λ s u h. step name value u (subst R (sym h) start)))
      (λ _. Triple-write_variables env service entries _ (step name value t start) step)

module _ (env : Env) (o : ResolvedProvisionOptions) (t : Trace) where
  -- The bootstrap of the service of this name
  abbrev pub Both : (host name : String) → Trace → Type 0
  Both host name u =
      ((b : Bootstrapped env o host t u) × (b.created.name ≡ name))
      × (s : Started env o host t u) × (s.service ≡ name)

  of_name :
      {a b : String} (host : String) {e : Event}
      → a ≡ b
      → IsGentle (scope_of o b host) e
      → IsGentle (scope_of o a host) e
  of_name host {e} p k = subst (λ n. IsGentle (scope_of o n host) e) (sym p) k

  pub both : (host name : String) → IsGentleStable (scope_of o name host) (Both host name)
  both host name = record {
    gentle = λ k ((b, p), s, q). (
      (
        record {
          before = b.before;
          listed = b.listed;
          allowed = b.allowed;
          created = b.created;
          creation = b.creation;
          built = more (of_name host p k) b.built;
        },
        p,
      ),
      record {
        before = s.before;
        listed = s.listed;
        allowed = s.allowed;
        service = s.service;
        steps = more (harmless (of_name host q k)) s.steps;
      },
      q,
    );
  }

  Both-IsSettlingStable :
      (name : String) → IsSettlingStable name (λ u. (host : String) → Both host name u)
  Both-IsSettlingStable name =
      every_host name o.env_local_path o.handoff_path (λ host. both host name)

  -- The poll only reads, and returns the service that was asked for.
  Triple-polled :
      (created : InstallerService)
      → Triple
          (λ u. (host : String) → Both host created.name u)
          (poll_service_until_success env created.name o.poll_seconds o.timeout_minutes none)
          (λ s u. (host : String) → Both host s.name u)
          (λ _ u. (host : String) × Started env o host t u)
  Triple-polled created =
      Triple-weaken (λ s u (h, e) host. subst (λ n. Both host n u) (sym e) (h host)) (λ e u h. h)
        (Triple-and
          (λ v s u run.
            (poll_service_until_success-IsRolledOver env created.name none _ _ v u s run).named)
          (Triple-error (λ e u h. ("", (h.0 "").1))
            (Quiet-poll env (stable (Both-IsSettlingStable created.name)) created.name _ _ none)))

  module _ (before : List InstallerService) (w : Lists env (linked o t) before)
      (allowed : IsAllowed o before) where
    abbrev point : Trace
    point = opened o t

    started :
        (host service : String) (u : Trace)
        → Extends (IsBootstrap (scope_of o service host)) (up_event ∷ point) u
        → Started env o host t u
    started host service u steps = record {
      before = before;
      listed = w;
      allowed = allowed;
      service = service;
      steps = steps;
    }

    -- Before the domain of the service is known
    abbrev Begun : Trace → Type 0
    Begun u = (host : String) × Started env o host t u

    begun :
        (service : String) (u : Trace)
        → Extends (IsBootstrap (scope_of o service "")) (up_event ∷ point) u
        → Begun u
    begun service u steps = ("", started "" service u steps)

    abbrev listed : Trace
    listed = command service_list_args none ∷ up_event ∷ point

    abbrev IsNew : InstallerService → Type 0
    IsNew created = IsCreated env o t before created

    steps_listed :
        (host service : String)
        → Extends (IsBootstrap (scope_of o service host)) (up_event ∷ point) listed
    steps_listed host service = more (harmless (settling (reading service_list))) same

    Triple-create_service :
        Triple
          (λ u. u ≡ point)
          (create_service env o before)
          (λ created u. (u ≡ listed) × IsNew created)
          (λ _ u. Begun u)
    unfolding create_service list_services
    Triple-create_service =
        Triple-bind {Q = λ _ u. u ≡ up_event ∷ point}
          (Triple-run env _ _ (λ s u e h. ap (λ x. up_event ∷ x) h)
            (λ s u h. begun "" _ (subst (Extends _ _) (ap (λ x. up_event ∷ x) (sym h)) same)))
          (λ stdout.
            Triple-bind {Q = λ after u. (u ≡ listed) × Lists env (up_event ∷ point) after}
              (Triple-query env _ _
                (λ a u r h.
                  (ap (λ x. command service_list_args none ∷ x) h, subst (λ x. Lists env x a) h r))
                (λ s u h. begun "" _ (
                  subst (Extends _ _) (ap (λ x. command service_list_args none ∷ x) (sym h))
                    (steps_listed "" ""))))
              (λ after. Triple-given λ relisted.
                Triple-bind
                  (Triple-error
                    (λ e u h. begun "" u (subst (Extends _ _) (sym h) (steps_listed "" "")))
                    (Triple-select _ _ _))
                  (λ created.
                    Triple-require created _
                      (λ s u e (h, n, sole). (
                        h,
                        record {
                          after = after;
                          listed = relisted;
                          only = sole s e;
                          is_new = candidate_new before after s (sole s e);
                        },
                      ))
                      (λ u e (h, n, sole).
                        begun "" u (subst (Extends _ _) (sym h) (steps_listed "" ""))))))

    module _ (created : InstallerService) (is_new : IsNew created) (host : String) where
      abbrev Steps : Trace → Type 0
      Steps u = Extends (IsBootstrap (scope_of o created.name host)) (up_event ∷ point) u

      abbrev attached : Trace
      attached = volume_event ∷ select_event created.name ∷ listed

      Steps-attached : Steps attached
      Steps-attached = more attaching (more selecting (steps_listed host created.name))

      Steps-written :
          (entries : List (String × String)) (u : Trace)
          → Steps u
          → Steps (written created.name entries u)
      Steps-written [] u h = h
      Steps-written ((name, value) ∷ entries) u h = Steps-written entries _ (more writing h)

      abbrev built : Trace
      built = redeploy_event created.name ∷ written created.name (variable_entries env o) attached

      Steps-built : Steps built
      Steps-built = more building (Steps-written (variable_entries env o) attached Steps-attached)

      -- A command whose trace is known, however it ends.
      Triple-step :
          (args : List String) (v : Trace)
          → Steps (command args none ∷ v)
          → Triple
              (λ u. u ≡ v)
              (run env args none)
              (λ _ u. u ≡ command args none ∷ v)
              (λ _ u. Begun u)
      Triple-step args v k =
          Triple-run env _ _ (λ s u e h. ap (λ x. command args none ∷ x) h)
            (λ s u h. (
              host,
              started host created.name _ (subst Steps (ap (λ x. command args none ∷ x) (sym h)) k),
            ))

      bootstrapped : Bootstrapped env o host t built
      bootstrapped = record {
        before = before;
        listed = w;
        allowed = allowed;
        created = created;
        creation = is_new;
        built = same;
      }

      Both-built : Both host created.name built
      unfolding bootstrapped started
      Both-built = ((bootstrapped, refl), started host created.name built Steps-built, refl)

    pub Triple-bootstrap_service :
        Triple
          (λ u. u ≡ point)
          (bootstrap_service env o before)
          (λ s u. (host : String) → Both host s.name u)
          (λ _ u. Begun u)
    unfolding bootstrap_service
    Triple-bootstrap_service = Triple-bind Triple-create_service (λ created. Triple-given λ is_new.
        Triple-bind
          (Triple-step created is_new "" _ _ (more selecting (steps_listed "" created.name)))
          (λ linked.
            Triple-bind (Triple-step created is_new "" _ _ (Steps-attached created is_new ""))
              (λ volume.
                Triple-bind
                  (Triple-error (λ e u h. begun created.name u h)
                    (Triple-write_variables env created.name (variable_entries env o) _
                      (Steps-attached created is_new "") (λ name value u h. more writing h)))
                  (λ _.
                    Triple-bind (Triple-step created is_new "" _ _ (Steps-built created is_new ""))
                      (λ done.
                        Triple-assume {P = λ u. (host : String) → Both host created.name u}
                          (λ u h host.
                            subst (Both host created.name) (sym h) (Both-built created is_new host))
                          (Triple-polled created))))))
