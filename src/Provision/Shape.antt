-- ===== src/Provision/Shape.antt =====
-- The traces that a provisioning may leave.
use openclaw_control_plane.Common.{
  String, true, false, none, some, List, [], ◌∷◌, ◌≡◌, ◌⊎◌, contains, string_eq, option_eq,
}
use openclaw_control_plane.Effects.Platform.{Env, Event, command, Trace, InstallerService}
use openclaw_control_plane.Effects.Reads.{Extends}
use openclaw_control_plane.Railway.{service_list_args, deployment_status}
use openclaw_control_plane.Railway.Calls.{Answered}
use openclaw_control_plane.Client.Footprint.{write_event, redeploy_event}
use openclaw_control_plane.Provision.{
  ResolvedProvisionOptions, ids_of, created_candidates, variable_entries, link_args,
}
use openclaw_control_plane.Provision.Gentle.{Scope, scope_at, IsGentle}

abbrev pub up_event : Event
up_event = command ("up" ∷ "--detach" ∷ "--json" ∷ []) none

abbrev pub select_event : String → Event
select_event service = command ("service" ∷ service ∷ []) none

abbrev pub volume_event : Event
volume_event = command ("volume" ∷ "add" ∷ "--mount-path" ∷ "/data" ∷ []) none

-- The writes of the entries, in order, without a deployment.
abbrev pub written : (service : String) → List (String × String) → Trace → Trace
written service [] t = t
written service ((name, value) ∷ entries) t =
    written service entries (write_event name value service ∷ t)

-- A service by its name, the host of its domain, and the two files of the options
abbrev pub scope_of : ResolvedProvisionOptions → String → String → Scope
scope_of o service host = scope_at service o.env_local_path o.handoff_path host

-- The events of a bootstrap that concern the project, or the service of the scope.
pub data IsBootstrap (scope : Scope) : Event → Type 0 where
  harmless : {e : Event} → IsGentle scope e → IsBootstrap scope e
  selecting : IsBootstrap scope (select_event scope.service)
  attaching : IsBootstrap scope volume_event
  writing : {name value : String} → IsBootstrap scope (write_event name value scope.service)
  building : IsBootstrap scope (redeploy_event scope.service)

-- A bootstrap is allowed by an empty project or by `--force-new`.
abbrev pub IsAllowed : ResolvedProvisionOptions → List InstallerService → Type 0
IsAllowed o before = (before ≡ []) ⊎ (o.force_new ≡ true)

-- The project was linked and its services were listed.
abbrev pub linked : ResolvedProvisionOptions → Trace → Trace
linked o t = command (link_args o) none ∷ t

abbrev pub opened : ResolvedProvisionOptions → Trace → Trace
opened o t = command service_list_args none ∷ linked o t

-- The services that the CLI listed at a trace.
abbrev pub Lists : Env → Trace → List InstallerService → Type 0
Lists env t services = Answered env service_list_args env.services t services

-- From `t`: the linked project listed only this service, with a deployment that has succeeded, and
-- `--force-new` was not given; then nothing but gentle events of this service.
pub record Kept (env : Env) (o : ResolvedProvisionOptions) (existing : InstallerService)
    (host : String) (t u : Trace) : Type 0 where
  pub listed : Lists env (linked o t) (existing ∷ [])
  pub succeeded : deployment_status existing ≡ some "SUCCESS"
  pub spared : o.force_new ≡ false
  pub after : Extends (IsGentle (scope_of o existing.name host)) (opened o t) u

-- From `t`: the services of the linked project were listed; an upload, where it is allowed; and
-- then events of the project and of the one service that is named.
pub record Started (env : Env) (o : ResolvedProvisionOptions) (host : String) (t u : Trace)
    : Type 0 where
  pub before : List InstallerService
  pub listed : Lists env (linked o t) before
  pub allowed : IsAllowed o before
  pub service : String
  pub steps : Extends (IsBootstrap (scope_of o service host)) (up_event ∷ opened o t) u

-- The only service that is listed after the upload and was not listed before it.
pub record IsCreated (env : Env) (o : ResolvedProvisionOptions) (t : Trace)
    (before : List InstallerService) (created : InstallerService) : Type 0 where
  pub after : List InstallerService
  pub listed : Lists env (up_event ∷ opened o t) after
  pub only : created_candidates before after ≡ created ∷ []
  pub is_new : contains (ids_of before) created.id ≡ false

-- From `t`: the services of the linked project were listed; an upload, where it is allowed; then the
-- volume, the six variables and one build of the created service; then nothing but gentle events of that
-- service.
pub record Bootstrapped (env : Env) (o : ResolvedProvisionOptions) (host : String) (t u : Trace)
    : Type 0 where
  pub before : List InstallerService
  pub listed : Lists env (linked o t) before
  pub allowed : IsAllowed o before
  pub created : InstallerService
  pub creation : IsCreated env o t before created
  pub built :
      Extends
        (IsGentle (scope_of o created.name host))
        (redeploy_event created.name
          ∷ written created.name (variable_entries env o) (
              volume_event
              ∷ select_event created.name
              ∷ command service_list_args none
              ∷ up_event
              ∷ opened o t))
        u
