-- ===== src/Install/Shape.antt =====
-- The traces that an installation may leave.
use openclaw_control_plane.Common.{
  String, true, false, none, some, List, ◌∷◌, ◌≡◌, ◌⊎◌, string_eq, option_eq,
}
use openclaw_control_plane.Effects.Platform.{Env, Event, command, Trace, InstallerService}
use openclaw_control_plane.Effects.Reads.{Extends}
use openclaw_control_plane.Railway.{service_list_args, find_template_service, deployment_status}
use openclaw_control_plane.Railway.Calls.{Answered}
use openclaw_control_plane.Install.{RequiredOptions, deploy_args}
use openclaw_control_plane.Provision.Gentle.{Scope, scope_at, IsGentle}

abbrev pub deploy_event : Env → RequiredOptions → Event
deploy_event env o = command (deploy_args env o) none

abbrev pub Lists : Env → Trace → List InstallerService → Type 0
Lists env t services = Answered env service_list_args env.services t services

-- The service of the options, the host of its domain, and their two files
abbrev pub scope_of : RequiredOptions → String → Scope
scope_of o host = scope_at o.service o.env_local_path o.handoff_path host

-- From `t`: the services were listed; the service was among them, with a deployment that has
-- succeeded, and `--force-new` was not given; then nothing but gentle events.
pub record Reused (env : Env) (o : RequiredOptions) (host : String) (t u : Trace) : Type 0 where
  pub before : List InstallerService
  pub listed : Lists env t before
  pub existing : InstallerService
  pub found : find_template_service before o.service ≡ some existing
  pub succeeded : deployment_status existing ≡ some "SUCCESS"
  pub spared : o.force_new ≡ false
  pub after : Extends (IsGentle (scope_of o host)) (command service_list_args none ∷ t) u

-- From `t`: the services were listed; the template was deployed once, where the service was not
-- among them or `--force-new` was given; then nothing but gentle events.
pub record Deployed (env : Env) (o : RequiredOptions) (host : String) (t u : Trace) : Type 0 where
  pub before : List InstallerService
  pub listed : Lists env t before
  pub allowed : (find_template_service before o.service ≡ none) ⊎ (o.force_new ≡ true)
  pub after :
      Extends
        (IsGentle (scope_of o host))
        (deploy_event env o ∷ command service_list_args none ∷ t)
        u
