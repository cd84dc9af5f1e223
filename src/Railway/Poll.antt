-- ===== src/Railway/Poll.antt =====
-- `pollServiceUntilSuccess`: what it may return.
use openclaw_control_plane.Common.{
  ℕ, zero, suc, String, false, Option, none, some, List, ◌≡◌, refl, ◌≢◌, arith, find-passes,
  string_eq, ◌==◌, ltb,
}
use openclaw_control_plane.Effects.Errors.{Error}
use openclaw_control_plane.Effects.Platform.{Env, Trace, InstallerService}
use openclaw_control_plane.Effects.{M, done}
use openclaw_control_plane.Effects.Triple.{
  Triple, Triple-pure, Triple-throw, Triple-if, Triple-bind, Triple-now, Triple-sleep, Triple-done,
}
use openclaw_control_plane.Railway.Calls.{Triple-query}
use openclaw_control_plane.Railway.{
  list_services, find_template_service, conclude, deployment_status, deployment_id,
  is_prior_deployment, judge, Verdict, accepted, failed, pending, poll_loop,
  poll_service_until_success,
}

-- A finished deployment of the service that is not the one before.
pub record IsRolledOver (service : String) (supersedes : Option String) (s : InstallerService)
    : Type 0 where
  pub named : s.name ≡ service
  pub succeeded : deployment_status s ≡ some "SUCCESS"
  pub fresh :
      (prior : String)
      → supersedes ≡ some prior
      → (id : String) × (deployment_id s ≡ some id) × (id ≢ prior)

judge-accepted :
    (supersedes : Option String) (o : Option InstallerService) (s : InstallerService)
    → judge supersedes o ≡ accepted s
    → (o ≡ some s)
      × (deployment_status s ≡ some "SUCCESS")
      × (is_prior_deployment supersedes (deployment_id s) ≡ false)
unfolding judge
judge-accepted supersedes o s h = ground arith

not_prior :
    (prior : String) (observed : Option String)
    → is_prior_deployment (some prior) observed ≡ false
    → (id : String) × (observed ≡ some id) × (id ≢ prior)
not_prior prior none h = cc
not_prior prior (some id) h = (id, refl, ground arith)

pub find_template_service-name :
    (services : List InstallerService) (service : String) (s : InstallerService)
    → find_template_service services service ≡ some s
    → s.name ≡ service
unfolding find_template_service
find_template_service-name services service s h =
    ground (arith, find-passes (λ (x : InstallerService). x.name == service) services s)

accepted-IsRolledOver :
    (supersedes : Option String) (services : List InstallerService) (service : String)
    (s : InstallerService)
    → judge supersedes (find_template_service services service) ≡ accepted s
    → IsRolledOver service supersedes s
accepted-IsRolledOver supersedes services service s h =
    let (found, success, new) = judge-accepted supersedes _ s h in
    record {
      named = find_template_service-name services service s found;
      succeeded = success;
      fresh = λ prior e. not_prior prior _ (rw e at new);
    }

-- What a poll returns, whatever the clock and the poll interval.
abbrev Anyhow : Error → Trace → Type 0
Anyhow e t = Unit {0}

module _ (env : Env) (service : String) (supersedes : Option String) where
  abbrev Rolled : InstallerService → Trace → Type 0
  Rolled s t = IsRolledOver service supersedes s

  abbrev Always : Trace → Type 0
  Always t = Unit {0}

  conclude_poll-Rolled :
      (deadline : ℕ) (again : M InstallerService) (services : List InstallerService) (v : Verdict)
      → judge supersedes (find_template_service services service) ≡ v
      → Triple Always again Rolled Anyhow
      → Triple Always (conclude env service deadline again v) Rolled Anyhow
  unfolding conclude
  conclude_poll-Rolled deadline again services (accepted s) e k =
      Triple-pure s (λ t h. accepted-IsRolledOver supersedes services service s e)
  conclude_poll-Rolled deadline again services (failed status) e k = Triple-throw _ (λ t h. tt)
  conclude_poll-Rolled deadline again services pending e k =
      Triple-bind {Q = λ _. Always} (Triple-now env (λ t h. tt))
        (λ time. Triple-if (ltb time deadline) (λ _. k) (λ _. Triple-throw _ (λ t h. tt)))

  loop-Rolled :
      (fuel poll_ms deadline : ℕ)
      → Triple Always (poll_loop env fuel service poll_ms deadline supersedes) Rolled Anyhow
  unfolding poll_loop list_services
  loop-Rolled zero poll_ms deadline = Triple-throw _ (λ t h. tt)
  loop-Rolled (suc fuel) poll_ms deadline =
      Triple-bind {Q = λ _. Always} (Triple-sleep _ (λ t h. tt)) (λ _.
        Triple-bind {Q = λ _. Always} (Triple-query env _ _ (λ a t w h. tt) (λ s t h. tt))
          (λ services.
            conclude_poll-Rolled deadline _ services _ refl (loop-Rolled fuel poll_ms deadline)))

  -- A poll that returns found the service with a deployment that has succeeded and that is
  -- identified as another one than the deployment it supersedes.
  pub poll_service_until_success-IsRolledOver :
      (poll_seconds timeout_minutes : ℕ) (t t' : Trace) (s : InstallerService)
      → poll_service_until_success env service poll_seconds timeout_minutes supersedes t ≡ done s t'
      → IsRolledOver service supersedes s
  unfolding poll_service_until_success
  poll_service_until_success-IsRolledOver poll_seconds timeout_minutes t t' s e =
      Triple-done {P = Always}
        (Triple-bind {Q = λ _. Always} (Triple-now env (λ t h. tt)) (λ start. loop-Rolled _ _ _)) tt
        e
