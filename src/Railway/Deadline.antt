-- ===== src/Railway/Deadline.antt =====
-- `pollServiceUntilSuccess` ends by its deadline.
use openclaw_control_plane.Common.{
  ℕ, zero, suc, ◌+◌, ◌*◌, ◌≤◌, ◌<◌, String, Option, none, ◌∷◌, ◌≡◌, refl, ◌≢◌, arith, string_eq,
  ltb,
}
use openclaw_control_plane.Effects.Errors.{
  Error, external, out_of_fuel, deployment_failed, deploy_timed_out,
}
use openclaw_control_plane.Effects.Platform.{Env, Event, command, slept, Trace, InstallerService}
use openclaw_control_plane.Effects.{M, threw}
use openclaw_control_plane.Effects.Triple.{
  Triple, Triple-absurd, Triple-pure, Triple-throw, Triple-if, Triple-bind, Triple-now,
  Triple-sleep, Triple-assume, Triple-threw,
}
use openclaw_control_plane.Railway.Calls.{Triple-query}
use openclaw_control_plane.Railway.{
  list_services, conclude, service_list_args, Verdict, accepted, failed, pending, poll_loop,
  poll_service_until_success,
}

-- A clock that never goes back and that a sleep advances by what was slept.
pub record IsClock (env : Env) : Type 0 where
  pub monotone : (t : Trace) (e : Event) → env.clock t ≤ env.clock (e ∷ t)
  pub advances : (t : Trace) (ms : ℕ) → env.clock t + ms ≤ env.clock (slept ms ∷ t)

module _ (env : Env) (clock : IsClock env) where
  open clock use {monotone, advances}

  abbrev Never : Error → Trace → Type 0
  Never e t = e ≢ out_of_fuel

  abbrev Found : InstallerService → Trace → Type 0
  Found s t = Unit {0}

  conclude_lem :
      {P : Trace → Type 0} (service : String) (deadline : ℕ) (again : M InstallerService)
      (v : Verdict)
      → Triple (λ t. P t × (env.clock t < deadline)) again Found Never
      → Triple P (conclude env service deadline again v) Found Never
  unfolding conclude
  conclude_lem service deadline again (accepted s) k = Triple-pure s (λ t h. tt)
  conclude_lem service deadline again (failed status) k =
      Triple-throw _ (λ t h. λ (x : deployment_failed service status ≡ out_of_fuel). cc)
  conclude_lem {P} service deadline again pending k =
      Triple-bind {Q = λ time t. P t × (time ≡ env.clock t)} (Triple-now env (λ t h. (h, refl)))
        (λ time.
          Triple-if (ltb time deadline)
            (λ before. Triple-assume (λ t (h, same). (h, ground arith)) k)
            (λ _. Triple-throw _ (λ t h. λ (x : deploy_timed_out service ≡ out_of_fuel). cc)))

  module _ (service : String) (poll_ms deadline : ℕ) (supersedes : Option String)
      (positive : 0 < poll_ms) where
    -- One round, before the round `fuel`.
    round_lem :
        (fuel : ℕ)
        → Triple
            (λ t. (deadline < env.clock t + fuel) × (env.clock t < deadline))
            (poll_loop env fuel service poll_ms deadline supersedes)
            Found
            Never
        → Triple
            (λ t. deadline ≤ env.clock t + fuel)
            (poll_loop env (suc fuel) service poll_ms deadline supersedes)
            Found
            Never
    unfolding poll_loop list_services
    round_lem fuel next =
        Triple-bind {Q = λ _ t. deadline < env.clock t + fuel}
          (Triple-sleep _ (λ t h. omega (arith, advances t poll_ms)))
          (λ _.
            Triple-bind {Q = λ _ t. deadline < env.clock t + fuel}
              (Triple-query env _ _
                (λ a t w h. omega (arith, monotone t (command service_list_args none)))
                (λ s t h. λ (x : external s ≡ out_of_fuel). cc))
              (λ services. conclude_lem service deadline _ _ next))

    -- The loop has one more round than there are milliseconds to the deadline.
    poll_loop_lem :
        (fuel : ℕ)
        → Triple
            (λ t. deadline ≤ env.clock t + fuel)
            (poll_loop env (suc fuel) service poll_ms deadline supersedes)
            Found
            Never
    poll_loop_lem zero = round_lem zero (Triple-absurd (λ t h. omega arith))
    poll_loop_lem (suc fuel) =
        round_lem (suc fuel) (Triple-assume (λ t h. omega arith) (poll_loop_lem fuel))

  Triple-poll :
      (service : String) (poll_seconds timeout_minutes : ℕ) (supersedes : Option String)
      → 0 < poll_seconds
      → Triple
          (λ _. Unit {0})
          (poll_service_until_success env service poll_seconds timeout_minutes supersedes)
          Found
          Never
  unfolding poll_service_until_success
  Triple-poll service poll_seconds timeout_minutes supersedes positive =
      Triple-bind {Q = λ start t. start ≡ env.clock t} (Triple-now env (λ t h. refl)) (λ start.
        Triple-assume (λ t h. omega arith)
          (poll_loop_lem service (poll_seconds * 1000) _ supersedes (omega arith) _))

  -- The poll ends by itself: it never runs out of its rounds, with a clock that advances by what is
  -- slept and a poll interval above zero.
  pub poll_service_until_success_ends :
      (service : String) (poll_seconds timeout_minutes : ℕ) (supersedes : Option String)
      (t t' : Trace)
      → 0 < poll_seconds
      → poll_service_until_success env service poll_seconds timeout_minutes supersedes t
        ≢ threw out_of_fuel t'
  poll_service_until_success_ends service poll_seconds timeout_minutes supersedes t t' positive e =
      Triple-threw (Triple-poll service poll_seconds timeout_minutes supersedes positive) tt e refl
