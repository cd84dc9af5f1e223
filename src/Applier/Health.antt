-- ===== src/Applier/Health.antt =====
-- `waitForHealthy`: what its return says, and that it ends.
use openclaw_control_plane.Common.{
  ℕ, zero, suc, ◌+◌, ◌*◌, ◌<◌, String, true, Option, ◌∷◌, ◌≡◌, refl, ◌≢◌, ◌⊎◌, inl, inr, ap, ◌∙◌,
  arith, ltb, get_or,
}
use openclaw_control_plane.Effects.Errors.{Error, external, out_of_fuel, not_healthy_yet}
use openclaw_control_plane.Effects.Platform.{Env, Event, fetched, Trace, Response, is_ok, ok}
use openclaw_control_plane.Effects.{Out, done, threw}
use openclaw_control_plane.Effects.Triple.{
  Triple, Triple-pure, Triple-throw, Triple-if, Triple-bind, Triple-now, Triple-fetch, Triple-sleep,
  Triple-assume, Triple-absurd, Triple-done, Triple-threw,
}
use openclaw_control_plane.Railway.Deadline.{IsClock}
use openclaw_control_plane.Applier.{health_request, health_url, healthy_loop, wait_for_healthy}

-- The last event was a health check that was answered with a status of success.
pub record IsHealthy (env : Env) (base : String) (u : Trace) : Type 0 where
  pub before : Trace
  pub response : Response
  pub answered : env.fetch before (health_request base) ≡ ok response
  pub success : is_ok response ≡ true
  pub last : u ≡ fetched (health_request base) ∷ before

module _ (env : Env) (clock : IsClock env) (base : String) where
  open clock use {monotone, advances}

  abbrev asked : Event
  asked = fetched (health_request base)

  -- The last event was a health check with this answer.
  abbrev Answered : Response → Trace → Type 0
  Answered r t =
      (before : Trace) × (env.fetch before (health_request base) ≡ ok r) × (t ≡ asked ∷ before)

  module _ (poll_ms timeout deadline : ℕ) (positive : 0 < poll_ms) where
    abbrev Loop : ℕ → Type 0
    Loop fuel =
        Triple (λ t. (deadline < env.clock t + fuel) × (0 < fuel))
          (healthy_loop env fuel base poll_ms timeout deadline) (λ _. IsHealthy env base)
          (λ e _. e ≢ out_of_fuel)

    -- The next round is reached before the deadline only, so there is one.
    round_lem : (fuel : ℕ) → Loop fuel → Loop (suc fuel)
    unfolding healthy_loop
    round_lem fuel next =
        Triple-bind {Q = λ r t. (deadline < env.clock t + suc fuel) × Answered r t}
          (Triple-fetch env _ (λ r t w h. (omega (arith, monotone t asked, h.0), (t, w, refl)))
            (λ s t h. λ (x : external s ≡ out_of_fuel). cc))
          (λ r.
            Triple-if (is_ok r)
              (λ yes. Triple-pure tt (λ t (h, a). record {
                before = a.0;
                response = r;
                answered = a.1;
                success = yes;
                last = a.2;
              }))
              (λ _.
                Triple-bind
                  {Q = λ time t. (deadline < env.clock t + suc fuel) × (time ≡ env.clock t)}
                  (Triple-now env (λ t h. (h.0, refl)))
                  (λ time.
                    Triple-if (ltb time deadline)
                      (λ before.
                        Triple-bind {Q = λ _ t. (deadline < env.clock t + fuel) × (0 < fuel)}
                          (Triple-assume
                            {P = λ t.
                              (deadline < env.clock t + suc fuel) × (env.clock t < deadline)}
                            (λ t (h, now). (h, ground arith))
                            (Triple-sleep _
                              (λ t (h, early). (omega (arith, advances t poll_ms), omega arith))))
                          (λ _. next))
                      (λ _. Triple-throw _ (λ t h.
                        λ (x : not_healthy_yet (health_url base) timeout r.status ≡ out_of_fuel).
                          cc)))))

    loop_lem : (fuel : ℕ) → Loop fuel
    loop_lem zero = Triple-absurd (λ t h. omega (arith, h.1))
    loop_lem (suc fuel) = round_lem fuel (loop_lem fuel)

  Triple-IsHealthy :
      {P : Trace → Type 0} (poll_seconds timeout_seconds : Option ℕ)
      → 0 < get_or poll_seconds 2
      → Triple P
          (wait_for_healthy env base poll_seconds timeout_seconds)
          (λ _. IsHealthy env base)
          (λ e _. e ≢ out_of_fuel)
  unfolding wait_for_healthy
  Triple-IsHealthy poll_seconds timeout_seconds positive =
      Triple-bind {Q = λ start t. start ≡ env.clock t} (Triple-now env (λ t h. refl)) (λ start.
        Triple-assume (λ t h. (omega (arith, h), omega arith))
          (loop_lem (get_or poll_seconds 2 * 1000) _ _ (omega (arith, positive)) _))

  -- It never runs out of its rounds.
  runs_lem :
      (poll_seconds timeout_seconds : Option ℕ) (t u : Trace)
      → 0 < get_or poll_seconds 2
      → wait_for_healthy env base poll_seconds timeout_seconds t ≢ threw out_of_fuel u
  runs_lem poll_seconds timeout_seconds t u positive e =
      Triple-threw (Triple-IsHealthy {P = λ _. Unit {0}} poll_seconds timeout_seconds positive) tt e
        refl

-- What the return of a wait says, whatever the clock.
abbrev Always : Trace → Type 0
Always t = Unit {0}

module _ (env : Env) (base : String) where
  healthy_loop_lem :
      (fuel poll_ms timeout deadline : ℕ)
      → Triple Always
          (healthy_loop env fuel base poll_ms timeout deadline)
          (λ _. IsHealthy env base)
          (λ _. Always)
  unfolding healthy_loop
  healthy_loop_lem zero poll_ms timeout deadline = Triple-throw _ (λ t h. tt)
  healthy_loop_lem (suc fuel) poll_ms timeout deadline =
      Triple-bind
        {Q = λ r t.
          (before : Trace) × (env.fetch before (health_request base) ≡ ok r)
          × (t ≡ fetched (health_request base) ∷ before)}
        (Triple-fetch env _ (λ r t w h. (t, w, refl)) (λ s t h. tt))
        (λ r.
          Triple-if (is_ok r)
            (λ yes. Triple-pure tt (λ t (before, w, l). record {
              before = before;
              response = r;
              answered = w;
              success = yes;
              last = l;
            }))
            (λ _. Triple-bind {Q = λ _. Always} (Triple-now env (λ t h. tt)) (λ time.
              Triple-if (ltb time deadline)
                (λ _.
                  Triple-bind {Q = λ _. Always} (Triple-sleep _ (λ t h. tt))
                    (λ _. healthy_loop_lem fuel poll_ms timeout deadline))
                (λ _. Triple-throw _ (λ t h. tt)))))

  -- A wait that returns ends with a health check that was answered with success.
  pub wait_for_healthy-IsHealthy :
      (poll_seconds timeout_seconds : Option ℕ) (t u : Trace)
      → wait_for_healthy env base poll_seconds timeout_seconds t ≡ done tt u
      → IsHealthy env base u
  unfolding wait_for_healthy
  wait_for_healthy-IsHealthy poll_seconds timeout_seconds t u e =
      Triple-done {P = Always}
        (Triple-bind {Q = λ _. Always} (Triple-now env (λ t h. tt))
          (λ start. healthy_loop_lem _ _ _ _))
        tt e

ends_lem :
    (env : Env) (clock : IsClock env) (base : String) (poll_seconds timeout_seconds : Option ℕ)
    (t : Trace) (o : Out (Unit {0}))
    → 0 < get_or poll_seconds 2
    → wait_for_healthy env base poll_seconds timeout_seconds t ≡ o
    → ((u : Trace) × (o ≡ done tt u) × IsHealthy env base u)
      ⊎ ((e : Error) × (u : Trace) × (o ≡ threw e u) × (e ≢ out_of_fuel))
ends_lem env clock base poll_seconds timeout_seconds t (done tt u) positive h =
    inl (u, refl, wait_for_healthy-IsHealthy env base poll_seconds timeout_seconds t u h)
ends_lem env clock base poll_seconds timeout_seconds t (threw e u) positive h = inr (
  e,
  u,
  refl,
  λ same.
      runs_lem env clock base poll_seconds timeout_seconds t u positive
        (h ∙ ap (λ x. threw x u) same),
)

-- The wait ends by itself, with a clock that advances by what is slept and a poll interval above
-- zero: it returns after a health check that was answered with success, or it throws, and not
-- because its rounds are used up.
pub wait_for_healthy_ends :
    (env : Env) (clock : IsClock env) (base : String) (poll_seconds timeout_seconds : Option ℕ)
    (t : Trace)
    → 0 < get_or poll_seconds 2
    → ((u : Trace) × (wait_for_healthy env base poll_seconds timeout_seconds t ≡ done tt u)
        × IsHealthy env base u)
      ⊎ ((e : Error) × (u : Trace) × (wait_for_healthy env base poll_seconds timeout_seconds t
            ≡ threw e u)
          × (e ≢ out_of_fuel))
wait_for_healthy_ends env clock base poll_seconds timeout_seconds t positive =
    ends_lem env clock base poll_seconds timeout_seconds t _ positive refl
