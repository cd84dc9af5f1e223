-- ===== src/Railway/Ready.antt =====
-- `waitForSetupReady`: what its return says, and that it ends.
use openclaw_control_plane.Common.{
  ℕ, zero, suc, ◌+◌, ◌*◌, ◌≤◌, ◌<◌, String, none, some, ◌∷◌, ◌≡◌, refl, ◌≢◌, arith, ◌==◌, nat_eq,
  ltb,
}
use openclaw_control_plane.Effects.Errors.{Error, external, out_of_fuel, setup_not_ready}
use openclaw_control_plane.Effects.Platform.{
  Env, Event, fetched, Trace, Request, Response, get, SetupAuth, basic_auth_header, ok,
}
use openclaw_control_plane.Effects.{done, threw}
use openclaw_control_plane.Effects.Triple.{
  Triple, Triple-pure, Triple-throw, Triple-if, Triple-bind, Triple-now, Triple-fetch, Triple-sleep,
  Triple-assume, Triple-absurd, Triple-done, Triple-threw,
}
use openclaw_control_plane.Railway.{check_setup_status, ready_loop, wait_for_setup_ready}
use openclaw_control_plane.Railway.Deadline.{IsClock}

-- The request that asks for the setup status, with the credentials.
abbrev pub status_request : Env → (url : String) → SetupAuth → Request
status_request env url auth = record {
  method = get;
  url = url;
  authorization = some (basic_auth_header env auth);
  body = none;
}

-- The last event was this request, and it was answered with this status.
pub record IsAnswered (env : Env) (request : Request) (status : ℕ) (u : Trace) : Type 0 where
  pub before : Trace
  pub response : Response
  pub answered : env.fetch before request ≡ ok response
  pub code : response.status ≡ status
  pub last : u ≡ fetched request ∷ before

module _ (env : Env) (clock : IsClock env) (url : String) (auth : SetupAuth) where
  open clock use {monotone, advances}

  abbrev asked : Event
  asked = fetched (status_request env url auth)

  abbrev Ready : Trace → Type 0
  Ready u = IsAnswered env (status_request env url auth) 200 u

  Triple-check :
      (deadline fuel : ℕ)
      → Triple
          (λ t. deadline ≤ env.clock t + fuel)
          (check_setup_status env url auth)
          (λ status t.
            (deadline ≤ env.clock t + fuel) × IsAnswered env (status_request env url auth) status t)
          (λ e _. e ≢ out_of_fuel)
  unfolding check_setup_status
  Triple-check deadline fuel =
      Triple-bind
        {Q = λ r t.
          (deadline ≤ env.clock t + fuel) × IsAnswered env (status_request env url auth) r.status t}
        (Triple-fetch env _
          (λ r t w h. (
            omega (arith, monotone t asked),
            record { before = t; response = r; answered = w; code = refl; last = refl },
          ))
          (λ s t h. λ (x : external s ≡ out_of_fuel). cc))
        (λ r. Triple-pure _ (λ t h. h))

  module _ (poll_ms deadline timeout_minutes : ℕ) (positive : 0 < poll_ms) where
    round_lem :
        (fuel : ℕ)
        → Triple
            (λ t. (deadline < env.clock t + fuel) × (env.clock t < deadline))
            (ready_loop env fuel url auth poll_ms deadline timeout_minutes)
            (λ _. Ready)
            (λ e _. e ≢ out_of_fuel)
        → Triple
            (λ t. deadline ≤ env.clock t + fuel)
            (ready_loop env (suc fuel) url auth poll_ms deadline timeout_minutes)
            (λ _. Ready)
            (λ e _. e ≢ out_of_fuel)
    unfolding ready_loop
    round_lem fuel next = Triple-bind (Triple-check deadline fuel) (λ status.
        Triple-if (status == 200)
          (λ e. Triple-pure tt (λ t (h, w). record {
            before = w.before;
            response = w.response;
            answered = w.answered;
            code = ground (arith, w.code);
            last = w.last;
          }))
          (λ _.
            Triple-bind {Q = λ _ t. deadline < env.clock t + fuel}
              (Triple-sleep _ (λ t (h, w). omega (arith, advances t poll_ms)))
              (λ _.
                Triple-bind {Q = λ time t. (deadline < env.clock t + fuel) × (time ≡ env.clock t)}
                  (Triple-now env (λ t h. (h, refl)))
                  (λ time.
                    Triple-if (ltb time deadline)
                      (λ before. Triple-assume (λ t (h, now). (h, ground arith)) next)
                      (λ _. Triple-throw _ (λ t h.
                        λ (x : setup_not_ready url timeout_minutes (some status) ≡ out_of_fuel).
                          cc))))))

    loop_lem :
        (fuel : ℕ)
        → Triple
            (λ t. deadline ≤ env.clock t + fuel)
            (ready_loop env (suc fuel) url auth poll_ms deadline timeout_minutes)
            (λ _. Ready)
            (λ e _. e ≢ out_of_fuel)
    loop_lem zero = round_lem zero (Triple-absurd (λ t h. omega arith))
    loop_lem (suc fuel) = round_lem (suc fuel) (Triple-assume (λ t h. omega arith) (loop_lem fuel))

  Triple-Ready :
      {P : Trace → Type 0} (poll_seconds timeout_minutes : ℕ)
      → 0 < poll_seconds
      → Triple P
          (wait_for_setup_ready env url auth poll_seconds timeout_minutes)
          (λ _. Ready)
          (λ e _. e ≢ out_of_fuel)
  unfolding wait_for_setup_ready
  Triple-Ready poll_seconds timeout_minutes positive =
      Triple-bind {Q = λ start t. start ≡ env.clock t} (Triple-now env (λ t h. refl)) (λ start.
        Triple-assume (λ t h. omega arith)
          (loop_lem (poll_seconds * 1000) _ timeout_minutes (omega arith) _))

  -- The wait ends by itself: it never runs out of its rounds, with a clock that advances by what is
  -- slept and a poll interval above zero.
  pub wait_for_setup_ready_ends :
      (poll_seconds timeout_minutes : ℕ) (t u : Trace)
      → 0 < poll_seconds
      → wait_for_setup_ready env url auth poll_seconds timeout_minutes t ≢ threw out_of_fuel u
  wait_for_setup_ready_ends poll_seconds timeout_minutes t u positive e =
      Triple-threw (Triple-Ready {P = λ _. Unit {0}} poll_seconds timeout_minutes positive) tt e
        refl

-- What the return of a wait says, whatever the clock.
abbrev Always : Trace → Type 0
Always t = Unit {0}

abbrev Anyhow : Error → Trace → Type 0
Anyhow e t = Unit {0}

module _ (env : Env) (url : String) (auth : SetupAuth) where
  loop-IsAnswered :
      (fuel poll_ms deadline timeout_minutes : ℕ)
      → Triple Always
          (ready_loop env fuel url auth poll_ms deadline timeout_minutes)
          (λ _ u. IsAnswered env (status_request env url auth) 200 u)
          Anyhow
  unfolding ready_loop check_setup_status
  loop-IsAnswered zero poll_ms deadline timeout_minutes = Triple-throw _ (λ t h. tt)
  loop-IsAnswered (suc fuel) poll_ms deadline timeout_minutes =
      Triple-bind {Q = λ status t. IsAnswered env (status_request env url auth) status t}
        (Triple-bind {Q = λ r t. IsAnswered env (status_request env url auth) r.status t}
          (Triple-fetch env _
            (λ r t w h. record { before = t; response = r; answered = w; code = refl; last = refl })
            (λ s t h. tt))
          (λ r. Triple-pure _ (λ t h. h)))
        (λ status.
          Triple-if (status == 200)
            (λ e. Triple-pure tt (λ t w. record {
              before = w.before;
              response = w.response;
              answered = w.answered;
              code = ground (arith, w.code);
              last = w.last;
            }))
            (λ _. Triple-bind {Q = λ _. Always} (Triple-sleep _ (λ t h. tt)) (λ _.
              Triple-bind {Q = λ _. Always} (Triple-now env (λ t h. tt)) (λ time.
                Triple-if (ltb time deadline)
                  (λ _. loop-IsAnswered fuel poll_ms deadline timeout_minutes)
                  (λ _. Triple-throw _ (λ t h. tt))))))

  -- A wait that returns ends with a status request under the given credentials that was answered
  -- with 200.
  pub wait_for_setup_ready-IsAnswered :
      (poll_seconds timeout_minutes : ℕ) (t u : Trace)
      → wait_for_setup_ready env url auth poll_seconds timeout_minutes t ≡ done tt u
      → IsAnswered env (status_request env url auth) 200 u
  unfolding wait_for_setup_ready
  wait_for_setup_ready-IsAnswered poll_seconds timeout_minutes t u e =
      Triple-done {P = Always}
        (Triple-bind {Q = λ _. Always} (Triple-now env (λ t h. tt))
          (λ start. loop-IsAnswered _ _ _ _))
        tt e
