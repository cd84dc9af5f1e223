-- ===== src/Applier/Preparation.antt =====
-- The preparation of `applyProfile`: what happens before the setup is run.
use openclaw_control_plane.Common.{
  ℕ, zero, suc, String, Bool, Option, none, some, List, [], ◌∷◌, ◌≡◌, ap, ◌⊎◌, inl, inr, string_eq,
  option_eq, nat_eq, ltb,
}
use openclaw_control_plane.Json.{Json}
use openclaw_control_plane.Effects.Errors.{Error}
use openclaw_control_plane.Effects.Platform.{
  Env, Event, command, fetched, Trace, Response, Method, is_ok, SetupAuth,
}
use openclaw_control_plane.Effects.Reads.{IsRead, IsStable, got, sleeping, Extends, more}
use openclaw_control_plane.Effects.Triple.{
  Keeps, Triple-pure, Triple-throw, Triple-if, Triple-require, Triple-bind, Triple-fetch, Triple,
  Triple-traced, Triple-now, Triple-sleep,
}
use openclaw_control_plane.Railway.{variable_set_args, variable_list_args, lookup_variable}
use openclaw_control_plane.Railway.Calls.{Answered}
use openclaw_control_plane.Profile.{
  ModelProvider, ChannelFieldMapping, MintKeyRequest, MintedOpenRouterKey, mint_openrouter_key,
  mint_request, setup_answer, setup_request, checked, get_status,
}
use openclaw_control_plane.Applier.{healthy_loop, wait_for_healthy, resolve_channels, sole_provider}
use openclaw_control_plane.Effects.{done}

abbrev pub status_event : Env → (base : String) → Option SetupAuth → Event
status_event env base auth =
    fetched (setup_request env base auth Method.get "/setup/api/status" none)

abbrev pub run_event : Env → (base : String) → Option SetupAuth → (payload : Json) → Event
run_event env base auth payload =
    fetched (setup_request env base auth Method.post "/setup/api/run" (some payload))

-- The variables that were listed before anything was changed.
abbrev pub Listed : Env → (service : String) → Trace → List (String × String) → Type 0
Listed env service t variables = Answered env (variable_list_args service) env.variables t variables

-- From `t`, before the setup runs: no key was minted, and there are only reads; or the first secret
-- of the provider was not among the variables that were listed, one key was minted under its name,
-- and that variable was written once.
pub data Prepared (env : Env) (management_key service : String) (t : Trace)
    : Option String → Trace → Type 0 where
  unminted : {u : Trace} → Extends IsRead t u → Prepared env management_key service t none u
  minted :
      {u : Trace} (request : MintKeyRequest) (new : MintedOpenRouterKey) (skip : Bool)
      (variables : List (String × String)) (point : Trace)
      → Listed env service t variables
      → lookup_variable request.name variables ≡ none
      → Extends IsRead t point
      → mint_openrouter_key env management_key request point
        ≡ done new (fetched (mint_request management_key request) ∷ point)
      → Extends IsRead
          (command (variable_set_args request.name service skip) (some new.key)
            ∷ fetched (mint_request management_key request)
            ∷ point)
          u
      → Prepared env management_key service t (some new.hash) u

Prepared-more :
    {env : Env} {key service : String} {t u : Trace} {hash : Option String} {e : Event}
    → IsRead e
    → Prepared env key service t hash u
    → Prepared env key service t hash (e ∷ u)
Prepared-more k (unminted h) = unminted (more k h)
Prepared-more k (minted request new skip vs point l a p m h) =
    minted request new skip vs point l a p m (more k h)

pub Prepared-IsStable :
    (env : Env) (key service : String) (t : Trace) (hash : Option String)
    → IsStable (Prepared env key service t hash)
Prepared-IsStable env key service t hash = record { read = Prepared-more }

module _ (env : Env) {P : Trace → Type 0} (stable : IsStable P) where
  open stable use {read}

  pub Keeps-healthy_loop :
      (fuel : ℕ) (base : String) (poll_ms timeout_seconds deadline : ℕ)
      → Keeps P (healthy_loop env fuel base poll_ms timeout_seconds deadline)
  unfolding healthy_loop
  Keeps-healthy_loop zero base poll_ms timeout_seconds deadline = Triple-throw _ (λ t h. h)
  Keeps-healthy_loop (suc fuel) base poll_ms timeout_seconds deadline =
      Triple-bind (Triple-fetch env _ (λ r t e h. read got h) (λ s t h. read got h)) (λ r.
        Triple-if (is_ok r) (λ _. Triple-pure tt (λ t h. h))
          (λ _. Triple-bind (Triple-now env (λ t h. h)) (λ time.
            Triple-if (ltb time deadline)
              (λ _.
                Triple-bind (Triple-sleep _ (λ t h. read sleeping h))
                  (λ _. Keeps-healthy_loop fuel base poll_ms timeout_seconds deadline))
              (λ _. Triple-throw _ (λ t h. h)))))

  pub Keeps-wait_for_healthy :
      (base : String) (poll timeout : Option ℕ) → Keeps P (wait_for_healthy env base poll timeout)
  unfolding wait_for_healthy
  Keeps-wait_for_healthy base poll timeout =
      Triple-bind (Triple-now env (λ t h. h)) (λ start. Keeps-healthy_loop _ base _ _ _)

module _ (env : Env) {P : Trace → Type 0} where
  pub Keeps-setup_answer :
      (method path : String) (r : Response) → Keeps P (setup_answer env method path r)
  unfolding setup_answer
  Keeps-setup_answer method path r =
      Triple-if (is_ok r) (λ _. Triple-require r.body _ (λ a t e h. h) (λ t e h. h))
        (λ _. Triple-throw _ (λ t h. h))

  pub Keeps-checked : (o : Error ⊎ List ChannelFieldMapping) → Keeps P (checked env o)
  unfolding checked
  Keeps-checked (inl e) = Triple-throw e (λ t h. h)
  Keeps-checked (inr ms) = Triple-pure ms (λ t h. h)

  pub Keeps-sole_provider : (ps : List ModelProvider) → Keeps P (sole_provider env ps)
  unfolding sole_provider
  Keeps-sole_provider [] = Triple-pure _ (λ t h. h)
  Keeps-sole_provider (p ∷ []) = Triple-pure _ (λ t h. h)
  Keeps-sole_provider (p ∷ q ∷ rest) = Triple-throw _ (λ t h. h)

  pub Keeps-resolve_channels :
      (service : String) (variables : List (String × String)) (ms : List ChannelFieldMapping)
      → Keeps P (resolve_channels env service variables ms)
  unfolding resolve_channels
  Keeps-resolve_channels service variables [] = Triple-pure _ (λ t h. h)
  Keeps-resolve_channels service variables (m ∷ ms) =
      Triple-bind (Triple-require _ _ (λ a t e h. h) (λ t e h. h)) (λ value.
        Triple-bind (Keeps-resolve_channels service variables ms)
          (λ rest. Triple-pure _ (λ t h. h)))

-- A reading of the status, with the run itself.
pub Triple-status :
    (env : Env) (base : String) (auth : Option SetupAuth) (t : Trace)
    → Triple
        (λ u. u ≡ t)
        (get_status env base auth)
        (λ s u.
          (u ≡ status_event env base auth ∷ t)
          × (get_status env base auth t ≡ done s (status_event env base auth ∷ t)))
        (λ _ u. u ≡ status_event env base auth ∷ t)
unfolding get_status
Triple-status env base auth t =
    Triple-traced (get_status env base auth) t (status_event env base auth ∷ t) (
      Triple-bind {Q = λ _ u. u ≡ status_event env base auth ∷ t}
        (Triple-fetch env _ (λ r u e h. ap (λ x. status_event env base auth ∷ x) h)
          (λ s u h. ap (λ x. status_event env base auth ∷ x) h))
        (λ r. Keeps-setup_answer env _ _ r))
