-- ===== src/Applier/Failed.antt =====
-- What an `applyProfile` that throws has done.
use openclaw_control_plane.Common.{String, Option, some, ◌∷◌, ◌≡◌, sym, subst, Bool}
use openclaw_control_plane.Json.{Json}
use openclaw_control_plane.Effects.{done}
use openclaw_control_plane.Effects.Platform.{Env, command, fetched, Trace, SetupAuth}
use openclaw_control_plane.Effects.Reads.{IsRead, Extends}
use openclaw_control_plane.Railway.{variable_set_args}
use openclaw_control_plane.Profile.{
  MintKeyRequest, MintedOpenRouterKey, mint_openrouter_key, mint_request,
}
use openclaw_control_plane.Applier.Preparation.{status_event, run_event, Prepared}

-- From `t`: nothing but reads; reads and then one request for a key; the write of the key that was
-- minted as the last act; the preparation, after which only reads follow; or the preparation, one
-- run of the setup, and then reads.
pub data Failed (env : Env) (base : String) (auth : Option SetupAuth)
    (management_key service : String) (t : Trace) : Trace → Type 0 where
  unprepared : {u : Trace} → Extends IsRead t u → Failed env base auth management_key service t u
  asked :
      {point : Trace} (request : MintKeyRequest)
      → Extends IsRead t point
      → Failed env base auth management_key service t
          (fetched (mint_request management_key request) ∷ point)
  unstored :
      {point : Trace} (request : MintKeyRequest) (new : MintedOpenRouterKey) (skip : Bool)
      → Extends IsRead t point
      → mint_openrouter_key env management_key request point
        ≡ done new (fetched (mint_request management_key request) ∷ point)
      → Failed env base auth management_key service t (
          command (variable_set_args request.name service skip) (some new.key)
          ∷ fetched (mint_request management_key request)
          ∷ point)
  prepared :
      {u : Trace} (hash : Option String)
      → Prepared env management_key service (status_event env base auth ∷ t) hash u
      → Failed env base auth management_key service t u
  ran :
      {before u : Trace} (hash : Option String) (payload : Json)
      → Prepared env management_key service (status_event env base auth ∷ t) hash before
      → Extends IsRead (run_event env base auth payload ∷ before) u
      → Failed env base auth management_key service t u

module _ {env : Env} {base : String} {auth : Option SetupAuth} {key service : String}
    {t : Trace} where
  pub Failed-at :
      {x : Trace} (u : Trace)
      → u ≡ x
      → Failed env base auth key service t x
      → Failed env base auth key service t u
  Failed-at u e h = subst (λ v. Failed env base auth key service t v) (sym e) h
