-- ===== src/Applier/Provider.antt =====
-- The secret of the model provider in `applyProfile`, and the key that is minted where it is not set.
use openclaw_control_plane.Common.{
  String, false, not, Option, none, some, List, ◌∷◌, ◌≡◌, refl, sym, ap, subst, ◌==◌, string_eq,
  option_eq, nat_eq,
}
use openclaw_control_plane.Effects.{pure}
use openclaw_control_plane.Effects.Platform.{Env, Event, command, fetched, Trace, SetupAuth}
use openclaw_control_plane.Effects.Reads.{IsRead, got, variable_list, Extends, same, more}
use openclaw_control_plane.Effects.Triple.{
  Triple, Triple-pure, Triple-require, Triple-bind, Triple-error, Triple-given, Triple-traced,
}
use openclaw_control_plane.Railway.{variable_set_args, variable_list_args, lookup_variable}
use openclaw_control_plane.Railway.Calls.{Triple-write_railway_variable}
use openclaw_control_plane.Profile.{
  ModelProvider, MintKeyRequest, mint_openrouter_key, mint_request,
}
use openclaw_control_plane.Applier.{mint_secret, resolve_provider_secret, resolve_provider}
use openclaw_control_plane.Applier.Regression.Probes.{Triple-mint}
use openclaw_control_plane.Applier.Failed.{Failed, unprepared, asked, unstored, Failed-at}
use openclaw_control_plane.Applier.Preparation.{status_event, Listed, Prepared, unminted, minted}

module _ (env : Env) (base : String) (auth : Option SetupAuth) (key : String) where
  module _ (service : String) (start : Trace) (variables : List (String × String))
      (w : Listed env service (status_event env base auth ∷ start) variables) where
    abbrev pub listed : Trace
    listed = command (variable_list_args service) none ∷ status_event env base auth ∷ start

    pub idle : (u : Trace) → u ≡ listed → Failed env base auth key service start u
    idle u h = Failed-at u h (unprepared (more variable_list (more got same)))

    abbrev pub Ready : Option String → Trace → Type 0
    Ready hash u = Prepared env key service (status_event env base auth ∷ start) hash u

    unminted_at : (u : Trace) → u ≡ listed → Ready none u
    unminted_at u h = subst (Ready none) (sym h) (unminted (more variable_list same))

    Triple-mint_secret :
        (p : ModelProvider) (name : String)
        → lookup_variable name variables ≡ none
        → Triple
            (λ u. u ≡ listed)
            (mint_secret env key p name service)
            (λ r u. Ready r.minted_key_hash u)
            (λ _. Failed env base auth key service start)
    unfolding mint_secret
    Triple-mint_secret p name absent =
        Triple-bind {Q = λ _ u. u ≡ listed} (Triple-require _ _ (λ a u e h. h) (λ u e h. idle u h))
          (λ provisioning.
            let request : MintKeyRequest = record { name = name; provisioning = provisioning } in
            Triple-bind
              (Triple-error
                (λ e u h. Failed-at u h (asked request (more variable_list (more got same))))
                (Triple-traced (mint_openrouter_key env key request) listed
                  (fetched (mint_request key request) ∷ listed)
                  (Triple-mint env key request
                    (λ u h. ap (λ x. fetched (mint_request key request) ∷ x) h))))
              (λ new. Triple-given λ mint.
                let skip = not (not (p.custom_provider_api_key_env == none)) in
                let write : Event = command (variable_set_args name service skip) (some new.key) in
                Triple-bind {Q = λ _ u. Ready (some new.hash) u}
                  (Triple-write_railway_variable env name new.key service _
                    (λ _ u _ h.
                      minted request new skip variables listed w absent (more variable_list same)
                        mint
                        (subst
                          (λ x.
                            Extends IsRead (write ∷ fetched (mint_request key request) ∷ listed)
                              (write ∷ x))
                          (sym h) same))
                    (λ s u h.
                      Failed-at (write ∷ u) (ap (λ x. write ∷ x) h)
                        (unstored request new skip (more variable_list (more got same)) mint)))
                  (λ _. Triple-pure _ (λ u h. h))))

    -- With the secret among the variables, nothing is minted.
    Triple-resolved :
        (p : ModelProvider) (name : String) (o : Option String)
        → lookup_variable name variables ≡ o
        → Triple
            (λ u. u ≡ listed)
            (elim o [
              | some existing ↦
                  pure (record {
                    value = existing;
                    triggered_redeploy = false;
                    minted_key_hash = none;
                  })
              | none ↦ mint_secret env key p name service
            ])
            (λ r u. Ready r.minted_key_hash u)
            (λ _. Failed env base auth key service start)
    Triple-resolved p name none e = Triple-mint_secret p name e
    Triple-resolved p name (some value) e = Triple-pure _ (λ u h. unminted_at u h)

    pub Triple-resolve_provider :
        (p : Option ModelProvider)
        → Triple
            (λ u. u ≡ listed)
            (resolve_provider env key p variables service)
            (λ (fields, redeployed, hash) u. Ready hash u)
            (λ _. Failed env base auth key service start)
    unfolding resolve_provider resolve_provider_secret
    Triple-resolve_provider none = Triple-pure _ (λ u h. unminted_at u h)
    Triple-resolve_provider (some p) =
        Triple-bind {Q = λ r u. Ready r.minted_key_hash u}
          (Triple-bind {Q = λ _ u. u ≡ listed}
            (Triple-require _ _ (λ a u e h. h) (λ u e h. idle u h))
            (λ name. Triple-resolved p name (lookup_variable name variables) refl))
          (λ r. Triple-pure _ (λ u h. h))
