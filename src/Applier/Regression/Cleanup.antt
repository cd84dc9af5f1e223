-- ===== src/Applier/Regression/Cleanup.antt =====
-- A regression check never keeps the key that it minted without trying to delete it.
use openclaw_control_plane.Common.{
  false, String, Bool, true, ◌&&◌, ◌∷◌, nat_eq, bool_eq, option_eq, ◌≡◌, refl, ap, subst, ◌⊎◌, inl,
  inr,
}
use openclaw_control_plane.Json.{Json}
use openclaw_control_plane.Effects.{done, threw}
use openclaw_control_plane.Effects.Errors.{Error}
use openclaw_control_plane.Effects.Platform.{Env, fetched, Trace, Reply}
use openclaw_control_plane.Effects.Reads.{Extends}
use openclaw_control_plane.Effects.Triple.{
  Triple, Keeps, Triple-pure, Triple-require, Triple-await, Triple-bind, Triple-error, Triple-given,
  Triple-itself, Triple-weaken, Triple-done, Triple-threw,
}
use openclaw_control_plane.Profile.{
  ClientProfile, MintKeyRequest, MintedOpenRouterKey, mint_request, delete_request,
  mint_openrouter_key,
}
use openclaw_control_plane.Applier.Regression.{
  RegressionCheckOptions, RegressionCheckResult, Checks, checks_passed, regression_request,
  run_regression_check,
}
use openclaw_control_plane.Applier.Regression.Probes.{
  IsProbe, IsDeleted, IsSound, Triple-mint, Triple-delete, Triple-run_checks,
}

-- A regression check from `t` to `u`: one request for a key, the probes, and as the last event the
-- request to delete the key that was minted. The result calls the key deleted only where that was
-- answered with success, and calls the check passed only where, besides, the probes were sound.
pub record IsCleanedUp (env : Env) (management_key : String) (o : RegressionCheckOptions)
    (t : Trace) (r : RegressionCheckResult) (u : Trace) : Type 0 where
  pub request : MintKeyRequest
  pub minted : MintedOpenRouterKey
  pub mint :
      mint_openrouter_key env management_key request t
      ≡ done minted (fetched (mint_request management_key request) ∷ t)
  pub named : r.minted_key_hash ≡ minted.hash
  pub before : Trace
  pub probed :
      Extends
        (IsProbe request.name o.service minted.key)
        (fetched (mint_request management_key request) ∷ t)
        before
  pub last : u ≡ fetched (delete_request management_key r.minted_key_hash) ∷ before
  pub deleted : (r.key_deleted ≡ false) ⊎ IsDeleted env management_key r.minted_key_hash before
  pub sound :
      (r.passed ≡ false)
      ⊎ ((r.key_deleted ≡ true)
          × IsSound env o request.name minted.key
              (fetched (mint_request management_key request) ∷ t)
              before)

passed_sound :
    {S : Type 0} (d : Bool) (c : Checks)
    → (checks_passed c ≡ false) ⊎ S
    → ((d && checks_passed c) ≡ false) ⊎ ((d ≡ true) × S)
passed_sound false c h = inl refl
passed_sound true c (inl e) = inl e
passed_sound true c (inr s) = inr (refl, s)

Triple-regression_request :
    (env : Env) {P : Trace → Type 0} (profile : ClientProfile)
    → Keeps P (regression_request env profile)
unfolding regression_request
Triple-regression_request env profile =
    Triple-bind (Triple-require _ _ (λ a t e h. h) (λ t e h. h)) (λ provider.
      Triple-bind (Triple-require _ _ (λ a t e h. h) (λ t e h. h)) (λ name.
        Triple-bind (Triple-require _ _ (λ a t e h. h) (λ t e h. h))
          (λ p. Triple-pure _ (λ t h. h))))

-- Nothing was done; or a key was asked for, and that request failed.
abbrev pub Unminted : Env → (management_key : String) → Trace → Error → Trace → Type 0
Unminted env key t e u =
    (u ≡ t)
    ⊎ ((request : MintKeyRequest) × (mint_openrouter_key env key request t ≡ threw e u)
        × (u ≡ fetched (mint_request key request) ∷ t))

Triple-regression :
    (env : Env) (parse : Json → Reply ClientProfile) (key : String) (candidate : Json)
    (o : RegressionCheckOptions) (t : Trace)
    → Triple
        (λ u. u ≡ t)
        (run_regression_check env parse key candidate o)
        (IsCleanedUp env key o t)
        (Unminted env key t)
unfolding run_regression_check
Triple-regression env parse key candidate o t =
    Triple-bind {Q = λ _ u. u ≡ t} (Triple-await _ (λ a u e h. h) (λ s u h. inl h)) (λ profile.
      Triple-bind (Triple-error (λ e u h. inl h) (Triple-regression_request env profile))
        (λ request.
          let point = fetched (mint_request key request) ∷ t in
          Triple-bind
            {Q = λ minted u.
              (u ≡ point) × (mint_openrouter_key env key request t ≡ done minted point)}
            (Triple-weaken
              (λ a u (h, run).
                (h, subst (λ x. mint_openrouter_key env key request t ≡ done a x) h run))
              (λ e u (h, run). inr (request, run, h))
              (Triple-itself (
                Triple-mint env key request
                  (λ u h. ap (λ x. fetched (mint_request key request) ∷ x) h))))
            (λ minted. Triple-given λ mint.
              Triple-bind
                (Triple-error (λ e u h. absurd h)
                  (Triple-run_checks env o request.name minted.key point minted refl))
                (λ checks.
                  Triple-bind (Triple-error (λ e u h. absurd h) (Triple-delete env key minted.hash))
                    (λ delete_error. Triple-pure _ (λ u (before, (probed, found), l, d). record {
                      request = request;
                      minted = minted;
                      mint = mint;
                      named = refl;
                      before = before;
                      probed = probed;
                      last = l;
                      deleted = d;
                      sound = passed_sound _ checks found;
                    }))))))

-- A regression check that returns has minted one key, has then only written that key to its
-- variable and read the instance, and has asked to delete the key as its last act, whatever the
-- checks found or threw. It calls the key deleted only where that was answered with success; and it
-- passed only where, besides, the status reported configured and the health check was answered with
-- 200, after the key was written.
pub run_regression_check-IsCleanedUp :
    (env : Env) (parse : Json → Reply ClientProfile) (management_key : String) (candidate : Json)
    (o : RegressionCheckOptions) (t u : Trace) (r : RegressionCheckResult)
    → run_regression_check env parse management_key candidate o t ≡ done r u
    → IsCleanedUp env management_key o t r u
run_regression_check-IsCleanedUp env parse key candidate o t u r e =
    Triple-done (Triple-regression env parse key candidate o t) refl e

-- A regression check that throws has done nothing, or its request for a key has failed with that
-- error, and it has done nothing else: once a key is minted it always returns.
pub run_regression_check_throws :
    (env : Env) (parse : Json → Reply ClientProfile) (management_key : String) (candidate : Json)
    (o : RegressionCheckOptions) (t u : Trace) (e : Error)
    → run_regression_check env parse management_key candidate o t ≡ threw e u
    → (u ≡ t)
      ⊎ ((request : MintKeyRequest) × (mint_openrouter_key env management_key request t ≡ threw e u)
          × (u ≡ fetched (mint_request management_key request) ∷ t))
run_regression_check_throws env parse key candidate o t u e h =
    Triple-threw (Triple-regression env parse key candidate o t) refl h
