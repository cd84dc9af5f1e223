-- ===== src/Client/Rotate.antt =====
-- What `rotateGatewayToken` leaves, by how it ends.
use Prim.Native.String.append
use openclaw_control_plane.Common.{ℕ, String, Option, some, ◌≡◌, refl, subst, sym, ◌∷◌}
use openclaw_control_plane.Effects.Errors.{Error}
use openclaw_control_plane.Effects.Platform.{Env, Trace, drew_random}
use openclaw_control_plane.Effects.{done, threw, ◌>>◌, create_secret}
use openclaw_control_plane.Effects.Reads.{
  IsRead, unchanged, standing, Extends, same, more, Extends-IsStable, variable_list, drawing,
}
use openclaw_control_plane.Effects.Triple.{
  Triple, Triple-given, Triple-bind, Triple-error, Triple-require, Triple-done, Triple-threw,
  Triple-weaken,
}
use openclaw_control_plane.Railway.Calls.{Reads, Triple-read_railway_variable}
use openclaw_control_plane.Client.{rotate_gateway_token, write_or_uncertain, redeploy_and_verify}
use openclaw_control_plane.Client.Footprint.{
  Footprint, IsRedeployed, Footprint-unchanged, Footprint-trans, Triple-write_and_verify,
}
use openclaw_control_plane.Client.Phases.{Quiet-prior_deployment_id, ReadBack}

abbrev pub token_name : String
token_name = "OPENCLAW_GATEWAY_TOKEN"

-- The new token is drawn after these events.
abbrev pub drawn : Trace → Trace
drawn point = drew_random 32 ∷ point

-- A rotation from `t` to `u`: a token was set before; after reads, another was drawn from 32 random
-- bytes; that one was written once, with one redeploy of that service; and the last event of the
-- run is a read that found it.
pub record IsRotated (env : Env) (service : String) (t u : Trace) : Type 0 where
  pub old : String
  pub current : Reads env token_name service t (some old)
  pub point : Trace
  pub reads : Extends IsRead t point
  pub read_back :
      ReadBack env token_name service
        (env.random point 32)
        (IsRedeployed env token_name (env.random point 32) service (drawn point))
        u

module _ (env : Env) (service : String) (t : Trace) where
  abbrev After : Error → Trace → Type 0
  After e u = (next : String) × Footprint env token_name next service t (standing e) u

  After-unchanged :
      (e : Error) (u : Trace) → Extends IsRead t u × (standing e ≡ unchanged) → After e u
  After-unchanged e u h = ("", Footprint-unchanged env token_name "" service t e u h)

  -- The write of a token that was drawn, and all that follows it.
  Triple-written :
      (setup_username : Option String) (poll_seconds timeout_minutes : ℕ) (old next prior : String)
      (point : Trace)
      → Reads env token_name service t (some old)
      → Extends IsRead t point
      → next ≡ env.random point 32
      → Triple
          (Extends IsRead (drawn point))
          (write_or_uncertain env token_name next service
            >> redeploy_and_verify env token_name next service setup_username poll_seconds
                timeout_minutes prior)
          (λ _. IsRotated env service t)
          After
  Triple-written setup_username poll_seconds timeout_minutes old next prior point current reads
        fresh =
      Triple-weaken
        (λ _ u back. record {
          old = old;
          current = current;
          point = point;
          reads = reads;
          read_back =
              subst
                (λ x.
                  ReadBack env token_name service x
                    (IsRedeployed env token_name x service (drawn point)) u)
                fresh back;
        })
        (λ e u h. (
          next,
          Footprint-trans env token_name next service t (drawn point) (standing e) u
              (more drawing reads) h,
        ))
        (Triple-write_and_verify env _ _ _ _ _ _ prior)

  Triple-rotate :
      (setup_username : Option String) (poll_seconds timeout_minutes : Option ℕ)
      → Triple
          (λ u. u ≡ t)
          (rotate_gateway_token env service setup_username poll_seconds timeout_minutes)
          (λ _. IsRotated env service t)
          After
  unfolding rotate_gateway_token create_secret
  Triple-rotate setup_username poll_seconds timeout_minutes =
      Triple-bind {Q = λ v u. Extends IsRead t u × Reads env token_name service t v}
        (Triple-read_railway_variable env _ _
          (λ v u w e.
            (rw e (more variable_list same), subst (λ x. Reads env token_name service x v) e w))
          (λ s u e. ("", rw e (more variable_list same))))
        (λ v. Triple-given λ w.
          Triple-bind {Q = λ old u. Extends IsRead t u × (v ≡ some old)}
            (Triple-require v _ (λ old u e h. (h, e)) (λ u e h. ("", h)))
            (λ old. Triple-given λ set.
              Triple-bind
                (Triple-error After-unchanged (Quiet-prior_deployment_id env Extends-IsStable _ _))
                (λ prior.
                  Triple-bind
                    {Q = λ next u.
                      (point : Trace) × Extends IsRead t point
                      × (next ≡ env.random point 32)
                      × (u ≡ drawn point)}
                    (record { at = λ u h. (u, h, append.nil _, refl) })
                    (λ next. record {
                      at = λ u (point, reads, fresh, e).
                          (Triple-written _ _ _ old next prior point
                              (subst (λ x. Reads env token_name service t x) set w) reads fresh).at
                            u (subst (Extends IsRead (drawn point)) (sym e) same);
                    }))))

-- A rotation that returns found a token that was set, has written in its place the text of 32 random
-- bytes that it had drawn, once, has redeployed that service once, and has read the drawn token
-- back.
pub rotate_gateway_token-IsRotated :
    (env : Env) (service : String) (setup_username : Option String)
    (poll_seconds timeout_minutes : Option ℕ) (t u : Trace)
    → rotate_gateway_token env service setup_username poll_seconds timeout_minutes t ≡ done tt u
    → IsRotated env service t u
rotate_gateway_token-IsRotated env service setup_username poll_seconds timeout_minutes t u e =
    Triple-done (Triple-rotate env service t setup_username poll_seconds timeout_minutes) refl e

-- The error of a rotation that throws tells the state it leaves: nothing was written; one write of
-- some token was sent and its outcome is unknown; or the write and one redeploy of that service
-- were made, followed by reads only.
pub rotate_gateway_token-Footprint :
    (env : Env) (service : String) (setup_username : Option String)
    (poll_seconds timeout_minutes : Option ℕ) (t u : Trace) (e : Error)
    → rotate_gateway_token env service setup_username poll_seconds timeout_minutes t ≡ threw e u
    → (next : String) × Footprint env token_name next service t (standing e) u
rotate_gateway_token-Footprint env service setup_username poll_seconds timeout_minutes t u e h =
    Triple-threw (Triple-rotate env service t setup_username poll_seconds timeout_minutes) refl h
