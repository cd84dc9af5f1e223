-- ===== src/Instance/Answers.antt =====
-- The steps that the two repairs share: one request, and what is made of its answer.
use openclaw_control_plane.Common.{String}
use openclaw_control_plane.Json.{Json, null}
use openclaw_control_plane.Effects.Platform.{Env, Trace, Response, is_ok}
use openclaw_control_plane.Effects.Triple.{
  Keeps, Triple-pure, Triple-throw, Triple-if, Triple-require,
}
use openclaw_control_plane.Instance.{json_of, member}

module _ (env : Env) {P : Trace → Type 0} where
  pub Keeps-json_of : (method path : String) (r : Response) → Keeps P (json_of env method path r)
  unfolding json_of
  Keeps-json_of method path r =
      Triple-if (is_ok r) (λ _. Triple-require r.body _ (λ a t e h. h) (λ t e h. h))
        (λ _. Triple-throw _ (λ t h. h))

  pub Keeps-member : (key : String) (v : Json) → Keeps P (member env key v)
  unfolding member
  Keeps-member key null = Triple-throw _ (λ t h. h)
  Keeps-member key _ = Triple-pure _ (λ t h. h)
