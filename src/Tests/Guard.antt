-- ===== src/Tests/Guard.antt =====
-- The polling waits and the guard on concrete inputs.
use openclaw_control_plane.Common.{
  String, none, some, List, [], ◌∷◌, ◌≡◌, refl, ◌≢◌, ◌⊎◌, arith, string_eq, nat_eq,
}
use openclaw_control_plane.Effects.{done, threw, final}
use openclaw_control_plane.Effects.Errors.{Error, out_of_fuel, setup_not_ready, not_healthy_yet}
use openclaw_control_plane.Effects.Platform.{Env, Trace, SetupAuth}
use openclaw_control_plane.Railway.{wait_for_setup_ready}
use openclaw_control_plane.Railway.Ready.{
  IsAnswered, status_request, wait_for_setup_ready-IsAnswered, wait_for_setup_ready_ends,
}
use openclaw_control_plane.Applier.{wait_for_healthy, healthy_loop}
use openclaw_control_plane.Applier.Health.{IsHealthy, wait_for_healthy_ends}
use openclaw_control_plane.Common.Text.{strip_slash}
use openclaw_control_plane.Guard.{
  allowed, prints_secrets, starts_with_dash, has_service_flag, check_scope, check_guard,
  strip_guard_flag,
}
use openclaw_control_plane.Guard.Scope.{IsScoped, check_guard-IsScoped}
use openclaw_control_plane.Tests.Client.{client}
use openclaw_control_plane.Tests.Fake.{fake, fake-IsClock}

abbrev up : Env
up = fake "X" "x" 200

abbrev down : Env
down = fake "X" "x" 503

abbrev admin : SetupAuth
admin = record { username = "openclaw-admin"; password = "pw" }

abbrev waited : Trace
waited = final (wait_for_setup_ready up "https://c.example/setup/api/status" admin 15 25 [])

wait_returns :
    wait_for_setup_ready up "https://c.example/setup/api/status" admin 15 25 [] ≡ done tt waited
unfolding client
wait_returns = refl

wait_for_setup_ready-IsAnswered_example :
    IsAnswered up (status_request up "https://c.example/setup/api/status" admin) 200 waited
wait_for_setup_ready-IsAnswered_example =
    wait_for_setup_ready-IsAnswered up "https://c.example/setup/api/status" admin 15 25 [] waited
      wait_returns

-- An instance that never answers with 200 is given up at the deadline.
wait_gives_up :
    wait_for_setup_ready down "https://c.example/setup/api/status" admin 20 1 []
    ≡ threw
        (setup_not_ready "https://c.example/setup/api/status" 1 (some 503))
        (final (wait_for_setup_ready down "https://c.example/setup/api/status" admin 20 1 []))
unfolding client
wait_gives_up = refl

wait_for_setup_ready_ends_example :
    wait_for_setup_ready down "https://c.example/setup/api/status" admin 20 1 []
    ≢ threw out_of_fuel []
wait_for_setup_ready_ends_example =
    wait_for_setup_ready_ends down (fake-IsClock "X" "x" 503) "https://c.example/setup/api/status"
      admin 20 1 [] [] (omega arith)

abbrev healthy : Trace
healthy = final (wait_for_healthy up "https://c.example" none none [])

healthy_returns : wait_for_healthy up "https://c.example" none none [] ≡ done tt healthy
unfolding client healthy_loop wait_for_healthy strip_slash
healthy_returns = refl

health_gives_up :
    wait_for_healthy down "https://c.example" (some 5) (some 10) []
    ≡ threw
        (not_healthy_yet "https://c.example/setup/healthz" 10 503)
        (final (wait_for_healthy down "https://c.example" (some 5) (some 10) []))
unfolding client healthy_loop wait_for_healthy strip_slash
health_gives_up = refl

wait_for_healthy_ends_example :
    ((u : Trace) × (wait_for_healthy down "https://c.example" (some 5) (some 10) [] ≡ done tt u)
      × IsHealthy down "https://c.example" u)
    ⊎ ((e : Error) × (u : Trace) × (wait_for_healthy down "https://c.example" (some 5) (some 10) []
          ≡ threw e u)
        × (e ≢ out_of_fuel))
wait_for_healthy_ends_example =
    wait_for_healthy_ends down (fake-IsClock "X" "x" 503) "https://c.example" (some 5) (some 10) []
      (omega arith)

abbrev listing : List String
listing = "variable" ∷ "list" ∷ "-s" ∷ "client" ∷ "--i-know-this-prints-secrets" ∷ "--json" ∷ []

listing_allowed : check_guard listing ≡ allowed
unfolding check_guard check_scope has_service_flag starts_with_dash string_eq nat_eq
listing_allowed = refl

listing_refused : check_guard ("variable" ∷ "list" ∷ "--service" ∷ "client" ∷ []) ≡ prints_secrets
unfolding check_guard check_scope has_service_flag starts_with_dash string_eq nat_eq
listing_refused = refl

check_guard-IsScoped_example : IsScoped listing (strip_guard_flag listing)
check_guard-IsScoped_example = check_guard-IsScoped listing listing_allowed
