-- ===== src/Railway/Reading.antt =====
-- The helpers of Railway.antt that only read: whatever survives reading survives them, however
-- they end.
use openclaw_control_plane.Common.{ℕ, zero, suc, String, Option, refl, ltb, nat_eq, ◌==◌}
use openclaw_control_plane.Effects.Platform.{Env, SetupAuth, Trace, InstallerService}
use openclaw_control_plane.Effects.{M}
use openclaw_control_plane.Effects.Reads.{
  IsStable, Quiet, service_list, domain_list, variable_list, got, sleeping,
}
use openclaw_control_plane.Effects.Triple.{
  Triple-pure, Triple-throw, Triple-if, Triple-bind, Triple-fetch, Triple-now, Triple-sleep,
}
use openclaw_control_plane.Railway.Calls.{Triple-query, Triple-read_railway_variable}
use openclaw_control_plane.Railway.{
  list_services, list_domains, read_railway_variable, Verdict, accepted, failed, pending, conclude,
  poll_loop, poll_service_until_success, check_setup_status, ready_loop, wait_for_setup_ready,
}

module _ (env : Env) {P : Trace → Type 0} (stable : IsStable P) where
  open stable use {read}

  pub Quiet-list_services : Quiet P (list_services env)
  unfolding list_services
  Quiet-list_services =
      Triple-query env _ _ (λ a t w h. read service_list h) (λ s t h. (read service_list h, refl))

  pub Quiet-list_domains : (service : String) → Quiet P (list_domains env service)
  unfolding list_domains
  Quiet-list_domains service =
      Triple-query env _ _ (λ a t w h. read domain_list h) (λ s t h. (read domain_list h, refl))

  pub Quiet-read_railway_variable :
      (name service : String) → Quiet P (read_railway_variable env name service)
  Quiet-read_railway_variable name service =
      Triple-read_railway_variable env name service (λ v t w h. read variable_list h)
        (λ s t h. (read variable_list h, refl))

  Quiet-conclude :
      (service : String) (deadline : ℕ) (again : M InstallerService) (v : Verdict)
      → Quiet P again
      → Quiet P (conclude env service deadline again v)
  unfolding conclude
  Quiet-conclude service deadline again (accepted s) k = Triple-pure s (λ t h. h)
  Quiet-conclude service deadline again (failed status) k = Triple-throw _ (λ t h. (h, refl))
  Quiet-conclude service deadline again pending k =
      Triple-bind (Triple-now env (λ t h. h))
        (λ time. Triple-if (ltb time deadline) (λ _. k) (λ _. Triple-throw _ (λ t h. (h, refl))))

  Quiet-poll_loop :
      (fuel : ℕ) (service : String) (poll_ms deadline : ℕ) (supersedes : Option String)
      → Quiet P (poll_loop env fuel service poll_ms deadline supersedes)
  unfolding poll_loop
  Quiet-poll_loop zero service poll_ms deadline supersedes = Triple-throw _ (λ t h. (h, refl))
  Quiet-poll_loop (suc fuel) service poll_ms deadline supersedes =
      Triple-bind (Triple-sleep _ (λ t h. read sleeping h)) (λ _.
        Triple-bind Quiet-list_services (λ services.
          Quiet-conclude service deadline _ _
            (Quiet-poll_loop fuel service poll_ms deadline supersedes)))

  pub Quiet-poll :
      (service : String) (poll_seconds timeout_minutes : ℕ) (supersedes : Option String)
      → Quiet P (poll_service_until_success env service poll_seconds timeout_minutes supersedes)
  unfolding poll_service_until_success
  Quiet-poll service poll_seconds timeout_minutes supersedes =
      Triple-bind (Triple-now env (λ t h. h)) (λ start. Quiet-poll_loop _ service _ _ supersedes)

  pub Quiet-check_setup_status :
      (url : String) (auth : SetupAuth) → Quiet P (check_setup_status env url auth)
  unfolding check_setup_status
  Quiet-check_setup_status url auth =
      Triple-bind (Triple-fetch env _ (λ r t w h. read got h) (λ s t h. (read got h, refl)))
        (λ r. Triple-pure _ (λ t h. h))

  Quiet-ready_loop :
      (fuel : ℕ) (url : String) (auth : SetupAuth) (poll_ms deadline timeout_minutes : ℕ)
      → Quiet P (ready_loop env fuel url auth poll_ms deadline timeout_minutes)
  unfolding ready_loop
  Quiet-ready_loop zero url auth poll_ms deadline timeout_minutes =
      Triple-throw _ (λ t h. (h, refl))
  Quiet-ready_loop (suc fuel) url auth poll_ms deadline timeout_minutes =
      Triple-bind (Quiet-check_setup_status url auth) (λ status.
        Triple-if (status == 200) (λ _. Triple-pure tt (λ t h. h))
          (λ _. Triple-bind (Triple-sleep _ (λ t h. read sleeping h)) (λ _.
            Triple-bind (Triple-now env (λ t h. h)) (λ time.
              Triple-if (ltb time deadline)
                (λ _. Quiet-ready_loop fuel url auth poll_ms deadline timeout_minutes)
                (λ _. Triple-throw _ (λ t h. (h, refl)))))))

  pub Quiet-wait_for_setup_ready :
      (url : String) (auth : SetupAuth) (poll_seconds timeout_minutes : ℕ)
      → Quiet P (wait_for_setup_ready env url auth poll_seconds timeout_minutes)
  unfolding wait_for_setup_ready
  Quiet-wait_for_setup_ready url auth poll_seconds timeout_minutes =
      Triple-bind (Triple-now env (λ t h. h))
        (λ start. Quiet-ready_loop _ url auth _ _ timeout_minutes)
