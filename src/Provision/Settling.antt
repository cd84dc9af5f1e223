-- ===== src/Provision/Settling.antt =====
-- The steps behind an acquired service that read and set up its domain.
use openclaw_control_plane.Common.{
  ℕ, nat_eq, option_eq, String, Bool, true, false, Option, none, some, [], ◌∷◌, ◌≡◌, ◌==◌,
}
use openclaw_control_plane.Effects.{M, pure}
use openclaw_control_plane.Effects.Platform.{
  Env, Event, command, Trace, InstallerService, RailwayDomain,
}
use openclaw_control_plane.Effects.Reads.{IsRead, IsStable, Quiet}
use openclaw_control_plane.Effects.Triple.{
  Keeps, Triple-pure, Triple-if, Triple-require, Triple-await, Triple-bind, Triple-run,
  Triple-error,
}
use openclaw_control_plane.Railway.{
  generate_domain, existing_or_generated_domain, ensure_domain_port, select_domain,
}
use openclaw_control_plane.Railway.Reading.{Quiet-list_domains, Quiet-read_railway_variable}
use openclaw_control_plane.Provision.{
  ResolvedProvisionOptions, required_variable, client_credentials,
}

-- Reading, and the domain of the service.
pub data IsSettling (name : String) : Event → Type 0 where
  reading : {e : Event} → IsRead e → IsSettling name e
  domain_generated :
      {service port : String}
      → service ≡ name
      → IsSettling name
          (command ("domain" ∷ "--service" ∷ service ∷ "--port" ∷ port ∷ "--json" ∷ []) none)
  domain_updated :
      {domain service port : String}
      → service ≡ name
      → IsSettling name (
          command
            ("domain" ∷ "update" ∷ domain ∷ "--service" ∷ service ∷ "--port" ∷ port ∷ "--json" ∷ [])
            none)

-- A property of traces that survives the settling events.
pub record IsSettlingStable (name : String) (P : Trace → Type 0) : Type 0 where
  pub settle : {e : Event} {t : Trace} → IsSettling name e → P t → P (e ∷ t)

pub stable : {name : String} {P : Trace → Type 0} → IsSettlingStable name P → IsStable P
stable s = record { read = λ k h. s.settle (reading k) h }

module _ (env : Env) {name : String} {P : Trace → Type 0} (s : IsSettlingStable name P) where
  open s use {settle}

  pub Keeps-Quiet : {A : Type 0} {m : M A} → Quiet P m → Keeps P m
  Keeps-Quiet k = Triple-error (λ e t h. h.0) k

  Keeps-generate_domain :
      (service : String) (port : ℕ) → service ≡ name → Keeps P (generate_domain env service port)
  unfolding generate_domain
  Keeps-generate_domain service port same =
      Triple-bind
        (Triple-run env _ _ (λ x t e h. settle (domain_generated same) h)
          (λ x t h. settle (domain_generated same) h))
        (λ stdout.
          Triple-bind (Keeps-Quiet (Quiet-list_domains env (stable s) service))
            (λ domains. Triple-require _ _ (λ a t e h. h) (λ t e h. h)))

  Keeps-chosen :
      (service : String) (port : ℕ) (o : Option RailwayDomain)
      → service ≡ name
      → Keeps P (elim o [ some domain ↦ pure domain | none ↦ generate_domain env service port ])
  Keeps-chosen service port (some d) same = Triple-pure d (λ t h. h)
  Keeps-chosen service port none same = Keeps-generate_domain service port same

  Keeps-domain :
      (service : String) (port : ℕ)
      → service ≡ name
      → Keeps P (existing_or_generated_domain env service port)
  unfolding existing_or_generated_domain
  Keeps-domain service port same =
      Triple-bind (Keeps-Quiet (Quiet-list_domains env (stable s) service))
        (λ domains. Keeps-chosen service port (select_domain domains) same)

  pub Keeps-ensure_domain_port :
      (service : String) (port : ℕ) → service ≡ name → Keeps P (ensure_domain_port env service port)
  unfolding ensure_domain_port
  Keeps-ensure_domain_port service port same = Triple-bind (Keeps-domain service port same) (λ d.
      Triple-if (d.target_port == some port) (λ _. Triple-pure d (λ t h. h))
        (λ _.
          Triple-bind
            (Triple-run env _ _ (λ x t e h. settle (domain_updated same) h)
              (λ x t h. settle (domain_updated same) h))
            (λ stdout. Triple-await _ (λ a t e h. h) (λ x t h. h))))

  Keeps-required_variable : (name service : String) → Keeps P (required_variable env name service)
  unfolding required_variable
  Keeps-required_variable name service =
      Triple-bind (Keeps-Quiet (Quiet-read_railway_variable env (stable s) name service))
        (λ value. Triple-require _ _ (λ a t e h. h) (λ t e h. h))

  pub Keeps-client_credentials :
      (o : ResolvedProvisionOptions) (service : InstallerService) (reused : Bool)
      → Keeps P (client_credentials env o service reused)
  unfolding client_credentials
  Keeps-client_credentials o service false = Triple-pure _ (λ t h. h)
  Keeps-client_credentials o service true =
      Triple-bind (Keeps-required_variable _ _)
        (λ password. Triple-bind (Keeps-required_variable _ _) (λ token. Triple-pure _ (λ t h. h)))
