-- ===== src/Provision/Gentle.antt =====
-- What the steps behind an acquired service do: they read, set up its domain, repair its config,
-- approve a device and write the local files. They deploy nothing and write no variable.
use openclaw_control_plane.Common.{
  ◌<>◌, ◌⊎◌, inl, inr, ℕ, nat_eq, option_eq, String, Bool, Option, none, some, List, ◌∷◌, ◌≡◌, refl,
  length,
}
use openclaw_control_plane.Json.{Json}
use openclaw_control_plane.Effects.{pure}
use openclaw_control_plane.Effects.Platform.{
  Env, Event, wrote_text, Trace, SetupAuth, InstallerService,
}
use openclaw_control_plane.Effects.Reads.{IsStable, got, reading_file}
use openclaw_control_plane.Effects.Triple.{
  Triple, Keeps, Triple-pure, Triple-throw, Triple-if, Triple-require, Triple-bind, Triple-error,
  Triple-assume, Triple-try, Triple-read_file, Triple-write_file, Triple-weaken,
}
use openclaw_control_plane.Railway.Reading.{Quiet-wait_for_setup_ready}
use openclaw_control_plane.Instance.{
  get_config_raw, parse_document, verify_origins, follow_plan, Plan, already_present,
  refused_missing_baseline, malformed, patch, patch_allowed_origins, includes, read_allowed_origins,
  follow_choice, Choice, nothing, ambiguous, empty_id, sole, choose, approve_own_device_pairing,
  not_ready,
}
use openclaw_control_plane.Instance.Patching.{
  posted, Triple-get_config_raw, Triple-post_config_raw, Triple-parse_document,
}
use openclaw_control_plane.Instance.Devices.{
  sent_approval, Triple-get_pending_devices, Triple-approve_device,
}
use openclaw_control_plane.Install.{save_entries}
use openclaw_control_plane.Provision.{
  ResolvedProvisionOptions, configure_client, write_provision_env_local, write_provision_handoff,
  write_client_files,
}
use openclaw_control_plane.Provision.Handoff.{ProvisionClientResult}
use openclaw_control_plane.Provision.Settling.{
  IsSettling, reading, IsSettlingStable, Keeps-ensure_domain_port,
}

-- The service that is configured, the host of its domain, and the two files that a run may write
pub record Scope : Type 0 where
  pub service : String
  pub host : String
  pub env_local_path : String
  pub handoff_path : String

-- These; the document of the config and the approval of a device, sent to the setup API of the host;
-- and the two files.
pub data IsGentle (scope : Scope) : Event → Type 0 where
  settling : {e : Event} → IsSettling scope.service e → IsGentle scope e
  config_sent :
      (env : Env) (auth : SetupAuth) (document : Json)
      → IsGentle scope (posted env ("https://" <> scope.host) auth document)
  approval_sent :
      (env : Env) (auth : SetupAuth) (request_id : String)
      → IsGentle scope (sent_approval env ("https://" <> scope.host) auth request_id)
  saving :
      {path contents : String}
      → (path ≡ scope.env_local_path) ⊎ (path ≡ scope.handoff_path)
      → IsGentle scope (wrote_text path contents)

-- A property of traces that survives the gentle events.
pub record IsGentleStable (scope : Scope) (P : Trace → Type 0) : Type 0 where
  pub gentle : {e : Event} {t : Trace} → IsGentle scope e → P t → P (e ∷ t)

pub still : {scope : Scope} {P : Trace → Type 0} → IsGentleStable scope P → IsStable P
still s = record { read = λ k h. s.gentle (settling (reading k)) h }

module _ (name env_local_path handoff_path : String) where
  abbrev pub scope_at : String → Scope
  scope_at host = record {
    service = name;
    host = host;
    env_local_path = env_local_path;
    handoff_path = handoff_path;
  }

  pub every_host :
      {Q : String → Trace → Type 0}
      → ((host : String) → IsGentleStable (scope_at host) (Q host))
      → IsSettlingStable name (λ t. (host : String) → Q host t)
  every_host s = record { settle = λ k h host. (s host).gentle (settling k) (h host) }

module _ (env : Env) {scope : Scope} {P : Trace → Type 0} (s : IsGentleStable scope P) where
  open s use {gentle}

  Keeps-parse :
      (base : String) (auth : SetupAuth) (content : String) → Keeps P (parse_document env content)
  Keeps-parse base auth content =
      Triple-weaken (λ doc t h. h.0) (λ e t h. h) (Triple-parse_document env base auth content)

  Keeps-get_config : (base : String) (auth : SetupAuth) → Keeps P (get_config_raw env base auth)
  Keeps-get_config base auth =
      Triple-get_config_raw env base auth (λ t h. gentle (settling (reading got)) h)

  Keeps-follow_plan :
      (auth : SetupAuth) (origin : String) (p : Plan)
      → Keeps P (follow_plan env ("https://" <> scope.host) auth origin p)
  unfolding follow_plan verify_origins
  Keeps-follow_plan auth origin already_present = Triple-pure _ (λ t h. h)
  Keeps-follow_plan auth origin refused_missing_baseline = Triple-pure _ (λ t h. h)
  Keeps-follow_plan auth origin malformed = Triple-throw _ (λ t h. h)
  Keeps-follow_plan auth origin (patch new) =
      Triple-bind
        (Triple-post_config_raw env ("https://" <> scope.host) auth new
          (λ t h. gentle (config_sent env auth new) h))
        (λ _.
          Triple-bind
            (Triple-bind (Keeps-get_config ("https://" <> scope.host) auth) (λ content.
              Triple-bind
                (Triple-try (Keeps-parse ("https://" <> scope.host) auth content)
                  (λ cause. Triple-throw _ (λ t h. h)))
                (λ doc.
                  Triple-if (includes (read_allowed_origins doc) origin)
                    (λ _. Triple-pure tt (λ t h. h)) (λ _. Triple-throw _ (λ t h. h)))))
            (λ _. Triple-pure _ (λ t h. h)))

  pub Keeps-patch_allowed_origins :
      (auth : SetupAuth) (domain : String)
      → Keeps P (patch_allowed_origins env ("https://" <> scope.host) auth domain)
  unfolding patch_allowed_origins
  Keeps-patch_allowed_origins auth domain =
      Triple-bind (Keeps-get_config ("https://" <> scope.host) auth) (λ content.
        Triple-bind (Keeps-parse ("https://" <> scope.host) auth content)
          (λ doc. Keeps-follow_plan auth _ _))

  Keeps-follow_choice :
      (auth : SetupAuth) (found : ℕ) (c : Choice)
      → Keeps P (follow_choice env ("https://" <> scope.host) auth found c)
  unfolding follow_choice
  Keeps-follow_choice auth found nothing = Triple-pure _ (λ t h. h)
  Keeps-follow_choice auth found ambiguous = Triple-throw _ (λ t h. h)
  Keeps-follow_choice auth found empty_id = Triple-throw _ (λ t h. h)
  Keeps-follow_choice auth found (sole id) =
      Triple-bind
        (Triple-approve_device env ("https://" <> scope.host) auth id
          (λ t h. gentle (approval_sent env auth id) h))
        (λ _. Triple-pure _ (λ t h. h))

  Keeps-follow_pending :
      (auth : SetupAuth) (pending : Option (List Json))
      → Keeps P (elim pending [
        | none ↦ pure not_ready
        | some ids ↦ follow_choice env ("https://" <> scope.host) auth (length ids) (choose ids)
      ])
  Keeps-follow_pending auth none = Triple-pure _ (λ t h. h)
  Keeps-follow_pending auth (some ids) = Keeps-follow_choice auth _ _

  pub Keeps-approve_own_device_pairing :
      (auth : SetupAuth) → Keeps P (approve_own_device_pairing env ("https://" <> scope.host) auth)
  unfolding approve_own_device_pairing
  Keeps-approve_own_device_pairing auth =
      Triple-bind
        (Triple-get_pending_devices env ("https://" <> scope.host) auth
          (λ t h. gentle (settling (reading got)) h))
        (λ pending. Keeps-follow_pending auth pending)

  pub Keeps-save_entries :
      (path : String) (entries : List (String × String))
      → (path ≡ scope.env_local_path) ⊎ (path ≡ scope.handoff_path)
      → Keeps P (save_entries env path entries)
  unfolding save_entries
  Keeps-save_entries path entries place =
      Triple-bind
        (Triple-try
          (Triple-read_file env path (λ x t e h. gentle (settling (reading reading_file)) h)
            (λ x t h. gentle (settling (reading reading_file)) h))
          (λ e. Triple-pure _ (λ t h. h)))
        (λ existing.
          Triple-write_file env path _ (λ x t h. gentle (saving place) h)
            (λ x t h. gentle (saving place) h))

  pub Keeps-write_client_files :
      (o : ResolvedProvisionOptions) (r : ProvisionClientResult)
      → o.env_local_path ≡ scope.env_local_path
      → o.handoff_path ≡ scope.handoff_path
      → Keeps P (write_client_files env o r)
  unfolding write_client_files write_provision_env_local write_provision_handoff
  Keeps-write_client_files o r first second =
      Triple-if o.write_local_files
        (λ _. Triple-bind (Keeps-save_entries _ _ (inl first)) (λ _.
          Triple-bind (Triple-require _ _ (λ a t e h. h) (λ t e h. h)) (λ approval.
            Triple-write_file env _ _ (λ x t h. gentle (saving (inr second)) h)
              (λ x t h. gentle (saving (inr second)) h))))
        (λ _. Triple-pure tt (λ t h. h))

-- What the configuration of a service leaves, by the host of its domain, which the result tells.
module _ (env : Env) (name env_local_path handoff_path : String) {Q : String → Trace → Type 0}
    (s : (host : String)
      → IsGentleStable (scope_at name env_local_path handoff_path host) (Q host)) where
  pub Keeps-configure_client :
      (o : ResolvedProvisionOptions) (service : InstallerService) (reused : Bool)
      (credentials : String × String)
      → service.name ≡ name
      → Triple
          (λ t. (host : String) → Q host t)
          (configure_client env o service reused credentials)
          (λ r t. Q r.domain t × (r.reused_existing_service ≡ reused))
          (λ _ t. (host : String) × Q host t)
  unfolding configure_client
  Keeps-configure_client o service reused (password, token) named =
      Triple-bind
        (Triple-error (λ e t h. ("", h ""))
          (Keeps-ensure_domain_port env (every_host name env_local_path handoff_path s) _ _ named))
        (λ d.
          Triple-assume (λ t h. h d.domain)
            (Triple-bind
              (Triple-error (λ e t h. (d.domain, h.0))
                (Quiet-wait_for_setup_ready env (still (s d.domain)) _ _ _ _))
              (λ _.
                Triple-bind
                  (Triple-error (λ e t h. (d.domain, h))
                    (Keeps-patch_allowed_origins env (s d.domain) _ _))
                  (λ origins.
                    Triple-bind
                      (Triple-error (λ e t h. (d.domain, h))
                        (Keeps-approve_own_device_pairing env (s d.domain) _))
                      (λ device. Triple-pure _ (λ t h. (h, refl)))))))
