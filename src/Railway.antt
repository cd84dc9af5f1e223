-- ===== src/Railway.antt =====
-- packages/openclaw-railway-installer/src/index.ts, its shared helpers, and railway-variables.ts:
-- the calls of the Railway CLI, the two polling loops, and the domain of a service.
--
-- A loop takes as many rounds as its timeout has milliseconds, and one more: Deadline and Ready prove
-- that it needs no more, where the clock advances by what the loop sleeps.
pub mod Calls
pub mod Deadline
pub mod Poll
pub mod Reading
pub mod Ready
use openclaw_control_plane.Common.{
  ℕ, zero, suc, ◌+◌, ◌*◌, String, ◌<>◌, Bool, true, false, ◌&&◌, ◌||◌, not, Option, none, some,
  List, [], ◌∷◌, ◌++◌, ◌==◌, string_eq, nat_eq, option_eq, contains, if◌then◌else◌, ltb, head?,
  find, and_then, or_else,
}
use openclaw_control_plane.Effects.Errors.{
  Error, out_of_fuel, deployment_failed, deploy_timed_out, domain_not_generated, setup_not_ready,
}
use openclaw_control_plane.Effects.Platform.{
  Env, SetupAuth, Deployment, InstallerService, RailwayDomain, get, Response, Reply,
  basic_auth_header,
}
use openclaw_control_plane.Effects.{
  M, pure, throw, await, require, ◌>>=◌, ◌>>◌, run, fetch, now, sleep,
}

-- `terminalFailureStatuses`
abbrev pub terminal_failure_statuses : List String
terminal_failure_statuses =
    "CRASHED" ∷ "FAILED" ∷ "NEEDS_APPROVAL" ∷ "REMOVED" ∷ "REMOVING" ∷ "SKIPPED" ∷ "SLEEPING" ∷ []

abbrev pub default_setup_username : String
default_setup_username = "openclaw-admin"

-- `variables[name]`
unfoldable pub lookup_variable : String → List (String × String) → Option String
lookup_variable name [] = none
lookup_variable name ((key, value) ∷ rest) =
    if key == name then some value else lookup_variable name rest

unfoldable pub find_template_service : List InstallerService → String → Option InstallerService
find_template_service services name = find (λ s. s.name == name) services

-- `service.latestDeployment?.status` and `service.latestDeployment?.id`
abbrev pub deployment_status : InstallerService → Option String
deployment_status s = and_then s.latest_deployment (λ d. d.status)

abbrev pub deployment_id : InstallerService → Option String
deployment_id s = and_then s.latest_deployment (λ d. d.id)

-- `domains.find((d) => d.type === "service") ?? domains[0]`
unfoldable pub select_domain : List RailwayDomain → Option RailwayDomain
select_domain domains = or_else (find (λ d. d.kind == "service") domains) (head? domains)

-- What one look at the service says to the polling loop.
pub data Verdict : Type 0 where
  accepted : InstallerService → Verdict
  failed : (status : String) → Verdict
  pending : Verdict

-- Is the observed deployment the one that was there before?
abbrev pub is_prior_deployment : (supersedes observed : Option String) → Bool
is_prior_deployment none observed = false
is_prior_deployment (some prior) none = true
is_prior_deployment (some prior) (some id) = id == prior

abbrev judge_status : Option String → Option String → InstallerService → Verdict
judge_status none supersedes s = pending
judge_status (some status) supersedes s =
    if status == "SUCCESS"
    then if is_prior_deployment supersedes (deployment_id s) then pending else accepted s
    else if contains terminal_failure_statuses status
    then if is_prior_deployment supersedes (deployment_id s) then pending else failed status
    else pending

-- The body of the loop of `pollServiceUntilSuccess`, after the service list is read.
unfoldable pub judge : Option String → Option InstallerService → Verdict
judge supersedes none = pending
judge supersedes (some s) = judge_status (deployment_status s) supersedes s

abbrev pub variable_set_args : (name service : String) (skip_deploys : Bool) → List String
variable_set_args name service skip_deploys =
    ("variable" ∷ "set" ∷ name ∷ "--service" ∷ service ∷ [])
    ++ ((if skip_deploys then "--skip-deploys" ∷ [] else []) ++ ("--stdin" ∷ "--json" ∷ []))

abbrev pub service_list_args : List String
service_list_args = "service" ∷ "list" ∷ "--json" ∷ []

abbrev pub domain_list_args : String → List String
domain_list_args service = "domain" ∷ "list" ∷ "--service" ∷ service ∷ "--json" ∷ []

abbrev pub variable_list_args : String → List String
variable_list_args service = "variable" ∷ "list" ∷ "--service" ∷ service ∷ "--json" ∷ []

module _ (env : Env) where
  -- A command whose standard output is parsed.
  unfoldable pub query : {A : Type 0} → List String → (String → Reply A) → M A
  query args parse = do stdout ← run env args none; await (parse stdout)

  unfoldable pub list_services : M (List InstallerService)
  list_services = query service_list_args env.services

  unfoldable pub list_domains : String → M (List RailwayDomain)
  list_domains service = query (domain_list_args service) env.domains

  unfoldable pub list_railway_variables : String → M (List (String × String))
  list_railway_variables service = query (variable_list_args service) env.variables

  unfoldable pub read_railway_variable : String → String → M (Option String)
  read_railway_variable name service = do
    variables ← list_railway_variables service
    pure (lookup_variable name variables)

  -- The value goes by standard input.
  unfoldable pub write_railway_variable :
      (name value service : String) (skip_deploys : Bool) → M (Unit {0})
  write_railway_variable name value service skip_deploys = do
    stdout ← run env (variable_set_args name service skip_deploys) (some value)
    pure tt

  -- The end of a round of the loop below, by its verdict; `again` is the next round.
  unfoldable pub conclude :
      (service : String) (deadline : ℕ) → M InstallerService → Verdict → M InstallerService
  conclude service deadline again (accepted s) = pure s
  conclude service deadline again (failed status) = throw (deployment_failed service status)
  conclude service deadline again pending = do
    time ← now env
    if ltb time deadline then again else throw (deploy_timed_out service)

  -- The `do … while (Date.now() < deadline)` of `pollServiceUntilSuccess`.
  unfoldable pub poll_loop :
      ℕ
      → (service : String) (poll_ms deadline : ℕ) (supersedes : Option String) → M InstallerService
  poll_loop zero service poll_ms deadline supersedes = throw out_of_fuel
  poll_loop (suc fuel) service poll_ms deadline supersedes = do
    sleep poll_ms
    services ← list_services
    let again = poll_loop fuel service poll_ms deadline supersedes
    conclude service deadline again (judge supersedes (find_template_service services service))

  unfoldable pub poll_service_until_success :
      (service : String) (poll_seconds timeout_minutes : ℕ) (supersedes : Option String)
      → M InstallerService
  poll_service_until_success service poll_seconds timeout_minutes supersedes = do
    start ← now env
    let timeout = timeout_minutes * 60_000
    poll_loop (suc timeout) service (poll_seconds * 1000) (start + timeout) supersedes

  unfoldable pub check_setup_status : String → SetupAuth → M ℕ
  check_setup_status url auth = do
    response ← fetch env (record {
      method = get;
      url = url;
      authorization = some (basic_auth_header env auth);
      body = none;
    })
    pure (response.status)

  -- The loop of `waitForSetupReady`.
  unfoldable pub ready_loop :
      ℕ → (url : String) → SetupAuth → (poll_ms deadline timeout_minutes : ℕ) → M (Unit {0})
  ready_loop zero url auth poll_ms deadline timeout_minutes = throw out_of_fuel
  ready_loop (suc fuel) url auth poll_ms deadline timeout_minutes = do
    status ← check_setup_status url auth
    let again = ready_loop fuel url auth poll_ms deadline timeout_minutes
    if status == 200 then pure tt else do
      sleep poll_ms
      time ← now env
      if ltb time deadline then again else throw (setup_not_ready url timeout_minutes (some status))

  unfoldable pub wait_for_setup_ready :
      (url : String) → SetupAuth → (poll_seconds timeout_minutes : ℕ) → M (Unit {0})
  wait_for_setup_ready url auth poll_seconds timeout_minutes = do
    start ← now env
    let timeout = timeout_minutes * 60_000
    ready_loop (suc timeout) url auth (poll_seconds * 1000) (start + timeout) timeout_minutes

  -- The domain that `domain --service … --port …` generates.
  unfoldable pub generate_domain : String → ℕ → M RailwayDomain
  generate_domain service target_port = do
    stdout ←
        run env
          ("domain"
            ∷ "--service"
            ∷ service
            ∷ "--port"
            ∷ env.print_number target_port
            ∷ "--json"
            ∷ [])
          none
    domains ← list_domains service
    require (select_domain domains) (domain_not_generated service)

  -- The first half of `ensureDomainPort`: the domain there is, or a generated one.
  unfoldable pub existing_or_generated_domain : String → ℕ → M RailwayDomain
  existing_or_generated_domain service target_port = do
    domains ← list_domains service
    elim (select_domain domains) [
      | some domain ↦ pure domain
      | none ↦ generate_domain service target_port
    ]

  unfoldable pub ensure_domain_port : String → ℕ → M RailwayDomain
  ensure_domain_port service target_port = do
    domain ← existing_or_generated_domain service target_port
    if domain.target_port == some target_port then pure domain else do
      stdout ←
          run env
            ("domain"
              ∷ "update"
              ∷ domain.domain
              ∷ "--service"
              ∷ service
              ∷ "--port"
              ∷ env.print_number target_port
              ∷ "--json"
              ∷ [])
            none
      await (env.updated_domain stdout)
