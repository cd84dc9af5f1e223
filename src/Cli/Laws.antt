-- ===== src/Cli/Laws.antt =====
-- The options of a provisioning, written as a command line, are read back.
use openclaw_control_plane.Common.{
  ℕ, ◌≤◌, String, Bool, true, false, Option, none, some, List, [], ◌∷◌, ◌≡◌, refl, ◌∙◌, ap, sym,
  arith, string_eq,
}
use openclaw_control_plane.Provision.{ProvisionClientOptions}
use openclaw_control_plane.Cli.{
  Flag, text, number, switch, parsed, parse_loop, is_value, max_safe_integer, ◌>>=◌,
}
use openclaw_control_plane.Cli.Decimal.{print, is_value-print, positive_integer-print}
use openclaw_control_plane.Cli.Installer.{
  provision_flag, no_provision_options, parse_provision_args, check_client_name,
}

abbrev text_args : String → Option String → List String → List String
text_args flag none rest = rest
text_args flag (some v) rest = flag ∷ v ∷ rest

abbrev number_args : String → Option ℕ → List String → List String
number_args flag none rest = rest
number_args flag (some n) rest = flag ∷ print n ∷ rest

abbrev switch_args : String → Option Bool → List String → List String
switch_args flag none rest = rest
switch_args flag (some b) rest = flag ∷ rest

-- A text that may stand after a flag, and a number that a double holds
abbrev pub IsText : Option String → Type 0
IsText none = Unit
IsText (some v) = is_value v ≡ true

abbrev pub IsNumber : Option ℕ → Type 0
IsNumber none = Unit
IsNumber (some n) = (1 ≤ n) × (n ≤ max_safe_integer)

-- A switch can only say one thing.
abbrev pub IsSwitch : Bool → Option Bool → Type 0
IsSwitch b none = Unit
IsSwitch b (some c) = c ≡ b

module _ {O : Type 0} (flag_of : String → Option (Flag O)) where
  loop_end : (s : O) → parse_loop flag_of [] s ≡ parsed s
  unfolding parse_loop
  loop_end s = refl

  loop_value :
      (set : String → O → O) (flag : String) (v : String) (rest : List String) (s : O)
      → flag_of flag ≡ some (text set)
      → is_value v ≡ true
      → parse_loop flag_of (flag ∷ v ∷ rest) s ≡ parse_loop flag_of rest (set v s)
  unfolding parse_loop
  loop_value set flag v rest s f valid = rw (parse_loop, f, valid)

  loop_text :
      (set : Option String → O → O) (flag : String) (v : Option String) (rest : List String) (s : O)
      → flag_of flag ≡ some (text (λ w. set (some w)))
      → IsText v
      → set none s ≡ s
      → parse_loop flag_of (text_args flag v rest) s ≡ parse_loop flag_of rest (set v s)
  unfolding parse_loop
  loop_text set flag none rest s f valid same = ap (parse_loop flag_of rest) (sym same)
  loop_text set flag (some v) rest s f valid same =
      loop_value (λ w. set (some w)) flag v rest s f valid

  loop_number :
      (set : Option ℕ → O → O) (flag : String) (v : Option ℕ) (rest : List String) (s : O)
      → flag_of flag ≡ some (number (λ n. set (some n)))
      → IsNumber v
      → set none s ≡ s
      → parse_loop flag_of (number_args flag v rest) s ≡ parse_loop flag_of rest (set v s)
  unfolding parse_loop
  loop_number set flag none rest s f valid same = ap (parse_loop flag_of rest) (sym same)
  loop_number set flag (some n) rest s f (low, high) same =
      rw (f, is_value-print n, positive_integer-print n low high)

  loop_switch :
      (set : Option Bool → O → O) (b : Bool) (flag : String) (v : Option Bool) (rest : List String)
      (s : O)
      → flag_of flag ≡ some (switch (set (some b)))
      → IsSwitch b v
      → set none s ≡ s
      → parse_loop flag_of (switch_args flag v rest) s ≡ parse_loop flag_of rest (set v s)
  unfolding parse_loop
  loop_switch set b flag none rest s f valid same = ap (parse_loop flag_of rest) (sym same)
  loop_switch set b flag (some c) [] s f valid same = rw (f, valid)
  loop_switch set b flag (some c) (x ∷ rest) s f valid same = rw (f, valid)

-- The command line of a provisioning
pub provision_line : ProvisionClientOptions → List String
provision_line o =
    "--client-name"
    ∷ o.client_name
    ∷ text_args "--project-id" o.project_id (
        text_args "--workspace" o.workspace (
          number_args "--target-port" o.target_port (
            text_args "--template-ref" o.template_ref (
              text_args "--setup-username" o.setup_username (
                number_args "--poll-seconds" o.poll_seconds (
                  number_args "--timeout-minutes" o.timeout_minutes (
                    text_args "--env-local-path" o.env_local_path (
                      text_args "--handoff-path" o.handoff_path (
                        switch_args "--force-new" o.force_new
                          (switch_args "--no-local-files" o.write_local_files []))))))))))

-- What a command line can say: no secrets, and no switch that is turned back.
pub record IsWritable (o : ProvisionClientOptions) : Type 0 where
  pub client_name : is_value o.client_name ≡ true
  pub project_id : IsText o.project_id
  pub workspace : IsText o.workspace
  pub target_port : IsNumber o.target_port
  pub template_ref : IsText o.template_ref
  pub setup_username : IsText o.setup_username
  pub poll_seconds : IsNumber o.poll_seconds
  pub timeout_minutes : IsNumber o.timeout_minutes
  pub env_local_path : IsText o.env_local_path
  pub handoff_path : IsText o.handoff_path
  pub force_new : IsSwitch true o.force_new
  pub write_local_files : IsSwitch false o.write_local_files
  pub no_password : o.setup_password ≡ none
  pub no_token : o.gateway_token ≡ none

loop_provision_line :
    (o : ProvisionClientOptions)
    → IsWritable o
    → parse_loop provision_flag (provision_line o) no_provision_options
      ≡ parsed (record o { setup_password = none; gateway_token = none })
unfolding provision_line provision_flag string_eq
loop_provision_line o w =
    loop_value provision_flag (λ v s. record s { client_name = v }) "--client-name" o.client_name _
      no_provision_options refl w.client_name
    ∙ loop_text provision_flag (λ v s. record s { project_id = v }) "--project-id" o.project_id _ _
        refl w.project_id refl
    ∙ loop_text provision_flag (λ v s. record s { workspace = v }) "--workspace" o.workspace _ _
        refl w.workspace refl
    ∙ loop_number provision_flag (λ v s. record s { target_port = v }) "--target-port" o.target_port
        _ _ refl w.target_port refl
    ∙ loop_text provision_flag (λ v s. record s { template_ref = v }) "--template-ref"
        o.template_ref _ _ refl w.template_ref refl
    ∙ loop_text provision_flag (λ v s. record s { setup_username = v }) "--setup-username"
        o.setup_username _ _ refl w.setup_username refl
    ∙ loop_number provision_flag (λ v s. record s { poll_seconds = v }) "--poll-seconds"
        o.poll_seconds _ _ refl w.poll_seconds refl
    ∙ loop_number provision_flag (λ v s. record s { timeout_minutes = v }) "--timeout-minutes"
        o.timeout_minutes _ _ refl w.timeout_minutes refl
    ∙ loop_text provision_flag (λ v s. record s { env_local_path = v }) "--env-local-path"
        o.env_local_path _ _ refl w.env_local_path refl
    ∙ loop_text provision_flag (λ v s. record s { handoff_path = v }) "--handoff-path"
        o.handoff_path _ _ refl w.handoff_path refl
    ∙ loop_switch provision_flag (λ v s. record s { force_new = v }) true "--force-new" o.force_new
        _ _ refl w.force_new refl
    ∙ loop_switch provision_flag (λ v s. record s { write_local_files = v }) false
        "--no-local-files" o.write_local_files [] _ refl w.write_local_files refl
    ∙ loop_end provision_flag _

check_passes :
    (o : ProvisionClientOptions) → is_value o.client_name ≡ true → check_client_name o ≡ parsed o
unfolding check_client_name is_value
check_passes o h = ground arith

without_secrets :
    (o : ProvisionClientOptions)
    → o.setup_password ≡ none
    → o.gateway_token ≡ none
    → record o { setup_password = none; gateway_token = none } ≡ o
without_secrets o p t =
    ap (λ (v : Option String). record o { setup_password = v; gateway_token = none }) (sym p)
    ∙ ap (λ (v : Option String). record o { gateway_token = v }) (sym t)

-- Options that a command line can say, without secrets and with numbers that a double holds, are
-- read back from the command line that is written for them.
pub parse_provision_args-provision_line :
    (o : ProvisionClientOptions) → IsWritable o → parse_provision_args (provision_line o) ≡ parsed o
unfolding parse_provision_args
parse_provision_args-provision_line o w =
    ap (λ m. m >>= check_client_name)
      (loop_provision_line o w ∙ ap parsed (without_secrets o w.no_password w.no_token))
    ∙ check_passes o w.client_name
