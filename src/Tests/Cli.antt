-- ===== src/Tests/Cli.antt =====
-- Command lines that are read and refused.
use openclaw_control_plane.Common.{true, none, some, [], ◌∷◌, ◌≡◌, refl, string_eq, nat_eq, arith}
use openclaw_control_plane.Provision.{ProvisionClientOptions}
use openclaw_control_plane.Cli.{
  parsed, failed, missing_value, not_positive, unknown_argument, missing_required, is_value,
}
use openclaw_control_plane.Cli.Installer.{
  parse_args, parse_provision_args, parse_update_ref_args, parse_rotate_gateway_token_args,
  no_provision_options,
}
use openclaw_control_plane.Cli.Applier.{parse_delete_key_args}
use openclaw_control_plane.Cli.Laws.{
  provision_line, IsWritable, parse_provision_args-provision_line,
}

abbrev acme : ProvisionClientOptions
acme = record no_provision_options {
  client_name = "acme";
  target_port = some 8080;
  force_new = some true;
}

acme_runs :
    parse_provision_args ("--force-new" ∷ "--client-name" ∷ "acme" ∷ "--target-port" ∷ "8080" ∷ [])
    ≡ parsed acme
unfolding parse_provision_args string_eq
acme_runs = refl

acme-IsWritable : IsWritable acme
unfolding is_value string_eq
acme-IsWritable = record {
  client_name = refl;
  project_id = tt;
  workspace = tt;
  target_port = (omega arith, omega arith);
  template_ref = tt;
  setup_username = tt;
  poll_seconds = tt;
  timeout_minutes = tt;
  env_local_path = tt;
  handoff_path = tt;
  force_new = refl;
  write_local_files = tt;
  no_password = refl;
  no_token = refl;
}

parse_provision_args-provision_line_example :
    parse_provision_args (provision_line acme) ≡ parsed acme
parse_provision_args-provision_line_example =
    parse_provision_args-provision_line acme acme-IsWritable

flag_as_value : parse_args ("--template" ∷ "--service" ∷ []) ≡ failed (missing_value "--template")
unfolding parse_args string_eq
flag_as_value = refl

zero_port : parse_args ("--target-port" ∷ "0" ∷ []) ≡ failed (not_positive "--target-port")
unfolding parse_args string_eq
zero_port = refl

no_expected_ref :
    parse_update_ref_args ("--service" ∷ "s" ∷ "--template-ref" ∷ "r" ∷ [])
    ≡ failed (missing_required "--expected-current-ref")
unfolding parse_update_ref_args string_eq
no_expected_ref = refl

rotate_runs :
    parse_rotate_gateway_token_args ("--service" ∷ "s" ∷ "--poll-seconds" ∷ "007" ∷ [])
    ≡ parsed (record {
      service = some "s";
      setup_username = none;
      poll_seconds = some 7;
      timeout_minutes = none;
    })
unfolding parse_rotate_gateway_token_args string_eq
rotate_runs = refl

stray_argument : parse_delete_key_args ("abc" ∷ []) ≡ failed (unknown_argument "abc")
unfolding parse_delete_key_args string_eq
stray_argument = refl
