-- ===== src/Tests/Client.antt =====
-- Updates and rotations on the simulated platform.
use openclaw_control_plane.Common.{
  String, Bool, true, false, Option, none, some, [], ◌∷◌, ◌≡◌, refl, ◌≢◌, ◌⊎◌, inl, ap, ◌==◌, arith,
  string_eq, option_eq, nat_eq,
}
use openclaw_control_plane.Effects.{
  done, threw, final, pure, throw, await, try_catch, require, ◌>>=◌, run, fetch, now, sleep,
  create_secret,
}
use openclaw_control_plane.Effects.Errors.{
  changed_unverified, setup_not_ready, nothing_to_rotate, deploy_timed_out,
}
use openclaw_control_plane.Effects.Platform.{Env, Trace, Event}
use openclaw_control_plane.Effects.Reads.{
  standing, unchanged, Extends, IsRead, service_list, domain_list, variable_list, got, sleeping,
  drawing, reading_file,
}
use openclaw_control_plane.Railway.{
  lookup_variable, find_template_service, select_domain, judge, query, list_services, list_domains,
  list_railway_variables, read_railway_variable, write_railway_variable, conclude, poll_loop,
  poll_service_until_success, check_setup_status, ready_loop, wait_for_setup_ready,
}
use openclaw_control_plane.Client.{
  UpdateParams, UpdateResult, non_empty, refuse, check_unset, check_no_op, check_expected,
  is_ref_verification_error, assert_instance_ready, prior_deployment_id, write_or_uncertain,
  verify_read_back, redeploy_and_verify, change_ref, confirm_ref, update_client_ref_variable,
  rotate_gateway_token,
}
use openclaw_control_plane.Client.Footprint.{Footprint}
use openclaw_control_plane.Client.Rotate.{
  IsRotated, token_name, rotate_gateway_token-IsRotated, rotate_gateway_token-Footprint,
}
use openclaw_control_plane.Client.Checks.{expectation}
use openclaw_control_plane.Client.Update.{
  IsConfirmed, IsChanged, update_client_ref_variable-Updated, update_client_ref_variable-Footprint,
  update_client_ref_variable-stale,
}
use openclaw_control_plane.Effects.Platform.{InstallerService}
use openclaw_control_plane.Railway.Calls.{Reads}
use openclaw_control_plane.Railway.Poll.{IsRolledOver, poll_service_until_success-IsRolledOver}
use openclaw_control_plane.Railway.Deadline.{poll_service_until_success_ends}
use openclaw_control_plane.Effects.Errors.{out_of_fuel, Error}
use openclaw_control_plane.Tests.Fake.{fake, fake-IsClock, held}
use openclaw_control_plane.Client.Refinement.{
  IsCell, CompareAndSwap, outcome, update_client_ref_variable-CompareAndSwap,
}

-- Opening this opens every action of the client.
unfoldable pub client : Unit {0}
unfolding pure throw await try_catch require ◌>>=◌ run fetch now sleep create_secret lookup_variable
    find_template_service select_domain judge query list_services list_domains
    list_railway_variables read_railway_variable write_railway_variable conclude poll_loop
    poll_service_until_success check_setup_status ready_loop wait_for_setup_ready non_empty refuse
    check_unset check_no_op check_expected is_ref_verification_error assert_instance_ready
    prior_deployment_id write_or_uncertain verify_read_back redeploy_and_verify change_ref
    confirm_ref update_client_ref_variable rotate_gateway_token string_eq option_eq nat_eq
client = tt

abbrev platform : Env
platform = fake "OPENCLAW_GIT_REF" "v1" 200

abbrev bump : String → String → Bool → UpdateParams
bump expected next force = record {
  service = "client";
  variable_name = "OPENCLAW_GIT_REF";
  next_ref = next;
  expected_current_ref = expected;
  setup_username = none;
  force_redeploy = force;
  poll_seconds = 15;
  timeout_minutes = 25;
}

abbrev bumped : Trace
bumped = final (update_client_ref_variable platform (bump "v1" "v2" false) [])

update_runs :
    update_client_ref_variable platform (bump "v1" "v2" false) []
    ≡ done (record { changed = true; new_deployment_ready = true }) bumped
unfolding client
update_runs = refl

abbrev changed : UpdateResult
changed = record { changed = true; new_deployment_ready = true }

abbrev kept : UpdateResult
kept = record { changed = false; new_deployment_ready = false }

update_client_ref_variable-Updated_example :
    ((changed ≡ kept) × IsConfirmed platform (bump "v1" "v2" false) [] bumped)
    ⊎ ((changed ≡ changed) × IsChanged platform (bump "v1" "v2" false) [] bumped)
update_client_ref_variable-Updated_example =
    update_client_ref_variable-Updated platform (bump "v1" "v2" false) [] bumped changed update_runs

-- An update at the requested ref reads, and changes nothing.
abbrev confirmed : Trace
confirmed = final (update_client_ref_variable platform (bump "v1" "v1" false) [])

no_op_runs : update_client_ref_variable platform (bump "v1" "v1" false) [] ≡ done kept confirmed
unfolding client
no_op_runs = refl

-- The instance answers 401 for as long as the poll lasts, so the new ref stays unverified.
abbrev locked : Env
locked = fake "OPENCLAW_GIT_REF" "v1" 401

abbrev quick : UpdateParams
quick = record (bump "v1" "v2" false) { poll_seconds = 20; timeout_minutes = 1 }

abbrev unready : Error
unready =
    changed_unverified "OPENCLAW_GIT_REF" "client"
      (setup_not_ready "https://c.example/setup/api/status" 1 (some 401))

abbrev left : Trace
left = final (update_client_ref_variable locked quick [])

unready_runs : update_client_ref_variable locked quick [] ≡ threw unready left
unfolding client
unready_runs = refl

update_client_ref_variable-Footprint_example :
    Footprint locked "OPENCLAW_GIT_REF" "v2" "client" [] (standing unready) left
update_client_ref_variable-Footprint_example =
    update_client_ref_variable-Footprint locked quick [] left unready unready_runs

first_read_v1 : Reads platform "OPENCLAW_GIT_REF" "client" [] (some "v1")
unfolding client
first_read_v1 = record {
  variables = ("OPENCLAW_GIT_REF", "v1") ∷ ("SETUP_PASSWORD", "pw") ∷ [];
  listed = record { stdout = "v1"; printed = refl; parsed = refl };
  found = refl;
}

v1_not_v0 : ◌≢◌ {A = Option String} (some "v1") (expectation (bump "v0" "v2" false))
unfolding client
v1_not_v0 e = let differ : true ≡ false = ap (λ (o : Option String). o == some "v1") e in cc

update_client_ref_variable-stale_example :
    (e : Error) × (u : Trace) × (update_client_ref_variable platform (bump "v0" "v2" false) []
      ≡ threw e u)
    × Extends IsRead [] u
update_client_ref_variable-stale_example =
    update_client_ref_variable-stale platform (bump "v0" "v2" false) [] (some "v1") first_read_v1
      v1_not_v0

-- The fake platform keeps the ref in a cell.
abbrev cell : Trace → Option String
cell t = some (held "v1" t)

cell_listed :
    {t : Trace} {value : Option String}
    → Reads platform "OPENCLAW_GIT_REF" "client" t value
    → value ≡ cell t
unfolding client
cell_listed w = cc (w.found, w.listed.parsed, w.listed.printed)

cell_kept : (t : Trace) {e : Event} → IsRead e → cell (e ∷ t) ≡ cell t
cell_kept t service_list = refl
cell_kept t domain_list = refl
cell_kept t variable_list = refl
cell_kept t got = refl
cell_kept t sleeping = refl
cell_kept t drawing = refl
cell_kept t reading_file = refl

platform-IsCell : IsCell platform "OPENCLAW_GIT_REF" "client" cell
platform-IsCell = record {
  listed = cell_listed;
  accepts = λ a. refl;
  settles = inl refl;
  kept = λ {e} {t} k. cell_kept t k;
  redeploys = refl;
}

update_client_ref_variable-CompareAndSwap_example :
    CompareAndSwap
      (some "v1")
      "v2"
      (some "v1")
      (outcome (update_client_ref_variable platform (bump "v1" "v2" false) []))
      (some "v2")
unfolding client
update_client_ref_variable-CompareAndSwap_example =
    update_client_ref_variable-CompareAndSwap platform (bump "v1" "v2" false) cell []
      platform-IsCell

abbrev vault : Env
vault = fake "OPENCLAW_GATEWAY_TOKEN" "old" 200

abbrev rotated : Trace
rotated = final (rotate_gateway_token vault "client" none none none [])

rotate_runs : rotate_gateway_token vault "client" none none none [] ≡ done tt rotated
unfolding client
rotate_runs = refl

rotate_gateway_token-IsRotated_example : IsRotated vault "client" [] rotated
rotate_gateway_token-IsRotated_example =
    rotate_gateway_token-IsRotated vault "client" none none none [] rotated rotate_runs

-- A service that has no token.
abbrev unset : Trace
unset = final (rotate_gateway_token platform "client" none none none [])

rotate_refused :
    rotate_gateway_token platform "client" none none none []
    ≡ threw (nothing_to_rotate "client") unset
unfolding client
rotate_refused = refl

rotate_gateway_token-Footprint_example :
    (next : String) × Footprint platform token_name next "client" [] unchanged unset
rotate_gateway_token-Footprint_example =
    rotate_gateway_token-Footprint platform "client" none none none [] unset
      (nothing_to_rotate "client") rotate_refused

abbrev found : InstallerService
found = record {
  id = "svc";
  name = "client";
  latest_deployment = some (record { id = some "d1"; status = some "SUCCESS" });
}

abbrev polled : Trace
polled = final (poll_service_until_success platform "client" 15 25 (some "d0") [])

poll_runs : poll_service_until_success platform "client" 15 25 (some "d0") [] ≡ done found polled
unfolding client
poll_runs = refl

poll_service_until_success-IsRolledOver_example : IsRolledOver "client" (some "d0") found
poll_service_until_success-IsRolledOver_example =
    poll_service_until_success-IsRolledOver platform "client" (some "d0") 15 25 [] polled found
      poll_runs

-- The deployment never rolls over, and the poll gives up at its deadline.
poll_times_out :
    poll_service_until_success platform "client" 20 1 (some "d1") []
    ≡ threw
        (deploy_timed_out "client")
        (final (poll_service_until_success platform "client" 20 1 (some "d1") []))
unfolding client
poll_times_out = refl

poll_service_until_success_ends_example :
    poll_service_until_success platform "client" 20 1 (some "d1") [] ≢ threw out_of_fuel []
poll_service_until_success_ends_example =
    poll_service_until_success_ends platform (fake-IsClock "OPENCLAW_GIT_REF" "v1" 200) "client" 20
      1 (some "d1") [] [] (omega arith)
