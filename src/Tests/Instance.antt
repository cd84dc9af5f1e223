-- ===== src/Tests/Instance.antt =====
-- The two repairs on a simulated instance.
use openclaw_control_plane.Common.{
  ℕ, String, Bool, true, false, ◌||◌, some, List, [], ◌∷◌, ◌≡◌, refl, ◌⊎◌, ◌==◌, string_eq,
  option_eq, nat_eq, if◌then◌else◌,
}
use openclaw_control_plane.Json.{
  Json, null, bool, num, str, arr, obj, end, field, items, of_items, put, get_of, truthy, truthy?,
}
use openclaw_control_plane.Json
use openclaw_control_plane.Common.Text.{is_blank, is_space}
use openclaw_control_plane.Effects.{
  done, threw, final, pure, throw, await, try_catch, require, ◌>>=◌, fetch,
}
use openclaw_control_plane.Effects.Errors.{Error, http_status, several_pending}
use openclaw_control_plane.Effects.Platform.{
  Env, Trace, fetched, ok, rejected, SetupAuth, Method, post,
}
use openclaw_control_plane.Instance.{
  fields_of, elements_of, includes, gateway_of, is_baseline, already_present, patch, with_origins,
  plan_gateway, plan, read_allowed_origins, patched, approved, request_ids_of, choose, member,
  json_of, get_config_raw, post_config_raw, parse_document, verify_origins, follow_plan,
  patch_allowed_origins, get_pending_devices, approve_device, follow_choice,
  approve_own_device_pairing, origin_of,
}
use openclaw_control_plane.Instance.Origins.{IsPatched, plan-IsPatched}
use openclaw_control_plane.Instance.Patching.{
  Repaired, got, IsPosted, patch_allowed_origins-Repaired, patch_allowed_origins-IsPosted,
}
use openclaw_control_plane.Instance.Devices.{
  Approval, asked, IsSoleApproval, approve_own_device_pairing-Approval,
  approve_own_device_pairing-IsSoleApproval,
}

-- Opening this opens both repairs.
unfoldable pub instance_code : Unit {0}
unfolding pure throw await try_catch require ◌>>=◌ fetch items of_items Json.get put get_of truthy
    truthy? fields_of elements_of includes gateway_of is_baseline with_origins plan_gateway plan
    read_allowed_origins request_ids_of choose member json_of get_config_raw post_config_raw
    parse_document verify_origins follow_plan patch_allowed_origins get_pending_devices
    approve_device follow_choice approve_own_device_pairing string_eq option_eq nat_eq is_blank
    is_space
instance_code = tt

abbrev old_document : Json
old_document = obj (field "gateway" (obj (field "mode" (str "local") end)) end)

abbrev new_document : Json
new_document = obj (
    field "gateway"
      (obj (
        field "mode" (str "local") (
          field "controlUi"
            (obj (field "allowedOrigins" (arr (of_items (str "https://c.example" ∷ []))) end))
            end)))
      end)

new_document_planned : plan "https://c.example" old_document ≡ patch new_document
unfolding instance_code
new_document_planned = refl

plan-IsPatched_example :
    IsPatched "https://c.example" old_document new_document
    × (plan "https://c.example" new_document ≡ already_present)
plan-IsPatched_example =
    plan-IsPatched "https://c.example" old_document new_document new_document_planned

abbrev is_post : Method → Bool
is_post post = true
is_post _ = false

abbrev posted? : Trace → Bool
posted? [] = false
posted? (fetched r ∷ t) = is_post r.method || posted? t
posted? (e ∷ t) = posted? t

abbrev text_of : Bool → String
text_of true = "new"
text_of false = "old"

-- An instance with the pending requests `ids`, whose config is the new document once anything is
-- posted.
abbrev pub served : ℕ → List Json → Env
served status ids = record {
  run = λ t args stdin. rejected "no CLI";
  fetch = λ t r. ok (record {
    status = status;
    body = some (
        obj (
          field "ok" (bool true) (
            field "content" (str (text_of (posted? t)))
              (field "requestIds" (arr (of_items ids)) end))));
  });
  read_file = λ t path. rejected "no such file";
  write_file = λ t path contents. ok tt;
  clock = λ t. 0;
  random = λ t n. "";
  base64 = λ s. s;
  services = λ out. rejected "no CLI";
  domains = λ out. rejected "no CLI";
  updated_domain = λ out. rejected "no CLI";
  variables = λ out. rejected "no CLI";
  parse_json = λ s. ok (if s == "new" then new_document else old_document);
  stringify = λ j. "new";
  print_number = λ n. "";
}

abbrev auth : SetupAuth
auth = record { username = "openclaw-admin"; password = "pw" }

abbrev site : Env
site = served 200 (str "r1" ∷ [])

abbrev repaired : Trace
repaired = final (patch_allowed_origins site "https://c.example" auth "c.example" [])

repair_runs :
    patch_allowed_origins site "https://c.example" auth "c.example" [] ≡ done patched repaired
unfolding instance_code
repair_runs = refl

patch_allowed_origins-Repaired_example :
    Repaired site "https://c.example" auth (origin_of site "c.example") [] patched repaired
patch_allowed_origins-Repaired_example =
    patch_allowed_origins-Repaired site "https://c.example" auth "c.example" [] repaired patched
      repair_runs

abbrev broken : Env
broken = served 503 (str "r1" ∷ str "r2" ∷ [])

abbrev halted : Trace
halted = final (patch_allowed_origins broken "https://c.example" auth "c.example" [])

abbrev unavailable : Error
unavailable = http_status "GET" "/setup/api/config/raw" 503

repair_fails :
    patch_allowed_origins broken "https://c.example" auth "c.example" [] ≡ threw unavailable halted
unfolding instance_code
repair_fails = refl

patch_allowed_origins-IsPosted_example :
    (halted ≡ got broken "https://c.example" auth ∷ [])
    ⊎ IsPosted broken "https://c.example" auth (origin_of broken "c.example") [] halted
patch_allowed_origins-IsPosted_example =
    patch_allowed_origins-IsPosted broken "https://c.example" auth "c.example" [] halted unavailable
      repair_fails

abbrev approval : Trace
approval = final (approve_own_device_pairing site "https://c.example" auth [])

approval_runs :
    approve_own_device_pairing site "https://c.example" auth [] ≡ done (approved "r1") approval
unfolding instance_code
approval_runs = refl

approve_own_device_pairing-Approval_example :
    Approval site "https://c.example" auth [] (approved "r1") approval
approve_own_device_pairing-Approval_example =
    approve_own_device_pairing-Approval site "https://c.example" auth [] approval (approved "r1")
      approval_runs

abbrev crowded : Env
crowded = served 200 (str "r1" ∷ str "r2" ∷ [])

abbrev stopped : Trace
stopped = final (approve_own_device_pairing crowded "https://c.example" auth [])

approval_refused :
    approve_own_device_pairing crowded "https://c.example" auth []
    ≡ threw (several_pending 2) stopped
unfolding instance_code
approval_refused = refl

approve_own_device_pairing-IsSoleApproval_example :
    (stopped ≡ asked crowded "https://c.example" auth ∷ [])
    ⊎ IsSoleApproval crowded "https://c.example" auth [] stopped
approve_own_device_pairing-IsSoleApproval_example =
    approve_own_device_pairing-IsSoleApproval crowded "https://c.example" auth [] stopped
      (several_pending 2) approval_refused
