-- ===== src/Instance.antt =====
-- The two repairs of a fresh instance: patch-allowed-origins.ts and approve-own-device.ts of
-- packages/openclaw-railway-installer/src, over their default HTTP calls.
pub mod Answers
pub mod Origins
pub mod Patching
pub mod Devices
use openclaw_control_plane.Common.{
  ℕ, String, ◌<>◌, Bool, true, false, ◌&&◌, ◌||◌, not, Option, none, some, List, [], ◌∷◌, ◌++◌,
  ◌==◌, string_eq, if◌then◌else◌, leb, ltb, length, any,
}
use openclaw_control_plane.Common.Text.{is_blank}
use openclaw_control_plane.Json.{
  Json, null, bool, num, str, arr, obj, Fields, end, field, items, of_items, get, put, get_of,
  truthy?,
}
use openclaw_control_plane.Effects.Errors.{
  Error, type_error, http_status, not_json, responded_not_ok, origins_unparseable, origin_absent,
  several_pending, empty_request_id,
}
use openclaw_control_plane.Effects.Platform.{
  Env, SetupAuth, Method, Request, Response, is_ok, basic_auth_header, Reply,
}
use openclaw_control_plane.Effects.{M, pure, throw, await, require, try_catch, ◌>>=◌, ◌>>◌, fetch}

-- The fields of a value that may be an object: those of `{}` on anything else.
unfoldable pub fields_of : Option Json → Fields
fields_of (some (obj fs)) = fs
fields_of _ = end

unfoldable pub elements_of : Option Json → List Json
elements_of (some (arr vs)) = items vs
elements_of _ = []

abbrev pub is_text : String → Json → Bool
is_text s (str v) = v == s
is_text s _ = false

-- `origins.includes(origin)`
unfoldable pub includes : List Json → String → Bool
includes origins origin = any (is_text origin) origins

-- `asRecord(config, "gateway")`: the fields of the object there, or of the one that is created.
-- A property cannot be created on a null or a primitive.
unfoldable pub gateway_of : Json → Option Fields
gateway_of (obj fs) = some (fields_of (get "gateway" fs))
gateway_of (arr vs) = some end
gateway_of _ = none

-- `typeof mode === "string" && mode.trim().length > 0`
unfoldable pub is_baseline : Option Json → Bool
is_baseline (some (str mode)) = not (is_blank mode)
is_baseline _ = false

-- What is done with a config document.
pub data Plan : Type 0 where
  already_present refused_missing_baseline malformed : Plan
  patch : Json → Plan

-- The document with `origins` written through the path `gateway.controlUi.allowedOrigins`.
unfoldable pub with_origins : Json → (gateway control_ui : Fields) → List Json → Json
with_origins (obj fs) gateway control_ui origins = obj (
    put "gateway"
      (obj
        (put "controlUi" (obj (put "allowedOrigins" (arr (of_items origins)) control_ui)) gateway))
      fs)
with_origins doc gateway control_ui origins = doc

unfoldable pub plan_gateway : String → Json → Fields → Plan
plan_gateway origin doc gateway =
    let control_ui = fields_of (get "controlUi" gateway) in
    let origins = elements_of (get "allowedOrigins" control_ui) in
    if includes origins origin
    then already_present
    else if is_baseline (get "mode" gateway)
    then patch (with_origins doc gateway control_ui (origins ++ (str origin ∷ [])))
    else refused_missing_baseline

unfoldable pub plan : String → Json → Plan
plan origin doc = elim (gateway_of doc) [
  | none ↦ malformed
  | some gateway ↦ plan_gateway origin doc gateway
]

-- `readAllowedOrigins`, of a parsed document
unfoldable pub read_allowed_origins : Json → List Json
read_allowed_origins doc =
    elements_of
      (get "allowedOrigins" (fields_of (get "controlUi" (fields_of (get_of "gateway" doc)))))

pub data PatchAllowedOriginsStatus : Type 0 where
  patched already_present refused_missing_baseline : PatchAllowedOriginsStatus

pub data ApproveOwnDeviceResult : Type 0 where
  approved : (request_id : String) → ApproveOwnDeviceResult
  no_pending not_ready : ApproveOwnDeviceResult

-- The characters of a text.
abbrev characters : String → List Json
characters String.[] = []
characters (String.◌∷◌ c s) = str (String.◌∷◌ c String.[]) ∷ characters s

-- `requestIds ?? []`. The source casts it to `string[]`: a text is as good as the list of its
-- characters, and another value passes for a list with one missing id.
unfoldable pub request_ids_of : Option Json → List Json
request_ids_of none = []
request_ids_of (some null) = []
request_ids_of (some (arr vs)) = items vs
request_ids_of (some (str s)) = characters s
request_ids_of (some v) = null ∷ []

-- What is done with the list of pending requests. An id outside the type `string` that the source
-- casts to passes for a missing one.
pub data Choice : Type 0 where
  nothing ambiguous empty_id : Choice
  sole : String → Choice

unfoldable pub choose : List Json → Choice
choose [] = nothing
choose (str id ∷ []) = if id == "" then empty_id else sole id
choose (_ ∷ []) = empty_id
choose (_ ∷ _ ∷ _) = ambiguous

module _ (env : Env) where
  -- `body.key`, which fails on a null
  unfoldable pub member : String → Json → M (Option Json)
  member key null = throw (type_error key)
  member key v = pure (get_of key v)

  abbrev pub config_url : String → String
  config_url base = base <> "/setup/api/config/raw"

  abbrev pub get_request : String → SetupAuth → Request
  get_request url auth = record {
    method = Method.get;
    url = url;
    authorization = some (basic_auth_header env auth);
    body = none;
  }

  abbrev pub post_request : String → SetupAuth → Json → Request
  post_request url auth body = record {
    method = Method.post;
    url = url;
    authorization = some (basic_auth_header env auth);
    body = some body;
  }

  -- `if (!response.ok) throw …; return await response.json()`
  unfoldable pub json_of : (method path : String) → Response → M Json
  json_of method path response =
      if is_ok response
      then require response.body (not_json path)
      else throw (http_status method path response.status)

  -- The content of the raw config, by `getConfigRaw` and the test of its `ok`.
  unfoldable pub get_config_raw : (base : String) → SetupAuth → M String
  get_config_raw base auth = do
    response ← fetch env (get_request (config_url base) auth)
    body ← json_of "GET" "/setup/api/config/raw" response
    flag ← member "ok" body
    content ← member "content" body
    if truthy? flag
        then require (elim content [ some (str text) ↦ some text | _ ↦ none ]) (type_error "trim")
        else throw (responded_not_ok "GET" "/setup/api/config/raw")

  unfoldable pub post_config_raw : (base : String) → SetupAuth → Json → M (Unit {0})
  post_config_raw base auth doc = do
    response ←
        fetch env (
          post_request (config_url base) auth (obj (field "content" (str (env.stringify doc)) end)))
    body ← json_of "POST" "/setup/api/config/raw" response
    flag ← member "ok" body
    if truthy? flag then pure tt else throw (responded_not_ok "POST" "/setup/api/config/raw")

  -- `content.trim().length > 0 ? JSON.parse(content) : {}`
  unfoldable pub parse_document : String → M Json
  parse_document content =
      if is_blank content then pure (obj end) else await (env.parse_json content)

  unfoldable pub verify_origins : (base : String) → SetupAuth → String → M (Unit {0})
  verify_origins base auth origin = do
    content ← get_config_raw base auth
    doc ← try_catch (parse_document content) (λ cause. throw (origins_unparseable cause))
    if includes (read_allowed_origins doc) origin then pure tt else throw (origin_absent origin)

  unfoldable pub follow_plan :
      (base : String) → SetupAuth → String → Plan → M PatchAllowedOriginsStatus
  follow_plan base auth origin already_present = pure already_present
  follow_plan base auth origin refused_missing_baseline = pure refused_missing_baseline
  follow_plan base auth origin malformed = throw (type_error "gateway")
  follow_plan base auth origin (patch doc) = do
    post_config_raw base auth doc
    verify_origins base auth origin
    pure patched

  abbrev pub origin_of : String → String
  origin_of domain = "https://" <> domain

  unfoldable pub patch_allowed_origins :
      (base : String) → SetupAuth → (domain : String) → M PatchAllowedOriginsStatus
  patch_allowed_origins base auth domain = do
    content ← get_config_raw base auth
    doc ← parse_document content
    follow_plan base auth (origin_of domain) (plan (origin_of domain) doc)

  -- `defaultGetPendingDevices`: `none` for `{ ok: false }`, and the request ids otherwise.
  unfoldable pub get_pending_devices : (base : String) → SetupAuth → M (Option (List Json))
  get_pending_devices base auth = do
    response ← fetch env (get_request (base <> "/setup/api/devices/pending") auth)
    if leb 500 response.status then pure none else do
      body ← json_of "GET" "/setup/api/devices/pending" response
      flag ← member "ok" body
      pure (elim flag [
        | some (bool true) ↦ some (request_ids_of (get_of "requestIds" body))
        | _ ↦ none
      ])

  unfoldable pub approve_device : (base : String) → SetupAuth → String → M (Unit {0})
  approve_device base auth id = do
    response ← fetch env (
        post_request (base <> "/setup/api/devices/approve") auth
          (obj (field "requestId" (str id) end)))
    body ← json_of "POST" "/setup/api/devices/approve" response
    flag ← member "ok" body
    if truthy? flag then pure tt else throw (responded_not_ok "POST" "/setup/api/devices/approve")

  unfoldable pub follow_choice : (base : String) → SetupAuth → ℕ → Choice → M ApproveOwnDeviceResult
  follow_choice base auth found nothing = pure no_pending
  follow_choice base auth found ambiguous = throw (several_pending found)
  follow_choice base auth found empty_id = throw empty_request_id
  follow_choice base auth found (sole id) = do approve_device base auth id; pure (approved id)

  unfoldable pub approve_own_device_pairing : (base : String) → SetupAuth → M ApproveOwnDeviceResult
  approve_own_device_pairing base auth = do
    pending ← get_pending_devices base auth
    elim pending [
      | none ↦ pure not_ready
      | some ids ↦ follow_choice base auth (length ids) (choose ids)
    ]
