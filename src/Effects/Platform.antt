-- ===== src/Effects/Platform.antt =====
-- What the program is given: the Railway CLI, HTTP servers, the file system, the clock and
-- `JSON.parse`, as one oracle `Env`. An answer may depend on everything that happened before.
use openclaw_control_plane.Common.{ℕ, String, Bool, Option, List, ◌<>◌, leb, ◌&&◌}
use openclaw_control_plane.Json.{Json}

pub record SetupAuth : Type 0 where
  pub username : String
  pub password : String

-- `latestDeployment`: the status is the text that the CLI printed, which the source casts unchecked.
pub record Deployment : Type 0 where
  pub id : Option String
  pub status : Option String

pub record InstallerService : Type 0 where
  pub id : String
  pub name : String
  pub latest_deployment : Option Deployment

pub record RailwayDomain : Type 0 where
  pub domain : String
  pub kind : String
  pub target_port : Option ℕ

pub data Method : Type 0 where
  get post delete : Method

-- A `fetch` call. The body is the value that `JSON.stringify` is applied to.
pub record Request : Type 0 where
  pub method : Method
  pub url : String
  pub authorization : Option String
  pub body : Option Json

-- `body` is `none` where `response.json()` rejects.
pub record Response : Type 0 where
  pub status : ℕ
  pub body : Option Json

-- `response.ok`
abbrev pub is_ok : Response → Bool
is_ok r = leb 200 r.status && leb r.status 299

pub data Event : Type 0 where
  command : (args : List String) (stdin : Option String) → Event
  fetched : Request → Event
  slept : (ms : ℕ) → Event
  drew_random : (bytes : ℕ) → Event
  read_text : (path : String) → Event
  wrote_text : (path contents : String) → Event

-- The newest event first.
abbrev pub Trace : Type 0
Trace = List Event

-- A settled promise.
pub data Reply (A : Type 0) : Type 0 where
  ok : A → Reply A
  rejected : String → Reply A

pub record Env : Type 0 where
  -- `runner.run(args, stdin)`, with the standard output
  pub run : Trace → List String → Option String → Reply String
  pub fetch : Trace → Request → Reply Response
  pub read_file : Trace → String → Reply String
  pub write_file : Trace → String → String → Reply (Unit {0})
  -- `Date.now()`
  pub clock : Trace → ℕ
  -- `randomBytes(n).toString("base64url")`
  pub random : Trace → ℕ → String
  -- `Buffer.from(s).toString("base64")`
  pub base64 : String → String
  -- `JSON.parse` of what `service list`, `domain list`, `domain update` and `variable list` print
  pub services : String → Reply (List InstallerService)
  pub domains : String → Reply (List RailwayDomain)
  pub updated_domain : String → Reply RailwayDomain
  pub variables : String → Reply (List (String × String))
  -- `JSON.parse` and `JSON.stringify` of a whole document
  pub parse_json : String → Reply Json
  pub stringify : Json → String
  -- `String(n)`
  pub print_number : ℕ → String

-- `basicAuthHeader` of setup-auth.ts
unfoldable pub basic_auth_header : Env → SetupAuth → String
basic_auth_header env auth = "Basic " <> env.base64 (auth.username <> ":" <> auth.password)
