-- ===== src/TemplateLock.antt =====
-- packages/openclaw-railway-installer/src/template-lock.ts: the validation of the lock file that
-- pins the wrapper template.
pub mod Validation
use Prim.Native.Char.{code}
use openclaw_control_plane.Common.{
  ℕ, String, ◌<>◌, Bool, true, false, ◌&&◌, ◌||◌, Option, none, some, List, [], ◌∷◌, ◌==◌, nat_eq,
  string_eq, every, length, if◌then◌else◌, leb, and_then,
}
use openclaw_control_plane.Common.Text.{codes}
use openclaw_control_plane.Json.{Json, bool, str, arr, obj, get_of}
use openclaw_control_plane.Effects.Errors.{Error, lock_invalid}
use openclaw_control_plane.Effects.Platform.{Env}
use openclaw_control_plane.Effects.{M, pure, throw, await, require, ◌>>=◌, ◌>>◌, read_file}

pub record TemplateLock : Type 0 where
  pub template : String
  pub upstream_repo : String
  pub upstream_branch : String
  pub upstream_ref : String
  pub pinned_commit : String

pub data UpdateStatus : Type 0 where
  current update_available : UpdateStatus

pub record TemplateUpdateStatus : Type 0 where
  pub status : UpdateStatus
  pub lock : TemplateLock
  pub latest_commit : String

-- `[a-f0-9]`
abbrev pub is_hex : ℕ → Bool
is_hex n = leb 97 n && leb n 102 || leb 48 n && leb n 57

-- `/^[a-f0-9]{40}$/`
unfoldable pub is_sha : String → Bool
is_sha s = length (codes s) == 40 && every is_hex (codes s)

-- `typeof candidate === "object"`, and not null
unfoldable pub is_object : Json → Bool
is_object (obj fs) = true
is_object (arr vs) = true
is_object v = false

-- A field that is a text and not empty.
unfoldable pub text_field : String → Option Json → Option String
text_field key (some v) = elim (get_of key v) [
  | some (str s) ↦ if s == "" then none else some s
  | _ ↦ none
]
text_field key none = none

unfoldable pub is_flag : Bool → Option Json → Bool
is_flag b (some (bool c)) = if b then c else if c then false else true
is_flag b v = false

-- The messages of the checks.
abbrev pub missing : String → Error
missing key = lock_invalid ("Template lock is missing '" <> (key <> "'."))

-- `throw`, unless the test passes.
unfoldable pub check : Bool → String → M (Unit {0})
check passed message = if passed then pure tt else throw (lock_invalid message)

-- The fields of the lock that no later step reads are checked, and left where they are.
unfoldable pub parse_template_lock : Json → M TemplateLock
parse_template_lock candidate = do
  check (is_object candidate) "Template lock must be a JSON object."
  template ← require (text_field "template" (some candidate)) (missing "template")
  repo ← require (text_field "upstreamRepo" (some candidate)) (missing "upstreamRepo")
  branch ← require (text_field "upstreamBranch" (some candidate)) (missing "upstreamBranch")
  ref ← require (text_field "upstreamRef" (some candidate)) (missing "upstreamRef")
  commit ← require (text_field "pinnedCommit" (some candidate)) (missing "pinnedCommit")
  check (is_sha commit) "Template lock pinnedCommit must be a 40-character lowercase Git SHA."
  let mirror = get_of "mirror" candidate
  approved ←
      require (text_field "approvedBranch" mirror)
        (lock_invalid "Template lock is missing mirror.approvedBranch.")
  status ←
      require (text_field "status" mirror) (lock_invalid "Template lock is missing mirror.status.")
  check (is_flag true (and_then mirror (get_of "requiredForImmutableProofInstance")))
      "Template lock must require a mirror for immutable proof instances."
  let policy = get_of "policy" candidate
  cadence ←
      require (text_field "updateCadence" policy)
        (lock_invalid "Template lock is missing policy.updateCadence.")
  check (is_flag false (and_then policy (get_of "autoApply")))
      "Template lock policy.autoApply must be false."
  check (is_flag true (and_then policy (get_of "requiresSmokeBeforeBump")))
      "Template lock policy.requiresSmokeBeforeBump must be true."
  pure (record {
    template = template;
    upstream_repo = repo;
    upstream_branch = branch;
    upstream_ref = ref;
    pinned_commit = commit;
  })

-- `readTemplateLock`
unfoldable pub read_template_lock : Env → String → M TemplateLock
read_template_lock env path = do
  text ← read_file env path
  raw ← await (env.parse_json text)
  parse_template_lock raw

-- `checkTemplateUpdate`, over the injected `fetchCommit`
unfoldable pub check_template_update : TemplateLock → M String → M TemplateUpdateStatus
check_template_update lock fetch_commit = do
  latest ← fetch_commit
  check (is_sha latest) "Upstream commit lookup returned an invalid Git SHA."
  pure (record {
    status = if latest == lock.pinned_commit then current else update_available;
    lock = lock;
    latest_commit = latest;
  })
