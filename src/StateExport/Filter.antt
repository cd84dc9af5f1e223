-- ===== src/StateExport/Filter.antt =====
-- `filterStateEntry`, with its lists and its patterns.
pub mod Laws
use Prim.Native.Char.{code}
use openclaw_control_plane.Common.{
  ℕ, String, Bool, true, false, not, List, [], ◌∷◌, ◌==◌, string_eq, nat_eq, ◌&&◌, ◌||◌, any,
  filter, contains, length, leb, ltb, if◌then◌else◌,
}
use openclaw_control_plane.Common.Text.{codes}

-- The kind of a directory entry, without following links
pub data Kind : Type 0 where
  regular directory symbolic_link other : Kind

same_codes : List ℕ → List ℕ → Bool
same_codes [] [] = true
same_codes (x ∷ xs) (y ∷ ys) = x == y && same_codes xs ys
same_codes _ _ = false

ends_with_codes : List ℕ → List ℕ → Bool
unfolding same_codes
ends_with_codes suffix [] = same_codes suffix []
ends_with_codes suffix (c ∷ cs) = same_codes suffix (c ∷ cs) || ends_with_codes suffix cs

-- `text.endsWith(suffix)`
unfoldable pub ends_with : String → String → Bool
unfolding ends_with_codes
ends_with suffix text = ends_with_codes (codes suffix) (codes text)

-- What `.` matches: all but the line terminators
is_dot : ℕ → Bool
is_dot c = not (c == 10 || c == 13 || c == 0x2028 || c == 0x2029)

-- `globToRegExp(pattern).test(text)`: a star matches any run, every other sign itself.
glob : List ℕ → List ℕ → Bool
unfolding is_dot
glob [] [] = true
glob [] (d ∷ ds) = false
glob (c ∷ cs) [] = c == 42 && glob cs []
glob (c ∷ cs) (d ∷ ds) = elim (c == 42) [
  | true ↦ glob cs (d ∷ ds) || (is_dot d && glob (c ∷ cs) ds)
  | false ↦ c == d && glob cs ds
]

-- `matchesAny`
unfoldable pub matches_any : List String → String → Bool
unfolding glob
matches_any patterns text = any (λ pattern_text. glob (codes pattern_text) (codes text)) patterns

unfoldable pub include : List String
include =
    "openclaw.json" ∷ "exec-approvals.json" ∷ "credentials" ∷ "devices" ∷ "cron" ∷ "identity"
    ∷ "memory" ∷ "state" ∷ "agents" ∷ []

unfoldable pub agent_allowed : List String
agent_allowed = "*.sqlite" ∷ "models.json" ∷ "auth-profiles*" ∷ []

unfoldable pub exclude_segments : List String
exclude_segments =
    "bin" ∷ "lib" ∷ "media" ∷ "completions" ∷ "logs" ∷ "backups" ∷ "sessions" ∷ "plugins"
    ∷ "codex-home" ∷ "workspace" ∷ "nodes" ∷ "canvas" ∷ "skill-workshop" ∷ "plugin-skills"
    ∷ "workspace-attestations" ∷ []

unfoldable pub exclude_basename_patterns : List String
exclude_basename_patterns = "*.bak*" ∷ "*-wal" ∷ "*-shm" ∷ "*.migrated" ∷ []

-- `relativePath.split(/[\\/]+/)`, with an empty piece for each further separator
split_at_separators : String → List String
split_at_separators String.[] = "" ∷ []
split_at_separators (String.◌∷◌ c s) =
    let rest = split_at_separators s in
    if code c == b'/' || code c == b'\\'
    then "" ∷ rest
    else elim rest [ [] ↦ [] | t ∷ ts ↦ String.◌∷◌ c t ∷ ts ]

-- `toPosixSegments`, which drops the empty pieces
unfoldable pub to_posix_segments : String → List String
unfolding split_at_separators
to_posix_segments path = filter (λ s. not (s == "" || s == ".")) (split_at_separators path)

-- A segment that is never exported
is_excluded : String → Bool
is_excluded s = s == ".." || contains exclude_segments s

-- `agents/<id>/agent/<allowed basename>`, and the directories on the way
agent_entry : Kind → List String → Bool
unfolding matches_any
agent_entry directory (root ∷ []) = true
agent_entry directory (root ∷ id ∷ []) = true
agent_entry directory (root ∷ id ∷ sub ∷ []) = sub == "agent"
agent_entry directory _ = false
agent_entry kind (root ∷ id ∷ sub ∷ basename ∷ []) =
    sub == "agent" && matches_any agent_allowed basename
agent_entry kind _ = false

under_root : Kind → List String → Bool
unfolding agent_entry
under_root kind [] = false
under_root kind (root ∷ rest) =
    if not (contains include root)
    then false
    else if root == "agents"
    then agent_entry kind (root ∷ rest)
    else true

filter_segments : Kind → List String → Bool
filter_segments directory [] = true
filter_segments kind [] = false
filter_segments kind (s ∷ rest) =
    if any is_excluded (s ∷ rest)
    then false
    else if any (matches_any exclude_basename_patterns) (s ∷ rest)
    then false
    else under_root kind (s ∷ rest)

-- `filterStateEntry`
unfoldable pub filter_state_entry : String → Kind → Bool
unfolding filter_segments to_posix_segments is_excluded under_root matches_any
filter_state_entry path symbolic_link = false
filter_state_entry path other = false
filter_state_entry path kind = filter_segments kind (to_posix_segments path)
