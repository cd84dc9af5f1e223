-- ===== src/EnvFile.antt =====
-- `mergeEnv` of packages/openclaw-railway-installer/src/index.ts: the update of an .env file.
pub mod Merge
pub mod Merged
use Prim.Native.Char.{code}
use openclaw_control_plane.Common.{
  ℕ, String, ◌<>◌, Bool, true, false, ◌&&◌, ◌||◌, not, Option, none, some, List, [], ◌∷◌, ◌++◌, map,
  ◌==◌, nat_eq, string_eq, contains, filter, if◌then◌else◌, leb,
}
use openclaw_control_plane.Common.Text.{is_space}

-- A character in front of the first line.
abbrev prepend : String → List String → List String
prepend c [] = c ∷ []
prepend c (l ∷ ls) = (c <> l) ∷ ls

abbrev starts_line : String → Bool
starts_line String.[] = false
starts_line (String.◌∷◌ c s) = code c == 10

-- `text.split(/\r?\n/)`
unfoldable pub split_lines : String → List String
split_lines String.[] = "" ∷ []
split_lines (String.◌∷◌ c s) =
    let rest = split_lines s in
    if code c == 10
    then "" ∷ rest
    else if (code c == 13) && starts_line s
    then rest
    else prepend (String.◌∷◌ c String.[]) rest

-- `[A-Za-z_]` and `[A-Za-z0-9_]`
abbrev is_letter : ℕ → Bool
is_letter n = leb 65 n && leb n 90 || leb 97 n && leb n 122 || n == 95

abbrev is_word : ℕ → Bool
is_word n = is_letter n || leb 48 n && leb n 57

abbrev cons_option : String → Option String → Option String
cons_option c none = none
cons_option c (some s) = some (c <> s)

-- The rest of a key, up to the equals sign.
unfoldable pub key_rest : String → Option String
key_rest String.[] = none
key_rest (String.◌∷◌ c s) =
    let rest = key_rest s in
    if code c == 61
    then some ""
    else if is_word (code c)
    then cons_option (String.◌∷◌ c String.[]) rest
    else none

-- `line.match(/^([A-Za-z_][A-Za-z0-9_]*)=/)?.[1]`
unfoldable pub key_of : String → Option String
key_of String.[] = none
key_of (String.◌∷◌ c s) =
    if is_letter (code c) then cons_option (String.◌∷◌ c String.[]) (key_rest s) else none

-- A line that the entries do not replace.
unfoldable pub is_kept : List String → String → Bool
is_kept keys line = elim (key_of line) [ none ↦ true | some key ↦ not (contains keys key) ]

-- `line.length > 0 || index < lines.length - 1`
unfoldable pub drop_last_blank : List String → List String
drop_last_blank [] = []
drop_last_blank (l ∷ []) = if l == "" then [] else l ∷ []
drop_last_blank (l ∷ m ∷ ls) = l ∷ drop_last_blank (m ∷ ls)

abbrev pub entry_line : String × String → String
entry_line (key, value) = key <> ("=" <> value)

abbrev pub keys_of : List (String × String) → List String
keys_of [] = []
keys_of ((key, value) ∷ entries) = key ∷ keys_of entries

unfoldable pub merge_lines : List String → List (String × String) → List String
merge_lines lines entries =
    drop_last_blank (filter (is_kept (keys_of entries)) lines) ++ map entry_line entries

-- `lines.join("\n")`
unfoldable pub join_lines : List String → String
join_lines [] = ""
join_lines (l ∷ []) = l
join_lines (l ∷ m ∷ ls) = l <> ("\n" <> join_lines (m ∷ ls))

abbrev drop_blank_end : String → String → Bool → String
drop_blank_end c String.[] space = if space then "" else c
drop_blank_end c s space = c <> s

unfoldable pub trim_end : String → String
trim_end String.[] = ""
trim_end (String.◌∷◌ c s) = drop_blank_end (String.◌∷◌ c String.[]) (trim_end s) (is_space (code c))

unfoldable pub merge_env : String → List (String × String) → String
merge_env existing entries =
    trim_end (join_lines (merge_lines (split_lines existing) entries)) <> "\n"
