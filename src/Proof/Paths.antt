-- ===== src/Proof/Paths.antt =====
-- packages/openclaw-railway-installer/src/verify-proof.ts: `normalize`, `normalizePath` and
-- `isAllowedStartCommand`, on the code points of a setting.
--
-- `toLowerCase` is written out for the letters that it maps to ASCII: A to Z, and the Kelvin sign.
-- What it makes of another character holds a character outside of ASCII, as that one does, so no
-- test below can tell them apart.
use openclaw_control_plane.Common.{
  ℕ, ◌+◌, String, Bool, ◌&&◌, ◌≢◌, arith, Option, List, [], ◌∷◌, map, ◌==◌, nat_eq, list_eq,
  contains, leb, get_or, if◌then◌else◌,
}
use openclaw_control_plane.Common.Text.{codes, trim}

lower : ℕ → ℕ
lower c = if leb 65 c && leb c 90 then c + 32 else if c == 0x212a then 107 else c

-- `normalize`
unfoldable pub normalize : Option String → List ℕ
unfolding lower
normalize value = map lower (codes (trim (get_or value "")))

abbrev pub slash : ℕ
slash = b'/'

-- `.replace(/\\/g, "/")`
unfoldable pub to_slash : ℕ → ℕ
to_slash c = if c == b'\\' then slash else c

-- `.replace(/^\/+/, "")`
unfoldable pub strip_leading : List ℕ → List ℕ
strip_leading [] = []
strip_leading (c ∷ cs) = let rest = strip_leading cs in if c == slash then rest else c ∷ cs

-- `while (normalized.startsWith("./")) normalized = normalized.slice(2)`
unfoldable pub strip_dots : List ℕ → List ℕ
strip_dots [] = []
strip_dots (c ∷ []) = c ∷ []
strip_dots (c ∷ d ∷ cs) =
    let rest = strip_dots cs in if c == b'.' && d == slash then rest else c ∷ d ∷ cs

-- A sign in front of what is left of the rest
unfoldable pub keep : ℕ → List ℕ → List ℕ
keep c [] = if c == slash then [] else c ∷ []
keep c (d ∷ ds) = c ∷ d ∷ ds

-- `.replace(/\/+$/, "")`
unfoldable pub strip_trailing : List ℕ → List ℕ
strip_trailing [] = []
strip_trailing (c ∷ cs) = keep c (strip_trailing cs)

unfoldable pub drop_dot : List ℕ → List ℕ
drop_dot [] = []
drop_dot (c ∷ []) = if c == b'.' then [] else c ∷ []
drop_dot cs = cs

abbrev pub stripped : List ℕ → List ℕ
stripped cs = strip_trailing (strip_dots (strip_leading (map to_slash cs)))

-- `normalizePath`
unfoldable pub normalize_path : Option String → List ℕ
unfolding normalize strip_leading strip_dots strip_trailing keep drop_dot to_slash
normalize_path value = drop_dot (stripped (normalize value))

drop_dot_lem : (cs : List ℕ) → drop_dot cs ≢ b'.' ∷ []
unfolding drop_dot
drop_dot_lem [] h = cc
drop_dot_lem (c ∷ []) h = ground arith
drop_dot_lem (c ∷ d ∷ cs) h = cc

-- A single dot is dropped.
pub normalize_path_lem : (value : Option String) → normalize_path value ≢ b'.' ∷ []
unfolding normalize_path
normalize_path_lem value = drop_dot_lem (stripped (normalize value))

-- `isAllowedStartCommand`
unfoldable pub is_allowed_start_command : Option String → Bool
unfolding normalize
is_allowed_start_command value = contains ([] ∷ codes "node src/server.js" ∷ []) (normalize value)
