-- ===== src/Common/Text.antt =====
-- Text as JavaScript's string methods see it: code points, `trim`, and one trailing slash.
pub mod Contains
use Prim.Native.Char.{code}
use Prim.Native.String.{String, ◌++◌ as ◌<>◌}
use text.Mathlib.Text.{starts_with}
use mathlib.Core.List.{List, [], ◌∷◌}
use Prim.Native.Nat.{ℕ, ◌+◌}
use mathlib.Core.Bool.{Bool, true, ◌&&◌, ◌||◌, cond}
use openclaw_control_plane.Common.Equality.{◌==◌, nat_eq, string_eq, contains, ltb}

-- The code points of a text. `String` has its own `[]` and `∷`.
abbrev pub codes : String → List ℕ
codes String.[] = []
codes (String.◌∷◌ c s) = code c ∷ codes s

-- The white space and line terminators that `trim` removes.
abbrev pub white_space : List ℕ
white_space =
    9 ∷ 10 ∷ 11 ∷ 12 ∷ 13 ∷ 32 ∷ 0xa0 ∷ 0x1680 ∷ 0x2000 ∷ 0x2001 ∷ 0x2002 ∷ 0x2003 ∷ 0x2004 ∷ 0x2005
    ∷ 0x2006 ∷ 0x2007 ∷ 0x2008 ∷ 0x2009 ∷ 0x200a ∷ 0x2028 ∷ 0x2029 ∷ 0x202f ∷ 0x205f ∷ 0x3000
    ∷ 0xfeff ∷ []

unfoldable pub is_space : ℕ → Bool
unfolding nat_eq
is_space c = contains white_space c

-- `text.trim().length === 0`
unfoldable pub is_blank : String → Bool
unfolding is_space
is_blank String.[] = true
is_blank (String.◌∷◌ c s) = is_space (code c) && is_blank s

-- `text.trim()`
trim_start : String → String
trim_start String.[] = ""
trim_start (String.◌∷◌ c s) =
    let rest = trim_start s in cond (is_space (code c)) rest (String.◌∷◌ c s)

trim_end : String → String
trim_end String.[] = ""
trim_end (String.◌∷◌ c s) =
    let rest = trim_end s in cond (rest == "" && is_space (code c)) "" (String.◌∷◌ c rest)

unfoldable pub trim : String → String
unfolding trim_start trim_end is_space
trim s = trim_end (trim_start s)

-- `text.length`, in UTF-16 units
utf16_units : List ℕ → ℕ
utf16_units [] = 0
utf16_units (c ∷ cs) = cond (ltb c 0x10000) 1 2 + utf16_units cs

unfoldable pub utf16_length : String → ℕ
unfolding utf16_units
utf16_length s = utf16_units (codes s)

-- `text.replace(/\/$/, "")`
unfoldable pub strip_slash : String → String
unfolding nat_eq
strip_slash String.[] = ""
strip_slash (String.◌∷◌ c String.[]) = cond (code c == 47) "" (String.◌∷◌ c String.[])
strip_slash (String.◌∷◌ c (String.◌∷◌ d s)) = String.◌∷◌ c (strip_slash (String.◌∷◌ d s))

-- `text.includes(part)`
unfoldable pub includes : (text part : String) → Bool
includes String.[] part = starts_with "" part
includes (String.◌∷◌ c s) part = starts_with (String.◌∷◌ c s) part || includes s part

-- `texts.join(separator)`
abbrev pub join_with : (separator : String) → List String → String
join_with separator [] = ""
join_with separator (s ∷ []) = s
join_with separator (s ∷ t ∷ ts) = s <> (separator <> join_with separator (t ∷ ts))
