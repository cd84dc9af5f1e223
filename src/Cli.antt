-- ===== src/Cli.antt =====
-- The argument parsers of the command line tools: their common loop, `requireValue` and
-- `parseIntegerFlag`, which cli.ts, client-cli.ts and onboarding-cycle-cli.ts each hold.
pub mod Decimal
pub mod Laws
pub mod Installer
pub mod Applier
use openclaw_control_plane.Common.{
  ℕ, ◌+◌, ◌-◌, ◌*◌, String, Bool, true, false, Option, none, some, List, [], ◌∷◌, ◌==◌, string_eq,
  nat_eq, ◌&&◌, ◌||◌, leb, starts_with, if◌then◌else◌, and_then,
}
use openclaw_control_plane.Common.Text.{codes}

pub data ArgError : Type 0 where
  missing_value : (flag : String) → ArgError
  not_positive : (flag : String) → ArgError
  unknown_argument : (arg : String) → ArgError
  missing_required : (flag : String) → ArgError

pub data Parsed (A : Type 0) : Type 0 where
  parsed : A → Parsed A
  failed : ArgError → Parsed A

-- What a flag does to the options: it takes a text, a positive integer, or nothing.
pub data Flag (O : Type 0) : Type 0 where
  text : (String → O → O) → Flag O
  number : (ℕ → O → O) → Flag O
  switch : (O → O) → Flag O

-- `requireValue`: whether the value may stand after a flag
unfoldable pub is_value : String → Bool
is_value value = if value == "" then false else if starts_with value "--" then false else true

-- `/^\d+$/.test(text)` and `Number.parseInt(text, 10)`
unfoldable pub digits_value : ℕ → List ℕ → Option ℕ
digits_value n [] = some n
digits_value n (c ∷ cs) =
    let rest = digits_value (n * 10 + (c - 48)) cs in if leb 48 c && leb c 57 then rest else none

abbrev digits : List ℕ → Option ℕ
digits [] = none
digits (c ∷ cs) = digits_value 0 (c ∷ cs)

abbrev pub max_safe_integer : ℕ
max_safe_integer = 9007199254740991

safe_positive : ℕ → Option ℕ
safe_positive n = if leb 1 n && leb n max_safe_integer then some n else none

-- The number of a value, where it is a positive integer that a double holds exactly. A longer run
-- of digits is rounded to a number that is no safe integer either.
unfoldable pub positive_integer : String → Option ℕ
unfolding digits_value safe_positive
positive_integer value = and_then (digits (codes value)) safe_positive

module _ {O : Type 0} (flag_of : String → Option (Flag O)) where
  -- A flag at the end of the line
  parse_last : String → Option (Flag O) → O → Parsed O
  parse_last arg none o = failed (unknown_argument arg)
  parse_last arg (some (switch f)) o = parsed (f o)
  parse_last arg (some (text f)) o = failed (missing_value arg)
  parse_last arg (some (number f)) o = failed (missing_value arg)

  -- The loop over the arguments: a flag that takes a value skips it.
  unfoldable pub parse_loop : List String → O → Parsed O
  unfolding parse_last is_value positive_integer
  parse_loop [] o = parsed o
  parse_loop (arg ∷ []) o = parse_last arg (flag_of arg) o
  parse_loop (arg ∷ value ∷ rest) o = elim (flag_of arg) [
    | none ↦ failed (unknown_argument arg)
    | some (switch f) ↦ parse_loop (value ∷ rest) (f o)
    | some (text f) ↦ elim (is_value value) [
      | false ↦ failed (missing_value arg)
      | true ↦ parse_loop rest (f value o)
    ]
    | some (number f) ↦ elim (is_value value) [
      | false ↦ failed (missing_value arg)
      | true ↦ elim (positive_integer value) [
        | none ↦ failed (not_positive arg)
        | some n ↦ parse_loop rest (f n o)
      ]
    ]
  ]

infixl 10 ◌>>=◌
abbrev pub ◌>>=◌ : {A B : Type 0} → Parsed A → (A → Parsed B) → Parsed B
parsed a >>= f = f a
failed e >>= f = failed e

-- `if (!options.field) throw`
unfoldable pub require : Option String → String → Parsed String
require none flag = failed (missing_required flag)
require (some value) flag = if value == "" then failed (missing_required flag) else parsed value
