-- ===== src/Json.antt =====
-- JavaScript values as `JSON.parse` gives them: a number is kept as the text that `JSON.stringify`
-- prints for it, an object as its fields in order. Each array or object has a list type of its own.
pub mod Laws
use openclaw_control_plane.Common.{
  String, Bool, true, false, not, Option, none, some, List, [], ◌∷◌, ◌==◌, string_eq, if◌then◌else◌,
  ◌||◌,
}

mutual
  pub data Json : Type 0 where
    null : Json
    bool : Bool → Json
    num : String → Json
    str : String → Json
    arr : Items → Json
    obj : Fields → Json

  pub data Items : Type 0 where
    nil : Items
    cons : Json → Items → Items

  pub data Fields : Type 0 where
    end : Fields
    field : String → Json → Fields → Fields

abbrev pub items : Items → List Json
items nil = []
items (cons v vs) = v ∷ items vs

abbrev pub of_items : List Json → Items
of_items [] = nil
of_items (v ∷ vs) = cons v (of_items vs)

-- `fields[key]`
unfoldable pub get : String → Fields → Option Json
get key end = none
get key (field k v fs) = if k == key then some v else get key fs

-- `fields[key] = v`
unfoldable pub put : String → Json → Fields → Fields
put key v end = field key v end
put key v (field k w fs) = if k == key then field k v fs else field k w (put key v fs)

-- The field of a value that is read as an object: `undefined` on anything but an object.
abbrev pub get_of : String → Json → Option Json
get_of key (obj fs) = get key fs
get_of key _ = none

-- `Boolean(value)`
unfoldable pub truthy : Json → Bool
truthy null = false
truthy (bool b) = b
truthy (num n) = not (n == "0" || n == "-0")
truthy (str s) = not (s == "")
truthy _ = true

-- `undefined` is falsy.
abbrev pub truthy? : Option Json → Bool
truthy? none = false
truthy? (some v) = truthy v
