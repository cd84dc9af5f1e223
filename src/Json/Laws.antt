-- ===== src/Json/Laws.antt =====
-- Reading what was written to an object, and lists as arrays.
use openclaw_control_plane.Common.{
  String, some, List, [], ◌∷◌, ◌≡◌, refl, ◌≢◌, ap, ◌==◌, string_eq, if◌then◌else◌, arith,
}
use openclaw_control_plane.Json.{Json, Fields, end, field, items, of_items, get, put}

pub get-put :
    (j k : String) (v : Json) (fs : Fields)
    → get j (put k v fs) ≡ (if k == j then some v else get j fs)
unfolding get put
get-put j k v end = refl
get-put j k v (field i w fs) = ground (arith, get-put j k v fs)

pub get-put_self : (k : String) (v : Json) (fs : Fields) → get k (put k v fs) ≡ some v
get-put_self k v fs = ground (arith, get-put k k v fs)

pub get-put_ne : (j k : String) (v : Json) (fs : Fields) → j ≢ k → get j (put k v fs) ≡ get j fs
get-put_ne j k v fs h = ground (arith, get-put j k v fs)

pub items-of_items : (vs : List Json) → items (of_items vs) ≡ vs
items-of_items [] = refl
items-of_items (v ∷ vs) = ap (λ ws. v ∷ ws) (items-of_items vs)
