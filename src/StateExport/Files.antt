-- ===== src/StateExport/Files.antt =====
-- The regular files of the state directory, by their paths. Sorting the entries keeps them.
use openclaw_control_plane.Common.{
  ℕ, String, List, [], ◌∷◌, ◌++◌, ◌≡◌, refl, sym, subst, ap, inl, inr, Bool-cases,
}
use openclaw_control_plane.StateExport.{
  Node, file, dir, link, special, Entries, end, entry, text_lt, insert_entry, sort_node,
  sort_entries,
}

-- A regular file of this size stands at the path.
pub data IsFileAt : Entries → List String → ℕ → Type 0 where
  here : {name : String} {n : ℕ} {es : Entries} → IsFileAt (entry name (file n) es) (name ∷ []) n
  inside :
      {name : String} {path : List String} {n : ℕ} {fs es : Entries}
      → IsFileAt fs path n
      → IsFileAt (entry name (dir fs) es) (name ∷ path) n
  later :
      {name : String} {node : Node} {path : List String} {n : ℕ} {es : Entries}
      → IsFileAt es path n
      → IsFileAt (entry name node es) path n

under :
    {name first : String} {node m : Node} {es : Entries} {p : List String} {n : ℕ}
    → IsFileAt (entry name node es) p n
    → IsFileAt (entry name node (entry first m es)) p n
under here = here
under (inside k) = inside k
under (later k) = later (later k)

swap :
    {name first : String} {node m : Node} {es xs : Entries} {p : List String} {n : ℕ}
    → (IsFileAt xs p n → IsFileAt (entry name node es) p n)
    → IsFileAt (entry first m xs) p n
    → IsFileAt (entry name node (entry first m es)) p n
swap f here = later here
swap f (inside k) = later (inside k)
swap f (later k) = under (f k)

insert_entry-IsFileAt :
    (name : String) (node : Node) (es : Entries) (p : List String) (n : ℕ)
    → IsFileAt (insert_entry name node es) p n
    → IsFileAt (entry name node es) p n
unfolding insert_entry
insert_entry-IsFileAt name node end p n h = h
insert_entry-IsFileAt name node (entry first m es) p n h = elim (Bool-cases (text_lt first name)) [
  | inl e ↦ swap (insert_entry-IsFileAt name node es p n) (rw e at h)
  | inr e ↦ rw e at h
]

-- The same below a node, which is such a file where the path ends.
abbrev InNode : Node → List String → ℕ → Type 0
InNode (file m) p n = (p ≡ []) × (m ≡ n)
InNode (dir es) p n = IsFileAt es p n
InNode link p n = ⊥
InNode special p n = ⊥

from_node :
    (name : String) (node : Node) (es : Entries) (p : List String) (n : ℕ)
    → InNode node p n
    → IsFileAt (entry name node es) (name ∷ p) n
from_node name (file m) es p n (e, same) =
    subst (λ q. IsFileAt (entry name (file m) es) (name ∷ q) n) (sym e)
      (subst (λ k. IsFileAt (entry name (file m) es) (name ∷ []) k) same here)
from_node name (dir fs) es p n k = inside k
from_node name link es p n k = absurd k
from_node name special es p n k = absurd k

both :
    {name : String} {node node' : Node} {es es' : Entries} {p : List String} {n : ℕ}
    → ((q : List String) → InNode node' q n → InNode node q n)
    → (IsFileAt es' p n → IsFileAt es p n)
    → IsFileAt (entry name node' es') p n
    → IsFileAt (entry name node es) p n
both f g here = from_node _ _ _ [] _ (f [] (refl, refl))
both f g (inside k) = from_node _ _ _ _ _ (f _ k)
both f g (later k) = later (g k)

mutual
  unfolding sort_node

  pub sort_entries-IsFileAt :
      (es : Entries) (p : List String) (n : ℕ) → IsFileAt (sort_entries es) p n → IsFileAt es p n
  sort_entries-IsFileAt end p n h = h
  sort_entries-IsFileAt (entry name node es) p n h =
      both (λ q. sort_node-InNode node q n) (sort_entries-IsFileAt es p n)
        (insert_entry-IsFileAt name (sort_node node) (sort_entries es) p n h)

  sort_node-InNode :
      (node : Node) (p : List String) (n : ℕ) → InNode (sort_node node) p n → InNode node p n
  sort_node-InNode (file m) p n h = h
  sort_node-InNode (dir es) p n h = sort_entries-IsFileAt es p n h
  sort_node-InNode link p n h = h
  sort_node-InNode special p n h = h

-- One entry without the others
pub alone :
    {name : String} {node : Node} {es : Entries} {p : List String} {n : ℕ}
    → IsFileAt (entry name node end) p n
    → IsFileAt (entry name node es) p n
alone here = here
alone (inside k) = inside k
alone (later k) = elim k [ ]

pub append_one :
    (path : List String) (name : String) (p : List String)
    → (path ++ (name ∷ [])) ++ p ≡ path ++ (name ∷ p)
append_one [] name p = refl
append_one (x ∷ path) name p = ap (λ q. x ∷ q) (append_one path name p)
