-- ===== src/Proof/Names.antt =====
-- What `normalizePath` makes of a name.
use openclaw_control_plane.Common.{
  ℕ, zero, suc, String, Option, List, [], ◌∷◌, ◌++◌, map, ◌≡◌, ◌≢◌, inl, inr, ◌↔◌, refl, sym, ap,
  ◌∙◌, ◌&&◌, subst, ◌==◌, nat_eq, arith, Bool-cases,
}
use openclaw_control_plane.Proof.Paths.{
  normalize, normalize_path, slash, to_slash, strip_leading, strip_dots, strip_trailing, keep,
  drop_dot,
}

-- Slashes in front of a path, and steps to the same directory
abbrev pub slashes : ℕ → List ℕ → List ℕ
slashes zero xs = xs
slashes (suc n) xs = slash ∷ slashes n xs

abbrev pub dots : ℕ → List ℕ → List ℕ
dots zero xs = xs
dots (suc n) xs = b'.' ∷ slash ∷ dots n xs

-- The name behind slashes and steps, with slashes at the end
abbrev pub Spells : (name path : List ℕ) → Type 0
Spells name path = (a : ℕ) × (b : ℕ) × (c : ℕ) × (path ≡ slashes a (dots b (name ++ slashes c [])))

-- A name that begins with neither a slash nor a dot, and does not end with a slash
pub record IsName (name : List ℕ) : Type 0 where
  pub first : ℕ
  pub rest : List ℕ
  pub begins : name ≡ first ∷ rest
  pub no_slash : first ≢ slash
  pub no_dot : first ≢ b'.'
  pub init : List ℕ
  pub last : ℕ
  pub ends : name ≡ init ++ (last ∷ [])
  pub no_trail : last ≢ slash

leading : (xs : List ℕ) → (a : ℕ) × (xs ≡ slashes a (strip_leading xs))
unfolding strip_leading
leading [] = (0, refl)
leading (c ∷ cs) = elim (Bool-cases (c == slash)) [
  | inl e ↦
      let (a, p) = leading cs in
      let same : c ≡ slash = ground arith in
      let skip : strip_leading (c ∷ cs) ≡ strip_leading cs = ground arith in
      (suc a, subst (λ r. c ∷ cs ≡ slash ∷ slashes a r) (sym skip) (cc (same, p)))
  | inr e ↦ (0, ground arith)
]

stepping : (xs : List ℕ) → (b : ℕ) × (xs ≡ dots b (strip_dots xs))
unfolding strip_dots
stepping [] = (0, refl)
stepping (c ∷ []) = (0, refl)
stepping (c ∷ d ∷ cs) = elim (Bool-cases (c == b'.' && d == slash)) [
  | inl e ↦
      let (b, p) = stepping cs in
      let dot : c ≡ b'.' = ground arith in
      let same : d ≡ slash = ground arith in
      let skip : strip_dots (c ∷ d ∷ cs) ≡ strip_dots cs = ground arith in
      (suc b, subst (λ r. c ∷ d ∷ cs ≡ b'.' ∷ slash ∷ dots b r) (sym skip) (cc (dot, same, p)))
  | inr e ↦ (0, ground arith)
]

keep_lem :
    (c k : ℕ) (cs r : List ℕ)
    → cs ≡ r ++ slashes k []
    → (n : ℕ) × (c ∷ cs ≡ keep c r ++ slashes n [])
unfolding keep
keep_lem c k cs (d ∷ ds) p = (k, ap (λ t. c ∷ t) p)
keep_lem c k cs [] p = elim (Bool-cases (c == slash)) [
  | inl e ↦ let same : c ≡ slash = ground arith in (suc k, rw e (cc (same, p)))
  | inr e ↦ (k, rw e (ap (λ t. c ∷ t) p))
]

trailing : (xs : List ℕ) → (c : ℕ) × (xs ≡ strip_trailing xs ++ slashes c [])
unfolding strip_trailing
trailing [] = (0, refl)
trailing (c ∷ cs) = let (k, p) = trailing cs in keep_lem c k cs (strip_trailing cs) p

strip_leading_lem :
    (a c : ℕ) (cs : List ℕ) → c ≢ slash → strip_leading (slashes a (c ∷ cs)) ≡ c ∷ cs
unfolding strip_leading nat_eq
strip_leading_lem zero c cs n = ground arith
strip_leading_lem (suc a) c cs n = strip_leading_lem a c cs n

strip_dots_lem : (b c : ℕ) (cs : List ℕ) → c ≢ b'.' → strip_dots (dots b (c ∷ cs)) ≡ c ∷ cs
unfolding strip_dots nat_eq
strip_dots_lem zero c [] n = refl
strip_dots_lem zero c (d ∷ cs) n = ground arith
strip_dots_lem (suc b) c cs n = strip_dots_lem b c cs n

strip_slashes : (c : ℕ) → strip_trailing (slashes c []) ≡ []
unfolding strip_trailing keep nat_eq
strip_slashes zero = refl
strip_slashes (suc c) = rw (strip_slashes c)

keep_last : (last : ℕ) → last ≢ slash → keep last [] ≡ last ∷ []
unfolding keep
keep_last last n = ground arith

keep_some : (c last : ℕ) (init : List ℕ) → keep c (init ++ (last ∷ [])) ≡ c ∷ (init ++ (last ∷ []))
unfolding keep
keep_some c last [] = refl
keep_some c last (d ∷ ds) = refl

strip_trailing_lem :
    (init : List ℕ) (last c : ℕ)
    → last ≢ slash
    → strip_trailing (init ++ (last ∷ slashes c [])) ≡ init ++ (last ∷ [])
unfolding strip_trailing
strip_trailing_lem [] last c n = ap (keep last) (strip_slashes c) ∙ keep_last last n
strip_trailing_lem (x ∷ init) last c n =
    ap (keep x) (strip_trailing_lem init last c n) ∙ keep_some x last init

strip_leading-dots :
    (a b c : ℕ) (cs : List ℕ)
    → c ≢ slash
    → strip_leading (slashes a (dots b (c ∷ cs))) ≡ dots b (c ∷ cs)
strip_leading-dots a zero c cs n = strip_leading_lem a c cs n
strip_leading-dots a (suc b) c cs n = strip_leading_lem a b'.' _ (λ e. omega arith)

append_last :
    (init : List ℕ) (last : ℕ) (ys : List ℕ) → (init ++ (last ∷ [])) ++ ys ≡ init ++ (last ∷ ys)
append_last [] last ys = refl
append_last (x ∷ init) last ys = ap (λ t. x ∷ t) (append_last init last ys)

drop_dot-name : (first : ℕ) (rest xs : List ℕ) → drop_dot xs ≡ first ∷ rest → xs ≡ first ∷ rest
unfolding drop_dot
drop_dot-name first rest [] h = cc
drop_dot-name first rest (c ∷ []) h = ground arith
drop_dot-name first rest (c ∷ d ∷ cs) h = h

drop_dot-first : (first : ℕ) (rest : List ℕ) → first ≢ b'.' → drop_dot (first ∷ rest) ≡ first ∷ rest
unfolding drop_dot
drop_dot-first first [] n = ground arith
drop_dot-first first (d ∷ ds) n = refl

-- The three passes, on a path that has slashes only
abbrev strip : List ℕ → List ℕ
strip ys = strip_trailing (strip_dots (strip_leading ys))

strip-Spells : (ys : List ℕ) → Spells (strip ys) ys
strip-Spells ys =
    let (a, p) = leading ys in
    let (b, q) = stepping (strip_leading ys) in
    let (c, r) = trailing (strip_dots (strip_leading ys)) in
    (a, b, c, p ∙ ap (slashes a) (q ∙ ap (dots b) r))

module _ {name : List ℕ} (k : IsName name) where
  begun : (ys : List ℕ) → name ++ ys ≡ k.first ∷ (k.rest ++ ys)
  begun ys = ap (λ n. n ++ ys) k.begins

  trimmed : (c : ℕ) → strip_trailing (name ++ slashes c []) ≡ name
  trimmed c =
      ap (λ n. strip_trailing (n ++ slashes c [])) k.ends
      ∙ (ap strip_trailing (append_last k.init k.last (slashes c []))
          ∙ (strip_trailing_lem k.init k.last c k.no_trail ∙ sym k.ends))

  Spells-strip : (ys : List ℕ) → Spells name ys → strip ys ≡ name
  Spells-strip ys (a, b, c, e) =
      let whole = name ++ slashes c [] in
      let form : ys ≡ slashes a (dots b (k.first ∷ (k.rest ++ slashes c []))) =
        e ∙ ap (λ t. slashes a (dots b t)) (begun (slashes c [])) in
      let steps = ap strip_leading form ∙ strip_leading-dots a b k.first _ k.no_slash in
      let bare = ap strip_dots steps ∙ strip_dots_lem b k.first _ k.no_dot in
      ap strip_trailing (bare ∙ sym (begun (slashes c []))) ∙ trimmed c

  drop_dot-keeps : drop_dot name ≡ name
  drop_dot-keeps = ap drop_dot k.begins ∙ (drop_dot-first k.first k.rest k.no_dot ∙ sym k.begins)

-- A setting normalizes to a name just where, trimmed and in lower case, it spells it: behind
-- slashes of either kind and then any number of `./`, with slashes at the end. The name begins
-- with neither a slash nor a dot, and does not end with a slash.
pub normalize_path-Spells :
    (value : Option String) (name : List ℕ)
    → IsName name
    → (normalize_path value ≡ name) ↔ Spells name (map to_slash (normalize value))
unfolding normalize_path
normalize_path-Spells value name k = (
  λ h.
      let same = drop_dot-name k.first k.rest _ (h ∙ k.begins) ∙ sym k.begins in
      subst (λ n. Spells n (map to_slash (normalize value))) same
        (strip-Spells (map to_slash (normalize value))),
  λ s. ap drop_dot (Spells-strip k (map to_slash (normalize value)) s) ∙ drop_dot-keeps k,
)
