-- ===== src/EnvFile/Merge.antt =====
-- Merging into an .env file, line by line.
use openclaw_control_plane.Common.{
  String, ◌<>◌, Bool, true, false, ◌||◌, some, List, [], ◌∷◌, ◌++◌, map, ◌==◌, string_eq, ◌≡◌, refl,
  sym, ap, ◌∙◌, contains, filter, filter-All, arith, All, not, inl, inr, Bool-cases,
}
use openclaw_control_plane.EnvFile.{
  key_of, is_kept, drop_last_blank, entry_line, keys_of, merge_lines,
}

-- The key of an entry is read back from its line.
abbrev pub HasKey : String × String → Type 0
HasKey (key, value) = key_of (key <> ("=" <> value)) ≡ some key

drop_last_blank-append : (ls : List String) → drop_last_blank (ls ++ ("" ∷ [])) ≡ ls
unfolding drop_last_blank string_eq
drop_last_blank-append [] = refl
drop_last_blank-append (l ∷ []) = refl
drop_last_blank-append (l ∷ m ∷ ls) = ap (λ x. l ∷ x) (drop_last_blank-append (m ∷ ls))

pub filter-append :
    (p : String → Bool) (ls ms : List String) → filter p (ls ++ ms) ≡ filter p ls ++ filter p ms
filter-append p [] ms = refl
filter-append p (l ∷ ls) ms = ground (arith, filter-append p ls ms)

-- Kept lines stay kept.
pub drop_last_blank-All :
    (p : String → Bool) (ls : List String)
    → All (λ l. p l ≡ true) ls
    → All (λ l. p l ≡ true) (drop_last_blank ls)
unfolding drop_last_blank
drop_last_blank-All p [] h = tt
drop_last_blank-All p (l ∷ []) h = elim (Bool-cases (l == "")) [ inl e ↦ rw e tt | inr e ↦ rw e h ]
drop_last_blank-All p (l ∷ m ∷ ls) (h, k) = (h, drop_last_blank-All p (m ∷ ls) k)

filter-kept : (p : String → Bool) (ls : List String) → All (λ l. p l ≡ true) ls → filter p ls ≡ ls
filter-kept p [] h = refl
filter-kept p (l ∷ ls) (h, k) = ground (arith, filter-kept p ls k, h)

filter-none :
    (p : String → Bool) (ls : List String)
    → All (λ l. p l ≡ true) ls
    → filter (λ l. not (p l)) ls ≡ []
filter-none p [] h = refl
filter-none p (l ∷ ls) (h, k) = ground (arith, filter-none p ls k, h)

pub append-congr : {ls ls' ms ms' : List String} → ls ≡ ls' → ms ≡ ms' → ls ++ ms ≡ ls' ++ ms'
append-congr {ls'} {ms} p q = ap (λ x. x ++ ms) p ∙ ap (λ y. ls' ++ y) q

pub append-none : (ls : List String) → ls ++ [] ≡ ls
append-none [] = refl
append-none (l ∷ ls) = ap (λ x. l ∷ x) (append-none ls)

contained-more :
    (k : String) (keys : List String) (entries : List (String × String))
    → All (λ e. contains keys e.0 ≡ true) entries
    → All (λ e. contains (k ∷ keys) e.0 ≡ true) entries
contained-more k keys [] h = tt
contained-more k keys ((key, value) ∷ entries) (h, hs) =
    (rw h (or_true (key == k)), contained-more k keys entries hs)
  where
    or_true : (b : Bool) → (b || true) ≡ true
    or_true true = refl
    or_true false = refl

contained :
    (entries : List (String × String)) → All (λ e. contains (keys_of entries) e.0 ≡ true) entries
contained [] = tt
contained ((key, value) ∷ entries) =
    (ground arith, contained-more key (keys_of entries) entries (contained entries))

-- The lines of the entries are all replaced.
entries-dropped :
    (keys : List String) (entries : List (String × String))
    → All HasKey entries
    → All (λ e. contains keys e.0 ≡ true) entries
    → All (λ l. not (is_kept keys l) ≡ true) (map entry_line entries)
unfolding is_kept
entries-dropped keys [] h k = tt
entries-dropped keys ((key, value) ∷ entries) (h, hs) (k, ks) =
    (rw (not, h) (rw k refl), entries-dropped keys entries hs ks)

not-not : (p : String → Bool) (ls : List String) → filter (λ l. not (not (p l))) ls ≡ filter p ls
not-not p [] = refl
not-not p (l ∷ ls) = ground (arith, not-not p ls)

module _ (lines : List String) (entries : List (String × String)) (h : All HasKey entries) where
  abbrev keys : List String
  keys = keys_of entries

  abbrev kept : List String
  kept = drop_last_blank (filter (is_kept keys) lines)

  kept-All : All (λ l. is_kept keys l ≡ true) kept
  kept-All = drop_last_blank-All (is_kept keys) _ (filter-All (is_kept keys) lines)

  dropped : All (λ l. not (is_kept keys l) ≡ true) (map entry_line entries)
  dropped = entries-dropped keys entries h (contained entries)

  -- The lines without a key of the entries are those that were kept.
  pub merge_lines-kept : filter (is_kept keys) (merge_lines lines entries) ≡ kept
  unfolding merge_lines
  merge_lines-kept =
      filter-append (is_kept keys) kept (map entry_line entries)
      ∙ append-congr (filter-kept (is_kept keys) kept kept-All) (
          sym (not-not (is_kept keys) (map entry_line entries))
          ∙ filter-none (λ l. not (is_kept keys l)) (map entry_line entries) dropped)
      ∙ append-none kept

  pub kept_again :
      filter (is_kept keys) (merge_lines lines entries ++ ("" ∷ [])) ≡ kept ++ ("" ∷ [])
  unfolding is_kept key_of
  kept_again =
      filter-append (is_kept keys) (merge_lines lines entries) ("" ∷ [])
      ∙ ap (λ x. x ++ ("" ∷ [])) merge_lines-kept

  -- The lines with a key of the entries are those of the entries.
  pub merge_lines-entries :
      filter (λ l. not (is_kept (keys_of entries) l)) (merge_lines lines entries)
      ≡ map entry_line entries
  unfolding merge_lines
  merge_lines-entries =
      filter-append (λ l. not (is_kept keys l)) kept (map entry_line entries)
      ∙ append-congr (filter-none (is_kept keys) kept kept-All)
          (filter-kept (λ l. not (is_kept keys l)) (map entry_line entries) dropped)

  -- With the blank line behind the last line break, merging again gives the same lines.
  pub merge_lines_again :
      merge_lines (merge_lines lines entries ++ ("" ∷ [])) entries ≡ merge_lines lines entries
  unfolding merge_lines
  merge_lines_again =
      ap (λ x. drop_last_blank x ++ map entry_line entries) kept_again
      ∙ ap (λ x. x ++ map entry_line entries) (drop_last_blank-append kept)
