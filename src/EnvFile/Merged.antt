-- ===== src/EnvFile/Merged.antt =====
-- `mergeEnv` of packages/openclaw-railway-installer/src/index.ts: the text of a merged .env file: what it holds when it is read again.
use Prim.Native.Char.{Char, code}
use Prim.Native.String.append
use text.Mathlib.TextLemmas.{append_assoc}
use openclaw_control_plane.Common.{
  String, ◌<>◌, Bool, true, false, ◌&&◌, not, some, List, [], ◌∷◌, ◌++◌, map, ◌==◌, nat_eq,
  string_eq, ◌≡◌, refl, subst, sym, ap, ◌∙◌, filter, arith, All, All-append, inl, inr, Bool-cases,
}
use openclaw_control_plane.EnvFile.{
  split_lines, key_of, is_kept, drop_last_blank, entry_line, keys_of, merge_lines, join_lines,
  trim_end, merge_env,
}
use openclaw_control_plane.EnvFile.Merge.{
  HasKey, drop_last_blank-All, filter-append, append-none, merge_lines-entries, kept_again,
  merge_lines_again,
}

-- A text without a line feed or a carriage return
abbrev pub is_plain : String → Bool
is_plain String.[] = true
is_plain (String.◌∷◌ c s) = not (code c == 10) && not (code c == 13) && is_plain s

abbrev is_filled : String → Bool
is_filled String.[] = false
is_filled (String.◌∷◌ c s) = true

-- An entry that a line can hold: its key is read back, and its line is plain and does not end in
-- white space.
abbrev pub IsWritable : String × String → Type 0
IsWritable entry =
    HasKey entry
    × (is_plain (entry_line entry) ≡ true)
    × (trim_end (entry_line entry) ≡ entry_line entry)

plain_step :
    (c : Char) (s : String)
    → is_plain (String.◌∷◌ c s) ≡ true
    → ((code c == 10) ≡ false) × ((code c == 13) ≡ false) × (is_plain s ≡ true)
plain_step c s h = ground arith

split_lines-feed : (s : String) → split_lines ("\n" <> s) ≡ "" ∷ split_lines s
unfolding split_lines nat_eq
split_lines-feed s =
    ap split_lines (append.cons "\n" "" s ∙ ap (λ x. String.◌∷◌ "\n" x) (append.nil s))

-- A plain line is read up to its line feed.
split-line : (l s : String) → is_plain l ≡ true → split_lines (l <> ("\n" <> s)) ≡ l ∷ split_lines s
unfolding split_lines
split-line String.[] s h = ap split_lines (append.nil ("\n" <> s)) ∙ split_lines-feed s
split-line (String.◌∷◌ c l) s h =
    let (a, b, k) = plain_step c l h in
    ap split_lines (append.cons c l ("\n" <> s))
    ∙ rw a (
        rw b (
          rw (split-line l s k) (
            ap (λ x. x ∷ split_lines s)
              (append.cons c "" l ∙ ap (λ x. String.◌∷◌ c x) (append.nil l)))))

-- Plain lines, joined and ended with a line feed, are read back, with a blank line behind them.
split-join :
    (l : String) (ls : List String)
    → All (λ x. is_plain x ≡ true) (l ∷ ls)
    → split_lines (join_lines (l ∷ ls) <> "\n") ≡ (l ∷ ls) ++ ("" ∷ [])
unfolding join_lines split_lines
split-join l [] (h, _) = split-line l "" h
split-join l (m ∷ ls) (h, k) =
    ap split_lines (
      append_assoc l ("\n" <> join_lines (m ∷ ls)) "\n"
      ∙ ap (λ x. l <> x) (append_assoc "\n" (join_lines (m ∷ ls)) "\n"))
    ∙ split-line l (join_lines (m ∷ ls) <> "\n") h
    ∙ ap (λ x. l ∷ x) (split-join m ls k)

split-joined :
    (ls : List String) (m : String) (ms : List String)
    → All (λ x. is_plain x ≡ true) (ls ++ (m ∷ ms))
    → split_lines (join_lines (ls ++ (m ∷ ms)) <> "\n") ≡ (ls ++ (m ∷ ms)) ++ ("" ∷ [])
split-joined [] m ms h = split-join m ms h
split-joined (l ∷ ls) m ms h = split-join l (ls ++ (m ∷ ms)) h

-- A text that does not end in white space
abbrev IsTrimmed : String → Type 0
IsTrimmed s = (is_filled s ≡ true) × (trim_end s ≡ s)

trim_step : (c : Char) (s : String) → IsTrimmed s → IsTrimmed (String.◌∷◌ c s)
unfolding trim_end
trim_step c String.[] (f, e) = ground arith
trim_step c (String.◌∷◌ d s) (f, e) =
    (refl, rw e (append.cons c "" (String.◌∷◌ d s) ∙ ap (λ x. String.◌∷◌ c x) (append.nil _)))

trim-append : (a b : String) → IsTrimmed b → IsTrimmed (a <> b)
trim-append String.[] b h = subst IsTrimmed (sym (append.nil b)) h
trim-append (String.◌∷◌ c a) b h =
    subst IsTrimmed (sym (append.cons c a b)) (trim_step c (a <> b) (trim-append a b h))

trim-lines :
    (l : String) (ls : List String) → All IsTrimmed (l ∷ ls) → IsTrimmed (join_lines (l ∷ ls))
unfolding join_lines
trim-lines l [] (h, _) = h
trim-lines l (m ∷ ls) (h, k) =
    trim-append l ("\n" <> join_lines (m ∷ ls))
      (trim-append "\n" (join_lines (m ∷ ls)) (trim-lines m ls k))

trim-joined :
    (ls : List String) (m : String) (ms : List String)
    → All IsTrimmed (m ∷ ms)
    → IsTrimmed (join_lines (ls ++ (m ∷ ms)))
unfolding join_lines
trim-joined [] m ms h = trim-lines m ms h
trim-joined (l ∷ []) m ms h =
    trim-append l ("\n" <> join_lines (m ∷ ms)) (trim-append "\n" _ (trim-lines m ms h))
trim-joined (l ∷ l' ∷ ls) m ms h =
    trim-append l ("\n" <> join_lines (l' ∷ (ls ++ (m ∷ ms))))
      (trim-append "\n" _ (trim-joined (l' ∷ ls) m ms h))

line-IsTrimmed : (l key : String) → key_of l ≡ some key → trim_end l ≡ l → IsTrimmed l
unfolding key_of
line-IsTrimmed String.[] key h e = ground arith
line-IsTrimmed (String.◌∷◌ c s) key h e = (refl, e)

module _ {A B : Type 0} {P : A → Type 0} (Q : B → Type 0) (f : A → B)
    (k : (x : A) → P x → Q (f x)) where
  All-map : (xs : List A) → All P xs → All Q (map f xs)
  All-map [] h = tt
  All-map (x ∷ xs) (h, hs) = (k x h, All-map xs hs)

module _ {A : Type 0} {P Q : A → Type 0} (k : (x : A) → P x → Q x) where
  All-weaken : (xs : List A) → All P xs → All Q xs
  All-weaken [] h = tt
  All-weaken (x ∷ xs) (h, hs) = (k x h, All-weaken xs hs)

module _ {A : Type 0} (P : A → Type 0) (p : A → Bool) where
  filter-preserves : (xs : List A) → All P xs → All P (filter p xs)
  filter-preserves [] h = tt
  filter-preserves (x ∷ xs) (h, hs) = elim (Bool-cases (p x)) [
    | inl e ↦ rw e (h, filter-preserves xs hs)
    | inr e ↦ rw e (filter-preserves xs hs)
  ]

module _ (existing : String) (e : String × String) (es : List (String × String))
    (plain : All (λ l. is_plain l ≡ true) (split_lines existing))
    (h : All IsWritable (e ∷ es)) where
  abbrev entries : List (String × String)
  entries = e ∷ es

  abbrev keys : List String
  keys = keys_of entries

  abbrev lines : List String
  lines = merge_lines (split_lines existing) entries

  keyed : All HasKey entries
  keyed = All-weaken (λ x w. w.0) entries h

  lines-plain : All (λ l. is_plain l ≡ true) lines
  unfolding merge_lines
  lines-plain =
      All-append (λ l. is_plain l ≡ true) _ _
        (drop_last_blank-All is_plain _
          (filter-preserves (λ l. is_plain l ≡ true) (is_kept keys) _ plain))
        (All-map (λ l. is_plain l ≡ true) entry_line (λ x w. w.1) entries h)

  entries-IsTrimmed : All IsTrimmed (map entry_line entries)
  entries-IsTrimmed =
      All-map IsTrimmed entry_line (λ (key, value) w. line-IsTrimmed _ key w.0 w.2) entries h

  -- Nothing is trimmed from the end.
  joined : merge_env existing entries ≡ join_lines lines <> "\n"
  unfolding merge_env merge_lines
  joined = ap (λ x. x <> "\n") (trim-joined _ _ _ entries-IsTrimmed).1

  read_again : split_lines (merge_env existing entries) ≡ lines ++ ("" ∷ [])
  unfolding merge_lines
  read_again = ap split_lines joined ∙ split-joined _ _ _ lines-plain

  -- Where no line of the file has a carriage return inside, and the entries, at least one, have keys
  -- that are read back, and lines without a line break and without white space at the end: the
  -- merged file, read again, has the lines of the entries, in order, as its only lines with one of
  -- their keys; its other lines are those of the file that was merged into, in order, the last of
  -- them dropped if it is blank, and then the blank line behind the last line break.
  pub merge_env-entries :
      (filter (λ l. not (is_kept (keys_of (e ∷ es)) l)) (split_lines (merge_env existing (e ∷ es)))
        ≡ map entry_line (e ∷ es))
      × (filter (is_kept (keys_of (e ∷ es))) (split_lines (merge_env existing (e ∷ es)))
          ≡ drop_last_blank (filter (is_kept (keys_of (e ∷ es))) (split_lines existing))
            ++ ("" ∷ []))
  unfolding is_kept key_of
  merge_env-entries = (
    ap (filter (λ l. not (is_kept keys l))) read_again
        ∙ filter-append (λ l. not (is_kept keys l)) lines ("" ∷ [])
        ∙ append-none _
        ∙ merge_lines-entries (split_lines existing) entries keyed,
    ap (filter (is_kept keys)) read_again ∙ kept_again (split_lines existing) entries keyed,
  )

  -- Where no line of the file has a carriage return inside, and the entries, at least one, have keys
  -- that are read back, and lines without a line break and without white space at the end, merging
  -- the same entries into the merged file changes nothing.
  pub merge_env_again :
      merge_env (merge_env existing (e ∷ es)) (e ∷ es) ≡ merge_env existing (e ∷ es)
  unfolding merge_env
  merge_env_again =
      ap (λ x. trim_end (join_lines (merge_lines x entries)) <> "\n") read_again
      ∙ ap (λ x. trim_end (join_lines x) <> "\n")
          (merge_lines_again (split_lines existing) entries keyed)
