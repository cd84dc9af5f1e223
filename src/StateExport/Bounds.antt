-- ===== src/StateExport/Bounds.antt =====
-- What an export that returns holds: only exportable files, databases as snapshots, within the cap.
use openclaw_control_plane.Common.{
  ℕ, ◌+◌, ◌≤◌, ◌<>◌, String, true, false, Option, none, some, List, [], ◌∷◌, ◌++◌, map, ◌≡◌, refl,
  sym, ap, ◌∙◌, subst, ◌⊎◌, inl, inr, arith, ltb, All, All-append, Bool-cases, ◌==◌, string_eq,
  ◌||◌,
}
use openclaw_control_plane.Effects.Platform.{Reply, ok, rejected}
use openclaw_control_plane.StateExport.Filter.{ends_with, filter_state_entry, to_posix_segments}
use openclaw_control_plane.StateExport.Filter.Laws.{IsExportable, filter_state_entry-IsExportable}
use openclaw_control_plane.StateExport.Files.{
  IsFileAt, here, inside, later, sort_entries-IsFileAt, alone, append_one,
}
use openclaw_control_plane.StateExport.{
  Node, file, dir, link, special, Entries, end, entry, kind_of, Result, done, threw, ◌>>=◌, settled,
  ExportHost, Exported, account, pushed, discounted, add_sidecar, export_sqlite, export_plain,
  export_file, join, walk_node, walk, sort_entries, walk_state, cap_of, build_state_export_tree,
}

-- Inversion of a chain that returns.
bind-done :
    {A B : Type 0} (m : Result A) (f : A → Result B) {b : B}
    → (m >>= f) ≡ done b
    → (a : A) × (m ≡ done a) × (f a ≡ done b)
bind-done (done a) f h = (a, refl, h)
bind-done (threw e) f h = cc

settled-done : {A : Type 0} (r : Reply A) {a : A} → settled r ≡ done a → r ≡ ok a
settled-done (ok a) h = cc
settled-done (rejected m) h = cc

account-done :
    (cap size : ℕ) (path : String) (x y : Exported)
    → account cap size path x ≡ done y
    → (y.files ≡ x.files) × (y.bytes ≡ x.bytes + size) × (y.bytes ≤ cap)
unfolding account
account-done cap size path x y h = elim (Bool-cases (ltb cap (x.bytes + size))) [
  | inl over ↦ cc (rw over at h)
  | inr fits ↦
      let same : record x { bytes = x.bytes + size } ≡ y = cc (rw fits at h) in
      (
        sym (ap (λ (z : Exported). z.files) same),
        sym (ap (λ (z : Exported). z.bytes) same),
        rw (← same) (ground arith),
      )
]

pub total : List (String × ℕ) → ℕ
total [] = 0
total ((f, n) ∷ ws) = n + total ws

total-snoc :
    (ws : List (String × ℕ)) (f : String) (n : ℕ) → total (ws ++ (f, n) ∷ []) ≡ total ws + n
unfolding total
total-snoc [] f n = omega arith
total-snoc ((g, m) ∷ ws) f n = omega (arith, total-snoc ws f n)

abbrev names : List (String × ℕ) → List String
names = map (λ w. w.0)

names-snoc :
    (ws : List (String × ℕ)) (f : String) (n : ℕ) → names (ws ++ (f, n) ∷ []) ≡ names ws ++ f ∷ []
names-snoc [] f n = refl
names-snoc (w ∷ ws) f n = ap (λ gs. w.0 ∷ gs) (names-snoc ws f n)

module _ (host : ExportHost) (cap : ℕ) (root : Entries) where
  -- How a file of the archive came about, with its size in the archive: that of the file which is
  -- copied, that of a snapshot, or none.
  pub data IsArchived (f : String) (n : ℕ) : Type 0 where
    copied :
        (parents : List String) (name : String)
        → f ≡ ".openclaw/" <> join (parents ++ name ∷ [])
        → IsExportable (to_posix_segments (join (parents ++ name ∷ [])))
        → ends_with ".sqlite" name ≡ false
        → IsFileAt root (parents ++ name ∷ []) n
        → host.copy f ≡ ok tt
        → IsArchived f n
    snapshot :
        (parents : List String) (name : String)
        → f ≡ ".openclaw/" <> join (parents ++ name ∷ [])
        → IsExportable (to_posix_segments (join (parents ++ name ∷ [])))
        → ends_with ".sqlite" name ≡ true
        → (size : ℕ) → IsFileAt root (parents ++ name ∷ []) size
        → host.snapshot f ≡ ok n
        → IsArchived f n
    placeholder :
        (main : String) (m : ℕ)
        → host.snapshot main ≡ ok m
        → (f ≡ main <> "-wal") ⊎ (f ≡ main <> "-shm")
        → n ≡ 0
        → IsArchived f n

  -- The files, their sizes in all, and the cap
  abbrev pub IsArchive : Exported → Type 0
  IsArchive x =
      (ws : List (String × ℕ)) × (x.files ≡ names ws)
      × (x.bytes ≡ total ws)
      × All (λ w. IsArchived w.0 w.1) ws
      × (x.bytes ≤ cap)

  push-IsArchive :
      (f : String) (n : ℕ) (x y : Exported)
      → IsArchive x
      → IsArchived f n
      → y.files ≡ x.files ++ f ∷ []
      → y.bytes ≡ x.bytes + n
      → y.bytes ≤ cap
      → IsArchive y
  push-IsArchive f n x y (ws, fs, bs, all, small) a files bytes fits = (
    ws ++ (f, n) ∷ [],
    files ∙ ap (λ gs. gs ++ f ∷ []) fs ∙ sym (names-snoc ws f n),
    omega (arith, total-snoc ws f n),
    All-append _ ws ((f, n) ∷ []) all (a, tt),
    fits,
  )

  add_sidecar-IsArchive :
      (f : String) (x y : Exported)
      → IsArchive x
      → IsArchived f 0
      → add_sidecar cap f x ≡ done y
      → IsArchive y
  unfolding add_sidecar
  add_sidecar-IsArchive f x y arch a h =
      let (z, accounted, pushed_eq) = bind-done (account cap 0 f x) _ h in
      let (files, bytes, fits) = account-done cap 0 f x z accounted in
      let same : pushed f z ≡ y = cc in
      subst IsArchive same
        (push-IsArchive f 0 x (pushed f z) arch a (ap (λ gs. gs ++ f ∷ []) files) bytes fits)

  export_plain-IsArchive :
      (f : String) (size : ℕ) (x y : Exported)
      → IsArchive x
      → (host.copy f ≡ ok tt → IsArchived f size)
      → export_plain host cap f size x ≡ done y
      → IsArchive y
  unfolding export_plain
  export_plain-IsArchive f size x y arch a h =
      let (z, accounted, rest) = bind-done (account cap size f x) _ h in
      let (u, written, last) = bind-done (settled (host.copy f)) _ rest in
      let (files, bytes, fits) = account-done cap size f x z accounted in
      let same : pushed f z ≡ y = cc in
      subst IsArchive same (
        push-IsArchive f size x (pushed f z) arch (a (settled-done (host.copy f) written))
          (ap (λ gs. gs ++ f ∷ []) files) bytes fits)

  export_sqlite-IsArchive :
      (f : String) (size : ℕ) (x y : Exported)
      → IsArchive x
      → ((n : ℕ) → host.snapshot f ≡ ok n → IsArchived f n)
      → export_sqlite host cap f size x ≡ done y
      → IsArchive y
  unfolding export_sqlite
  export_sqlite-IsArchive f size x y arch a h =
      let (z, accounted, r1) = bind-done (account cap size f x) _ h in
      let (n, written, r2) = bind-done (settled (host.snapshot f)) _ r1 in
      let (w, counted, r3) = bind-done (account cap n f (discounted size z)) _ r2 in
      let (v, first, last) = bind-done (add_sidecar cap (f <> "-wal") (pushed f w)) _ r3 in
      let (files, bytes, fits) = account-done cap size f x z accounted in
      let (files', bytes', fits') = account-done cap n f (discounted size z) w counted in
      let shot : host.snapshot f ≡ ok n = settled-done (host.snapshot f) written in
      let whole : w.bytes ≡ x.bytes + n = omega (arith, bytes, bytes') in
      let main =
        push-IsArchive f n x (pushed f w) arch (a n shot) (ap (λ gs. gs ++ f ∷ []) (files' ∙ files))
          whole fits' in
      let wal =
        add_sidecar-IsArchive (f <> "-wal") (pushed f w) v main
          (placeholder f n shot (inl refl) refl) first in
      add_sidecar-IsArchive (f <> "-shm") v y wal (placeholder f n shot (inr refl) refl) last

  export_file-IsArchive :
      (parents : List String) (name : String) (size : ℕ) (x y : Exported)
      → IsArchive x
      → IsExportable (to_posix_segments (join (parents ++ name ∷ [])))
      → IsFileAt root (parents ++ name ∷ []) size
      → export_file host cap (parents ++ name ∷ []) name size x ≡ done y
      → IsArchive y
  unfolding export_file
  export_file-IsArchive parents name size x y arch e there h =
      elim (Bool-cases (ends_with ".sqlite" name)) [
        | inl q ↦
            export_sqlite-IsArchive _ size x y arch
              (λ n s. snapshot parents name refl e q size there s) (rw q at h)
        | inr q ↦
            export_plain-IsArchive _ size x y arch (λ c. copied parents name refl e q there c)
              (rw q at h)
      ]

  -- The entries of a directory are those of the tree at its path.
  abbrev Under : List String → Entries → Type 0
  Under parents es = (p : List String) (n : ℕ) → IsFileAt es p n → IsFileAt root (parents ++ p) n

  mutual
    unfolding walk

    walk_node-IsArchive :
        (parents : List String) (name : String) (node : Node) (x y : Exported)
        → IsArchive x
        → Under parents (entry name node end)
        → filter_state_entry (join (parents ++ name ∷ [])) (kind_of node) ≡ true
        → walk_node host cap (parents ++ name ∷ []) name node x ≡ done y
        → IsArchive y
    walk_node-IsArchive parents name (file size) x y arch at passed h =
        export_file-IsArchive parents name size x y arch
          ((filter_state_entry-IsExportable (join (parents ++ name ∷ []))).0 passed)
          (at _ size here) h
    walk_node-IsArchive parents name (dir es) x y arch at passed h =
        walk-IsArchive (parents ++ name ∷ []) es x y arch
          (λ p n k.
            subst (λ q. IsFileAt root q n) (sym (append_one parents name p))
              (at (name ∷ p) n (inside k)))
          h
    walk_node-IsArchive parents name link x y arch at passed h =
        let same : x ≡ y = cc in subst IsArchive same arch
    walk_node-IsArchive parents name special x y arch at passed h =
        let same : x ≡ y = cc in subst IsArchive same arch

    walk-IsArchive :
        (parents : List String) (es : Entries) (x y : Exported)
        → IsArchive x
        → Under parents es
        → walk host cap parents es x ≡ done y
        → IsArchive y
    walk-IsArchive parents end x y arch at h = let same : x ≡ y = cc in subst IsArchive same arch
    walk-IsArchive parents (entry name node es) x y arch at h =
        elim (Bool-cases (filter_state_entry (join (parents ++ name ∷ [])) (kind_of node))) [
          | inl e ↦
              let (z, first, rest) =
                bind-done (walk_node host cap (parents ++ name ∷ []) name node x) _ (rw e at h) in
              walk-IsArchive parents es z y
                (walk_node-IsArchive parents name node x z arch (λ p n k. at p n (alone k)) e first)
                (λ p n k. at p n (later k)) rest
          | inr e ↦ walk-IsArchive parents es x y arch (λ p n k. at p n (later k)) (rw e at h)
        ]

walk_state-IsArchive :
    (host : ExportHost) (cap : ℕ) (state : Option Node) (y : Exported)
    → walk_state host cap state ≡ done y
    → (root : Entries) × (state ≡ some (dir root)) × IsArchive host cap root y
unfolding walk_state total
walk_state-IsArchive host cap (some (dir es)) y h = (
  es,
  refl,
  walk-IsArchive host cap es [] (sort_entries es) (record { files = []; bytes = 0 }) y
      ([], refl, refl, tt, omega arith) (sort_entries-IsFileAt es) h,
)
walk_state-IsArchive host cap none y h = cc
walk_state-IsArchive host cap (some (file n)) y h = cc
walk_state-IsArchive host cap (some link) y h = cc
walk_state-IsArchive host cap (some special) y h = cc

-- An export that returns holds regular files of the state directory, at exportable paths, and the
-- placeholders of its databases, and no others; a database is a snapshot, never a copy. Its count
-- of bytes is the sum of the sizes of the files that were copied, as the directory has them, and
-- of the snapshots, and it is within the cap.
pub build_state_export_tree-IsArchive :
    (host : ExportHost) (state_dir target_root : String) (max_bytes : Option ℕ)
    (state : Option Node) (y : Exported)
    → build_state_export_tree host state_dir target_root max_bytes state ≡ done y
    → (cap : ℕ) × (root : Entries) × (cap_of host max_bytes ≡ done cap)
      × (state ≡ some (dir root))
      × IsArchive host cap root y
unfolding build_state_export_tree
build_state_export_tree-IsArchive host state_dir target_root max_bytes state y h =
    elim (Bool-cases (state_dir == "" || target_root == "")) [
      | inl e ↦ cc (rw e at h)
      | inr e ↦
          let (cap, limit, walked) = bind-done (cap_of host max_bytes) _ (rw e at h) in
          let (root, found, archive) = walk_state-IsArchive host cap state y walked in
          (cap, root, limit, found, archive)
    ]
