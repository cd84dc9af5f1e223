-- ===== src/StateExport.antt =====
-- The scoped state export of scripts/wrapper-state-export.mjs: which entries of the state directory
-- are exported, and the walk that copies them under a cap on bytes.
--
-- The directory is a tree that does not change during the walk, and the calls that make directories
-- and placeholders are taken not to fail. The copy of a file and the snapshot of a database may.
pub mod Filter
pub mod Files
pub mod Bounds
use openclaw_control_plane.Common.{
  ℕ, ◌+◌, ◌-◌, ◌*◌, ◌/◌, ◌||◌, ◌<>◌, String, Bool, true, false, Option, none, some, List, [], ◌∷◌,
  ◌++◌, ◌==◌, string_eq, nat_eq, ltb, length, if◌then◌else◌,
}
use Prim.Native.Nat.{◌%◌}
use openclaw_control_plane.Common.Text.{codes, is_blank}
use openclaw_control_plane.Effects.Platform.{Reply, ok, rejected}
use openclaw_control_plane.StateExport.Filter.{
  Kind, regular, directory, symbolic_link, other, filter_state_entry, ends_with,
}

-- The state directory. A size is that of the file on disk.
mutual
  pub data Node : Type 0 where
    file : (size : ℕ) → Node
    dir : Entries → Node
    link : Node
    special : Node

  pub data Entries : Type 0 where
    end : Entries
    entry : String → Node → Entries → Entries

abbrev pub kind_of : Node → Kind
kind_of (file size) = regular
kind_of (dir es) = directory
kind_of link = symbolic_link
kind_of special = other

-- The order of `<` on texts: that of their UTF-16 units.
utf16 : List ℕ → List ℕ
utf16 [] = []
utf16 (c ∷ cs) =
    if ltb c 0x10000
    then c ∷ utf16 cs
    else (0xd800 + (c - 0x10000) / 0x400) ∷ (0xdc00 + (c - 0x10000) % 0x400) ∷ utf16 cs

lex_lt : List ℕ → List ℕ → Bool
lex_lt xs [] = false
lex_lt [] (y ∷ ys) = true
lex_lt (x ∷ xs) (y ∷ ys) =
    let rest = lex_lt xs ys in if ltb x y then true else if ltb y x then false else rest

text_lt : String → String → Bool
unfolding utf16 lex_lt
text_lt s t = lex_lt (utf16 (codes s)) (utf16 (codes t))

-- `dirents.sort(...)`, which is stable
insert_entry : String → Node → Entries → Entries
unfolding text_lt
insert_entry name node end = entry name node end
insert_entry name node (entry first n es) =
    if text_lt first name
    then entry first n (insert_entry name node es)
    else entry name node (entry first n es)

-- Each directory's entries in the order in which the walk takes them
unfoldable mutual
  unfolding insert_entry

  pub sort_node : Node → Node
  sort_node (file size) = file size
  sort_node (dir es) = dir (sort_entries es)
  sort_node link = link
  sort_node special = special

  sort_entries : Entries → Entries
  sort_entries end = end
  sort_entries (entry name node es) = insert_entry name (sort_node node) (sort_entries es)

pub data ExportError : Type 0 where
  no_directories : ExportError
  max_bytes_invalid : (raw : String) → ExportError
  not_a_directory : ExportError
  exceeds_cap : (cap : ℕ) (archive_path : String) (files bytes : ℕ) → ExportError
  failed : (message : String) → ExportError

pub data Result (A : Type 0) : Type 0 where
  done : A → Result A
  threw : ExportError → Result A

infixl 10 ◌>>=◌
abbrev pub ◌>>=◌ : {A B : Type 0} → Result A → (A → Result B) → Result B
done a >>= f = f a
threw e >>= f = threw e

abbrev pub settled : {A : Type 0} → Reply A → Result A
settled (ok a) = done a
settled (rejected message) = threw (failed message)

pub record ExportHost : Type 0 where
  -- `process.env[name]`, and `Number(s)` where it is an integer that is not negative
  pub env : String → Option String
  pub integer : String → Option ℕ
  -- `copyFileSync`, by the path in the archive
  pub copy : String → Reply (Unit {0})
  -- `snapshotSqlite`, with the size of the snapshot
  pub snapshot : String → Reply ℕ

-- What the walk has written
pub record Exported : Type 0 where
  pub files : List String
  pub bytes : ℕ

unfoldable pub account : ℕ → ℕ → String → Exported → Result Exported
account cap size archive_path x =
    let bytes = x.bytes + size in
    if ltb cap bytes
    then threw (exceeds_cap cap archive_path (length x.files) bytes)
    else done (record x { bytes = bytes })

abbrev pub pushed : String → Exported → Exported
pushed archive_path x = record x { files = x.files ++ (archive_path ∷ []) }

-- `bytes -= sourceSize`
abbrev pub discounted : ℕ → Exported → Exported
discounted size x = record x { bytes = x.bytes - size }

-- The placeholder beside a snapshot
add_sidecar : ℕ → String → Exported → Result Exported
unfolding account
add_sidecar cap sidecar x = account cap 0 sidecar x >>= λ y. done (pushed sidecar y)

export_sqlite : ExportHost → ℕ → String → ℕ → Exported → Result Exported
unfolding account add_sidecar
export_sqlite host cap archive_path size x = account cap size archive_path x >>= λ y.
    settled (host.snapshot archive_path) >>= λ snapshot_size.
    account cap snapshot_size archive_path (discounted size y) >>= λ z.
    add_sidecar cap (archive_path <> "-wal") (pushed archive_path z)
    >>= add_sidecar cap (archive_path <> "-shm")

export_plain : ExportHost → ℕ → String → ℕ → Exported → Result Exported
unfolding account
export_plain host cap archive_path size x = account cap size archive_path x >>= λ y.
    settled (host.copy archive_path) >>= λ _. done (pushed archive_path y)

-- `entrySegments.join("/")`
abbrev pub join : List String → String
join [] = ""
join (s ∷ []) = s
join (s ∷ t ∷ rest) = s <> "/" <> join (t ∷ rest)

export_file : ExportHost → ℕ → List String → String → ℕ → Exported → Result Exported
unfolding export_sqlite export_plain ends_with
export_file host cap segments name size x =
    let archive_path = ".openclaw/" <> join segments in
    if ends_with ".sqlite" name
    then export_sqlite host cap archive_path size x
    else export_plain host cap archive_path size x

module _ (host : ExportHost) (cap : ℕ) where
  -- `walk`
  unfoldable mutual
    unfolding export_file filter_state_entry

    pub walk_node : List String → String → Node → Exported → Result Exported
    walk_node segments name (file size) x = export_file host cap segments name size x
    walk_node segments name (dir es) x = walk segments es x
    walk_node segments name link x = done x
    walk_node segments name special x = done x

    pub walk : List String → Entries → Exported → Result Exported
    walk segments end x = done x
    walk segments (entry name node es) x =
        if filter_state_entry (join (segments ++ (name ∷ []))) (kind_of node)
        then (walk_node (segments ++ (name ∷ [])) name node x >>= walk segments es)
        else walk segments es x

positive_or_invalid : String → Option ℕ → Result ℕ
positive_or_invalid raw none = threw (max_bytes_invalid raw)
positive_or_invalid raw (some n) = if n == 0 then threw (max_bytes_invalid raw) else done n

abbrev default_max_bytes : ℕ
default_max_bytes = 200 * 1024 * 1024

override_or_default : ExportHost → Option String → Result ℕ
unfolding positive_or_invalid is_blank
override_or_default host none = done default_max_bytes
override_or_default host (some raw) =
    if is_blank raw then done default_max_bytes else positive_or_invalid raw (host.integer raw)

-- `resolveStateExportMaxBytes`
unfoldable pub resolve_state_export_max_bytes : ExportHost → Result ℕ
unfolding override_or_default
resolve_state_export_max_bytes host =
    override_or_default host (host.env "OPENCLAW_STATE_EXPORT_MAX_BYTES")

unfoldable pub cap_of : ExportHost → Option ℕ → Result ℕ
unfolding resolve_state_export_max_bytes
cap_of host none = resolve_state_export_max_bytes host
cap_of host (some max_bytes) = done max_bytes

-- `lstatSync(stateDir)`, which may find nothing, and the walk
walk_state : ExportHost → ℕ → Option Node → Result Exported
unfolding walk sort_node
walk_state host cap (some (dir es)) =
    walk host cap [] (sort_entries es) (record { files = []; bytes = 0 })
walk_state host cap _ = threw not_a_directory

-- `buildStateExportTree`
unfoldable pub build_state_export_tree :
    ExportHost → (state_dir target_root : String) → Option ℕ → Option Node → Result Exported
unfolding cap_of walk_state
build_state_export_tree host state_dir target_root max_bytes state =
    if state_dir == "" || target_root == ""
    then threw no_directories
    else (cap_of host max_bytes >>= λ cap. walk_state host cap state)
