-- ===== src/Tests/StateExport.antt =====
-- An export of a small state directory, and one that is over the cap.
use openclaw_control_plane.Common.{ℕ, true, none, some, [], ◌∷◌, ◌≡◌, refl, ◌↔◌, string_eq, nat_eq}
use openclaw_control_plane.Effects.Platform.{ok}
use openclaw_control_plane.StateExport.Filter.{
  regular, filter_state_entry, to_posix_segments, include, agent_allowed, exclude_segments,
  exclude_basename_patterns,
}
use openclaw_control_plane.StateExport.Filter.Laws.{IsExportable, filter_state_entry-IsExportable}
use openclaw_control_plane.StateExport.{
  Node, Entries, file, dir, link, end, entry, done, threw, exceeds_cap, ExportHost, Exported,
  cap_of, build_state_export_tree,
}
use openclaw_control_plane.StateExport.Bounds.{IsArchive, build_state_export_tree-IsArchive}

abbrev host : ExportHost
host = record {
  env = λ name. none;
  integer = λ text. none;
  copy = λ path. ok tt;
  snapshot = λ path. ok 70;
}

abbrev state : Node
state = dir (
    entry "state" (dir (entry "db.sqlite" (file 100) (entry "db.sqlite-wal" (file 9) end))) (
      entry "bin" (dir (entry "tool" (file 5000) end))
        (entry "openclaw.json" (file 20) (entry "devices" link end))))

abbrev exported : Exported
exported = record {
  files =
      ".openclaw/openclaw.json" ∷ ".openclaw/state/db.sqlite" ∷ ".openclaw/state/db.sqlite-wal"
      ∷ ".openclaw/state/db.sqlite-shm" ∷ [];
  bytes = 90;
}

export_runs :
    build_state_export_tree host "/data/.openclaw" "/tmp/x" (some 150) (some state) ≡ done exported
unfolding build_state_export_tree string_eq nat_eq filter_state_entry include exclude_segments
    exclude_basename_patterns
export_runs = refl

over_cap :
    build_state_export_tree host "/data/.openclaw" "/tmp/x" (some 119) (some state)
    ≡ threw (exceeds_cap 119 ".openclaw/state/db.sqlite" 1 120)
unfolding build_state_export_tree string_eq nat_eq filter_state_entry include exclude_segments
    exclude_basename_patterns
over_cap = refl

agent_runs : filter_state_entry "agents/main/agent/auth-profiles.json" regular ≡ true
unfolding filter_state_entry string_eq nat_eq include exclude_segments exclude_basename_patterns
    agent_allowed
agent_runs = refl

build_state_export_tree-IsArchive_example :
    (cap : ℕ) × (root : Entries) × (cap_of host (some 150) ≡ done cap)
    × (some state ≡ some (dir root))
    × IsArchive host cap root exported
build_state_export_tree-IsArchive_example =
    build_state_export_tree-IsArchive host "/data/.openclaw" "/tmp/x" (some 150) (some state)
      exported export_runs

filter_state_entry-IsExportable_example :
    (filter_state_entry "agents/main/agent/models.json" regular ≡ true)
    ↔ IsExportable (to_posix_segments "agents/main/agent/models.json")
filter_state_entry-IsExportable_example =
    filter_state_entry-IsExportable "agents/main/agent/models.json"
