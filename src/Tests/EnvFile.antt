-- ===== src/Tests/EnvFile.antt =====
-- The .env file and the template lock on concrete inputs.
use openclaw_control_plane.Common.{
  String, true, false, not, some, List, [], ◌∷◌, ◌++◌, map, ◌≡◌, refl, ◌↔◌, string_eq, nat_eq,
  filter, All,
}
use openclaw_control_plane.Common.Text.{is_space}
use openclaw_control_plane.Json.{Json, bool, str, obj, end, field, get}
use openclaw_control_plane.EnvFile.{
  split_lines, key_rest, key_of, is_kept, drop_last_blank, entry_line, keys_of, merge_lines,
  join_lines, trim_end, merge_env,
}
use openclaw_control_plane.EnvFile.Merged.{is_plain, IsWritable, merge_env-entries, merge_env_again}
use openclaw_control_plane.Effects.{done}
use openclaw_control_plane.TemplateLock.{
  TemplateLock, is_sha, is_object, text_field, is_flag, parse_template_lock,
}
use openclaw_control_plane.TemplateLock.Validation.{IsLockOf, parse_template_lock-IsLockOf}

abbrev new_entries : List (String × String)
new_entries = ("URL", "new") ∷ ("TOKEN", "t=1") ∷ []

merge_env_runs :
    merge_env "# local\r\nURL=old\n\nKEEP=1\n" new_entries
    ≡ "# local\n\nKEEP=1\nURL=new\nTOKEN=t=1\n"
unfolding merge_env split_lines key_rest key_of is_kept drop_last_blank merge_lines join_lines
    trim_end string_eq nat_eq is_space
merge_env_runs = refl

url_read : key_of "URL=new" ≡ some "URL"
unfolding key_of key_rest nat_eq
url_read = refl

token_read : key_of "TOKEN=t=1" ≡ some "TOKEN"
unfolding key_of key_rest nat_eq
token_read = refl

abbrev old_file : String
old_file = "# local\r\nURL=old\n\nKEEP=1\n"

old_lines : All (λ l. is_plain l ≡ true) (split_lines old_file)
unfolding split_lines nat_eq
old_lines = (refl, (refl, (refl, (refl, (refl, tt)))))

new_lines : All IsWritable new_entries
unfolding trim_end nat_eq is_space
new_lines = ((url_read, refl, refl), ((token_read, refl, refl), tt))

merge_env-entries_example :
    (filter
        (λ l. not (is_kept (keys_of new_entries) l))
        (split_lines (merge_env old_file new_entries))
      ≡ map entry_line new_entries)
    × (filter (is_kept (keys_of new_entries)) (split_lines (merge_env old_file new_entries))
        ≡ drop_last_blank (filter (is_kept (keys_of new_entries)) (split_lines old_file))
          ++ ("" ∷ []))
merge_env-entries_example =
    merge_env-entries old_file ("URL", "new") (("TOKEN", "t=1") ∷ []) old_lines new_lines

merge_env_again_example :
    merge_env (merge_env old_file new_entries) new_entries ≡ merge_env old_file new_entries
merge_env_again_example =
    merge_env_again old_file ("URL", "new") (("TOKEN", "t=1") ∷ []) old_lines new_lines

abbrev commit : String
commit = "0123456789abcdef0123456789abcdef01234567"

abbrev candidate : Json
candidate = obj (
    field "template" (str "wrapper") (
      field "upstreamRepo" (str "o/r") (
        field "upstreamBranch" (str "main") (
          field "upstreamRef" (str "main") (
            field "pinnedCommit" (str commit) (
              field "mirror"
                (obj (
                  field "approvedBranch" (str "approved") (
                    field "status" (str "live")
                      (field "requiredForImmutableProofInstance" (bool true) end))))
                (field "policy"
                  (obj (
                    field "updateCadence" (str "weekly") (
                      field "autoApply" (bool false)
                        (field "requiresSmokeBeforeBump" (bool true) end))))
                  end)))))))

abbrev lock : TemplateLock
lock = record {
  template = "wrapper";
  upstream_repo = "o/r";
  upstream_branch = "main";
  upstream_ref = "main";
  pinned_commit = commit;
}

parse_template_lock-IsLockOf_example :
    parse_template_lock candidate [] ≡ done lock [] ↔ IsLockOf candidate lock
parse_template_lock-IsLockOf_example = parse_template_lock-IsLockOf candidate lock []

candidate-IsLockOf : IsLockOf candidate lock
unfolding is_object text_field get is_flag is_sha string_eq nat_eq
candidate-IsLockOf = record {
  object = refl;
  template = refl;
  repo = refl;
  branch = refl;
  ref = refl;
  commit = refl;
  sha = refl;
  approved = ("approved", refl);
  status = ("live", refl);
  mirrored = refl;
  cadence = ("weekly", refl);
  manual = refl;
  smoked = refl;
}
