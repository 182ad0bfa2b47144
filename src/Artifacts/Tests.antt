-- ===== src/Artifacts/Tests.antt =====
-- A small archive with a program, and some paths.
use yex_judge.Common.{
  ◌≡◌, ◌≢◌, ◌++◌, Text, false, refl, true, none, codes, pos, ok, err, All, text_eq, has_prefix,
  join,
}
use yex_judge.Artifacts.{
  ArchiveFile, directory, regular, tar_end, entry, escapes, dot_dot, clean_part, clean_parts,
  reversed, is_rooted, kept_parts, split_slash, path_clean, without_dot_slash, has_zero,
  safe_archive_path, add_compiler_artifact_size, check_entry, check_header, check_entries,
  validate_archive,
}
use yex_judge.Artifacts.Paths.{safe_archive_path-NoDots}
use yex_judge.Artifacts.Bounds.{IsBounded, headers, validate_archive-IsBounded}

abbrev small_archive : ArchiveFile
small_archive = record {
  stat_error = none;
  is_regular = true;
  file_size = pos 2048;
  open_error = none;
  entries =
      entry (record { name = codes "./"; type_flag = directory; size = pos 0 })
        (entry (record { name = codes "./main"; type_flag = regular; size = pos 100 }) tar_end);
}

small_archive_accepted : validate_archive small_archive ≡ ok tt
unfolding validate_archive check_entries check_header check_entry add_compiler_artifact_size
    safe_archive_path has_zero without_dot_slash path_clean kept_parts is_rooted reversed
    clean_parts clean_part split_slash text_eq has_prefix join
small_archive_accepted = refl

validate_archive-IsBounded_example : IsBounded (headers small_archive.entries)
validate_archive-IsBounded_example = validate_archive-IsBounded small_archive small_archive_accepted

inner_path : safe_archive_path (codes "./bin/../main") ≡ ok (codes "main")
unfolding safe_archive_path has_zero without_dot_slash path_clean kept_parts is_rooted reversed
    clean_parts clean_part split_slash text_eq has_prefix join
inner_path = refl

outer_path : safe_archive_path (codes "bin/../../etc") ≡ err (escapes (codes "bin/../../etc"))
unfolding safe_archive_path has_zero without_dot_slash path_clean kept_parts is_rooted reversed
    clean_parts clean_part split_slash text_eq has_prefix join
outer_path = refl

rooted_path : safe_archive_path (codes ".//etc") ≡ ok (codes "/etc")
unfolding safe_archive_path has_zero without_dot_slash path_clean kept_parts is_rooted reversed
    clean_parts clean_part split_slash text_eq has_prefix join
rooted_path = refl

safe_archive_path-NoDots_example :
    ((rest : Text) → codes "./bin/../main" ≡ codes "./" ++ rest → codes "main" ≡ path_clean rest)
    × (has_prefix (codes "./bin/../main") (codes "./") ≡ false
        → codes "main" ≡ path_clean (codes "./bin/../main"))
    × All (λ p. p ≢ dot_dot) (split_slash (codes "main"))
safe_archive_path-NoDots_example =
    safe_archive_path-NoDots (codes "./bin/../main") (codes "main") inner_path
