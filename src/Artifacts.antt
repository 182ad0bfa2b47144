-- ===== src/Artifacts.antt =====
-- The check of the archive that a compiler leaves: `validateCompilerArtifactArchive`,
-- `addCompilerArtifactSize` and `safeArchivePath` of internal/judge/workspace.go. The tar reader's
-- answers are the argument. A path is the list of its bytes.
pub mod Parts
pub mod Paths
pub mod Bounds
pub mod Tests
use yex_judge.Common.{
  ℕ, zero, suc, ◌+◌, ◌*◌, ◌-◌, ℤ, pos, negsuc, ltb_ℤ, eq_ℤ, Bool, true, false, not, ◌&&◌, ◌||◌,
  Option, none, some, List, [], ◌∷◌, ◌++◌, Text, codes, text_eq, has_prefix, join, drop, Result, ok,
  err, ◌>>=◌, ◌>>◌, reject_if, ltb, leb, ◌==◌, if◌then◌else◌,
}

abbrev pub max_artifact_files : ℕ
max_artifact_files = 1024

abbrev pub max_artifact_entries : ℕ
max_artifact_entries = 2048

-- 64 << 20, for one file and for all of them.
abbrev pub max_artifact_bytes : ℕ
max_artifact_bytes = 64 * 1024 * 1024

-- 80 << 20.
abbrev pub max_archive_size : ℕ
max_archive_size = 80 * 1024 * 1024

pub data ArtifactError : Type 0 where
  stat_failed open_failed read_failed : Text → ArtifactError
  archive_not_regular archive_too_large too_many_entries invalid_path invalid_root : ArtifactError
  too_many_files empty_archive : ArtifactError
  escapes directory_has_data file_too_large total_too_large : Text → ArtifactError
  unsupported_type : Text → ℕ → ArtifactError

-- The parts of a path between its slashes.
unfoldable pub split_slash : Text → List Text
split_slash [] = [] ∷ []
split_slash (c ∷ s) =
    let rest = split_slash s in
    if c == b'/' then [] ∷ rest else elim rest [ [] ↦ (c ∷ []) ∷ [] | p ∷ ps ↦ (c ∷ p) ∷ ps ]

abbrev pub dot_dot : Text
dot_dot = codes ".."

abbrev is_dot_dot_first : List Text → Bool
is_dot_dot_first [] = true
is_dot_dot_first (p ∷ ps) = text_eq p dot_dot

abbrev pop : List Text → List Text
pop [] = []
pop (p ∷ ps) = ps

-- path.Clean on the parts, with those kept so far, the last one first: an empty part and a dot are
-- dropped, two dots take the part before them away, if there is one that can go.
unfoldable pub clean_part : Bool → List Text → Text → List Text
clean_part rooted stack p =
    if text_eq p [] || text_eq p (codes ".")
    then stack
    else if text_eq p dot_dot
    then (if is_dot_dot_first stack then (if rooted then stack else p ∷ stack) else pop stack)
    else p ∷ stack

unfoldable pub clean_parts : Bool → List Text → List Text → List Text
clean_parts rooted stack [] = stack
clean_parts rooted stack (p ∷ ps) = clean_parts rooted (clean_part rooted stack p) ps

unfoldable pub reversed : List Text → List Text → List Text
reversed [] done = done
reversed (p ∷ ps) done = reversed ps (p ∷ done)

unfoldable pub is_rooted : Text → Bool
is_rooted s = has_prefix s (codes "/")

unfoldable pub kept_parts : Text → List Text
kept_parts s = reversed (clean_parts (is_rooted s) [] (split_slash s)) []

-- path.Clean.
unfoldable pub path_clean : Text → Text
path_clean s =
    if is_rooted s
    then b'/' ∷ join (kept_parts s) (codes "/")
    else if text_eq (join (kept_parts s) (codes "/")) []
    then codes "."
    else join (kept_parts s) (codes "/")

-- strings.TrimPrefix of "./".
unfoldable pub without_dot_slash : Text → Text
without_dot_slash name = if has_prefix name (codes "./") then drop 2 name else name

unfoldable pub has_zero : Text → Bool
has_zero [] = false
has_zero (c ∷ s) = c == 0 || has_zero s

unfoldable pub safe_archive_path : Text → Result ArtifactError Text
safe_archive_path name =
    let clean = path_clean (without_dot_slash name) in
    do
      reject_if (text_eq name [] || (has_zero name || has_prefix name (codes "/"))) invalid_path
      reject_if
          (text_eq clean dot_dot
            || (has_prefix clean (codes "../")
                || (text_eq clean (codes ".")
                    && (not (text_eq name (codes ".")) && not (text_eq name (codes "./"))))))
          (escapes name)
      ok clean

-- addCompilerArtifactSize: the file's size is tested before the room that is left.
unfoldable pub add_compiler_artifact_size : ℕ → ℤ → Text → Result ArtifactError ℕ
add_compiler_artifact_size total (negsuc n) name = err (file_too_large name)
add_compiler_artifact_size total (pos n) name = do
  reject_if (ltb max_artifact_bytes n) (file_too_large name)
  reject_if (ltb max_artifact_bytes (total + n)) (total_too_large name)
  ok (total + n)

pub data TypeFlag : Type 0 where
  directory regular : TypeFlag
  other : ℕ → TypeFlag

pub record Header : Type 0 where
  pub name : Text
  pub type_flag : TypeFlag
  pub size : ℤ

-- `reader.Next`: io.EOF, another error, or a header and what follows.
pub data TarStream : Type 0 where
  tar_end : TarStream
  tar_broken : Text → TarStream
  entry : Header → TarStream → TarStream

-- The loop's counters: the regular files and their bytes.
pub record Tally : Type 0 where
  pub files : ℕ
  pub total_bytes : ℕ

abbrev is_directory : TypeFlag → Bool
is_directory directory = true
is_directory _ = false

-- An entry with the clean path `name`.
unfoldable pub check_entry : Text → TypeFlag → ℤ → Tally → Result ArtifactError Tally
check_entry name directory size tally = do
  reject_if (not (eq_ℤ size (pos 0))) (directory_has_data name)
  ok tally
check_entry name regular size tally = do
  reject_if (ltb max_artifact_files (tally.files + 1)) too_many_files
  total ← add_compiler_artifact_size tally.total_bytes size name
  ok (record { files = tally.files + 1; total_bytes = total })
check_entry name (other n) size tally = err (unsupported_type name n)

unfoldable pub check_header : Header → Tally → Result ArtifactError Tally
check_header h tally = do
  name ← safe_archive_path h.name
  if text_eq name (codes ".")
      then (if is_directory h.type_flag && eq_ℤ h.size (pos 0) then ok tally else err invalid_root)
      else check_entry name h.type_flag h.size tally

unfoldable pub check_entries : ℕ → TarStream → Tally → Result ArtifactError Tally
check_entries entries tar_end tally = ok tally
check_entries entries (tar_broken e) tally = err (read_failed e)
check_entries entries (entry h more) tally = do
  reject_if (ltb max_artifact_entries (entries + 1)) too_many_entries
  tally' ← check_header h tally
  check_entries (entries + 1) more tally'

-- The archive file: what os.Stat says, os.Open's error, and the tar reader's answers.
pub record ArchiveFile : Type 0 where
  pub stat_error : Option Text
  pub is_regular : Bool
  pub file_size : ℤ
  pub open_error : Option Text
  pub entries : TarStream

abbrev fails_with : Option Text → (Text → ArtifactError) → Result ArtifactError (Unit {0})
fails_with none f = ok tt
fails_with (some e) f = err (f e)

unfoldable pub validate_archive : ArchiveFile → Result ArtifactError (Unit {0})
validate_archive file = do
  fails_with file.stat_error stat_failed
  reject_if (not file.is_regular) archive_not_regular
  reject_if (ltb_ℤ (pos max_archive_size) file.file_size) archive_too_large
  fails_with file.open_error open_failed
  tally ← check_entries 0 file.entries (record { files = 0; total_bytes = 0 })
  reject_if (tally.files == 0) empty_archive
