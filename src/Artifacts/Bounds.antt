-- ===== src/Artifacts/Bounds.antt =====
-- What an archive that `validateCompilerArtifactArchive` (internal/judge/workspace.go) accepts holds.
use yex_judge.Common.{
  ℕ, ◌+◌, ◌≤◌, ◌<◌, ◌≡◌, to_nat, pos, negsuc, ℤ, true, List, [], ◌∷◌, Text, codes, text_eq, ok, ltb,
  length, All, arith, Bool-cases, Result-cases, inl, inr,
}
use yex_judge.Artifacts.{
  Header, TypeFlag, is_directory, directory, regular, other, TarStream, tar_end, tar_broken, entry,
  Tally, safe_archive_path, add_compiler_artifact_size, check_entry, check_header, check_entries,
  ArchiveFile, validate_archive, max_artifact_files, max_artifact_entries, max_artifact_bytes,
}

abbrev pub headers : TarStream → List Header
headers tar_end = []
headers (tar_broken e) = []
headers (entry h more) = h ∷ headers more

abbrev pub file_bytes : TypeFlag → ℤ → ℕ
file_bytes regular size = to_nat size
file_bytes _ size = 0

abbrev pub file_count : TypeFlag → ℕ
file_count regular = 1
file_count _ = 0

abbrev pub total_bytes_of : List Header → ℕ
total_bytes_of [] = 0
total_bytes_of (h ∷ hs) = file_bytes h.type_flag h.size + total_bytes_of hs

abbrev pub file_count_of : List Header → ℕ
file_count_of [] = 0
file_count_of (h ∷ hs) = file_count h.type_flag + file_count_of hs

add_compiler_artifact_size-bounds :
    (total t : ℕ) (size : ℤ) (name : Text)
    → add_compiler_artifact_size total size name ≡ ok t
    → (t ≡ total + to_nat size) × (t ≤ max_artifact_bytes)
unfolding add_compiler_artifact_size
add_compiler_artifact_size-bounds total t (pos n) name h = (ground arith, ground arith)
add_compiler_artifact_size-bounds total t (negsuc n) name h = absurd (ground arith)

-- An entry's part in the tally.
record Counted (tally tally' : Tally) (flag : TypeFlag) (size : ℤ) : Type 0 where
  files_up : tally'.files ≡ tally.files + file_count flag
  bytes_up : tally'.total_bytes ≡ tally.total_bytes + file_bytes flag size
  files_in : tally.files ≤ max_artifact_files → tally'.files ≤ max_artifact_files
  bytes_in : tally.total_bytes ≤ max_artifact_bytes → tally'.total_bytes ≤ max_artifact_bytes

check_entry-Counted :
    (name : Text) (flag : TypeFlag) (size : ℤ) (tally tally' : Tally)
    → check_entry name flag size tally ≡ ok tally'
    → Counted tally tally' flag size
unfolding check_entry
check_entry-Counted name directory size tally tally' h = record {
  files_up = ground arith;
  bytes_up = ground arith;
  files_in = λ z. ground arith;
  bytes_in = λ z. ground arith;
}
check_entry-Counted name (other n) size tally tally' h = absurd (ground arith)
check_entry-Counted name regular size tally tally' h =
    elim (Result-cases (add_compiler_artifact_size tally.total_bytes size name)) [
      | inr (e, q) ↦ absurd (ground arith)
      | inl (t, q) ↦
          let (sum, bound) = add_compiler_artifact_size-bounds tally.total_bytes t size name q in
          record {
            files_up = ground arith;
            bytes_up = ground arith;
            files_in = λ z. ground arith;
            bytes_in = λ z. ground arith;
          }
    ]

unchanged-Counted :
    (tally tally' : Tally) (flag : TypeFlag) (size : ℤ)
    → is_directory flag ≡ true
    → tally ≡ tally'
    → Counted tally tally' flag size
unchanged-Counted tally tally' directory size d e = record {
  files_up = ground arith;
  bytes_up = ground arith;
  files_in = λ z. ground arith;
  bytes_in = λ z. ground arith;
}
unchanged-Counted tally tally' regular size d e = absurd (ground arith)
unchanged-Counted tally tally' (other n) size d e = absurd (ground arith)

check_header-Counted :
    (h : Header) (tally tally' : Tally)
    → check_header h tally ≡ ok tally'
    → ((clean : Text) × (safe_archive_path h.name ≡ ok clean))
      × Counted tally tally' h.type_flag h.size
unfolding check_header
check_header-Counted h tally tally' e = elim (Result-cases (safe_archive_path h.name)) [
  | inr (x, q) ↦ absurd (ground arith)
  | inl (clean, q) ↦ elim (Bool-cases (text_eq clean (codes "."))) [
    | inr d ↦ ((clean, q), check_entry-Counted clean h.type_flag h.size tally tally' (ground arith))
    | inl d ↦ (
      (clean, q),
      unchanged-Counted tally tally' h.type_flag h.size (ground arith) (ground arith),
    )
  ]
]

pub record IsBounded (hs : List Header) : Type 0 where
  pub few_entries : length hs ≤ max_artifact_entries
  pub some_file : 0 < file_count_of hs
  pub few_files : file_count_of hs ≤ max_artifact_files
  pub few_bytes : total_bytes_of hs ≤ max_artifact_bytes
  pub safe : All (λ h. (clean : Text) × (safe_archive_path h.name ≡ ok clean)) hs

record Checked (n : ℕ) (hs : List Header) (tally tally' : Tally) : Type 0 where
  entries_in : n ≤ max_artifact_entries → n + length hs ≤ max_artifact_entries
  files_sum : tally'.files ≡ tally.files + file_count_of hs
  bytes_sum : tally'.total_bytes ≡ tally.total_bytes + total_bytes_of hs
  files_ok : tally.files ≤ max_artifact_files → tally'.files ≤ max_artifact_files
  bytes_ok : tally.total_bytes ≤ max_artifact_bytes → tally'.total_bytes ≤ max_artifact_bytes
  all_safe : All (λ h. (clean : Text) × (safe_archive_path h.name ≡ ok clean)) hs

check_entries-Checked :
    (n : ℕ) (s : TarStream) (tally tally' : Tally)
    → check_entries n s tally ≡ ok tally'
    → Checked n (headers s) tally tally'
unfolding check_entries
check_entries-Checked n tar_end tally tally' h = record {
  entries_in = λ z. omega arith;
  files_sum = ground arith;
  bytes_sum = ground arith;
  files_ok = λ z. ground arith;
  bytes_ok = λ z. ground arith;
  all_safe = tt;
}
check_entries-Checked n (tar_broken e) tally tally' h = absurd (ground arith)
check_entries-Checked n (entry hd more) tally tally' h =
    elim (Bool-cases (ltb max_artifact_entries (n + 1))) [
      | inl e ↦ absurd (ground arith)
      | inr e ↦ elim (Result-cases (check_header hd tally)) [
        | inr (x, q) ↦ absurd (ground arith)
        | inl (t, q) ↦
            let (safe, c) = check_header-Counted hd tally t q in
            let r = check_entries-Checked (n + 1) more t tally' (ground arith) in
            let room : n + 1 ≤ max_artifact_entries = ground arith in
            record {
              entries_in = λ z. let y = r.entries_in room in omega arith;
              files_sum = omega (arith, c.files_up, r.files_sum);
              bytes_sum = omega (arith, c.bytes_up, r.bytes_sum);
              files_ok = λ z. r.files_ok (c.files_in z);
              bytes_ok = λ z. r.bytes_ok (c.bytes_in z);
              all_safe = (safe, r.all_safe);
            }
      ]
    ]

-- An accepted archive has at most 2048 entries, 1 to 1024 regular files of at most 64 MiB together,
-- and only entries whose path is safe.
pub validate_archive-IsBounded :
    (file : ArchiveFile) → validate_archive file ≡ ok tt → IsBounded (headers file.entries)
unfolding validate_archive
validate_archive-IsBounded file h =
    let none_yet : Tally = record { files = 0; total_bytes = 0 } in
    elim (Result-cases (check_entries 0 file.entries none_yet)) [
      | inr (x, q) ↦ absurd (ground arith)
      | inl (t, q) ↦
          let c = check_entries-Checked 0 file.entries none_yet t q in
          let some_files : 0 < t.files = ground arith in
          record {
            few_entries = let y = c.entries_in (omega arith) in omega arith;
            some_file = omega (arith, c.files_sum);
            few_files = omega (arith, c.files_sum, c.files_ok (omega arith));
            few_bytes = omega (arith, c.bytes_sum, c.bytes_ok (omega arith));
            safe = c.all_safe;
          }
    ]
