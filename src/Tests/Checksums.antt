-- ===== src/Tests/Checksums.antt =====
-- The checksums of a file, for an index of its size and for one of another.
use raas.Prelude.{
  ℕ, ◌+◌, ◌%◌, ◌≡◌, refl, sym, ap, ◌∙◌, subst, false, none, some, List, [], ◌∷◌, ◌++◌, arith,
}
use raas.Prelude.Slices.{slice}
use raas.Io.{Disk, ok, err}
use raas.Io.Paths.{components, components_eq, component_eq}
use raas.Archive.Zip.Index.{ZipEntry}
use raas.Archive.Zip.Crc.{Hasher, CrcCell, source_changed, refused, entry_crc32}
use raas.Archive.Zip.Crc.Checked.{IsIncremental, EndsAt}
use raas.Archive.Zip.Crc.Headers.{Carries, entry_crc32-Carries, entry_crc32-refused}
use raas.Tests.Files.{disk, first_path, first_file, file_bytes, named}

abbrev sum_of : List ℕ → ℕ → ℕ
sum_of [] s = s
sum_of (b ∷ bs) s = sum_of bs ((s + b) % 0x1_0000_0000)

abbrev sums : Hasher
sums = record { State = ℕ; fresh = 0; update = sum_of; finalize = λ s. s }

sum_of-append : (xs ys : List ℕ) (s : ℕ) → sum_of (xs ++ ys) s ≡ sum_of ys (sum_of xs s)
sum_of-append [] ys s = refl
sum_of-append (x ∷ xs) ys s = sum_of-append xs ys ((s + x) % 0x1_0000_0000)

sums-IsIncremental : IsIncremental sums
sums-IsIncremental = record { update_nil = λ s. refl; update_append = sum_of-append }

abbrev indexed : ℕ → ZipEntry
indexed size = record {
  name = 102 ∷ [];
  name_bytes = 102 ∷ [];
  source_path = some first_path;
  size = size;
  is_dir = false;
  local_offset = 0;
  local_header_len = 31;
  local_zip64 = false;
  central_size_zip64 = false;
  central_offset_zip64 = false;
  central_offset = 34;
  central_len = 47;
}

first_opens : disk.open_file first_path ≡ ok 0
unfolding named components components_eq component_eq
first_opens = refl

ends_at_three : EndsAt disk 0 (file_bytes 0)
ends_at_three want = ap (λ k. ok (slice 3 k (file_bytes 0))) {y = 0} (omega arith)

first-EndsAt : EndsAt disk first_file.inode (file_bytes 0)
first-EndsAt =
    let opened : ok 0 ≡ ok first_file.inode = sym first_opens ∙ first_file.opens in
    let same : 0 ≡ first_file.inode = cc in
    subst (λ i. EndsAt disk i (file_bytes 0)) same ends_at_three

checksum_example :
    Carries sums sums-IsIncremental disk first_path
      (file_bytes 0)
      first_file
      first-EndsAt
      (omega arith)
      (indexed 3)
      refl
      refl
      4
      60
checksum_example =
    entry_crc32-Carries sums sums-IsIncremental disk first_path (file_bytes 0) first_file
      first-EndsAt (omega arith) (indexed 3) refl refl 4 (omega arith) refl (omega arith)

changed_size_example :
    let cell : CrcCell = some (err (source_changed 4 3)) in
    (entry_crc32 sums disk 4 (indexed 4) none ≡ refused cell)
    × ((disk' : Disk) (fuel' : ℕ) → entry_crc32 sums disk' fuel' (indexed 4) cell ≡ refused cell)
changed_size_example =
    entry_crc32-refused sums sums-IsIncremental disk first_path (file_bytes 0) first_file
      first-EndsAt (omega arith) (indexed 4) refl refl 4 (omega arith) (λ h. omega arith)
