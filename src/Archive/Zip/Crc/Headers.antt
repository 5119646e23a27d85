-- ===== src/Archive/Zip/Crc/Headers.antt =====
-- src/archive/zip.rs with the feature `zip-crc32`: the checksum in the headers.
use raas.Prelude.{
  ℕ, ◌<◌, ◌≡◌, ◌≢◌, refl, false, Option, none, some, List, [], ◌∷◌, length, ◌||◌, arith,
}
use raas.Prelude.Words.{u64_mod}
use raas.Io.{Disk, HoldsFile, Result, ok, err}
use raas.Io.Paths.{FilePath}
use raas.Archive.Zip.Index.{ZipEntry}
use raas.Archive.Zip.Records.{local_header_of, central_entry_of, version_of}
use raas.Archive.Zip.Unzip.{◌>>=◌, fields, field}
use raas.Archive.Zip.Unzip.Fields.{fields-encoded}
use raas.Archive.Zip.Crc.{
  Hasher, CrcCell, CrcError, source_changed, given, refused, answered, get_or_init, compute_crc32,
  entry_crc32,
}
use raas.Archive.Zip.Crc.Checked.{
  IsIncremental, EndsAt, checksum, compute_crc32-checksum, compute_crc32-changed,
}

-- The checksum that a reader finds in a local header, and in a directory entry.
unfoldable pub local_checksum : List ℕ → Option ℕ
local_checksum bs = do (ns, rest) ← fields (4 ∷ 2 ∷ 2 ∷ 2 ∷ 2 ∷ 2 ∷ 4 ∷ []) bs; some (field 6 ns)

unfoldable pub central_checksum : List ℕ → Option ℕ
central_checksum bs = do
  (ns, rest) ← fields (4 ∷ 2 ∷ 2 ∷ 2 ∷ 2 ∷ 2 ∷ 2 ∷ 4 ∷ []) bs
  some (field 7 ns)

abbrev local_start : ZipEntry → ℕ → List (ℕ × ℕ)
local_start e crc =
    (4, 0x0403_4b50)
    ∷ (2, version_of e.local_zip64)
    ∷ (2, 0x0800)
    ∷ (2, 0)
    ∷ (2, 0)
    ∷ (2, 0x0021)
    ∷ (4, crc)
    ∷ []

abbrev central_start : ZipEntry → ℕ → List (ℕ × ℕ)
central_start e crc =
    (4, 0x0201_4b50)
    ∷ (2, 20)
    ∷ (2, version_of (e.central_size_zip64 || e.central_offset_zip64))
    ∷ (2, 0x0800)
    ∷ (2, 0)
    ∷ (2, 0)
    ∷ (2, 0x0021)
    ∷ (4, crc)
    ∷ []

local_checksum_lem :
    (e : ZipEntry) (crc : ℕ)
    → crc < 0x1_0000_0000
    → local_checksum (local_header_of e crc) ≡ some crc
unfolding local_checksum local_header_of
local_checksum_lem e crc h =
    let version : version_of e.local_zip64 < 46 = ground arith in
    rw (fields-encoded (local_start e crc) _ (omega (arith, version, h))) refl

central_checksum_lem :
    (e : ZipEntry) (crc : ℕ)
    → crc < 0x1_0000_0000
    → central_checksum (central_entry_of e crc) ≡ some crc
unfolding central_checksum central_entry_of
central_checksum_lem e crc h =
    let version : version_of (e.central_size_zip64 || e.central_offset_zip64) < 46 = ground arith in
    rw (fields-encoded (central_start e crc) _ (omega (arith, version, h))) refl

module _ (hashers : Hasher) (law : IsIncremental hashers) (disk : Disk) (path : FilePath)
    (bytes : List ℕ) (held : HoldsFile disk path bytes) (ends : EndsAt disk held.inode bytes)
    (fits : length bytes < u64_mod) (e : ZipEntry) (is_file : e.is_dir ≡ false)
    (source : e.source_path ≡ some path) where
  asked_with :
      (fuel : ℕ) (r : Result CrcError ℕ)
      → compute_crc32 hashers disk fuel path e.size ≡ some r
      → entry_crc32 hashers disk fuel e none ≡ answered (some r)
  unfolding entry_crc32 get_or_init
  asked_with fuel r h = rw (entry_crc32, is_file, source, h) refl

  asked_again :
      (disk' : Disk) (fuel : ℕ) (r : Result CrcError ℕ)
      → entry_crc32 hashers disk' fuel e (some r) ≡ answered (some r)
  unfolding entry_crc32 get_or_init
  asked_again disk' fuel r = rw (entry_crc32, is_file, source) refl

  -- The first request gives the checksum of the file, later ones the same whatever the files are
  -- then, and both headers carry it.
  pub record Carries (fuel : ℕ) (crc : ℕ) : Type 1 where
    pub first : entry_crc32 hashers disk fuel e none ≡ given crc (some (ok crc))
    pub later :
        (disk' : Disk) (fuel' : ℕ)
        → entry_crc32 hashers disk' fuel' e (some (ok crc)) ≡ given crc (some (ok crc))
    pub in_local : local_checksum (local_header_of e crc) ≡ some crc
    pub in_central : central_checksum (central_entry_of e crc) ≡ some crc

  -- With the feature zip-crc32, for a file entry whose file can be opened, holds some bytes below
  -- 2^64 and gives nothing at its end, with a hasher that takes pieces one after the other and
  -- fuel for each byte: if the file is as long as indexed and its checksum fits in 32 bits, the
  -- first request for it gives the checksum of all its bytes, later requests give the same
  -- whatever the files are then, and the local header and the directory entry both carry it.
  pub entry_crc32-Carries :
      (fuel : ℕ)
      → length bytes < fuel
      → length bytes ≡ e.size
      → checksum hashers law bytes < 0x1_0000_0000
      → Carries fuel (checksum hashers law bytes)
  unfolding answered
  entry_crc32-Carries fuel h same bound = record {
    first =
        asked_with fuel (ok _)
          (compute_crc32-checksum hashers law disk path bytes held ends fits fuel e.size h same);
    later = λ disk' fuel'. asked_again disk' fuel' (ok _);
    in_local = local_checksum_lem e _ bound;
    in_central = central_checksum_lem e _ bound;
  }

  -- With the feature zip-crc32, for a file entry whose file can be opened, holds some bytes below
  -- 2^64 and gives nothing at its end, with a hasher that takes pieces one after the other and
  -- fuel for each byte: if the file is not as long as indexed, the first request for its checksum
  -- is refused with both lengths, and so is every later one, whatever the files are then.
  pub entry_crc32-refused :
      (fuel : ℕ)
      → length bytes < fuel
      → length bytes ≢ e.size
      → let cell : CrcCell = some (err (source_changed e.size (length bytes))) in
        (entry_crc32 hashers disk fuel e none ≡ refused cell)
        × ((disk' : Disk) (fuel' : ℕ) → entry_crc32 hashers disk' fuel' e cell ≡ refused cell)
  unfolding answered
  entry_crc32-refused fuel h other = (
    asked_with fuel (err _)
        (compute_crc32-changed hashers law disk path bytes held ends fits fuel e.size h other),
    λ disk' fuel'. asked_again disk' fuel' (err _),
  )
