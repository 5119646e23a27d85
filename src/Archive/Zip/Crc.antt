-- ===== src/Archive/Zip/Crc.antt =====
-- src/archive/zip.rs with the feature `zip-crc32`: the checksum of a file, computed when it is first
-- asked for. The hasher of crc32fast is a parameter.
pub mod Checked
pub mod Headers
use raas.Prelude.{
  ℕ, zero, suc, ◌+◌, ◌*◌, Option, none, some, List, [], ◌∷◌, length, ◌==◌, not, if◌then◌else◌,
}
use raas.Prelude.Words.{add64}
use raas.Io.{IoError, Result, ok, err, Disk}
use raas.Io.Paths.{FilePath}
use raas.Archive.Zip.Index.{ZipEntry}

-- `crc32fast::Hasher`
pub record Hasher : Type 1 where
  pub State : Type 0
  pub fresh : State
  pub update : List ℕ → State → State
  pub finalize : State → ℕ

-- The messages of the errors.
pub data CrcError : Type 0 where
  not_opened not_read : IoError → CrcError
  source_changed : ℕ → ℕ → CrcError

-- The local variables of the loop, and the place in the file that is read next.
pub record Hashing (H : Type 0) : Type 0 where
  pub offset : ℕ
  pub hasher : H
  pub total : ℕ

-- A round of the loop.
pub data Round (H : Type 0) : Type 0 where
  more : Hashing H → Round H
  end_of_file : Round H
  broken : CrcError → Round H

abbrev pub crc_buffer : ℕ
crc_buffer = 64 * 1024

-- `entry.crc`
abbrev pub CrcCell : Type 0
CrcCell = Option (Result CrcError ℕ)

-- What a request for a checksum comes to: `no_source` is a panic, and `unfinished` a loop that has
-- run out of fuel.
pub data Asked : Type 0 where
  given : ℕ → CrcCell → Asked
  refused : CrcCell → Asked
  no_source unfinished : Asked

unfoldable pub answered : Option (Result CrcError ℕ) → Asked
answered none = unfinished
answered (some (ok crc)) = given crc (some (ok crc))
answered (some (err e)) = refused (some (err e))

-- `get_or_init`: what is there, or what is computed.
unfoldable pub get_or_init : CrcCell → Option (Result CrcError ℕ) → Option (Result CrcError ℕ)
get_or_init (some value) computed = some value
get_or_init none computed = computed

module _ (hashers : Hasher) where
  unfoldable pub hashed : Hashing hashers.State → Result IoError (List ℕ) → Round hashers.State
  hashed s (err e) = broken (not_read e)
  hashed s (ok []) = end_of_file
  hashed s (ok (b ∷ bs)) = more (record {
    offset = s.offset + length (b ∷ bs);
    hasher = hashers.update (b ∷ bs) s.hasher;
    total = add64 s.total (length (b ∷ bs));
  })

  -- The loop, or nothing if the fuel runs out.
  unfoldable pub crc_loop :
      Disk → ℕ → ℕ → Hashing hashers.State → Option (Result CrcError (Hashing hashers.State))
  crc_loop disk inode zero s = none
  crc_loop disk inode (suc fuel) s = elim (hashed s (disk.read_file inode s.offset crc_buffer)) [
    | more s' ↦ crc_loop disk inode fuel s'
    | end_of_file ↦ some (ok s)
    | broken e ↦ some (err e)
  ]

  -- The test of the size, and the checksum.
  unfoldable pub checked :
      ℕ → Option (Result CrcError (Hashing hashers.State)) → Option (Result CrcError ℕ)
  checked expected_size none = none
  checked expected_size (some (err e)) = some (err e)
  checked expected_size (some (ok s)) =
      if not (s.total == expected_size)
      then some (err (source_changed expected_size s.total))
      else some (ok (hashers.finalize s.hasher))

  unfoldable pub compute_crc32 : Disk → ℕ → FilePath → ℕ → Option (Result CrcError ℕ)
  compute_crc32 disk fuel path expected_size = elim (disk.open_file path) [
    | err e ↦ some (err (not_opened e))
    | ok inode ↦
        checked expected_size
          (crc_loop disk inode fuel (record { offset = 0; hasher = hashers.fresh; total = 0 }))
  ]

  -- `entry_crc` with the feature.
  unfoldable pub entry_crc32 : Disk → ℕ → ZipEntry → CrcCell → Asked
  entry_crc32 disk fuel e cell = if e.is_dir then given 0 cell else elim e.source_path [
    | none ↦ no_source
    | some source ↦ answered (get_or_init cell (compute_crc32 disk fuel source e.size))
  ]
