-- ===== src/Cache/FileHandle.antt =====
-- src/cache/file_handle.rs: one open file, kept between reads.
pub mod Laws
pub mod Ended
use raas.Prelude.{ℕ, Bool, true, not, Option, none, some, List, if◌then◌else◌}
use raas.Io.{IoError, Result, ok, err, Disk}
use raas.Io.Paths.{FilePath, path_eq}

-- `std::fs::File`: an open file and the place that the next read starts from.
pub record File : Type 0 where
  pub inode : ℕ
  pub offset : ℕ

-- `FileHandleCache::current_file`
abbrev pub FileHandleCache : Type 0
FileHandleCache = Option (FilePath × File)

abbrev pub empty : FileHandleCache
empty = none

module _ (disk : Disk) where
  -- Whether the cached handle is of another file, or there is none.
  unfoldable pub need_open : FileHandleCache → FilePath → Bool
  need_open none path = true
  need_open (some (cached_path, _)) path = not (path_eq cached_path path)

  -- `File::open`, at offset 0.
  open_at_start : FilePath → Result IoError File
  open_at_start path = elim (disk.open_file path) [
    | ok inode ↦ ok (record { inode = inode; offset = 0 })
    | err e ↦ err e
  ]

  -- `file.read(buf)` from where the file stands.
  read_here : FilePath → File → ℕ → Result IoError (List ℕ) × FileHandleCache
  read_here path file want = elim (disk.read_file file.inode file.offset want) [
    | ok chunk ↦ (ok chunk, some (path, file))
    | err e ↦ (err e, some (path, file))
  ]

  -- `file.seek(SeekFrom::Start(position))?; file.read(buf)`
  unfoldable pub seek_and_read : FilePath → File → ℕ → ℕ → Result IoError (List ℕ) × FileHandleCache
  unfolding read_here
  seek_and_read path file position want = elim (disk.seek_file file.inode position) [
    | ok offset ↦ read_here path (record file { offset = offset }) want
    | err e ↦ (err e, some (path, file))
  ]

  -- On a hit, the handle that is there; it keeps the path under which it was opened.
  read_cached : FileHandleCache → ℕ → ℕ → Result IoError (List ℕ) × FileHandleCache
  read_cached none position want = (err IoError.other, none)
  read_cached (some (path, file)) position want = seek_and_read path file position want

  -- `FileHandleCache::read_at`. A failed `open` leaves the old handle in place.
  unfoldable pub read_at :
      FileHandleCache → FilePath → ℕ → ℕ → Result IoError (List ℕ) × FileHandleCache
  unfolding need_open open_at_start read_cached
  read_at cache path position want =
      if need_open cache path
      then (elim (open_at_start path) [
        | ok file ↦ seek_and_read path file position want
        | err e ↦ (err e, cache)
      ])
      else read_cached cache position want
