-- ===== src/Cache/FileHandle/Ended.antt =====
-- src/cache/file_handle.rs: reads of a file that has become shorter.
use raas.Prelude.{ℕ, ◌≡◌, refl, ap, ◌∙◌, true, none, some, []}
use raas.Io.{Disk, ok}
use raas.Io.Paths.{FilePath, path_eq, components, components_eq_refl}
use raas.Cache.FileHandle.{
  FileHandleCache, need_open, open_at_start, read_here, seek_and_read, read_cached, read_at,
}

-- The file at `path` can be opened and has no byte at `position` or behind it.
pub record EndsBefore (disk : Disk) (path : FilePath) (position : ℕ) : Type 0 where
  pub inode : ℕ
  pub opens : disk.open_file path ≡ ok inode
  pub seeks : disk.seek_file inode position ≡ ok position
  pub reads : (want : ℕ) → disk.read_file inode position want ≡ ok []

module _ (disk : Disk) (path : FilePath) (position : ℕ)
    (ended : EndsBefore disk path position) where
  -- The cache has no file, or this one.
  abbrev pub IsIdle : FileHandleCache → Type 0
  IsIdle none = Unit
  IsIdle (some (p, file)) = (p ≡ path) × (file.inode ≡ ended.inode)

  abbrev pub open_here : FileHandleCache
  open_here = some (path, record { inode = ended.inode; offset = position })

  read_ended :
      (offset want : ℕ)
      → seek_and_read disk path (record { inode = ended.inode; offset = offset }) position want
        ≡ (ok [], open_here)
  unfolding seek_and_read read_here
  read_ended offset want = rw (ended.seeks, seek_and_read) (rw (ended.reads want, read_here) refl)

  same_path : path_eq path path ≡ true
  unfolding path_eq
  same_path = components_eq_refl (components path)

  pub read_at-ended :
      (cache : FileHandleCache) (want : ℕ)
      → IsIdle cache
      → read_at disk cache path position want ≡ (ok [], open_here)
  unfolding read_at need_open open_at_start read_cached
  read_at-ended none want idle = rw ended.opens (read_ended 0 want)
  read_at-ended (some (p, file)) want idle =
      rw (idle.0, same_path)
        (ap
            (λ n.
              seek_and_read disk path (record { inode = n; offset = file.offset }) position want)
            idle.1
          ∙ read_ended file.offset want)
