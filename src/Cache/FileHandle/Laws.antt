-- ===== src/Cache/FileHandle/Laws.antt =====
-- src/cache/file_handle.rs: what a read through the cached handle returns.
use raas.Prelude.{
  ℕ, ◌+◌, ◌≤◌, ◌<◌, ◌≡◌, refl, sym, subst, true, none, some, List, length, inl, inr, Bool-cases,
  arith,
}
use raas.Prelude.Slices.{slice}
use raas.Io.{Disk, Result, ok, IoError, IsConsistent, HoldsFile, ReadsAt}
use raas.Io.Paths.{FilePath, path_eq}
use raas.Cache.FileHandle.{File, FileHandleCache, read_at, seek_and_read, need_open}

-- The cached handle is the one that opening its path gives.
abbrev pub IsCoherent : Disk → FileHandleCache → Type 0
IsCoherent disk none = Unit
IsCoherent disk (some (path, file)) = disk.open_file path ≡ ok file.inode

-- What a read of `want` bytes at `n` returns: a non-empty piece of `bytes` from `n` on.
pub record Reads (disk : Disk) (bytes : List ℕ) (n want : ℕ)
    (result : Result IoError (List ℕ) × FileHandleCache) : Type 0 where
  pub count : ℕ
  pub some_bytes : 0 < count
  pub at_most : count ≤ want
  pub inside : n + count ≤ length bytes
  pub cache' : FileHandleCache
  pub coherent : IsCoherent disk cache'
  pub answer : result ≡ (ok (slice n count bytes), cache')

module _ (disk : Disk) (path : FilePath) (bytes : List ℕ) (holds : HoldsFile disk path bytes) where
  seek_and_read-Reads :
      (p : FilePath) (file : File) (n want : ℕ)
      → disk.open_file p ≡ ok file.inode
      → file.inode ≡ holds.inode
      → n < length bytes
      → 0 < want
      → Reads disk bytes n want (seek_and_read disk p file n want)
  unfolding seek_and_read
  seek_and_read-Reads p file n want opened same h w =
      let r : ReadsAt disk holds.inode n want bytes = holds.reads n want h w in
      record {
        count = r.count;
        some_bytes = r.some_bytes;
        at_most = r.at_most;
        inside = r.inside;
        cache' = some (p, record file { offset = n });
        coherent = opened;
        answer = ground (arith, holds.seeks n, r.answer);
      }

  hit-inode :
      (consistent : IsConsistent disk) (p : FilePath) (file : File)
      → disk.open_file p ≡ ok file.inode
      → path_eq p path ≡ true
      → file.inode ≡ holds.inode
  hit-inode consistent p file opened same = ground (arith, consistent.same_file p path, holds.opens)

  read_at_fresh :
      (cache : FileHandleCache) (n want : ℕ)
      → need_open disk cache path ≡ true
      → read_at disk cache path n want
        ≡ seek_and_read disk path (record { inode = holds.inode; offset = 0 }) n want
  unfolding read_at
  read_at_fresh cache n want h = ground (arith, holds.opens)

  -- If a file can be opened and holds some bytes, a read of it into a non-empty buffer from a
  -- position before its end, through a coherent handle cache, whatever file that holds, returns a
  -- non-empty piece of the file from that position, no longer than the buffer, and leaves the
  -- cache coherent.
  pub read_at-Reads :
      (consistent : IsConsistent disk) (cache : FileHandleCache) (n want : ℕ)
      → IsCoherent disk cache
      → n < length bytes
      → 0 < want
      → Reads disk bytes n want (read_at disk cache path n want)
  unfolding read_at
  read_at-Reads consistent none n want c h w =
      subst (Reads disk bytes n want) (sym (read_at_fresh none n want refl))
        (seek_and_read-Reads path _ n want holds.opens refl h w)
  read_at-Reads consistent (some (p, file)) n want c h w = elim (Bool-cases (path_eq p path)) [
    | inl hit ↦ rw hit (seek_and_read-Reads p file n want c (hit-inode consistent p file c hit) h w)
    | inr miss ↦
        subst (Reads disk bytes n want)
          (sym (read_at_fresh (some (p, file)) n want (rw (miss, need_open) refl)))
          (seek_and_read-Reads path _ n want holds.opens refl h w)
  ]
