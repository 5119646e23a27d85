-- ===== src/Archive/Tar/Crate.antt =====
-- The `tar` crate's headers, as src/archive/tar.rs uses them. A setter returns the header that it
-- changes; `set_path` may fail, and returns the header beside its result then too.
use raas.Prelude.{ℕ, ◌≡◌, List, length}
use raas.Io.{IoError, Result}

pub record TarCrate : Type 1 where
  pub Header : Type 0
  pub EntryType : Type 0
  pub entry_dir : EntryType
  pub entry_file : EntryType
  pub entry_new : ℕ → EntryType
  pub new_gnu : Header
  pub set_size : ℕ → Header → Header
  pub set_entry_type : EntryType → Header → Header
  pub set_mode : ℕ → Header → Header
  pub set_uid : ℕ → Header → Header
  pub set_gid : ℕ → Header → Header
  pub set_mtime : ℕ → Header → Header
  pub set_cksum : Header → Header
  -- `as_gnu_mut().unwrap().name[..name.len()].clone_from_slice(name)`
  pub set_gnu_name : List ℕ → Header → Header
  pub set_path : List ℕ → Header → Result IoError (Unit {0}) × Header
  -- `as_old().name.len()`
  pub name_len : ℕ
  pub as_bytes : Header → List ℕ

-- A header is one block of 512 bytes.
pub record IsTarCrate (crate : TarCrate) : Type 0 where
  pub header_block : (h : crate.Header) → length (crate.as_bytes h) ≡ 512
