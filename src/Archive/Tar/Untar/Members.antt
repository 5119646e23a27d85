-- ===== src/Archive/Tar/Untar/Members.antt =====
-- Headers with their data are read back, with and without GNU's long names.
use raas.Prelude.{ℕ, ◌≡◌, refl, Option, none, some, List, ◌++◌, replicate, length, length-replicate}
use raas.Io.{ok}
use raas.Archive.Tar.Crate.{TarCrate}
use raas.Archive.Zip.Unzip.Fields.{bytes-front}
use raas.Archive.Tar.Untar.{View, found, with_data, member_of, read_member, padding}

-- What the crate documents of its setters: each sets its own field, and `set_path` at most the
-- name, which is the path if it succeeds on one of those that are stored as they are. The bytes of a header
-- with its checksum are read back as its fields, and a block of zeros is no header.
pub record ReadsBack (crate : TarCrate) (parse : List ℕ → Option View) : Type 1 where
  pub view : crate.Header → View
  pub flag_of : crate.EntryType → ℕ
  pub StoredAsIs : List ℕ → Type 0
  pub size_law :
      (n : ℕ) (h : crate.Header) → view (crate.set_size n h) ≡ record (view h) { size = n }
  pub type_law :
      (t : crate.EntryType) (h : crate.Header)
      → view (crate.set_entry_type t h) ≡ record (view h) { flag = flag_of t }
  pub mode_law : (n : ℕ) (h : crate.Header) → view (crate.set_mode n h) ≡ view h
  pub uid_law : (n : ℕ) (h : crate.Header) → view (crate.set_uid n h) ≡ view h
  pub gid_law : (n : ℕ) (h : crate.Header) → view (crate.set_gid n h) ≡ view h
  pub mtime_law : (n : ℕ) (h : crate.Header) → view (crate.set_mtime n h) ≡ view h
  pub cksum_law : (h : crate.Header) → view (crate.set_cksum h) ≡ view h
  pub path_law :
      (path : List ℕ) (h : crate.Header)
      → view (crate.set_path path h).1
        ≡ record (view h) { name = (view (crate.set_path path h).1).name }
  pub stored_law :
      (path : List ℕ) (h : crate.Header)
      → StoredAsIs path
      → (crate.set_path path h).0 ≡ ok tt
      → (view (crate.set_path path h).1).name ≡ path
  pub new_law : (n : ℕ) → flag_of (crate.entry_new n) ≡ n
  pub dir_law : flag_of crate.entry_dir ≡ 53
  pub file_law : flag_of crate.entry_file ≡ 48
  pub parse_law : (h : crate.Header) → parse (crate.as_bytes (crate.set_cksum h)) ≡ some (view h)
  pub zero_law : parse (replicate 512 0) ≡ none

-- A header block, its data and their padding.
pub read_member-block :
    (parse : List ℕ → Option View) (block content rest : List ℕ) (h : View)
    → length block ≡ 512
    → parse block ≡ some h
    → length content ≡ h.size
    → read_member parse (block ++ (content ++ (replicate (padding h.size) 0 ++ rest)))
      ≡ found h content rest
unfolding read_member member_of with_data
read_member-block parse block content rest h l p c =
    rw
      (
        bytes-front 512 block (content ++ (replicate (padding h.size) 0 ++ rest)) l,
        p,
        bytes-front h.size content (replicate (padding h.size) 0 ++ rest) c,
        bytes-front (padding h.size) (replicate (padding h.size) 0) rest
            (length-replicate (padding h.size) 0),
      )
      refl
