-- ===== src/Archive/Scanner/Listing.antt =====
-- src/archive/scanner.rs: a tree of directories, and what a scan of it should list.
use raas.Prelude.{
  ℕ, suc, ◌%◌, ◌==◌, if◌then◌else◌, max, ◌≡◌, refl, ap, true, false, List, [], ◌∷◌, ◌++◌,
}
use raas.Io.{Result, IoError, ok, err}
use raas.Io.Paths.{FilePath, join, slash}
use raas.Io.Paths.Stripped.{IsName}
use raas.Archive.Scanner.{
  ScannedEntry, SystemTime, before_epoch, since_epoch, seconds, entry_mode, entry_mtime, Metadata,
  DirEntry, Directories, replace_backslashes, file_entry, dir_entry,
}

-- What a directory holds, in the order of `read_dir`: a file, a directory with what is in it, or
-- something else (a link, a device), and what stands beside it.
pub data Tree : Type 0 where
  nothing : Tree
  file : List ℕ → Metadata → Tree → Tree
  dir : List ℕ → Metadata → Tree → Tree → Tree
  special : List ℕ → Metadata → Tree → Tree

abbrev pub depth : Tree → ℕ
depth nothing = 0
depth (file n m beside) = depth beside
depth (dir n m inside beside) = max (suc (depth inside)) (depth beside)
depth (special n m beside) = depth beside

abbrev pub entries_of : Tree → List (Result IoError DirEntry)
entries_of nothing = []
entries_of (file n m beside) = ok (record { file_name = n; metadata = ok m }) ∷ entries_of beside
entries_of (dir n m inside beside) =
    ok (record { file_name = n; metadata = ok m }) ∷ entries_of beside
entries_of (special n m beside) = ok (record { file_name = n; metadata = ok m }) ∷ entries_of beside

-- The whole seconds since the epoch, and 0 for what has none.
abbrev modified_at : Result IoError SystemTime → ℕ
modified_at (ok (since_epoch n)) = n
modified_at (ok before_epoch) = 0
modified_at (err e) = 0

module _ (fs : Directories) where
  -- The directories hold the tree below a path.
  abbrev pub Shows : FilePath → Tree → Type 0
  Shows path nothing = Unit
  Shows path (file n m beside) = IsName n × (m.is_file ≡ true) × Shows path beside
  Shows path (dir n m inside beside) =
      IsName n
      × (m.is_file ≡ false)
      × (m.is_dir ≡ true)
      × (fs.read_dir (join path n) ≡ ok (entries_of inside))
      × Shows (join path n) inside
      × Shows path beside
  Shows path (special n m beside) =
      IsName n × (m.is_file ≡ false) × (m.is_dir ≡ false) × Shows path beside

  -- The path in the archive, with a slash for every backslash.
  abbrev slashed : List ℕ → List ℕ
  slashed [] = []
  slashed (c ∷ cs) = (if c == 92 then 47 else c) ∷ slashed cs

  abbrev named : List ℕ → List ℕ
  named rel = slashed (fs.to_string_lossy rel)

  -- A file's path has its name at the end, and a directory's a slash behind it.
  abbrev pub listed_file : List ℕ → FilePath → Metadata → ScannedEntry
  listed_file rel path m = record {
    relative_path = named rel;
    source_path = path;
    size = m.len;
    is_dir = false;
    mode = m.permissions % 4096;
    mtime = modified_at m.modified;
  }

  abbrev pub listed_dir : List ℕ → FilePath → Metadata → ScannedEntry
  listed_dir rel path m = record {
    relative_path = named rel ++ (47 ∷ []);
    source_path = path;
    size = 0;
    is_dir = true;
    mode = m.permissions % 4096;
    mtime = modified_at m.modified;
  }

  -- Every file and directory, each directory before what is in it, with its path in the archive.
  abbrev pub listing : FilePath → List ℕ → Tree → List ScannedEntry
  listing path prefix nothing = []
  listing path prefix (file n m beside) =
      listed_file (prefix ++ n) (join path n) m ∷ listing path prefix beside
  listing path prefix (dir n m inside beside) =
      listed_dir (prefix ++ n) (join path n) m
      ∷ (listing (join path n) (prefix ++ (n ++ (slash ∷ []))) inside ++ listing path prefix beside)
  listing path prefix (special n m beside) = listing path prefix beside

  slashed_lem : (t : List ℕ) → replace_backslashes t ≡ slashed t
  unfolding replace_backslashes
  slashed_lem [] = refl
  slashed_lem (c ∷ cs) = ap (λ l. (if c == 92 then 47 else c) ∷ l) (slashed_lem cs)

  modified_lem : (r : Result IoError SystemTime) → seconds r ≡ modified_at r
  unfolding seconds
  modified_lem (err e) = refl
  modified_lem (ok before_epoch) = refl
  modified_lem (ok (since_epoch n)) = refl

  pub file_entry-listed_file :
      (rel : List ℕ) (path : FilePath) (m : Metadata)
      → file_entry (replace_backslashes (fs.to_string_lossy rel)) path m ≡ listed_file rel path m
  unfolding file_entry entry_mode entry_mtime
  file_entry-listed_file rel path m =
      rw (slashed_lem (fs.to_string_lossy rel), modified_lem m.modified) refl

  pub dir_entry-listed_dir :
      (rel : List ℕ) (path : FilePath) (m : Metadata)
      → dir_entry (replace_backslashes (fs.to_string_lossy rel)) path m ≡ listed_dir rel path m
  unfolding dir_entry entry_mode entry_mtime
  dir_entry-listed_dir rel path m =
      rw (slashed_lem (fs.to_string_lossy rel), modified_lem m.modified) refl
