-- ===== src/Archive/Scanner.antt =====
-- src/archive/scanner.rs: the scan of a source. The system's directories are a parameter.
pub mod Listing
pub mod Tree
pub mod Inside
use raas.Prelude.{
  ℕ, zero, suc, ◌%◌, Bool, true, false, ◌==◌, Option, none, some, List, [], ◌∷◌, ◌++◌, map,
  if◌then◌else◌,
}
use raas.Io.{Result, IoError, invalid_data, ok, err}
use raas.Io.Paths.{FilePath, join, last_name, components, slash}
use raas.Io.Paths.Stripped.{strip_prefix}
use raas.Archive.Error.{ArchiveError, io}
use raas.Archive.Fill.{Run, running, failed, out_of_fuel, and_then}

pub record ScannedEntry : Type 0 where
  pub relative_path : List ℕ
  pub source_path : FilePath
  pub size : ℕ
  pub is_dir : Bool
  pub mode : ℕ
  pub mtime : ℕ

-- `SystemTime` as `duration_since(UNIX_EPOCH)` sees it, in whole seconds.
pub data SystemTime : Type 0 where
  before_epoch : SystemTime
  since_epoch : ℕ → SystemTime

-- `fs::Metadata`
pub record Metadata : Type 0 where
  pub is_file : Bool
  pub is_dir : Bool
  pub len : ℕ
  pub permissions : ℕ
  pub modified : Result IoError SystemTime

-- `fs::DirEntry`, whose metadata does not follow links.
pub record DirEntry : Type 0 where
  pub file_name : List ℕ
  pub metadata : Result IoError Metadata

-- `Path::is_file`, `fs::metadata`, `fs::read_dir`, and `to_string_lossy` on the bytes of a path.
pub record Directories : Type 0 where
  pub is_file : FilePath → Bool
  pub metadata : FilePath → Result IoError Metadata
  pub read_dir : FilePath → Result IoError (List (Result IoError DirEntry))
  pub to_string_lossy : List ℕ → List ℕ

-- `mode() & 0o7777`
unfoldable pub entry_mode : Metadata → ℕ
entry_mode metadata = metadata.permissions % 4096

seconds : Result IoError SystemTime → ℕ
seconds (err e) = 0
seconds (ok before_epoch) = 0
seconds (ok (since_epoch n)) = n

unfoldable pub entry_mtime : Metadata → ℕ
unfolding seconds
entry_mtime metadata = seconds metadata.modified

-- `.replace('\\', "/")`
unfoldable pub replace_backslashes : List ℕ → List ℕ
replace_backslashes t = map (λ c. if c == 92 then slash else c) t

unfoldable pub file_entry : List ℕ → FilePath → Metadata → ScannedEntry
file_entry relative_path path metadata = record {
  relative_path = relative_path;
  source_path = path;
  size = metadata.len;
  is_dir = false;
  mode = entry_mode metadata;
  mtime = entry_mtime metadata;
}

unfoldable pub dir_entry : List ℕ → FilePath → Metadata → ScannedEntry
dir_entry rel_str path metadata = record {
  relative_path = rel_str ++ (slash ∷ []);
  source_path = path;
  size = 0;
  is_dir = true;
  mode = entry_mode metadata;
  mtime = entry_mtime metadata;
}

abbrev pub Scan : Type 0
Scan = Run ArchiveError (List ScannedEntry)

module _ (fs : Directories) where
  -- `deeper` is `scan_dir` on a directory below.
  module _ (deeper : FilePath → List ScannedEntry → Scan) (base_path : FilePath) where
    unfoldable pub scan_kind : FilePath → Metadata → List ℕ → List ScannedEntry → Scan
    scan_kind path metadata rel_str entries =
        if metadata.is_file
        then running (entries ++ (file_entry rel_str path metadata ∷ []))
        else if metadata.is_dir
        then deeper path (entries ++ (dir_entry rel_str path metadata ∷ []))
        else running entries

    unfoldable pub scan_stripped : FilePath → Metadata → Option FilePath → List ScannedEntry → Scan
    scan_stripped path metadata none entries = failed (io invalid_data) entries
    scan_stripped path metadata (some rel_path) entries =
        scan_kind path metadata (replace_backslashes (fs.to_string_lossy rel_path)) entries

    unfoldable pub scan_path : FilePath → Result IoError Metadata → List ScannedEntry → Scan
    scan_path path (err e) entries = failed (io e) entries
    scan_path path (ok metadata) entries =
        scan_stripped path metadata (strip_prefix path base_path) entries

    unfoldable pub scan_entry : FilePath → Result IoError DirEntry → List ScannedEntry → Scan
    scan_entry current_path (err e) entries = failed (io e) entries
    scan_entry current_path (ok entry) entries =
        scan_path (join current_path entry.file_name) entry.metadata entries

    unfoldable pub scan_entries :
        FilePath → List (Result IoError DirEntry) → List ScannedEntry → Scan
    scan_entries current_path [] entries = running entries
    scan_entries current_path (entry ∷ rest) entries =
        and_then (scan_entry current_path entry entries) (scan_entries current_path rest)

    unfoldable pub scan_read :
        FilePath → Result IoError (List (Result IoError DirEntry)) → List ScannedEntry → Scan
    scan_read current_path (err e) entries = failed (io e) entries
    scan_read current_path (ok found) entries = scan_entries current_path found entries

  -- On fuel: one unit for each level of directories.
  unfoldable pub scan_dir : ℕ → FilePath → FilePath → List ScannedEntry → Scan
  scan_dir zero base_path current_path entries = out_of_fuel
  scan_dir (suc fuel) base_path current_path entries =
      scan_read (scan_dir fuel base_path) base_path current_path (fs.read_dir current_path) entries

  unfoldable pub scan_named : FilePath → Metadata → Option (List ℕ) → Scan
  scan_named source metadata none = failed (io invalid_data) []
  scan_named source metadata (some name) =
      running (file_entry (fs.to_string_lossy name) source metadata ∷ [])

  unfoldable pub scan_file : FilePath → Result IoError Metadata → Scan
  scan_file source (err e) = failed (io e) []
  scan_file source (ok metadata) = scan_named source metadata (last_name (components source))

  unfoldable pub scan_source : ℕ → FilePath → Scan
  scan_source fuel source =
      if fs.is_file source
      then scan_file source (fs.metadata source)
      else scan_dir fuel source source []
