-- ===== src/Archive/Tar/Index.antt =====
-- src/archive/tar.rs: the index of an archive, built from a scan.
pub mod Layout
use raas.Prelude.{
  ℕ, zero, suc, ◌+◌, ◌-◌, ◌*◌, ◌%◌, Bool, Option, none, some, List, [], ◌∷◌, ◌++◌, length,
  get_elem?, ◌==◌, ◌=bytes=◌, if◌then◌else◌,
}
use raas.Prelude.Words.{add64}
use raas.Io.{Result, ok, err, ◌>>=◌}
use raas.Io.Paths.{FilePath}
use raas.Archive.Error.{ArchiveError}
use raas.Archive.Scanner.{ScannedEntry}
use raas.Archive.Tar.Crate.{TarCrate}
use raas.Archive.Tar.Header.{
  FileInfo, block_size, end_of_archive_blocks, calculate_padding, create_header,
}

pub record TarEntry : Type 0 where
  pub info : FileInfo
  pub header : List ℕ

-- `HashMap<String, usize>`: the latest entry of a path stands first.
abbrev PathIndex : Type 0
PathIndex = List (List ℕ × ℕ)

index_of : List ℕ → PathIndex → Option ℕ
index_of path [] = none
index_of path ((p, i) ∷ rest) =
    let later = index_of path rest in if p =bytes= path then some i else later

pub record TarArchive : Type 0 where
  pub source_path : FilePath
  pub entries : List TarEntry
  pub path_index : PathIndex
  pub total_size : ℕ

-- The local variables of `create`.
pub record Building : Type 0 where
  pub entries : List TarEntry
  pub path_index : PathIndex
  pub current_pos : ℕ

unfoldable pub align_to_boundary : ℕ → ℕ → ℕ
align_to_boundary offset boundary =
    let remainder = offset % boundary in
    if remainder == 0 then offset else add64 offset (boundary - remainder)

-- The entry before its place is known.
unfoldable pub file_info : ScannedEntry → FileInfo
file_info item = record {
  path = item.relative_path;
  offset = 0;
  size = if item.is_dir then 0 else item.size;
  is_dir = item.is_dir;
  mode = item.mode;
  mtime = item.mtime;
}

-- Places the entry behind what there is.
unfoldable pub place : Building → FileInfo → List ℕ → Building
place b info header =
    let offset = align_to_boundary b.current_pos block_size in
    let padding_size = calculate_padding info.size in
    record {
      entries =
          b.entries ++ (record { info = record info { offset = offset }; header = header } ∷ []);
      path_index = (info.path, length b.entries) ∷ b.path_index;
      current_pos = add64 (add64 (add64 offset (length header)) info.size) padding_size;
    }

abbrev pub start_building : Building
start_building = record { entries = []; path_index = []; current_pos = 0 }

unfoldable pub finish : FilePath → Building → TarArchive
finish source_path b = record {
  source_path = source_path;
  entries = b.entries;
  path_index = b.path_index;
  total_size = add64 b.current_pos (end_of_archive_blocks * block_size);
}

module _ (crate : TarCrate) where
  unfoldable pub add_entries : Building → List ScannedEntry → Result ArchiveError Building
  add_entries b [] = ok b
  add_entries b (item ∷ rest) = elim (create_header crate (file_info item)) [
    | ok header ↦ add_entries (place b (file_info item) header) rest
    | err e ↦ err e
  ]

  -- `TarArchive::create`, given the result of the scan.
  unfoldable pub create :
      FilePath → Result ArchiveError (List ScannedEntry) → Result ArchiveError TarArchive
  create source_path scan = do
    scanned ← scan
    b ← add_entries start_building scanned
    ok (finish source_path b)

-- `TarArchive::file_info`
entry_info : List TarEntry → Option ℕ → Option FileInfo
entry_info entries none = none
entry_info entries (some i) = elim (get_elem? entries i) [ none ↦ none | some e ↦ some e.info ]

unfoldable pub lookup_info : TarArchive → List ℕ → Option FileInfo
unfolding index_of entry_info
lookup_info archive path = entry_info archive.entries (index_of path archive.path_index)
