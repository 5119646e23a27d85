-- ===== src/Tests/Tars.antt =====
-- A tar archive of a directory `d` with a file `d/f` of three bytes.
use raas.Prelude.{
  ℕ, zero, suc, ◌+◌, ◌<◌, ◌≡◌, refl, sym, true, false, none, some, List, [], ◌∷◌, ◌++◌, length,
  length-take, length-append, length-replicate, take, replicate, get_elem?, arith, ltb,
  if◌then◌else◌, subst,
}
use raas.Prelude.Words.{u64_mod, add64}
use raas.Io.{IoError, Result, ok, err, HoldsFile}
use raas.Io.Paths.{join, trim_end_slashes, is_absolute}
use raas.Archive.Error.{ArchiveError}
use raas.Archive.Scanner.{ScannedEntry}
use raas.Archive.Tar.Crate.{TarCrate, IsTarCrate}
use raas.Archive.Tar.Header.{calculate_padding, create_header, set_path_with_gnu_extension}
use raas.Archive.Tar.Index.{
  TarEntry, TarArchive, create, add_entries, file_info, place, finish, start_building,
  align_to_boundary,
}
use raas.Archive.Tar.Index.Layout.{IsLaidOut, Indexes, spans, scan_size, create-IsLaidOut}
use raas.Archive.Tar.Reader.{RangeStreamWriter, locate, source_file, read_into_buffer, stream_range}
use raas.Archive.Tar.Reader.Read.{ReadsImage, read_into_buffer-ReadsTar}
use raas.Archive.Tar.Reader.Locate.{Covers, locate-Covers}
use raas.Archive.Tar.Image.{IsServable}
use raas.Archive.Tar.Served.{IsPresent, made-IsServable, create-read_into_buffer}
use raas.Tests.Files.{disk, consistent, root, first_path, file_bytes, first_file}

-- Headers as lists of fields, the last one set first.
abbrev block : List ℕ → List ℕ
block h = take 512 (h ++ replicate 512 0)

abbrev pub crate : TarCrate
crate = record {
  Header = List ℕ;
  EntryType = ℕ;
  entry_dir = 53;
  entry_file = 48;
  entry_new = λ n. n;
  new_gnu = [];
  set_size = λ n h. n ∷ h;
  set_entry_type = λ n h. n ∷ h;
  set_mode = λ n h. n ∷ h;
  set_uid = λ n h. n ∷ h;
  set_gid = λ n h. n ∷ h;
  set_mtime = λ n h. n ∷ h;
  set_cksum = λ h. h;
  set_gnu_name = λ name h. name ++ h;
  set_path = λ path h. if ltb 4 (length path) then (err IoError.other, h) else (ok tt, path ++ h);
  name_len = 4;
  as_bytes = block;
}

pub law : IsTarCrate crate
law = record {
  header_block = λ h.
      let a = length-take 512 (h ++ replicate 512 0) in
      let b = length-append h (replicate 512 0) in
      let c = length-replicate {A = ℕ} 512 0 in omega arith;
}

abbrev pub directory : ScannedEntry
directory = record {
  relative_path = 100 ∷ [];
  source_path = 115 ∷ 47 ∷ 100 ∷ [];
  size = 0;
  is_dir = true;
  mode = 493;
  mtime = 7;
}

abbrev pub file : ScannedEntry
file = record {
  relative_path = 100 ∷ 47 ∷ 102 ∷ [];
  source_path = first_path;
  size = 3;
  is_dir = false;
  mode = 420;
  mtime = 7;
}

abbrev pub scan : List ScannedEntry
scan = directory ∷ file ∷ []

abbrev pub made : Result ArchiveError TarArchive → TarArchive
made (ok a) = a
made (err e) = finish root start_building

abbrev pub archive : TarArchive
archive = made (create crate root (ok scan))

is_made : create crate root (ok scan) ≡ ok archive
unfolding create create_header set_path_with_gnu_extension add_entries file_info
is_made = refl

abbrev header_of : Result ArchiveError (List ℕ) → List ℕ
header_of (ok h) = h
header_of (err e) = []

abbrev entry_at : ℕ → ScannedEntry → TarEntry
entry_at offset i = record {
  info = record (file_info i) { offset = offset };
  header = header_of (create_header crate (file_info i));
}

entries_are : archive.entries ≡ entry_at 0 directory ∷ entry_at 512 file ∷ []
unfolding create create_header set_path_with_gnu_extension add_entries file_info place finish
    align_to_boundary add64 calculate_padding
entries_are = refl

abbrev pub content : TarEntry → List ℕ
content e = take e.info.size (file_bytes 0)

is_short :
    (i : ℕ) (e : TarEntry)
    → get_elem? (entry_at 0 directory ∷ entry_at 512 file ∷ []) i ≡ some e
    → length (content e) ≡ e.info.size
unfolding file_info
is_short zero e h =
    let same : entry_at 0 directory ≡ e = cc in
    subst (λ w. length (content w) ≡ w.info.size) same refl
is_short (suc zero) e h =
    let same : entry_at 512 file ≡ e = cc in subst (λ w. length (content w) ≡ w.info.size) same refl
is_short (suc (suc i)) e h = absurd (cc)

is_held :
    (i : ℕ) (e : TarEntry)
    → get_elem? (entry_at 0 directory ∷ entry_at 512 file ∷ []) i ≡ some e
    → 0 < e.info.size
    → HoldsFile disk (source_file disk archive e) (content e)
unfolding file_info source_file join trim_end_slashes is_absolute create create_header
    set_path_with_gnu_extension add_entries finish
is_held zero e h w =
    let same : entry_at 0 directory ≡ e = cc in
    let w' : 0 < 0 = subst (λ w. 0 < w.info.size) (sym same) w in absurd (omega arith)
is_held (suc zero) e h w =
    let same : entry_at 512 file ≡ e = cc in
    subst (λ w. HoldsFile disk (source_file disk archive w) (content w)) same first_file
is_held (suc (suc i)) e h w = absurd (cc)

pub present : IsPresent content disk archive
present = record {
  consistent = consistent;
  sized = λ i e h. is_short i e (rw entries_are at h);
  held = λ i e h. is_held i e (rw entries_are at h);
}

pub small : scan_size crate scan + 1024 < u64_mod
unfolding create_header set_path_with_gnu_extension file_info calculate_padding
small = omega arith

laid_out_example :
    IsLaidOut 0 archive.entries
    × Indexes crate scan archive.entries
    × (archive.total_size ≡ spans archive.entries + 1024)
    × (archive.source_path ≡ root)
laid_out_example = create-IsLaidOut crate law root scan archive small is_made

-- Bytes 1000 to 1100: the end of the header of `d/f`, its content and the start of its padding.
served_example :
    ReadsImage disk archive content
      (made-IsServable crate law disk root scan archive content small is_made present)
      (stream_range 1000 1100)
      64
      (read_into_buffer disk archive 65 (stream_range 1000 1100) 64)
served_example =
    create-read_into_buffer crate law disk root scan archive content small is_made present 1000 1100
      65 64 (omega arith)

-- A later read, with a cursor that points past the entries.
abbrev later : RangeStreamWriter
later = record {
  end = 5000;
  current_pos = 1030;
  place = record { cursor = 9; file_handle_cache = none };
}

pub servable : IsServable content disk archive
servable = made-IsServable crate law disk root scan archive content small is_made present

read_example :
    ReadsImage disk archive content servable later 64 (read_into_buffer disk archive 65 later 64)
read_example = read_into_buffer-ReadsTar disk archive content servable 65 later 64 (omega arith) tt

header_is :
    create_header crate (file_info file) ≡ ok (header_of (create_header crate (file_info file)))
unfolding create_header set_path_with_gnu_extension file_info
header_is = refl

locate_example : Covers archive.entries 1030 (locate archive.entries 0 1030)
locate_example = locate-Covers archive.entries 0 1030

pub total_size_is : archive.total_size ≡ 2560
unfolding create create_header set_path_with_gnu_extension add_entries file_info place finish
    align_to_boundary add64 calculate_padding
total_size_is = refl
