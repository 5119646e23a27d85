-- ===== src/Archive/Zip/Index.antt =====
-- src/archive/zip.rs: the entries and segments of an archive, laid out from a scan.
pub mod Layout
use raas.Prelude.{
  ℕ, zero, suc, ◌+◌, ◌≤◌, ◌<◌, Bool, true, false, not, ◌&&◌, ◌||◌, Option, none, some, List, [],
  ◌∷◌, ◌++◌, length, map, leb, ltb, if◌then◌else◌,
}
use raas.Prelude.Words.{add64, sub64}
use raas.Io.{Result, ok, err, ◌>>=◌}
use raas.Io.Paths.{FilePath}
use raas.Archive.Error.{ArchiveError}
use raas.Archive.Scanner.{ScannedEntry}

abbrev pub local_header_fixed : ℕ
local_header_fixed = 30

abbrev pub central_entry_fixed : ℕ
central_entry_fixed = 46

abbrev pub eocd_fixed : ℕ
eocd_fixed = 22

abbrev pub zip64_eocd_len : ℕ
zip64_eocd_len = 56

abbrev pub zip64_locator_len : ℕ
zip64_locator_len = 20

abbrev pub zip64_extra_header : ℕ
zip64_extra_header = 4

abbrev pub zip64_local_data : ℕ
zip64_local_data = 16

abbrev pub u32_max : ℕ
u32_max = 0xffff_ffff

abbrev pub u16_max : ℕ
u16_max = 0xffff

pub record ZipEntry : Type 0 where
  pub name : List ℕ
  pub name_bytes : List ℕ
  pub source_path : Option FilePath
  pub size : ℕ
  pub is_dir : Bool
  pub local_offset : ℕ
  pub local_header_len : ℕ
  pub local_zip64 : Bool
  pub central_size_zip64 : Bool
  pub central_offset_zip64 : Bool
  pub central_offset : ℕ
  pub central_len : ℕ

pub data SegmentKind : Type 0 where
  local_header data_of central_entry : ℕ → SegmentKind
  zip64_eocd zip64_locator eocd : SegmentKind

pub record Segment : Type 0 where
  pub start : ℕ
  pub len : ℕ
  pub kind : SegmentKind

pub record ZipArchive : Type 0 where
  pub entries : List ZipEntry
  pub segments : List Segment
  pub total_size : ℕ
  pub cd_offset : ℕ
  pub cd_size : ℕ
  pub zip64_eocd_offset : ℕ

-- An entry before it has a place.
unfoldable pub new_entry : ScannedEntry → ZipEntry
new_entry item = record {
  name = item.relative_path;
  name_bytes = item.relative_path;
  source_path = if item.is_dir then none else some item.source_path;
  size = item.size;
  is_dir = item.is_dir;
  local_offset = 0;
  local_header_len = 0;
  local_zip64 = false;
  central_size_zip64 = false;
  central_offset_zip64 = false;
  central_offset = 0;
  central_len = 0;
}

-- Whether the size of an entry does not fit in 32 bits.
abbrev pub is_large : ZipEntry → Bool
is_large e = not e.is_dir && leb u32_max e.size

-- The first pass, on one entry: its local header and data from `pos` on.
unfoldable pub place_local : ℕ → ZipEntry → ZipEntry
place_local pos e =
    let extra = if is_large e then zip64_extra_header + zip64_local_data else 0 in
    record e {
      local_zip64 = is_large e;
      local_offset = pos;
      local_header_len = add64 (add64 local_header_fixed (length e.name_bytes)) extra;
    }

unfoldable pub layout_local : ℕ → List ZipEntry → List ZipEntry × ℕ
layout_local pos [] = ([], pos)
layout_local pos (e ∷ es) =
    let e' = place_local pos e in
    let (es', end) = layout_local (add64 pos (add64 e'.local_header_len e'.size)) es in
    (e' ∷ es', end)

-- The second pass, on one entry: its place in the central directory.
unfoldable pub place_central : ℕ → ZipEntry → ZipEntry
place_central cpos e =
    let size_zip64 = is_large e in
    let offset_zip64 = leb u32_max e.local_offset in
    let extra_data = (if size_zip64 then 16 else 0) + (if offset_zip64 then 8 else 0) in
    let extra = if ltb 0 extra_data then zip64_extra_header + extra_data else 0 in
    record e {
      central_size_zip64 = size_zip64;
      central_offset_zip64 = offset_zip64;
      central_offset = cpos;
      central_len = add64 (add64 central_entry_fixed (length e.name_bytes)) extra;
    }

unfoldable pub layout_central : ℕ → List ZipEntry → List ZipEntry × ℕ
layout_central cpos [] = ([], cpos)
layout_central cpos (e ∷ es) =
    let e' = place_central cpos e in
    let (es', end) = layout_central (add64 cpos e'.central_len) es in (e' ∷ es', end)

-- The local header of entry `index`, and its data unless that is empty.
unfoldable pub entry_segments : ℕ → ZipEntry → List Segment
entry_segments index e =
    record { start = e.local_offset; len = e.local_header_len; kind = local_header index }
    ∷ (if ltb 0 e.size
        then record {
          start = add64 e.local_offset e.local_header_len;
          len = e.size;
          kind = data_of index;
        }
          ∷ []
        else [])

unfoldable pub local_segments : ℕ → List ZipEntry → List Segment
local_segments index [] = []
local_segments index (e ∷ es) = entry_segments index e ++ local_segments (suc index) es

unfoldable pub central_segments : ℕ → List ZipEntry → List Segment
central_segments index [] = []
central_segments index (e ∷ es) =
    record { start = e.central_offset; len = e.central_len; kind = central_entry index }
    ∷ central_segments (suc index) es

unfoldable pub needs_zip64_eocd : ℕ → ℕ → ℕ → Bool
needs_zip64_eocd count cd_size cd_offset =
    ltb u16_max count || leb u32_max cd_size || leb u32_max cd_offset

-- The Zip64 records, if they are needed, from `offset` on.
unfoldable pub zip64_segments : Bool → ℕ → List Segment
zip64_segments needed offset =
    if needed
    then record { start = offset; len = zip64_eocd_len; kind = zip64_eocd }
      ∷ record {
        start = add64 offset zip64_eocd_len;
        len = zip64_locator_len;
        kind = zip64_locator;
      }
      ∷ []
    else []

-- From the entries with their places: `cpos` is the end of the central directory.
unfoldable pub assemble : List ZipEntry → ℕ → ℕ → ZipArchive
assemble entries cd_offset cpos =
    let cd_size = sub64 cpos cd_offset in
    let needed = needs_zip64_eocd (length entries) cd_size cd_offset in
    let end = if needed then add64 cpos (zip64_eocd_len + zip64_locator_len) else cpos in
    let total = add64 end eocd_fixed in
    record {
      entries = entries;
      segments =
          local_segments 0 entries
          ++ (central_segments 0 entries
              ++ (zip64_segments needed cpos
                  ++ (record { start = sub64 total eocd_fixed; len = eocd_fixed; kind = eocd }
                      ∷ [])));
      total_size = total;
      cd_offset = cd_offset;
      cd_size = cd_size;
      zip64_eocd_offset = cpos;
    }

-- Both passes.
unfoldable pub build : List ScannedEntry → ZipArchive
build scanned =
    let (placed, cd_offset) = layout_local 0 (map new_entry scanned) in
    let (entries, cpos) = layout_central cd_offset placed in assemble entries cd_offset cpos

-- `ZipArchive::create`, given the result of the scan.
unfoldable pub create : Result ArchiveError (List ScannedEntry) → Result ArchiveError ZipArchive
create scan = do scanned ← scan; ok (build scanned)
