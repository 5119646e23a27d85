-- ===== src/Archive/Zip/Image.antt =====
-- The zip file that an index stands for, as one list of bytes.
pub mod Segments
pub mod Build
use raas.Prelude.{
  ℕ, ◌+◌, ◌≤◌, ◌<◌, ◌≡◌, Bool, Option, none, some, List, [], ◌∷◌, ◌++◌, length, get_elem?,
  if◌then◌else◌,
}
use raas.Prelude.Words.{u64_mod}
use raas.Io.{Disk, IsConsistent, HoldsFile}
use raas.Io.Paths.{FilePath}
use raas.Archive.Zip.Index.{
  ZipEntry, ZipArchive, Segment, SegmentKind, local_header, data_of, central_entry, zip64_eocd,
  zip64_locator, eocd, assemble, needs_zip64_eocd,
}
use raas.Archive.Zip.Index.Layout.{IsLocalLaidOut, IsCentralLaidOut, local_spans, central_spans}
use raas.Archive.Zip.Records.{
  local_header_of, central_entry_of, write_zip64_eocd, write_zip64_locator, write_eocd,
}

abbrev pub start_of : Segment → ℕ
start_of segment = segment.start

-- An index as `build` makes it: both passes, and the segments of their result.
pub record IsZipLayout (z : ZipArchive) : Type 0 where
  pub local_part : IsLocalLaidOut 0 z.entries
  pub directory : IsCentralLaidOut (local_spans z.entries) z.entries
  pub assembled :
      z
      ≡ assemble z.entries (local_spans z.entries) (local_spans z.entries + central_spans z.entries)
  pub fits : local_spans z.entries + central_spans z.entries + 98 < u64_mod

module _ (content : ZipEntry → List ℕ) where
  -- Local headers and data, in order.
  abbrev pub data_part : List ZipEntry → List ℕ
  data_part [] = []
  data_part (e ∷ es) = (local_header_of e 0 ++ content e) ++ data_part es

  abbrev pub directory_part : List ZipEntry → List ℕ
  directory_part [] = []
  directory_part (e ∷ es) = central_entry_of e 0 ++ directory_part es

  abbrev pub zip64_part : ZipArchive → List ℕ
  zip64_part z =
      if needs_zip64_eocd (length z.entries) z.cd_size z.cd_offset
      then write_zip64_eocd z ++ write_zip64_locator z
      else []

  -- The data, the central directory, the Zip64 records if they are needed, the end record.
  abbrev pub image : ZipArchive → List ℕ
  image z = data_part z.entries ++ (directory_part z.entries ++ (zip64_part z ++ write_eocd z))

  abbrev pub of_entry : (ZipEntry → List ℕ) → Option ZipEntry → List ℕ
  of_entry f none = []
  of_entry f (some e) = f e

  -- What stands in a segment.
  abbrev pub kind_bytes : ZipArchive → SegmentKind → List ℕ
  kind_bytes z (local_header i) = of_entry (λ e. local_header_of e 0) (get_elem? z.entries i)
  kind_bytes z (data_of i) = of_entry content (get_elem? z.entries i)
  kind_bytes z (central_entry i) = of_entry (λ e. central_entry_of e 0) (get_elem? z.entries i)
  kind_bytes z zip64_eocd = write_zip64_eocd z
  kind_bytes z zip64_locator = write_zip64_locator z
  kind_bytes z eocd = write_eocd z

  abbrev pub segment_bytes : ZipArchive → Segment → List ℕ
  segment_bytes z s = kind_bytes z s.kind

  -- The files behind the entries can be read and hold `content`, as long as the index says.
  pub record IsBacked (disk : Disk) (z : ZipArchive) : Type 0 where
    pub consistent : IsConsistent disk
    pub sized :
        (i : ℕ) (e : ZipEntry) → get_elem? z.entries i ≡ some e → length (content e) ≡ e.size
    pub source : ZipEntry → FilePath
    pub has_source :
        (i : ℕ) (e : ZipEntry)
        → get_elem? z.entries i ≡ some e
        → 0 < e.size
        → e.source_path ≡ some (source e)
    pub held :
        (i : ℕ) (e : ZipEntry)
        → get_elem? z.entries i ≡ some e
        → 0 < e.size
        → HoldsFile disk (source e) (content e)
