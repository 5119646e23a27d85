-- ===== src/Archive/Zip/Reader.antt =====
-- src/archive/zip.rs: `ZipRangeReader`, which reads any range of the archive.
pub mod Round
pub mod Read
pub mod Ended
use raas.Prelude.{
  ℕ, zero, suc, ◌+◌, ◌-◌, min, Bool, true, false, ◌||◌, Option, none, some, List, [], ◌∷◌, ◌++◌,
  length, get_elem?, partition_point, leb, ltb, if◌then◌else◌,
}
use raas.Prelude.Slices.{slice}
use raas.Prelude.Words.{add64}
use raas.Io.{Disk, Result, ok, err, IoError, unexpected_eof}
use raas.Cache.FileHandle
use raas.Cache.FileHandle.{FileHandleCache, read_at}
use raas.Archive.Fill.{Run, running, failed, panicked, out_of_fuel, Progress, fill}
use raas.Archive.Zip.Index.{
  ZipEntry, ZipArchive, Segment, SegmentKind, data_of, local_header, central_entry, zip64_eocd,
  zip64_locator, eocd,
}
use raas.Archive.Zip.Records.{write_segment_into}

-- What the reader carries beside its position.
pub record Buffers : Type 0 where
  pub file_handle_cache : FileHandleCache
  pub scratch : List ℕ

-- The archive that it reads is a parameter of its methods.
pub record ZipRangeReader : Type 0 where
  pub end : ℕ
  pub current_pos : ℕ
  pub buffers : Buffers

unfoldable pub stream_range : ℕ → ℕ → ZipRangeReader
stream_range start end = record {
  end = end;
  current_pos = start;
  buffers = record { file_handle_cache = FileHandle.empty; scratch = [] };
}

abbrev pub starts_by : ℕ → Segment → Bool
starts_by pos segment = leb segment.start pos

-- The candidate that the binary search gives, if `pos` is before its end.
unfoldable pub check_candidate : List Segment → ℕ → ℕ → Option ℕ
check_candidate segments pos zero = none
check_candidate segments pos (suc index) = elim (get_elem? segments index) [
  | none ↦ none
  | some segment ↦ if ltb pos (add64 segment.start segment.len) then some index else none
]

unfoldable pub find_segment : List Segment → ℕ → Option ℕ
find_segment segments pos = check_candidate segments pos (partition_point (starts_by pos) segments)

module _ (disk : Disk) (archive : ZipArchive) where
  module _ (buf_len end : ℕ) where
    -- How much of the segment goes into the buffer.
    unfoldable pub want : Progress Buffers → Segment → ℕ
    want s segment =
        min (min (buf_len - length s.out) (segment.len - (s.pos - segment.start))) (end - s.pos)

    -- A file that ends early is an error.
    unfoldable pub data_is_read :
        Progress Buffers
        → Result IoError (List ℕ) × FileHandleCache
        → Run IoError (Progress Buffers)
    data_is_read s (ok [], cache) =
        failed unexpected_eof (record s { aux = record s.aux { file_handle_cache = cache } })
    data_is_read s (ok (b ∷ bs), cache) = running (record {
      aux = record s.aux { file_handle_cache = cache };
      out = s.out ++ (b ∷ bs);
      pos = add64 s.pos (length (b ∷ bs));
    })
    data_is_read s (err e, cache) =
        failed e (record s { aux = record s.aux { file_handle_cache = cache } })

    -- From the source file; an entry without one is a failed `expect`.
    unfoldable pub read_data :
        Progress Buffers → Segment → ZipEntry → Run IoError (Progress Buffers)
    read_data s segment entry = elim entry.source_path [
      | none ↦ panicked
      | some source ↦
          data_is_read s
            (read_at disk s.aux.file_handle_cache source (s.pos - segment.start) (want s segment))
    ]

    -- `copy_from_slice` of `scratch[start..start + want]`.
    unfoldable pub copy_record :
        Progress Buffers → Segment → Run IoError (List ℕ) → Run IoError (Progress Buffers)
    copy_record s segment (running scratch) =
        if ltb (length scratch) (s.pos - segment.start + want s segment)
        then panicked
        else running (record {
          aux = record s.aux { scratch = scratch };
          out = s.out ++ slice (s.pos - segment.start) (want s segment) scratch;
          pos = add64 s.pos (want s segment);
        })
    copy_record s segment (failed e scratch) =
        failed e (record s { aux = record s.aux { scratch = scratch } })
    copy_record s segment panicked = panicked
    copy_record s segment out_of_fuel = out_of_fuel

    unfoldable pub read_kind :
        Progress Buffers → Segment → SegmentKind → Run IoError (Progress Buffers)
    read_kind s segment (data_of index) = elim (get_elem? archive.entries index) [
      | none ↦ panicked
      | some entry ↦ read_data s segment entry
    ]
    read_kind s segment (local_header index) =
        copy_record s segment (write_segment_into archive (local_header index))
    read_kind s segment (central_entry index) =
        copy_record s segment (write_segment_into archive (central_entry index))
    read_kind s segment zip64_eocd = copy_record s segment (write_segment_into archive zip64_eocd)
    read_kind s segment zip64_locator =
        copy_record s segment (write_segment_into archive zip64_locator)
    read_kind s segment eocd = copy_record s segment (write_segment_into archive eocd)

    unfoldable pub read_found : Progress Buffers → Option ℕ → Run IoError (Progress Buffers)
    read_found s none = failed unexpected_eof s
    read_found s (some index) = elim (get_elem? archive.segments index) [
      | none ↦ panicked
      | some segment ↦ read_kind s segment segment.kind
    ]

    -- One round of the loop.
    unfoldable pub read_round : Progress Buffers → Run IoError (Progress Buffers)
    read_round s = read_found s (find_segment archive.segments s.pos)

  -- The reader and the bytes written, when the loop has ended. An error leaves the position.
  unfoldable pub end_of_read :
      ZipRangeReader → Run IoError (Progress Buffers) → Run IoError (ZipRangeReader × List ℕ)
  end_of_read r (running s) = running (record r { current_pos = s.pos; buffers = s.aux }, s.out)
  end_of_read r (failed e s) = failed e (record r { buffers = s.aux }, s.out)
  end_of_read r panicked = panicked
  end_of_read r out_of_fuel = out_of_fuel

  -- `read_into_buffer` on a buffer of `buf_len` bytes; the bytes are those written to its front.
  unfoldable pub read_into_buffer : ℕ → ZipRangeReader → ℕ → Run IoError (ZipRangeReader × List ℕ)
  read_into_buffer fuel r buf_len =
      if leb r.end r.current_pos || leb archive.total_size r.current_pos
      then running (r, [])
      else end_of_read r (
          fill fuel buf_len r.end archive.total_size (read_round buf_len r.end)
            (record { aux = r.buffers; out = []; pos = r.current_pos }))
