-- ===== src/Archive/Zip/Reader/Ended.antt =====
-- `ZipRangeReader` on a file that has become shorter since the index was built.
use raas.Prelude.{ℕ, suc, ◌-◌, ◌<◌, ◌≡◌, refl, ap, ◌∙◌, true, some, [], get_elem?, lt→leb, lt→ltb}
use raas.Io.{Disk, unexpected_eof}
use raas.Io.Paths.{FilePath}
use raas.Cache.FileHandle.Ended.{EndsBefore, open_here, read_at-ended}
use raas.Archive.Fill.{failed, Progress, wants_more, fill}
use raas.Archive.Zip.Index.{ZipEntry, ZipArchive, Segment, data_of}
use raas.Archive.Zip.Reader.{
  Buffers, stream_range, find_segment, data_is_read, read_data, read_kind, read_found, read_round,
  end_of_read, read_into_buffer,
}

module _ (disk : Disk) (z : ZipArchive) (i j : ℕ) (seg : Segment) (entry : ZipEntry)
    (source : FilePath) (at : get_elem? z.segments i ≡ some seg) (kind : seg.kind ≡ data_of j)
    (of_entry : get_elem? z.entries j ≡ some entry) (has_source : entry.source_path ≡ some source)
    (buf_len end start : ℕ) (ended : EndsBefore disk source (start - seg.start)) where
  abbrev begun : Progress Buffers
  begun = record { aux = (stream_range start end).buffers; out = []; pos = start }

  abbrev pub left : Buffers
  left = record { file_handle_cache = open_here disk source _ ended; scratch = [] }

  read_data_ends :
      read_data disk z buf_len end begun seg entry
      ≡ failed unexpected_eof (record begun { aux = left })
  unfolding read_data data_is_read stream_range
  read_data_ends =
      rw (has_source, read_data)
        (ap (data_is_read disk z buf_len end begun) (read_at-ended disk source _ ended _ _ tt))

  read_kind_ends :
      read_kind disk z buf_len end begun seg (data_of j)
      ≡ failed unexpected_eof (record begun { aux = left })
  unfolding read_kind
  read_kind_ends = rw (of_entry, read_kind) read_data_ends

  read_found_ends :
      read_found disk z buf_len end begun (some i)
      ≡ failed unexpected_eof (record begun { aux = left })
  unfolding read_found
  read_found_ends =
      rw (at, read_found) (ap (read_kind disk z buf_len end begun seg) kind ∙ read_kind_ends)

  read_round_ends :
      find_segment z.segments start ≡ some i
      → read_round disk z buf_len end begun ≡ failed unexpected_eof (record begun { aux = left })
  unfolding read_round
  read_round_ends found = ap (read_found disk z buf_len end begun) found ∙ read_found_ends

  begun_more :
      0 < buf_len
      → start < end
      → start < z.total_size
      → wants_more buf_len end z.total_size begun ≡ true
  unfolding wants_more
  begun_more room before_end before_total =
      rw
        (lt→ltb 0 buf_len room, lt→ltb start end before_end, lt→ltb start z.total_size before_total)
        refl

  fill_ends :
      (fuel : ℕ)
      → find_segment z.segments start ≡ some i
      → wants_more buf_len end z.total_size begun ≡ true
      → fill (suc fuel) buf_len end z.total_size (read_round disk z buf_len end) begun
        ≡ failed unexpected_eof (record begun { aux = left })
  unfolding fill
  fill_ends fuel found more = rw (more, fill) (rw (read_round_ends found) refl)

  -- If a data segment is found for the start of a range, and its file has no byte there any more,
  -- the first read of the range into a non-empty buffer returns the error `UnexpectedEof` and
  -- leaves the position.
  pub read_into_buffer-unexpected_eof :
      (fuel : ℕ)
      → find_segment z.segments start ≡ some i
      → 0 < buf_len
      → start < end
      → start < z.total_size
      → read_into_buffer disk z (suc fuel) (stream_range start end) buf_len
        ≡ failed unexpected_eof (record (stream_range start end) { buffers = left }, [])
  unfolding read_into_buffer stream_range end_of_read
  read_into_buffer-unexpected_eof fuel found room before_end before_total =
      rw (lt→leb end start before_end, lt→leb z.total_size start before_total)
        (ap (end_of_read disk z (stream_range start end))
          (fill_ends fuel found (begun_more room before_end before_total)))
