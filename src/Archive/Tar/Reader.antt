-- ===== src/Archive/Tar/Reader.antt =====
-- src/archive/tar.rs: `RangeStreamWriter`, which reads any range of the archive.
pub mod Locate
mod Pieces
pub mod Round
pub mod Read
pub mod Ended
use raas.Prelude.{
  ℕ, zero, suc, ◌+◌, ◌-◌, min, Bool, true, false, ◌&&◌, ◌||◌, Option, none, some, List, [], ◌∷◌,
  ◌++◌, length, get_elem?, partition_point, replicate, leb, ltb, ◌==◌, if◌then◌else◌,
}
use raas.Prelude.Slices.{slice}
use raas.Prelude.Words.{add64}
use raas.Io.{Disk, Result, ok, err, IoError}
use raas.Io.Paths.{FilePath, join, trim_end_slashes}
use raas.Cache.FileHandle.{FileHandleCache, read_at}
use raas.Cache.FileHandle
use raas.Archive.Error.{ArchiveError, io, unexpected_error}
use raas.Archive.Fill.{Run, running, failed, panicked, out_of_fuel, Progress, fill}
use raas.Archive.Tar.Header.{calculate_padding}
use raas.Archive.Tar.Index.{TarEntry, TarArchive}

-- What the reader carries beside its position.
pub record Place : Type 0 where
  pub cursor : ℕ
  pub file_handle_cache : FileHandleCache

-- The archive that it reads is a parameter of its methods.
pub record RangeStreamWriter : Type 0 where
  pub end : ℕ
  pub current_pos : ℕ
  pub place : Place

unfoldable pub stream_range : ℕ → ℕ → RangeStreamWriter
stream_range start end = record {
  end = end;
  current_pos = start;
  place = record { cursor = 0; file_handle_cache = FileHandle.empty };
}

-- The end of an entry's header and content, without the padding.
unfoldable pub item_end : TarEntry → ℕ
item_end entry = add64 (add64 entry.info.offset (length entry.header)) entry.info.size

abbrev pub starts_by : ℕ → TarEntry → Bool
starts_by pos entry = leb entry.info.offset pos

-- The candidate that the binary search gives, if `pos` is before its end. `partition_point` counts
-- entries, so the index is in range.
unfoldable pub check_candidate : List TarEntry → ℕ → ℕ → ℕ → Option ℕ × ℕ
check_candidate entries cursor pos zero = (none, cursor)
check_candidate entries cursor pos (suc index) = elim (get_elem? entries index) [
  | none ↦ (none, cursor)
  | some entry ↦ if ltb pos (item_end entry) then (some index, index) else (none, cursor)
]

-- The search, when the entry at the cursor does not cover `pos`.
unfoldable pub search_entry : List TarEntry → ℕ → ℕ → Option ℕ × ℕ
search_entry entries cursor pos =
    check_candidate entries cursor pos (partition_point (starts_by pos) entries)

-- `locate`: the entry whose header or content covers `pos`, and the new cursor. The test
-- `cursor < count` is whether there is an entry at the cursor.
unfoldable pub locate : List TarEntry → ℕ → ℕ → Option ℕ × ℕ
locate [] cursor pos = (none, cursor)
locate (e ∷ es) cursor pos = elim (get_elem? (e ∷ es) cursor) [
  | none ↦ search_entry (e ∷ es) cursor pos
  | some entry ↦
      if leb entry.info.offset pos && ltb pos (item_end entry)
      then (some cursor, cursor)
      else search_entry (e ∷ es) cursor pos
]

module _ (disk : Disk) (archive : TarArchive) where
  -- The file that an entry's content is read from.
  unfoldable pub source_file : TarEntry → FilePath
  source_file entry =
      if disk.is_file archive.source_path
      then archive.source_path
      else join archive.source_path (trim_end_slashes entry.info.path)

  module _ (buf_len end : ℕ) where
    -- `Ok(n)` from the file, or its error.
    content_is_read :
        Progress Place
        → ℕ
        → Result IoError (List ℕ) × FileHandleCache
        → Run ArchiveError (Progress Place)
    content_is_read s cursor (ok chunk, cache) = running (record {
      aux = record { cursor = cursor; file_handle_cache = cache };
      out = s.out ++ chunk;
      pos = add64 s.pos (length chunk);
    })
    content_is_read s cursor (err e, cache) =
        failed (io e) (record s { aux = record { cursor = cursor; file_handle_cache = cache } })

    -- Padding or the zero blocks at the end.
    unfoldable pub zeros_to_add : Progress Place → ℕ
    zeros_to_add s =
        let remaining_space = buf_len - length s.out in
        let limit = min (min remaining_space (end - s.pos)) (archive.total_size - s.pos) in
        let padding_needed = calculate_padding s.pos in
        if padding_needed == 0 then limit else min padding_needed limit

    unfoldable pub fill_zeros : Progress Place → ℕ → Run ArchiveError (Progress Place)
    fill_zeros s cursor = running (record {
      aux = record s.aux { cursor = cursor };
      out = s.out ++ replicate (zeros_to_add s) 0;
      pos = add64 s.pos (zeros_to_add s);
    })

    unfoldable pub header_bytes_to_read : Progress Place → TarEntry → ℕ
    header_bytes_to_read s entry =
        let max_bytes_from_header = length entry.header - (s.pos - entry.info.offset) in
        min (min max_bytes_from_header (buf_len - length s.out)) (end - s.pos)

    unfoldable pub copy_header : Progress Place → ℕ → TarEntry → Run ArchiveError (Progress Place)
    copy_header s cursor entry =
        let n = header_bytes_to_read s entry in
        running (record {
          aux = record s.aux { cursor = cursor };
          out = s.out ++ slice (s.pos - entry.info.offset) n entry.header;
          pos = add64 s.pos n;
        })

    abbrev pub content_start : TarEntry → ℕ
    content_start entry = add64 entry.info.offset (length entry.header)

    abbrev pub content_end : TarEntry → ℕ
    content_end entry = add64 (content_start entry) entry.info.size

    unfoldable pub content_bytes_to_read : Progress Place → TarEntry → ℕ
    content_bytes_to_read s entry =
        min (min (buf_len - length s.out) (content_end entry - s.pos)) (end - s.pos)

    unfoldable pub read_content : Progress Place → ℕ → TarEntry → Run ArchiveError (Progress Place)
    unfolding content_is_read
    read_content s cursor entry = content_is_read s cursor (
        read_at disk s.aux.file_handle_cache (source_file entry) (s.pos - content_start entry)
          (content_bytes_to_read s entry))

    -- By the region of the entry that `pos` lies in.
    unfoldable pub read_entry : Progress Place → ℕ → TarEntry → Run ArchiveError (Progress Place)
    read_entry s cursor entry =
        if leb entry.info.offset s.pos && ltb s.pos (content_start entry)
        then copy_header s cursor entry
        else if leb (content_start entry) s.pos && ltb s.pos (content_end entry)
        then read_content s cursor entry
        else failed unexpected_error (record s { aux = record s.aux { cursor = cursor } })

    unfoldable pub read_located : Progress Place → Option ℕ × ℕ → Run ArchiveError (Progress Place)
    read_located s (none, cursor) = fill_zeros s cursor
    read_located s (some index, cursor) = elim (get_elem? archive.entries index) [
      | none ↦ panicked
      | some entry ↦ read_entry s cursor entry
    ]

    -- One round of the loop.
    unfoldable pub read_round : Progress Place → Run ArchiveError (Progress Place)
    unfolding read_located
    read_round s = read_located s (locate archive.entries s.aux.cursor s.pos)

  -- The reader and the bytes written, when the loop has ended. An error leaves the position.
  unfoldable pub end_of_read :
      RangeStreamWriter
      → Run ArchiveError (Progress Place)
      → Run ArchiveError (RangeStreamWriter × List ℕ)
  end_of_read r (running s) = running (record r { current_pos = s.pos; place = s.aux }, s.out)
  end_of_read r (failed e s) = failed e (record r { place = s.aux }, s.out)
  end_of_read r panicked = panicked
  end_of_read r out_of_fuel = out_of_fuel

  -- `read_into_buffer` on a buffer of `buf_len` bytes; the bytes are those written to its front.
  unfoldable pub read_into_buffer :
      ℕ → RangeStreamWriter → ℕ → Run ArchiveError (RangeStreamWriter × List ℕ)
  unfolding end_of_read
  read_into_buffer fuel r buf_len =
      if leb r.end r.current_pos || leb archive.total_size r.current_pos
      then running (r, [])
      else end_of_read r (
          fill fuel buf_len r.end archive.total_size (read_round buf_len r.end)
            (record { aux = r.place; out = []; pos = r.current_pos }))
