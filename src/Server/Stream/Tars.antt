-- ===== src/Server/Stream/Tars.antt =====
-- Tar archives, streamed: the readers of src/archive/tar.rs keep the contract.
use raas.Prelude.{
  ℕ, suc, ◌+◌, ◌-◌, ◌≤◌, ◌<◌, min, ◌≡◌, refl, ap, ap₂, ◌∙◌, List, [], arith, Bool, false,
}
use raas.Prelude.Slices.{slice}
use raas.Io.{Disk, IoError, other}
use raas.Archive.Fill.{Run, running, failed, panicked, out_of_fuel}
use raas.Archive.Error.{ArchiveError}
use raas.Archive.Tar.Index.{TarEntry, TarArchive}
use raas.Archive.Tar.Image.{image, IsServable, length-image}
use raas.Archive.Tar.Reader.{RangeStreamWriter, read_into_buffer, stream_range}
use raas.Archive.Tar.Reader.Round.{Keeps}
use raas.Archive.Tar.Reader.Read.{ReadsImage, read_len, read_into_buffer-ReadsTar}
use raas.Server.Stream.{create_stream_body, stream_buffer_size}
use raas.Server.Stream.Laws.{IsRangeReader, Delivers, create_stream_body-Delivers}

-- `Read::read` of `RangeStreamWriter`: every error becomes an `io::Error::other`. The loop inside has
-- fuel for each byte of the buffer.
unfoldable pub as_io :
    Run ArchiveError (RangeStreamWriter × List ℕ) → Run IoError (RangeStreamWriter × List ℕ)
as_io (running s) = running s
as_io (failed e s) = failed other s
as_io panicked = panicked
as_io out_of_fuel = out_of_fuel

unfoldable pub tar_read :
    Disk → TarArchive → RangeStreamWriter → ℕ → Run IoError (RangeStreamWriter × List ℕ)
tar_read disk archive r buf_len = as_io (read_into_buffer disk archive (suc buf_len) r buf_len)

module _ (disk : Disk) (archive : TarArchive) (content : TarEntry → List ℕ)
    (servable : IsServable content disk archive) (end : ℕ) (inside : end ≤ archive.total_size) where
  abbrev bytes : List ℕ
  bytes = image content archive.entries

  abbrev Stands : ℕ → RangeStreamWriter → Type 0
  Stands pos r = (r.current_pos ≡ pos) × (r.end ≡ end) × Keeps disk r.place

  read_lem :
      (buf_len : ℕ) (r : RangeStreamWriter)
      → Keeps disk r.place
      → ReadsImage disk archive content servable r buf_len
          (read_into_buffer disk archive (suc buf_len) r buf_len)
  read_lem buf_len r keeps =
      read_into_buffer-ReadsTar disk archive content servable (suc buf_len) r buf_len (omega arith)
        keeps

  abbrev moved : (pos buf_len : ℕ) (r : RangeStreamWriter) → Stands pos r → RangeStreamWriter
  moved pos buf_len r at = record r {
    current_pos = r.current_pos + read_len archive r buf_len;
    place = (read_lem buf_len r at.2).place';
  }

  read_len_here :
      (pos buf_len : ℕ) (r : RangeStreamWriter) (at : Stands pos r)
      → read_len archive r buf_len ≡ min buf_len (end - pos)
  read_len_here pos buf_len r at = omega (arith, at.0, at.1, inside)

  pub tar_read-IsRangeReader : IsRangeReader (tar_read disk archive) bytes end
  unfolding tar_read as_io
  tar_read-IsRangeReader = record {
    StandsAt = Stands;
    ends_inside = omega (arith, inside, length-image content disk archive servable);
    next = moved;
    answer = λ pos buf_len r at.
        let k = read_len_here pos buf_len r at in
        ap as_io (read_lem buf_len r at.2).answer
        ∙ ap₂ (λ n k. running (moved pos buf_len r at, slice n k bytes)) at.0 k;
    moves = λ pos buf_len r at.
        let k = read_len_here pos buf_len r at in
        (omega (arith, at.0, k), at.1, (read_lem buf_len r at.2).keeps');
  }

  -- The body of a response for a range of a servable tar archive, up to an end inside it, ends
  -- without an error if it has fuel for each byte of the range, whatever the client does; the
  -- chunks that it delivers, none empty and none larger than the buffer, are the bytes of the tar
  -- file from the start on, all of them up to the end unless the client went away.
  pub tar_body-Delivers :
      (accepts : ℕ → Bool) (fuel start buffer_size : ℕ)
      → end - start < fuel
      → Delivers accepts
          (stream_buffer_size buffer_size)
          bytes
          end
          start
          (record { items = []; sent_bytes = 0; aborted_by_client = false })
          (create_stream_body
            (tar_read disk archive)
            accepts
            fuel
            buffer_size
            (stream_range start end))
  unfolding stream_range tar_read-IsRangeReader
  tar_body-Delivers accepts fuel start buffer_size f =
      create_stream_body-Delivers (tar_read disk archive) accepts bytes end tar_read-IsRangeReader
        fuel start buffer_size (stream_range start end) f (omega (arith, inside, servable.fits))
        (refl, refl, tt)
