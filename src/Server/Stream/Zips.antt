-- ===== src/Server/Stream/Zips.antt =====
-- Zip archives, streamed: the readers of src/archive/zip.rs keep the contract.
use raas.Prelude.{
  ℕ, suc, ◌+◌, ◌-◌, ◌≤◌, ◌<◌, min, ◌≡◌, refl, ap, ap₂, ◌∙◌, List, [], arith, Bool, false,
}
use raas.Prelude.Slices.{slice}
use raas.Io.{Disk, IoError}
use raas.Archive.Fill.{Run, running}
use raas.Archive.Zip.Index.{ZipEntry, ZipArchive}
use raas.Archive.Zip.Image.{image, IsZipLayout, IsBacked}
use raas.Archive.Zip.Image.Build.{length-zip_image, total_size-lt}
use raas.Archive.Zip.Reader.{ZipRangeReader, read_into_buffer, stream_range}
use raas.Archive.Zip.Reader.Round.{Keeps}
use raas.Archive.Zip.Reader.Read.{ReadsImage, read_len, read_into_buffer-ReadsZip}
use raas.Server.Stream.{create_stream_body, stream_buffer_size}
use raas.Server.Stream.Laws.{IsRangeReader, Delivers, create_stream_body-Delivers}

-- `Read::read` of `ZipRangeReader`. The loop inside has fuel for each byte of the buffer.
unfoldable pub zip_read :
    Disk → ZipArchive → ZipRangeReader → ℕ → Run IoError (ZipRangeReader × List ℕ)
zip_read disk archive r buf_len = read_into_buffer disk archive (suc buf_len) r buf_len

module _ (disk : Disk) (archive : ZipArchive) (content : ZipEntry → List ℕ)
    (layout : IsZipLayout archive) (backed : IsBacked content disk archive) (end : ℕ)
    (inside : end ≤ archive.total_size) where
  abbrev bytes : List ℕ
  bytes = image content archive

  abbrev Stands : ℕ → ZipRangeReader → Type 0
  Stands pos r = (r.current_pos ≡ pos) × (r.end ≡ end) × Keeps disk r.buffers

  read_lem :
      (buf_len : ℕ) (r : ZipRangeReader)
      → Keeps disk r.buffers
      → ReadsImage disk archive content layout backed r buf_len
          (read_into_buffer disk archive (suc buf_len) r buf_len)
  read_lem buf_len r keeps =
      read_into_buffer-ReadsZip disk archive content layout backed (suc buf_len) r buf_len
        (omega arith) keeps

  abbrev moved : (pos buf_len : ℕ) (r : ZipRangeReader) → Stands pos r → ZipRangeReader
  moved pos buf_len r at = record r {
    current_pos = r.current_pos + read_len archive r buf_len;
    buffers = (read_lem buf_len r at.2).buffers';
  }

  read_len_here :
      (pos buf_len : ℕ) (r : ZipRangeReader) (at : Stands pos r)
      → read_len archive r buf_len ≡ min buf_len (end - pos)
  read_len_here pos buf_len r at = omega (arith, at.0, at.1, inside)

  pub zip_read-IsRangeReader : IsRangeReader (zip_read disk archive) bytes end
  unfolding zip_read
  zip_read-IsRangeReader = record {
    StandsAt = Stands;
    ends_inside = omega (arith, inside, length-zip_image content archive layout backed.sized);
    next = moved;
    answer = λ pos buf_len r at.
        let k = read_len_here pos buf_len r at in
        ap (λ (x : Run IoError (ZipRangeReader × List ℕ)). x) (read_lem buf_len r at.2).answer
        ∙ ap₂ (λ n k. running (moved pos buf_len r at, slice n k bytes)) at.0 k;
    moves = λ pos buf_len r at.
        let k = read_len_here pos buf_len r at in
        (omega (arith, at.0, k), at.1, (read_lem buf_len r at.2).keeps');
  }

  -- The body of a response for a range of a laid out zip archive with its files, up to an end
  -- inside it, ends without an error if it has fuel for each byte of the range, whatever the
  -- client does; the chunks that it delivers, none empty and none larger than the buffer, are the
  -- bytes of the zip file from the start on, all of them up to the end unless the client went
  -- away.
  pub zip_body-Delivers :
      (accepts : ℕ → Bool) (fuel start buffer_size : ℕ)
      → end - start < fuel
      → Delivers accepts
          (stream_buffer_size buffer_size)
          bytes
          end
          start
          (record { items = []; sent_bytes = 0; aborted_by_client = false })
          (create_stream_body
            (zip_read disk archive)
            accepts
            fuel
            buffer_size
            (stream_range start end))
  unfolding stream_range zip_read-IsRangeReader
  zip_body-Delivers accepts fuel start buffer_size f =
      create_stream_body-Delivers (zip_read disk archive) accepts bytes end zip_read-IsRangeReader
        fuel start buffer_size (stream_range start end) f
        (omega (arith, inside, total_size-lt content archive layout backed.sized)) (refl, refl, tt)
