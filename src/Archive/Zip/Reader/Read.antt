-- ===== src/Archive/Zip/Reader/Read.antt =====
-- src/archive/zip.rs: reads of the zip file.
use raas.Prelude.{
  ℕ, ◌+◌, ◌-◌, ◌<◌, min, ◌≡◌, refl, ◌||◌, List, [], leb, inl, inr, Bool-cases, arith,
}
use native.Mathlib.Nat.{add-zero}
use raas.Prelude.Slices.{slice}
use raas.Io.{Disk, IoError}
use raas.Archive.Fill.{Run, running, Progress}
use raas.Archive.Fill.Laws.{Continues, todo, fill-Continues}
use raas.Archive.Zip.Index.{ZipEntry, ZipArchive}
use raas.Archive.Zip.Image.{image, IsZipLayout, IsBacked}
use raas.Archive.Zip.Image.Build.{length-zip_image}
use raas.Archive.Zip.Reader.{Buffers, ZipRangeReader, read_round, end_of_read, read_into_buffer}
use raas.Archive.Zip.Reader.Round.{Keeps, read_round-Advances}

-- The number of bytes that a read of `buf_len` bytes returns: what is left of the range and of the
-- archive, if it fits.
abbrev pub read_len : ZipArchive → ZipRangeReader → ℕ → ℕ
read_len archive r buf_len = min buf_len (min r.end archive.total_size - r.current_pos)

module _ (disk : Disk) (archive : ZipArchive) (content : ZipEntry → List ℕ)
    (layout : IsZipLayout archive) (backed : IsBacked content disk archive) where
  -- The outcome of a read: the bytes, and a reader that stands behind them with a good cache.
  pub record ReadsImage (r : ZipRangeReader) (buf_len : ℕ)
      (result : Run IoError (ZipRangeReader × List ℕ)) : Type 0 where
    pub buffers' : Buffers
    pub keeps' : Keeps disk buffers'
    pub answer :
        result
        ≡ running (
          record {
            end = r.end;
            current_pos = r.current_pos + read_len archive r buf_len;
            buffers = buffers';
          },
          slice r.current_pos (read_len archive r buf_len) (image content archive),
        )

  abbrev start : ZipRangeReader → Progress Buffers
  start r = record { aux = r.buffers; out = []; pos = r.current_pos }

  ended :
      (r : ZipRangeReader) (buf_len : ℕ) (result : Run IoError (Progress Buffers))
      → Continues
          (Keeps disk)
          (image content archive)
          (start r)
          result
          (todo buf_len r.end archive.total_size 0 r.current_pos)
      → ReadsImage r buf_len (end_of_read disk archive r result)
  unfolding end_of_read
  ended r buf_len result c =
      let len : todo buf_len r.end archive.total_size 0 r.current_pos ≡ read_len archive r buf_len =
        omega arith in
      record {
        buffers' = c.aux';
        keeps' = c.keeps;
        answer = rw (c.result, end_of_read) (rw len refl);
      }

  -- Every read of a laid out zip archive with its files, wherever the reader stands, returns if
  -- it has fuel for each byte of the buffer; it yields the bytes of the zip file at its position,
  -- as many as the buffer, the range and the archive allow, and moves the position behind them.
  pub read_into_buffer-ReadsZip :
      (fuel : ℕ) (r : ZipRangeReader) (buf_len : ℕ)
      → buf_len < fuel
      → Keeps disk r.buffers
      → ReadsImage r buf_len (read_into_buffer disk archive fuel r buf_len)
  unfolding read_into_buffer
  read_into_buffer-ReadsZip fuel r buf_len f keeps =
      elim (Bool-cases (leb r.end r.current_pos || leb archive.total_size r.current_pos)) [
        | inl over ↦ rw over (record {
          buffers' = r.buffers;
          keeps' = keeps;
          answer =
              let none_left : read_len archive r buf_len ≡ 0 = ground arith in
              rw (none_left, add-zero) refl;
        })
        | inr more ↦ rw more (
            ended r buf_len _ (
              fill-Continues (Keeps disk) (image content archive) buf_len r.end archive.total_size
                (read_round disk archive buf_len r.end)
                (omega (arith, length-zip_image content archive layout backed.sized))
                (read_round-Advances disk archive content layout backed buf_len r.end) fuel
                (start r) (omega arith) keeps))
      ]
