-- ===== src/Archive/Tar/Reader/Read.antt =====
-- src/archive/tar.rs: reads of the tar file.
use raas.Prelude.{
  ℕ, ◌+◌, ◌-◌, ◌<◌, min, ◌≡◌, refl, ◌||◌, List, [], leb, inl, inr, Bool-cases, arith,
}
use native.Mathlib.Nat.{add-zero}
use raas.Prelude.Slices.{slice}
use raas.Io.{Disk}
use raas.Archive.Error.{ArchiveError}
use raas.Archive.Fill.{Run, running, Progress}
use raas.Archive.Fill.Laws.{Continues, todo, fill-Continues}
use raas.Archive.Tar.Index.{TarEntry, TarArchive}
use raas.Archive.Tar.Image.{image, IsServable, length-image}
use raas.Archive.Tar.Reader.{Place, RangeStreamWriter, read_round, end_of_read, read_into_buffer}
use raas.Archive.Tar.Reader.Round.{Keeps, read_round-Advances}

-- The number of bytes that a read of `buf_len` bytes returns: what is left of the range and of the
-- archive, if it fits.
abbrev pub read_len : TarArchive → RangeStreamWriter → ℕ → ℕ
read_len archive r buf_len = min buf_len (min r.end archive.total_size - r.current_pos)

module _ (disk : Disk) (archive : TarArchive) (content : TarEntry → List ℕ)
    (servable : IsServable content disk archive) where
  -- The outcome of a read: the bytes, and a reader that stands behind them with a good cache.
  pub record ReadsImage (r : RangeStreamWriter) (buf_len : ℕ)
      (result : Run ArchiveError (RangeStreamWriter × List ℕ)) : Type 0 where
    pub place' : Place
    pub keeps' : Keeps disk place'
    pub answer :
        result
        ≡ running (
          record {
            end = r.end;
            current_pos = r.current_pos + read_len archive r buf_len;
            place = place';
          },
          slice r.current_pos (read_len archive r buf_len) (image content archive.entries),
        )

  abbrev start : RangeStreamWriter → Progress Place
  start r = record { aux = r.place; out = []; pos = r.current_pos }

  ended :
      (r : RangeStreamWriter) (buf_len : ℕ) (result : Run ArchiveError (Progress Place))
      → Continues
          (Keeps disk)
          (image content archive.entries)
          (start r)
          result
          (todo buf_len r.end archive.total_size 0 r.current_pos)
      → ReadsImage r buf_len (end_of_read disk archive r result)
  unfolding end_of_read
  ended r buf_len result c =
      let len : todo buf_len r.end archive.total_size 0 r.current_pos ≡ read_len archive r buf_len =
        omega arith in
      record {
        place' = c.aux';
        keeps' = c.keeps;
        answer = rw (c.result, end_of_read) (rw len refl);
      }

  -- Every read of a servable tar archive, wherever the reader stands and with whatever cursor and
  -- coherent cache, returns if it has fuel for each byte of the buffer; it yields the bytes of
  -- the tar file at its position, as many as the buffer, the range and the archive allow, and
  -- moves the position behind them.
  pub read_into_buffer-ReadsTar :
      (fuel : ℕ) (r : RangeStreamWriter) (buf_len : ℕ)
      → buf_len < fuel
      → Keeps disk r.place
      → ReadsImage r buf_len (read_into_buffer disk archive fuel r buf_len)
  unfolding read_into_buffer
  read_into_buffer-ReadsTar fuel r buf_len f keeps =
      elim (Bool-cases (leb r.end r.current_pos || leb archive.total_size r.current_pos)) [
        | inl over ↦ rw over (record {
          place' = r.place;
          keeps' = keeps;
          answer =
              let none_left : read_len archive r buf_len ≡ 0 = ground arith in
              rw (none_left, add-zero) refl;
        })
        | inr more ↦ rw more (
            ended r buf_len _ (
              fill-Continues (Keeps disk) (image content archive.entries) buf_len r.end
                archive.total_size (read_round disk archive buf_len r.end)
                (omega (arith, length-image content disk archive servable))
                (read_round-Advances disk archive content servable buf_len r.end) fuel (start r)
                (omega arith) keeps))
      ]
