-- ===== src/Archive/Tar/Served.antt =====
-- From `create` to the bytes: what a client reads of an archive that the program made.
use raas.Prelude.{ℕ, ◌+◌, ◌<◌, ◌≡◌, List, length, get_elem?, some, arith}
use raas.Prelude.Words.{u64_mod}
use raas.Io.{Disk, ok, IsConsistent, HoldsFile}
use raas.Io.Paths.{FilePath}
use raas.Archive.Scanner.{ScannedEntry}
use raas.Archive.Tar.Crate.{TarCrate, IsTarCrate}
use raas.Archive.Tar.Index.{TarEntry, TarArchive, create}
use raas.Archive.Tar.Index.Layout.{
  scan_size, spans, Indexes, IsLaidOut, create-IsLaidOut, spans-eq-scan_size,
}
use raas.Archive.Tar.Image.{IsServable}
use raas.Archive.Tar.Reader.{read_into_buffer, source_file, stream_range}
use raas.Archive.Tar.Reader.Read.{ReadsImage, read_into_buffer-ReadsTar}

-- The files behind the entries can be read and hold `content`, as long as the index says.
pub record IsPresent (content : TarEntry → List ℕ) (disk : Disk) (archive : TarArchive)
    : Type 0 where
  pub consistent : IsConsistent disk
  pub sized :
      (i : ℕ) (e : TarEntry)
      → get_elem? archive.entries i ≡ some e
      → length (content e) ≡ e.info.size
  pub held :
      (i : ℕ) (e : TarEntry)
      → get_elem? archive.entries i ≡ some e
      → 0 < e.info.size
      → HoldsFile disk (source_file disk archive e) (content e)

module _ (crate : TarCrate) (law : IsTarCrate crate) (disk : Disk) (source : FilePath)
    (scanned : List ScannedEntry) (archive : TarArchive) (content : TarEntry → List ℕ)
    (fits : scan_size crate scanned + 1024 < u64_mod)
    (made : create crate source (ok scanned) ≡ ok archive)
    (present : IsPresent content disk archive) where
  pub made-IsServable : IsServable content disk archive
  made-IsServable =
      let l : IsLaidOut 0 archive.entries
          × Indexes crate scanned archive.entries
          × (archive.total_size ≡ spans archive.entries + 1024)
          × (archive.source_path ≡ source) =
        create-IsLaidOut crate law source scanned archive fits made in
      record {
        laid_out = l.0;
        total = l.2;
        fits = omega (arith, l.2, spans-eq-scan_size crate law scanned archive.entries l.1);
        consistent = present.consistent;
        sized = present.sized;
        held = present.held;
      }

  -- If the tar crate's headers are one block each, `create` made the tar archive of a scan that
  -- fits in 64 bits, and the files are there and as long as indexed, the first read of any range
  -- into any buffer, with fuel for each byte of it, returns, and fills the buffer as far as the
  -- range and the archive go with the bytes of the tar file from the start of the range on.
  pub create-read_into_buffer :
      (start end fuel buf_len : ℕ)
      → buf_len < fuel
      → ReadsImage disk archive content made-IsServable
          (stream_range start end)
          buf_len
          (read_into_buffer disk archive fuel (stream_range start end) buf_len)
  unfolding stream_range
  create-read_into_buffer start end fuel buf_len h =
      read_into_buffer-ReadsTar disk archive content made-IsServable fuel (stream_range start end)
        buf_len h tt
