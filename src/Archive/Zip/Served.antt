-- ===== src/Archive/Zip/Served.antt =====
-- From a scan to the bytes: what a client reads of an archive that the program made.
use raas.Prelude.{ℕ, ◌+◌, ◌<◌, List}
use raas.Prelude.Words.{u64_mod}
use raas.Io.{Disk}
use raas.Archive.Scanner.{ScannedEntry}
use raas.Archive.Zip.Index.{ZipEntry, build}
use raas.Archive.Zip.Index.Layout.{local_bound, central_bound}
use raas.Archive.Zip.Image.{IsZipLayout, IsBacked}
use raas.Archive.Zip.Image.Build.{fresh, build-IsZipLayout}
use raas.Archive.Zip.Reader.{read_into_buffer, stream_range}
use raas.Archive.Zip.Reader.Read.{ReadsImage, read_into_buffer-ReadsZip}

module _ (disk : Disk) (scanned : List ScannedEntry) (content : ZipEntry → List ℕ)
    (fits : local_bound (fresh scanned) + central_bound (fresh scanned) + 98 < u64_mod)
    (backed : IsBacked content disk (build scanned)) where
  pub made-IsZipLayout : IsZipLayout (build scanned)
  made-IsZipLayout = (build-IsZipLayout scanned fits).0

  -- For a scan whose zip archive fits in 64 bits, with the files there and as long as scanned,
  -- the first read of any range into any buffer, with fuel for each byte of it, returns, and
  -- fills the buffer as far as the range and the archive go with the bytes of the zip file from
  -- the start of the range on.
  pub build-read_into_buffer :
      (start end fuel buf_len : ℕ)
      → buf_len < fuel
      → ReadsImage disk
          (build scanned)
          content
          made-IsZipLayout
          backed
          (stream_range start end)
          buf_len
          (read_into_buffer disk (build scanned) fuel (stream_range start end) buf_len)
  unfolding stream_range
  build-read_into_buffer start end fuel buf_len h =
      read_into_buffer-ReadsZip disk (build scanned) content made-IsZipLayout backed fuel
        (stream_range start end) buf_len h tt
