-- ===== src/Server/Handler/Bytes.antt =====
-- src/server/handler.rs with the archives of src/archive: what a download sends.
use raas.Prelude.{
  ℕ, suc, ◌+◌, ◌-◌, ◌≤◌, ◌<◌, ◌≡◌, sym, ◌∙◌, ◌≢◌, Bool, false, Option, List, [], length, subst,
  arith,
}
use raas.Prelude.Words.{u64_mod}
use raas.Io.{Disk, IoError, Result, ok, err}
use raas.Io.Paths.{FilePath}
use raas.Io.Text.{Text}
use raas.Archive.Fill.{Run}
use raas.Archive.Format.{ArchiveFormat, tar, zip}
use raas.Archive.Tar.Index.{TarEntry, TarArchive}
use raas.Archive.Tar.Image.{image, IsServable, length-image}
use raas.Archive.Tar.Reader as TarReader
use raas.Archive.Zip.Index.{ZipEntry, ZipArchive}
use raas.Archive.Zip.Image.{IsZipLayout, IsBacked}
use raas.Archive.Zip.Image as ZipImage
use raas.Archive.Zip.Image.Build.{length-zip_image, total_size-lt}
use raas.Archive.Zip.Reader as ZipReader
use raas.Server.Errors.{ArchiveApiError}
use raas.Server.Resolve.{Links}
use raas.Server.Stream.{Streamed, create_stream_body, stream_buffer_size}
use raas.Server.Stream.Laws.{Delivers}
use raas.Server.Stream.Tars.{tar_read, tar_body-Delivers}
use raas.Server.Stream.Zips.{zip_read, zip_body-Delivers}
use raas.Server.Download.{Response, full, partial_content, range_not_satisfiable}
use raas.Server.Download.Laws.{Agrees}
use raas.Server.Handler.{Query, Served, Built, built, Reply, download}
use raas.Server.Handler.Laws.{Ensures, IsServed, download-IsServed}

abbrev pub Body : Type 0
Body = Run IoError Streamed

-- `accepts` says whether the receiver is there, as in `create_stream_body`.
module _ (disk : Disk) (accepts : ℕ → Bool) (buffer_size : ℕ) where
  -- `TarArchive` as a `dyn Archive`, with fuel for each byte of a range.
  unfoldable pub tar_served : TarArchive → Served Body
  tar_served archive = record {
    format = tar;
    total_size = archive.total_size;
    body = λ start end.
        create_stream_body (tar_read disk archive) accepts (suc (end - start)) buffer_size
          (TarReader.stream_range start end);
  }

  unfoldable pub zip_served : ZipArchive → Served Body
  zip_served archive = record {
    format = zip;
    total_size = archive.total_size;
    body = λ start end.
        create_stream_body (zip_read disk archive) accepts (suc (end - start)) buffer_size
          (ZipReader.stream_range start end);
  }

  -- A body that delivers the bytes from `start` to `end`.
  abbrev pub Sends : List ℕ → ℕ → ℕ → Body → Type 0
  Sends bytes start end b =
      Delivers accepts (stream_buffer_size buffer_size) bytes end start
        (record { items = []; sent_bytes = 0; aborted_by_client = false }) b

  -- An archive that stands for these bytes.
  pub record StandsFor (archive : Served Body) (bytes : List ℕ) : Type 0 where
    pub sized : archive.total_size ≡ length bytes
    pub small : archive.total_size < u64_mod
    pub sends :
        (start end : ℕ) → end ≤ archive.total_size → Sends bytes start end (archive.body start end)

  pub tar_served-StandsFor :
      (archive : TarArchive) (content : TarEntry → List ℕ)
      (servable : IsServable content disk archive)
      → StandsFor (tar_served archive) (image content archive.entries)
  unfolding tar_served
  tar_served-StandsFor archive content servable = record {
    sized = sym (length-image content disk archive servable);
    small = servable.fits;
    sends = λ start end inside.
        tar_body-Delivers disk archive content servable end inside accepts (suc (end - start)) start
          buffer_size (omega arith);
  }

  pub zip_served-StandsFor :
      (archive : ZipArchive) (content : ZipEntry → List ℕ) (layout : IsZipLayout archive)
      (backed : IsBacked content disk archive)
      → StandsFor (zip_served archive) (ZipImage.image content archive)
  unfolding zip_served
  zip_served-StandsFor archive content layout backed = record {
    sized = sym (length-zip_image content archive layout backed.sized);
    small = total_size-lt content archive layout backed.sized;
    sends = λ start end inside.
        zip_body-Delivers disk archive content layout backed end inside accepts (suc (end - start))
          start buffer_size (omega arith);
  }

  -- A response whose length, range and size are those of the bytes that its body delivers.
  abbrev pub IsExact : List ℕ → Response Body → Type 0
  IsExact bytes (full len b) = (len ≡ length bytes) × Sends bytes 0 (length bytes) b
  IsExact bytes (partial_content len start last size b) =
      (start ≤ last)
      × (last < size)
      × (size ≡ length bytes)
      × (start + len ≡ last + 1)
      × Sends bytes start (last + 1) b
  IsExact bytes (range_not_satisfiable size) = size ≡ length bytes

  Agrees-IsExact :
      (archive : Served Body) (bytes : List ℕ) (r : Response Body)
      → StandsFor archive bytes
      → Agrees archive.body archive.total_size r
      → IsExact bytes r
  Agrees-IsExact archive bytes (full len b) s a = (
    a.0 ∙ s.sized,
    subst (λ n. Sends bytes 0 n b) s.sized
        (subst (Sends bytes 0 archive.total_size) (sym a.1)
          (s.sends 0 archive.total_size (omega arith))),
  )
  Agrees-IsExact archive bytes (partial_content len start last size b) s a =
      let (ordered, inside, same, long, streams) = a in
      let ends : start + len ≡ last + 1 = omega (arith, ordered, long) in
      (
        ordered,
        omega (arith, inside, same),
        same ∙ s.sized,
        ends,
        subst (λ n. Sends bytes start n b) ends
            (subst (Sends bytes start (start + len)) (sym streams)
              (s.sends start (start + len) (omega (arith, ends, inside)))),
      )
  Agrees-IsExact archive bytes (range_not_satisfiable size) s a = a ∙ s.sized

  module _ (header_takes : Text → Bool) (links : Links) (data_root : FilePath)
      (lookup : FilePath → ArchiveFormat → Built Body) (params : Query)
      (header : Option (Option Text)) where
    -- The reply is served, and an exact response for the bytes of the archive that was found.
    pub record IsSent (reply : Reply Body) : Type 0 where
      pub served : IsServed header_takes links data_root lookup params header reply
      pub bytes : List ℕ
      pub stands_for : StandsFor served.archive bytes
      pub exact : IsExact bytes reply.response

    all-IsSent :
        ((source : FilePath) (format : ArchiveFormat) (archive : Served Body)
          → lookup source format ≡ built archive
          → (bytes : List ℕ) × StandsFor archive bytes)
        → (r : Result ArchiveApiError (Reply Body))
        → Ensures (IsServed header_takes links data_root lookup params header) r
        → Ensures IsSent r
    all-IsSent stands (err e) h = tt
    all-IsSent stands (ok reply) h =
        let (bytes, s) = stands h.source h.format h.archive h.found in
        record {
          served = h;
          bytes = bytes;
          stands_for = s;
          exact = Agrees-IsExact h.archive bytes reply.response s h.agrees;
        }

    -- If the data root is a path and every archive that is found stands for some bytes, as
    -- servable tar archives and laid out zip archives with their files do, every reply of a
    -- download is that of an archive found inside the root and exact for its bytes: 200 has a
    -- body that delivers all of them, 206 one that delivers exactly the range that the headers
    -- name, inside the size that they name, each complete unless the client goes away, and 416
    -- names their number.
    pub download-IsSent :
        data_root ≢ []
        → ((source : FilePath) (format : ArchiveFormat) (archive : Served Body)
            → lookup source format ≡ built archive
            → (bytes : List ℕ) × StandsFor archive bytes)
        → Ensures IsSent (download header_takes links data_root lookup params header)
    download-IsSent n stands =
        let served =
          download-IsServed header_takes links data_root lookup params header n
            (λ source format archive f. (stands source format archive f).1.small) in
        all-IsSent stands _ served
