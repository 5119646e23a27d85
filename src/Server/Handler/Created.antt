-- ===== src/Server/Handler/Created.antt =====
-- src/archive/mod.rs: `create_archive`, from a scan to the archive that a download sends.
use raas.Prelude.{ℕ, ◌+◌, ◌<◌, ◌≡◌, refl, Bool, List, inl, inr}
use raas.Prelude.Words.{u64_mod}
use raas.Io.{Disk, Result, Result-cases, ok, err, ◌>>=◌}
use raas.Io.Paths.{FilePath}
use raas.Archive.Error.{ArchiveError}
use raas.Archive.Format.{ArchiveFormat, tar, zip}
use raas.Archive.Scanner.{ScannedEntry}
use raas.Archive.Tar.Crate.{TarCrate, IsTarCrate}
use raas.Archive.Tar.Index.{TarEntry, TarArchive}
use raas.Archive.Tar.Index as TarIndex
use raas.Archive.Tar.Index.Layout.{scan_size}
use raas.Archive.Tar.Served.{IsPresent, made-IsServable}
use raas.Archive.Tar.Image.{image}
use raas.Archive.Zip.Index.{ZipEntry, build}
use raas.Archive.Zip.Index as ZipIndex
use raas.Archive.Zip.Index.Layout.{local_bound, central_bound}
use raas.Archive.Zip.Image as ZipImage
use raas.Archive.Zip.Image.{IsBacked}
use raas.Archive.Zip.Image.Build.{fresh}
use raas.Archive.Zip.Served.{made-IsZipLayout}
use raas.Server.Handler.{Served}
use raas.Server.Handler.Bytes.{
  Body, StandsFor, tar_served, zip_served, tar_served-StandsFor, zip_served-StandsFor,
}

module _ (crate : TarCrate) (disk : Disk) (accepts : ℕ → Bool) (buffer_size : ℕ) where
  -- `scan` is the result of `scan_source` on the source.
  unfoldable pub create_archive :
      FilePath
      → Result ArchiveError (List ScannedEntry)
      → ArchiveFormat
      → Result ArchiveError (Served Body)
  create_archive source scan tar = do
    archive ← TarIndex.create crate source scan
    ok (tar_served disk accepts buffer_size archive)
  create_archive source scan zip = do
    archive ← ZipIndex.create scan
    ok (zip_served disk accepts buffer_size archive)

  module _ (source : FilePath) (scanned : List ScannedEntry) where
    -- The archive of the scan fits in 64 bits, and the files are there and as long as scanned.
    abbrev pub Fits : ArchiveFormat → Type 0
    Fits tar =
        (scan_size crate scanned + 1024 < u64_mod)
        × ((archive : TarArchive)
            → TarIndex.create crate source (ok scanned) ≡ ok archive
            → (content : TarEntry → List ℕ) × IsPresent content disk archive)
    Fits zip =
        (local_bound (fresh scanned) + central_bound (fresh scanned) + 98 < u64_mod)
        × ((content : ZipEntry → List ℕ) × IsBacked content disk (build scanned))

    -- Each format of an archive is that of the file that it stands for.
    abbrev pub Makes : Result ArchiveError (Served Body) → ArchiveFormat → Type 0
    Makes (err e) format = Unit
    Makes (ok archive) format =
        (archive.format ≡ format)
        × ((bytes : List ℕ) × StandsFor disk accepts buffer_size archive bytes)

    made_tar :
        IsTarCrate crate
        → Fits tar
        → (archive : TarArchive) → TarIndex.create crate source (ok scanned) ≡ ok archive
        → Makes (ok (tar_served disk accepts buffer_size archive)) tar
    made_tar law fits archive h =
        let (content, present) = fits.1 archive h in
        (
          unfold tar_served in refl,
          (
            image content archive.entries,
            tar_served-StandsFor disk accepts buffer_size archive content
                (made-IsServable crate law disk source scanned archive content fits.0 h present),
          ),
        )

    made_zip : Fits zip → Makes (ok (zip_served disk accepts buffer_size (build scanned))) zip
    made_zip fits =
        let (content, backed) = fits.1 in
        (
          unfold zip_served in refl,
          (
            ZipImage.image content (build scanned),
            zip_served-StandsFor disk accepts buffer_size (build scanned) content
                (made-IsZipLayout disk scanned content fits.0 backed) backed,
          ),
        )

    -- If the tar crate's headers are one block each, the archive of a scan fits in 64 bits and
    -- the files are there and as long as scanned, an archive that `create_archive` makes of the
    -- scan has the format that was asked for and stands for the bytes of a file: its size is
    -- theirs, and the body for any range inside it delivers them.
    pub create_archive-Makes :
        IsTarCrate crate
        → (format : ArchiveFormat) → Fits format
        → Makes (create_archive source (ok scanned) format) format
    unfolding create_archive ZipIndex.create
    create_archive-Makes law tar fits =
        elim (Result-cases (TarIndex.create crate source (ok scanned))) [
          | inr (e, h) ↦ rw h tt
          | inl (archive, h) ↦ rw h (made_tar law fits archive h)
        ]
    create_archive-Makes law zip fits = made_zip fits
