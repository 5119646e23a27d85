-- ===== src/Server/Handler/Untarred.antt =====
-- From a directory to what a client unpacks: the scan, the index, the bodies of the responses, and
-- a reader of the tar format.
use raas.Prelude.{
  ℕ, suc, ◌+◌, ◌≤◌, ◌<◌, ◌≡◌, Bool, true, Option, some, List, map, length, get_elem?, arith,
}
use raas.Prelude.Words.{u64_mod}
use raas.Io.{Disk, ok}
use raas.Io.Paths.{FilePath}
use raas.Archive.Scanner.{ScannedEntry}
use raas.Archive.Tar.Crate.{TarCrate, IsTarCrate}
use raas.Archive.Tar.Index.{TarArchive, create}
use raas.Archive.Tar.Index.Layout.{scan_size}
use raas.Archive.Tar.Served.{IsPresent, made-IsServable}
use raas.Archive.Tar.Image.{image}
use raas.Archive.Tar.Untar.{View, untar}
use raas.Archive.Tar.Untar.Members.{ReadsBack}
use raas.Archive.Tar.Untar.RoundTrip.{IsPackable, content_of, unpacked, untar-create}
use raas.Server.Handler.Bytes.{tar_served, tar_served-StandsFor}
use raas.Server.Handler.Unzipped.{Resumes, StandsFor-Resumes}

module _ (disk : Disk) (accepts : ℕ → Bool) (buffer_size : ℕ) (crate : TarCrate)
    (law : IsTarCrate crate) (parse : List ℕ → Option View) (back : ReadsBack crate parse) where
  -- If the tar crate's headers are one block each and are read back as its setters say, for a tar
  -- archive that `create` makes of a scan that fits in 64 bits, with the files there and as long
  -- as scanned, and paths that headers store as they are when they fit, to a client that stays:
  -- the body for the first bytes of the archive, however many, and the body for the others both
  -- end without an error, and what they send, put together, is read by an independent reader of
  -- the tar format, GNU's long names included, as exactly the items of the scan in order, with
  -- their whole names and the bytes of their files.
  pub tar_served-untar :
      (held : List ℕ → List ℕ) (source : FilePath) (scanned : List ScannedEntry)
      (archive : TarArchive)
      → scan_size crate scanned + 1024 < u64_mod
      → create crate source (ok scanned) ≡ ok archive
      → IsPresent (content_of held) disk archive
      → ((i : ℕ) (s : ScannedEntry)
          → get_elem? scanned i ≡ some s
          → IsPackable held crate law parse back s)
      → ((k : ℕ) → accepts k ≡ true)
      → (middle : ℕ) → middle ≤ archive.total_size
      → (bytes : List ℕ) × Resumes disk accepts buffer_size
          (tar_served disk accepts buffer_size archive)
          middle
          bytes
        × (untar parse (suc (length scanned)) bytes ≡ some (map (unpacked held) scanned))
  unfolding tar_served
  tar_served-untar held source scanned archive fits made present packable stays middle inside = (
    image (content_of held) archive.entries,
    StandsFor-Resumes disk accepts buffer_size (tar_served disk accepts buffer_size archive) middle
        (image (content_of held) archive.entries) stays inside
        (tar_served-StandsFor disk accepts buffer_size archive (content_of held) (
          made-IsServable crate law disk source scanned archive (content_of held) fits made
            present)),
    untar-create held crate law parse back source scanned archive (suc (length scanned)) fits made
        packable (omega arith),
  )
