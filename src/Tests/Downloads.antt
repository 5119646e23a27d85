-- ===== src/Tests/Downloads.antt =====
-- A download of a directory below the root, and paths that are refused.
use raas.Prelude.{
  ℕ, ◌≡◌, refl, ap, subst, true, Bool, Option, some, List, [], ◌∷◌, All, arith, if◌then◌else◌,
  ◌=bytes=◌,
}
use raas.Io.{ok}
use raas.Io.Paths.{
  last_name, FilePath, components, component_eq, starts_with, join, is_absolute, ends_with_slash,
  split, prepend, parts, relative_parts,
}
use raas.Io.Text.{Text, codes, to_ascii_lowercase, trim, trim_start, trim_end, is_whitespace}
use raas.Archive.Format.{tar, ArchiveFormat, zip, from_name, from_lowercase, extension}
use raas.Server.Resolve.{Links, check_canonical, resolve_and_validate_path}
use raas.Server.Resolve.Laws.{Means, resolve_and_validate_path-Means}
use raas.Server.Disposition.{percent_encode_utf8, build_content_disposition}
use raas.Server.Disposition.Laws.{
  IsByte, IsPlain, NoBreak, percent_decode, percent_decode-percent_encode_utf8,
  build_content_disposition-NoBreak,
}
use raas.Server.Download.{respond}
use raas.Server.Handler.{
  Query, Served, Built, built, Reply, file_name, requested_format, range_text, name_or_archive,
  download,
}
use raas.Server.Handler.Laws.{Ensures, download-answers}
use raas.Server.Handler.Bytes.{
  Body, StandsFor, IsSent, tar_served, tar_served-StandsFor, download-IsSent,
}
use raas.Archive.Tar.Image.{image}
use raas.Tests.Files.{root, disk}
use raas.Server.Handler.Created.{Fits, Makes, create_archive, create_archive-Makes}
use raas.Archive.Tar.Served.{IsPresent}
use raas.Tests.Tars.{archive, content, servable, crate, law, scan, small, present, made}

-- `s/d` is there, and `s/l` is a link to `/e`.
abbrev links : Links
links = record {
  exists = λ path. true;
  canonicalize = λ path. if path =bytes= codes "s/l" then ok (codes "/e") else ok (codes "s/d");
}

abbrev range : Option (Option Text)
range = some (some (codes "bytes=5-9"))

has_range : range_text range ≡ ok (some (codes "bytes=5-9"))
unfolding range_text
has_range = refl

-- A link leads out of the root.
outside_example : Means links root (codes "l") (resolve_and_validate_path links root (codes "l"))
outside_example = resolve_and_validate_path-Means links root (codes "l") (λ e. cc)

-- `a"` and a line break, and `é`
abbrev name : List ℕ
name = 97 ∷ 34 ∷ 10 ∷ 195 ∷ 169 ∷ []

name_is_bytes : All IsByte name
name_is_bytes = omega arith

percent_example : percent_decode (percent_encode_utf8 name) ≡ some name
percent_example = percent_decode-percent_encode_utf8 name name_is_bytes

unbroken_example : All NoBreak (build_content_disposition name)
unbroken_example = build_content_disposition-NoBreak name name_is_bytes

abbrev served : Served (ℕ × ℕ)
served = record { format = zip; total_size = 8; body = λ start end. (start, end) }

abbrev lookup : FilePath → ArchiveFormat → Built (ℕ × ℕ)
lookup path format = built served

abbrev takes : Text → Bool
takes t = true

abbrev params : Query
params = record { path = codes "d"; format = some (codes "zip") }

abbrev size_of : Built (ℕ × ℕ) → ℕ
size_of (built a) = a.total_size
size_of (Built.not_built message) = 0
size_of Built.task_failed = 0

is_zip : requested_format params.format ≡ ok zip
unfolding requested_format from_name from_lowercase to_ascii_lowercase trim trim_start trim_end
    is_whitespace
is_zip = refl

is_resolved : resolve_and_validate_path links root params.path ≡ ok (codes "s/d")
unfolding resolve_and_validate_path check_canonical join is_absolute ends_with_slash starts_with
    components split prepend parts relative_parts component_eq
is_resolved = refl

name-IsPlain : All IsPlain (file_name params.path served.format)
unfolding file_name last_name name_or_archive components split prepend parts relative_parts
    extension
name-IsPlain = omega arith

answer_example :
    (reply : Reply (ℕ × ℕ)) × (download takes links root lookup params range ≡ ok reply)
    × (reply.response ≡ respond served.body (some (codes "bytes=5-9")) served.total_size)
answer_example =
    download-answers takes links root lookup params range zip (codes "s/d") served
      (some (codes "bytes=5-9")) (λ e. cc) is_zip is_resolved refl has_range (λ t h. refl)
      name-IsPlain

-- The same directory as a tar archive, to a client that stays.
abbrev staying : ℕ → Bool
staying k = true

abbrev tar_lookup : FilePath → ArchiveFormat → Built Body
tar_lookup source format = built (tar_served disk staying 16 archive)

served_of : Built Body → Served Body
served_of (built a) = a
served_of (Built.not_built message) = tar_served disk staying 16 archive
served_of Built.task_failed = tar_served disk staying 16 archive

stands_for :
    (source : FilePath) (format : ArchiveFormat) (a : Served Body)
    → tar_lookup source format ≡ built a
    → (bytes : List ℕ) × StandsFor disk staying 16 a bytes
unfolding served_of
stands_for source format a h = (
  image content archive.entries,
  subst (λ a. StandsFor disk staying 16 a (image content archive.entries)) (ap served_of h)
      (tar_served-StandsFor disk staying 16 archive content servable),
)

bytes_example :
    Ensures
      (IsSent disk staying 16 takes links root tar_lookup params range)
      (download takes links root tar_lookup params range)
bytes_example =
    download-IsSent disk staying 16 takes links root tar_lookup params range (λ e. cc) stands_for

tar-Fits : Fits crate disk staying 16 root scan tar
tar-Fits = (small, λ a h. (content, subst (IsPresent content disk) (ap made h) present))

created_example :
    Makes crate disk staying 16 root scan
      (create_archive crate disk staying 16 root (ok scan) tar)
      tar
created_example = create_archive-Makes crate disk staying 16 root scan law tar tar-Fits
