-- ===== src/Server/Handler.antt =====
-- src/server/handler.rs: `download_random_access_archive`.
pub mod Laws
pub mod Bytes
pub mod Created
pub mod Unzipped
pub mod Untarred
use raas.Prelude.{
  ℕ, Bool, true, false, ◌||◌, Option, none, some, List, [], ◌∷◌, ◌++◌, if◌then◌else◌, ◌=bytes=◌,
}
use raas.Io.{Result, ok, err, ◌>>=◌}
use raas.Io.Paths.{FilePath, last_name, components}
use raas.Io.Text.{Text, codes, strip_prefix}
use raas.Archive.Format.{ArchiveFormat, tar, from_name, extension, content_type}
use raas.Server.Errors.{
  ArchiveApiError, bad_request, internal_error, empty_path, unsupported_format, archive_not_found,
  invalid_range_header, invalid_file_name,
}
use raas.Server.Resolve.{Links, resolve_and_validate_path}
use raas.Server.Disposition.{build_content_disposition}
use raas.Server.Download.{Response, full, partial_content, range_not_satisfiable, respond}

-- `RandomAccessArchiveQuery`
pub record Query : Type 0 where
  pub path : Text
  pub format : Option Text

-- `dyn Archive`, with `create_stream_body` of a half-open range of it.
pub record Served (B : Type 0) : Type 0 where
  pub format : ArchiveFormat
  pub total_size : ℕ
  pub body : ℕ → ℕ → B

-- What the blocking task gives: the archive, the message of an error, or that the task failed.
pub data Built (B : Type 0) : Type 0 where
  built : Served B → Built B
  not_built : Text → Built B
  task_failed : Built B

unfoldable pub contains : Text → Text → Bool
contains [] pattern' = pattern' =bytes= []
contains (c ∷ cs) pattern' =
    let rest = contains cs pattern' in
    elim (strip_prefix pattern' (c ∷ cs)) [ none ↦ rest | some t ↦ true ]

unfoldable pub is_missing : Text → Bool
is_missing message =
    contains message (codes "不存在")
    || contains message (codes "not found")
    || contains message (codes "No such file")

-- `None` asks for tar.
unfoldable pub requested_format : Option Text → Result ArchiveApiError ArchiveFormat
requested_format none = ok tar
requested_format (some value) = elim (from_name value) [
  | none ↦ err (bad_request unsupported_format)
  | some f ↦ ok f
]

-- The errors of the build, by their message, which `get_or_create` gives its prefix.
unfoldable pub find_archive : {B : Type 0} → Built B → Result ArchiveApiError (Served B)
find_archive (built a) = ok a
find_archive (not_built message) =
    if is_missing (codes "创建随机访问存档失败: " ++ message)
    then err (bad_request archive_not_found)
    else err internal_error
find_archive task_failed = err internal_error

unfoldable pub name_or_archive : Option (List ℕ) → Text
name_or_archive none = codes "archive"
name_or_archive (some n) = n

unfoldable pub file_name : Text → ArchiveFormat → Text
file_name path format =
    name_or_archive (last_name (components path)) ++ (codes "." ++ extension format)

-- The `Range` header: absent, or its text if `to_str` can read it.
unfoldable pub range_text : Option (Option Text) → Result ArchiveApiError (Option Text)
range_text none = ok none
range_text (some none) = err (bad_request invalid_range_header)
range_text (some (some raw)) = ok (some raw)

-- The response, and `Content-Type` and `Content-Disposition` beside `Accept-Ranges: bytes`.
pub record Reply (B : Type 0) : Type 0 where
  pub response : Response B
  pub common_headers : Option (Text × Text)

-- `header_takes` is whether `HeaderValue::try_from` accepts a text.
module _ {B : Type 0} (header_takes : Text → Bool) where
  -- `populate_common_headers`
  unfoldable pub populate_common_headers :
      Text → ArchiveFormat → Response B → Result ArchiveApiError (Reply B)
  populate_common_headers name format r =
      if header_takes (build_content_disposition name)
      then ok (record {
        response = r;
        common_headers = some (content_type format, build_content_disposition name);
      })
      else err (bad_request invalid_file_name)

  -- 416 is returned before the common headers.
  unfoldable pub finish : Text → ArchiveFormat → Response B → Result ArchiveApiError (Reply B)
  finish name format (full len b) = populate_common_headers name format (full len b)
  finish name format (partial_content len start last total b) =
      populate_common_headers name format (partial_content len start last total b)
  finish name format (range_not_satisfiable total) =
      ok (record { response = range_not_satisfiable total; common_headers = none })

  -- What follows once the archive is there.
  unfoldable pub serve : Text → Option (Option Text) → Served B → Result ArchiveApiError (Reply B)
  serve path header archive = do
    range ← range_text header
    finish (file_name path archive.format) archive.format
        (respond archive.body range archive.total_size)

  -- `lookup` is the archive cache's `get_or_create` in a blocking task.
  unfoldable pub download :
      Links
      → FilePath
      → (FilePath → ArchiveFormat → Built B)
      → Query
      → Option (Option Text)
      → Result ArchiveApiError (Reply B)
  download links data_root lookup params header =
      if params.path =bytes= [] then err (bad_request empty_path) else do
        format ← requested_format params.format
        source_path ← resolve_and_validate_path links data_root params.path
        archive ← find_archive (lookup source_path format)
        serve params.path header archive
