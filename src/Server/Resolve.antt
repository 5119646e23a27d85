-- ===== src/Server/Resolve.antt =====
-- src/server/handler.rs: `resolve_and_validate_path`.
pub mod Laws
use raas.Prelude.{ℕ, Bool, true, false, if◌then◌else◌}
use raas.Io.{Result, IoError, ok, err}
use raas.Io.Paths.{FilePath, components, starts_with, join}
use raas.Server.Errors.{ArchiveApiError, bad_request, internal_error, outside_root, path_not_found}

-- `Path::exists` and `Path::canonicalize`, which follow links.
pub record Links : Type 0 where
  pub exists : FilePath → Bool
  pub canonicalize : FilePath → Result IoError FilePath

-- `path.starts_with(root)`
abbrev pub is_inside : FilePath → FilePath → Bool
is_inside path root = starts_with (components path) (components root)

unfoldable pub check_canonical :
    FilePath → Result IoError FilePath → Result ArchiveApiError FilePath
check_canonical root (err e) = err internal_error
check_canonical root (ok canonicalized) =
    if is_inside canonicalized root then ok canonicalized else err (bad_request outside_root)

unfoldable pub resolve_and_validate_path :
    Links → FilePath → FilePath → Result ArchiveApiError FilePath
resolve_and_validate_path links root relative_path =
    let full_path = join root relative_path in
    if is_inside full_path root
    then (if links.exists full_path
        then check_canonical root (links.canonicalize full_path)
        else err (bad_request path_not_found))
    else err (bad_request outside_root)
