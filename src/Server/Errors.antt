-- ===== src/Server/Errors.antt =====
-- src/error.rs: the errors of the API. A `BadRequest` stands for its message.
use raas.Prelude.{ℕ, Bool, false}
use raas.Io.{IoError}
use raas.Io.Text.{Text, codes}
use raas.Archive.Error.{ArchiveError}

pub data BadRequest : Type 0 where
  empty_path unsupported_format outside_root path_not_found : BadRequest
  archive_not_found invalid_range_header invalid_file_name : BadRequest

pub data ArchiveApiError : Type 0 where
  bad_request : BadRequest → ArchiveApiError
  internal_error : ArchiveApiError

-- `into_response`: the status and the `type` of the JSON body.
unfoldable pub status_code : ArchiveApiError → ℕ
status_code (bad_request m) = 400
status_code internal_error = 500

unfoldable pub error_type : ArchiveApiError → Text
error_type (bad_request m) = codes "BadRequest"
error_type internal_error = codes "InternalError"

-- `From<io::Error>` and `From<ArchiveError>`
unfoldable pub from_io : IoError → ArchiveApiError
from_io e = internal_error

unfoldable pub from_archive : ArchiveError → ArchiveApiError
from_archive e = internal_error

-- The JSON body: `success`, and `error` with its two fields.
pub record ErrorBody : Type 0 where
  pub success : Bool
  pub kind : Text
  pub message : Text

-- `into_response`, with the text that the error displays.
unfoldable pub into_response : Text → ArchiveApiError → ℕ × ErrorBody
into_response error_msg e =
    (status_code e, record { success = false; kind = error_type e; message = error_msg })
