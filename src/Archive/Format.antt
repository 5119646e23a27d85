-- ===== src/Archive/Format.antt =====
-- src/archive/mod.rs: the formats.
pub mod Names
use raas.Prelude.{Bool, true, false, Option, none, some, [], if◌then◌else◌, ◌=bytes=◌}
use raas.Io.Text.{Text, codes, trim, to_ascii_lowercase}

pub data ArchiveFormat : Type 0 where
  tar zip : ArchiveFormat

unfoldable pub format_eq : ArchiveFormat → ArchiveFormat → Bool
format_eq tar tar = true
format_eq zip zip = true
format_eq _ _ = false

-- `ArchiveFormat::from_name`
unfoldable pub from_lowercase : Text → Option ArchiveFormat
from_lowercase name =
    if name =bytes= []
    then some tar
    else if name =bytes= codes "tar"
    then some tar
    else if name =bytes= codes "zip"
    then some zip
    else none

unfoldable pub from_name : Text → Option ArchiveFormat
from_name name = from_lowercase (to_ascii_lowercase (trim name))

unfoldable pub extension : ArchiveFormat → Text
extension tar = codes "tar"
extension zip = codes "zip"

unfoldable pub content_type : ArchiveFormat → Text
content_type tar = codes "application/x-tar"
content_type zip = codes "application/zip"
