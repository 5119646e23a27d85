-- ===== src/Archive/Error.antt =====
-- src/archive/mod.rs: `ArchiveError`, without its messages.
use raas.Io.{IoError}

pub data ArchiveError : Type 0 where
  io : IoError → ArchiveError
  serialization unexpected_error : ArchiveError
