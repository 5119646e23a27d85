-- ===== src/Server.antt =====
-- src/server/: the download handler and its parts.
pub mod Routes
pub mod Errors
pub mod Resolve
pub mod Disposition
pub mod Range
pub mod Stream
pub mod Download
pub mod Handler
