-- ===== src/Archive.antt =====
-- src/archive/: the archive formats and their random access.
pub mod Error
pub mod Format
pub mod Fill
pub mod Tiles
pub mod Scanner
pub mod Tar
pub mod Zip
