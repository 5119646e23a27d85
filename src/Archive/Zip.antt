-- ===== src/Archive/Zip.antt =====
-- src/archive/zip.rs, in the default build (without the feature `zip-crc32`).
pub mod Unzip
pub mod Crc
pub mod Index
pub mod Records
pub mod Reader
pub mod Image
pub mod Served
