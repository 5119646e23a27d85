-- ===== src/Archive/Tar.antt =====
-- src/archive/tar.rs.
pub mod Untar
pub mod Crate
pub mod Header
pub mod Index
pub mod Reader
pub mod Served
pub mod Image
