-- ===== src/Cache.antt =====
-- src/cache/: the file handle of one stream, and the archives that are kept.
pub mod FileHandle
pub mod Archives
