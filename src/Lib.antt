-- ===== src/Lib.antt =====
-- raas: a server that streams a directory as a tar or zip archive with random access.
--
-- A request names a directory and a format. The program scans the directory, computes an index in
-- which every header and every file has its offset, and serves any byte range of the archive from
-- that index and the files, without ever building the archive.
--
-- Parts of the program, and the files that model them:
--   Io: what the source uses of the standard library on Unix: errors, paths as bytes compared by
--     components, `str`'s trim, split and parse, and the system's files as the parameter `Disk`.
--   Cache/FileHandle: src/cache/file_handle.rs. `read_at` returns the bytes read, or the error,
--     and the cache that it leaves.
--   Cache/Archives: src/cache/archive.rs: lookup, registration and invalidation, one atomic step
--     each. moka is a list of entries, any of which may vanish between two steps. Lookup has what
--     get_or_create returns, Place has where a path leads, read from its end, and Shared has the
--     caches that an `Arc` may lead to.
--   Archive/Scanner: src/archive/scanner.rs. The system's directories are the parameter
--     `Directories`; Listing has trees of directories and what a scan of them should list.
--   Archive/Format, Archive/Error: the formats with their names, and the errors, of
--     src/archive/mod.rs.
--   Archive/Tar: src/archive/tar.rs. Crate has the tar crate's headers as a parameter, Header has
--     create_header and GNU's long paths, Index has TarArchive::create, Reader has
--     RangeStreamWriter, Image has the tar file that an index stands for, and Untar has a reader of
--     the tar format, GNU's long names included, written from its specification.
--   Archive/Zip: src/archive/zip.rs. Index has the two passes and the segments of
--     ZipArchive::create, Records has the bytes of every record, Reader has ZipRangeReader, Image
--     has the zip file that an index stands for, and Unzip has a reader of the zip format, written
--     from its specification, that the archives are held against: without checksums, and with
--     them as readers that verify do, which refuse the content of nearly every file, since the
--     default build records 0 for each. Crc has entry_crc and compute_crc32 with the feature zip-crc32, over any hasher; everything else is without it.
--   Archive/Fill: the loop that both readers share; Archive/Tiles: pieces that lie one behind the
--     other, which both files are.
--   Server/Range: parse_range_header of src/server/handler.rs.
--   Server/Stream: create_stream_body of src/server/handler.rs, over any reader that keeps the
--     readers' contract, with both archives as instances. Whether the receiver is still there when
--     an item is sent is a parameter.
--   Server/Download: the status, lengths and range of a response, in the same file.
--   Server/Resolve, Server/Disposition, Server/Errors: the check of a requested path, the encoding
--     of a file name (src/server/handler.rs) and the errors of the API (src/error.rs).
--   Server/Handler: download_random_access_archive of src/server/handler.rs, from the query to the
--     reply. The lookup in the archive cache, the links of the file system and the check of a
--     header's value are parameters. Handler/Bytes puts both archives behind it,
--     Handler/Created has create_archive of src/archive/mod.rs, and Handler/Unzipped and
--     Handler/Untarred follow a directory to what a client unpacks.
--   Watcher: src/watcher.rs: the worker on the waits as they end, and in Watcher/Stale beside the
--     lookups and evictions of the archive cache, in any order of atomic steps.
--     Watcher/Lifetime has the start of the watcher and its end.
--   State: src/state.rs. The state and the thread of the watcher hold references to one cache in a
--     store. What notify and the system answer is the parameter `WatchHost`, and the state's own
--     use of canonicalize is another.
--   Server/Routes: the table of routes, src/server/routes.rs.
--   Startup: src/main.rs, as the list of calls that it makes on tokio and the system and what comes
--     of them. Their answers are the parameter `Host`.
--   Config: src/config.rs: the settings, from the environment.
--   Prelude: lists, Booleans and 64-bit arithmetic; Tests: runs, and each theorem at an input.
--
-- Bytes, characters and machine integers are natural numbers. A sum of `u64`s is taken modulo
-- 2 ^ 64 (`add64`, as in a release build), a cast cuts off (`as_u16`, `as_u32`), and `usize` has 64
-- bits. Lengths of buffers and lists in memory are not bounded. A difference that the source
-- guards by a test is a difference of natural numbers. A panic is the outcome `panicked`, and an
-- error leaves the state that it leaves in the source.
--
-- The loop of a read runs on fuel, one unit for each round. Every round writes at least one byte
-- while a read of a file returns some, so one unit more than the buffer has bytes is enough. The
-- loop of a body has one unit more than the range has bytes, since no chunk is empty. The scan has
-- one unit for each level of directories.
--
-- What is assumed of code that is not modelled: an open file is read from where it was seeked, and
-- a read before its end returns at least one byte, and possibly fewer than asked for; two
-- spellings of a path open the same file; a header of the tar crate is one block, and, for what a
-- client unpacks, is read back as its setters say; a hasher takes pieces one after the other; files
-- do not change between the scan and the read. `partition_point` is the standard library's on a
-- list that is ordered by the test.
--
-- Not modelled: reads of an archive with the feature zip-crc32 (off by default), Windows' paths,
-- capacities and logging, the watcher's channels and clock, the health check's body, and the wait
-- for Ctrl+C.
pub mod Prelude
pub mod Io
pub mod Cache
pub mod Archive
pub mod Server
pub mod State
pub mod Startup
pub mod Config
pub mod Watcher
mod Tests
