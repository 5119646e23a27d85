-- ===== src/Tests.antt =====
-- Runs on a small directory and on headers, and each theorem at an input.
mod Ended
mod Files
mod Ranges
mod Tars
mod Zips
mod Unzips
mod Untars
mod Streams
mod Caches
mod Configs
mod Downloads
mod Scans
mod Watchers
mod Starts
mod Lookups
mod Checksums
