-- ===== src/Archive/Zip/Records.antt =====
-- src/archive/zip.rs: the bytes of the records. A record is written to an empty buffer, so a
-- writer's result is the buffer.
pub mod Lengths
use raas.Prelude.{
  ℕ, zero, suc, ◌+◌, ◌-◌, min, Bool, true, false, ◌||◌, Option, none, some, List, [], ◌∷◌, ◌++◌,
  length, get_elem?, partition_point, leb, ltb, if◌then◌else◌, ◌=bytes=◌,
}
use raas.Prelude.Words.{le_bytes, as_u16, as_u32}
use raas.Io.{IoError, invalid_input, Result, ok, err, ◌>>=◌}
use raas.Archive.Fill.{Run, running, failed, panicked}
use raas.Archive.Zip.Index.{
  ZipEntry, ZipArchive, Segment, SegmentKind, local_header, data_of, central_entry, zip64_eocd,
  zip64_locator, eocd, zip64_eocd_len, zip64_extra_header, zip64_local_data, u32_max, u16_max,
}

-- Version needed: 4.5 for Zip64, 2.0 otherwise.
abbrev pub version_of : Bool → ℕ
version_of needs_zip64 = if needs_zip64 then 45 else 20

-- Without the feature `zip-crc32` no file is read.
unfoldable pub entry_crc : ZipEntry → Result IoError ℕ
entry_crc e = if e.is_dir then ok 0 else ok 0

-- The Zip64 field of a local header, if it has one.
unfoldable pub local_extra : ZipEntry → List ℕ
local_extra e =
    if e.local_zip64
    then le_bytes 2 1
      ++ (le_bytes 2 (as_u16 zip64_local_data) ++ (le_bytes 8 e.size ++ le_bytes 8 e.size))
    else []

unfoldable pub local_header_of : ZipEntry → ℕ → List ℕ
local_header_of e crc =
    let size = if e.local_zip64 then as_u32 u32_max else as_u32 e.size in
    let extra_len = if e.local_zip64 then as_u16 (zip64_extra_header + zip64_local_data) else 0 in
    le_bytes 4 0x0403_4b50
    ++ (le_bytes 2 (version_of e.local_zip64)
        ++ (le_bytes 2 0x0800
            ++ (le_bytes 2 0
                ++ (le_bytes 2 0
                    ++ (le_bytes 2 0x0021
                        ++ (le_bytes 4 crc
                            ++ (le_bytes 4 size
                                ++ (le_bytes 4 size
                                    ++ (le_bytes 2 (as_u16 (length e.name_bytes))
                                        ++ (le_bytes 2 extra_len
                                            ++ (e.name_bytes ++ local_extra e)))))))))))

unfoldable pub write_local_header : ZipEntry → Result IoError (List ℕ)
unfolding entry_crc
write_local_header e = do crc ← entry_crc e; ok (local_header_of e crc)

-- The data of the Zip64 field of a central directory entry.
unfoldable pub central_extra_data : ZipEntry → List ℕ
central_extra_data e =
    (if e.central_size_zip64 then le_bytes 8 e.size ++ le_bytes 8 e.size else [])
    ++ (if e.central_offset_zip64 then le_bytes 8 e.local_offset else [])

unfoldable pub central_extra : List ℕ → List ℕ
central_extra extra_data =
    if extra_data =bytes= []
    then []
    else le_bytes 2 1 ++ (le_bytes 2 (as_u16 (length extra_data)) ++ extra_data)

unfoldable pub central_entry_of : ZipEntry → ℕ → List ℕ
central_entry_of e crc =
    let needs_zip64 = e.central_size_zip64 || e.central_offset_zip64 in
    let extra_data = central_extra_data e in
    let extra_len =
      if extra_data =bytes= [] then 0 else as_u16 (zip64_extra_header + length extra_data) in
    let size = if e.central_size_zip64 then as_u32 u32_max else as_u32 e.size in
    let external = if e.is_dir then 0x10 else 0 in
    let local_offset = if e.central_offset_zip64 then as_u32 u32_max else as_u32 e.local_offset in
    le_bytes 4 0x0201_4b50
    ++ (le_bytes 2 20
        ++ (le_bytes 2 (version_of needs_zip64)
            ++ (le_bytes 2 0x0800
                ++ (le_bytes 2 0
                    ++ (le_bytes 2 0
                        ++ (le_bytes 2 0x0021
                            ++ (le_bytes 4 crc
                                ++ (le_bytes 4 size
                                    ++ (le_bytes 4 size
                                        ++ (le_bytes 2 (as_u16 (length e.name_bytes))
                                            ++ (le_bytes 2 extra_len
                                                ++ (le_bytes 2 0
                                                    ++ (le_bytes 2 0
                                                        ++ (le_bytes 2 0
                                                            ++ (le_bytes 4 external
                                                            ++ (le_bytes 4 local_offset
                                                            ++ (e.name_bytes
                                                            ++ central_extra
                                                            extra_data)))))))))))))))))

unfoldable pub write_central_entry : ZipEntry → Result IoError (List ℕ)
unfolding entry_crc
write_central_entry e = do crc ← entry_crc e; ok (central_entry_of e crc)

unfoldable pub write_zip64_eocd : ZipArchive → List ℕ
write_zip64_eocd z =
    let count = length z.entries in
    le_bytes 4 0x0606_4b50
    ++ (le_bytes 8 (zip64_eocd_len - 12)
        ++ (le_bytes 2 20
            ++ (le_bytes 2 45
                ++ (le_bytes 4 0
                    ++ (le_bytes 4 0
                        ++ (le_bytes 8 count
                            ++ (le_bytes 8 count
                                ++ (le_bytes 8 z.cd_size ++ le_bytes 8 z.cd_offset))))))))

unfoldable pub write_zip64_locator : ZipArchive → List ℕ
write_zip64_locator z =
    le_bytes 4 0x0706_4b50 ++ (le_bytes 4 0 ++ (le_bytes 8 z.zip64_eocd_offset ++ le_bytes 4 1))

unfoldable pub write_eocd : ZipArchive → List ℕ
write_eocd z =
    let count = as_u16 (min (length z.entries) u16_max) in
    le_bytes 4 0x0605_4b50
    ++ (le_bytes 2 0
        ++ (le_bytes 2 0
            ++ (le_bytes 2 count
                ++ (le_bytes 2 count
                    ++ (le_bytes 4 (as_u32 (min z.cd_size u32_max))
                        ++ (le_bytes 4 (as_u32 (min z.cd_offset u32_max)) ++ le_bytes 2 0))))))

-- A writer's result as the end of a piece of the program.
abbrev pub written : Result IoError (List ℕ) → Run IoError (List ℕ)
written (ok bytes) = running bytes
written (err e) = failed e []

-- `write_segment_into`: an entry that is not there is an index out of range.
unfoldable pub write_segment_into : ZipArchive → SegmentKind → Run IoError (List ℕ)
write_segment_into z (local_header index) = elim (get_elem? z.entries index) [
  | none ↦ panicked
  | some e ↦ written (write_local_header e)
]
write_segment_into z (central_entry index) = elim (get_elem? z.entries index) [
  | none ↦ panicked
  | some e ↦ written (write_central_entry e)
]
write_segment_into z zip64_eocd = running (write_zip64_eocd z)
write_segment_into z zip64_locator = running (write_zip64_locator z)
write_segment_into z eocd = running (write_eocd z)
write_segment_into z (data_of index) = failed invalid_input []
