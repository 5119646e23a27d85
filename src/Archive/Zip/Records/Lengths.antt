-- ===== src/Archive/Zip/Records/Lengths.antt =====
-- src/archive/zip.rs: the lengths of the records.
use raas.Prelude.{
  ℕ, ◌+◌, ◌≡◌, refl, List, [], ◌∷◌, ltb, length, length-append, arith, inl, inr, Bool-cases,
  if◌then◌else◌,
}
use raas.Prelude.Words.{length-le_bytes}
use raas.Io.{ok}
use raas.Archive.Zip.Index.{ZipEntry, ZipArchive}
use raas.Archive.Zip.Records.{
  write_local_header, write_central_entry, write_zip64_eocd, write_zip64_locator, write_eocd,
  central_extra_data, central_extra, local_extra, local_header_of, central_entry_of,
}

ruleset sizes = (length-append, length-le_bytes)

pub length-write_zip64_eocd : (z : ZipArchive) → length (write_zip64_eocd z) ≡ 56
unfolding write_zip64_eocd
length-write_zip64_eocd z = simp sizes

pub length-write_zip64_locator : (z : ZipArchive) → length (write_zip64_locator z) ≡ 20
unfolding write_zip64_locator
length-write_zip64_locator z = simp sizes

pub length-write_eocd : (z : ZipArchive) → length (write_eocd z) ≡ 22
unfolding write_eocd
length-write_eocd z = simp sizes

length-local_extra : (e : ZipEntry) → length (local_extra e) ≡ (if e.local_zip64 then 20 else 0)
unfolding local_extra
length-local_extra e = elim (Bool-cases e.local_zip64) [
  | inl large ↦ rw large (simp sizes)
  | inr small ↦ rw small refl
]

-- A local header is as long as its place in the layout: 30 bytes, the name, and the Zip64 extra
-- field of a large file.
pub length-local_header_of :
    (e : ZipEntry) (crc : ℕ)
    → length (local_header_of e crc) ≡ 30 + length e.name_bytes + (if e.local_zip64 then 20 else 0)
unfolding local_header_of
length-local_header_of e crc = simp sizes (omega (arith, length-local_extra e))

pub length-central_extra_data :
    (e : ZipEntry)
    → length (central_extra_data e)
      ≡ (if e.central_size_zip64 then 16 else 0) + (if e.central_offset_zip64 then 8 else 0)
unfolding central_extra_data
length-central_extra_data e = elim (Bool-cases e.central_size_zip64) [
  | inl a ↦ elim (Bool-cases e.central_offset_zip64) [
    | inl b ↦ rw (a, b) (simp sizes)
    | inr b ↦ rw (a, b) (simp sizes)
  ]
  | inr a ↦ elim (Bool-cases e.central_offset_zip64) [
    | inl b ↦ rw (a, b) (simp sizes)
    | inr b ↦ rw (a, b) refl
  ]
]

length-central_extra :
    (data' : List ℕ)
    → length (central_extra data') ≡ (if ltb 0 (length data') then 4 + length data' else 0)
unfolding central_extra
length-central_extra [] = refl
length-central_extra (b ∷ bs) = simp sizes (ground arith)

-- A central directory record is as long as its place in the layout: 46 bytes, the name, and the
-- Zip64 extra field of the sizes, of the offset, of both or of neither.
pub length-central_entry_of :
    (e : ZipEntry) (crc : ℕ)
    → let data_len =
        (if e.central_size_zip64 then 16 else 0) + (if e.central_offset_zip64 then 8 else 0) in
      length (central_entry_of e crc)
      ≡ 46 + length e.name_bytes + (if ltb 0 data_len then 4 + data_len else 0)
unfolding central_entry_of
length-central_entry_of e crc =
    let d = length-central_extra_data e in
    let x = rw d at (length-central_extra (central_extra_data e)) in simp sizes (omega (arith, x))

-- Without the feature `zip-crc32` no record fails.
pub write_local_header-ok : (e : ZipEntry) → write_local_header e ≡ ok (local_header_of e 0)
unfolding write_local_header
write_local_header-ok e = ground arith

pub write_central_entry-ok : (e : ZipEntry) → write_central_entry e ≡ ok (central_entry_of e 0)
unfolding write_central_entry
write_central_entry-ok e = ground arith
