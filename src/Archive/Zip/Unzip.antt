-- ===== src/Archive/Zip/Unzip.antt =====
-- A reader of zip files, from the format's specification (APPNOTE 4.3 to 4.5) and not from the
-- code: stored entries, one disk, no comment behind the end record.
pub mod Fields
pub mod Local
pub mod Central
pub mod End
pub mod RoundTrip
pub mod Built
use raas.Prelude.{
  ℕ, zero, suc, ◌+◌, ◌-◌, ◌*◌, Bool, true, false, ◌&&◌, ◌||◌, Option, none, some, List, [], ◌∷◌,
  map, take, drop, length, ◌==◌, ltb, if◌then◌else◌, ◌=bytes=◌,
}

infixl 5 ◌>>=◌
abbrev pub ◌>>=◌ {ℓ} : {A B : Type ℓ} → Option A → (A → Option B) → Option B
some a >>= f = f a
none >>= f = none

-- A test that must hold.
abbrev pub guard : Bool → Option (Unit {0})
guard true = some tt
guard false = none

-- A little-endian number of `k` bytes, and what follows.
unfoldable pub number : ℕ → List ℕ → Option (ℕ × List ℕ)
number zero bs = some (0, bs)
number (suc k) [] = none
number (suc k) (b ∷ bs) = do (n, rest) ← number k bs; some (b + 256 * n, rest)

-- Numbers of the given widths.
unfoldable pub fields : List ℕ → List ℕ → Option (List ℕ × List ℕ)
fields [] bs = some ([], bs)
fields (k ∷ ks) bs = do (n, rest) ← number k bs; (ns, rest') ← fields ks rest; some (n ∷ ns, rest')

-- The value of field `i`.
abbrev pub field : ℕ → List ℕ → ℕ
field i [] = 0
field zero (n ∷ ns) = n
field (suc i) (n ∷ ns) = field i ns

-- `n` bytes, and what follows.
unfoldable pub bytes : ℕ → List ℕ → Option (List ℕ × List ℕ)
bytes n bs = if ltb (length bs) n then none else some (take n bs, drop n bs)

-- The data of a Zip64 extra field, or nothing.
unfoldable pub zip64_field : List ℕ → Option (List ℕ)
zip64_field bs = do
  (ns, rest) ← fields (2 ∷ 2 ∷ []) bs
  ok ← guard (field 0 ns == 1)
  (body, end) ← bytes (field 1 ns) rest
  some body

unfoldable pub zip64_data : List ℕ → Option (List ℕ)
zip64_data [] = some []
zip64_data (b ∷ bs) = zip64_field (b ∷ bs)

-- A number of 32 bits, or the next one of the Zip64 data if it is all ones.
unfoldable pub wide : ℕ → List ℕ → Option (ℕ × List ℕ)
wide n data' = if n == 0xffff_ffff then number 8 data' else some (n, data')

abbrev pub local_widths : List ℕ
local_widths = 4 ∷ 2 ∷ 2 ∷ 2 ∷ 2 ∷ 2 ∷ 4 ∷ 4 ∷ 4 ∷ 2 ∷ 2 ∷ []

-- A local header for a stored file with this name, checksum and size; what follows are its data.
unfoldable pub local_file : List ℕ → ℕ → ℕ → List ℕ → Option (List ℕ)
local_file name checksum size bs = do
  (ns, rest) ← fields local_widths bs
  ok ← guard (field 0 ns == 0x0403_4b50 && field 3 ns == 0)
  (local_name, rest') ← bytes (field 9 ns) rest
  (extra, data') ← bytes (field 10 ns) rest'
  zip64 ← zip64_data extra
  (full, zip64') ← wide (field 8 ns) zip64
  (stored, zip64'') ← wide (field 7 ns) zip64'
  same ← guard (local_name =bytes= name && field 6 ns == checksum && full == size && stored == size)
  (content, end) ← bytes size data'
  some content

abbrev pub central_widths : List ℕ
central_widths = 4 ∷ 2 ∷ 2 ∷ 2 ∷ 2 ∷ 2 ∷ 2 ∷ 4 ∷ 4 ∷ 4 ∷ 2 ∷ 2 ∷ 2 ∷ 2 ∷ 2 ∷ 4 ∷ 4 ∷ []

-- What the directory says of a file.
pub record Listed : Type 0 where
  pub name : List ℕ
  pub is_dir : Bool
  pub checksum : ℕ
  pub size : ℕ
  pub local_offset : ℕ

unfoldable pub central_file : List ℕ → Option (Listed × List ℕ)
central_file bs = do
  (ns, rest) ← fields central_widths bs
  ok ← guard (field 0 ns == 0x0201_4b50 && field 4 ns == 0)
  (name, rest') ← bytes (field 10 ns) rest
  (extra, rest'') ← bytes (field 11 ns) rest'
  (comment, end) ← bytes (field 12 ns) rest''
  zip64 ← zip64_data extra
  (full, zip64') ← wide (field 9 ns) zip64
  (stored, zip64'') ← wide (field 8 ns) zip64'
  (offset, zip64''') ← wide (field 16 ns) zip64''
  same ← guard (full == stored)
  some (
    record {
      name = name;
      is_dir = field 15 ns == 16;
      checksum = field 7 ns;
      size = full;
      local_offset = offset;
    },
    end,
  )

-- A file of the archive: its name, whether it is a directory, the CRC-32 that is recorded for it,
-- and its data.
pub record Unzipped : Type 0 where
  pub name : List ℕ
  pub is_dir : Bool
  pub checksum : ℕ
  pub content : List ℕ

-- `count` files of the directory, with their data from the whole file.
unfoldable pub files : List ℕ → ℕ → List ℕ → Option (List Unzipped)
files whole zero bs = some []
files whole (suc count) bs = do
  (c, rest) ← central_file bs
  content ← local_file c.name c.checksum c.size (drop c.local_offset whole)
  more ← files whole count rest
  some
      (record { name = c.name; is_dir = c.is_dir; checksum = c.checksum; content = content } ∷ more)

abbrev pub end_widths : List ℕ
end_widths = 4 ∷ 2 ∷ 2 ∷ 2 ∷ 2 ∷ 4 ∷ 4 ∷ 2 ∷ []

abbrev pub locator_widths : List ℕ
locator_widths = 4 ∷ 4 ∷ 8 ∷ 4 ∷ []

abbrev pub zip64_end_widths : List ℕ
zip64_end_widths = 4 ∷ 8 ∷ 2 ∷ 2 ∷ 4 ∷ 4 ∷ 8 ∷ 8 ∷ 8 ∷ 8 ∷ []

-- The number of files and the start of the directory, from the Zip64 records.
unfoldable pub zip64_end : List ℕ → Option (ℕ × ℕ)
zip64_end whole = do
  (ns, rest) ← fields locator_widths (drop (length whole - 42) whole)
  ok ← guard (field 0 ns == 0x0706_4b50)
  (ms, rest') ← fields zip64_end_widths (drop (field 2 ns) whole)
  ok' ← guard (field 0 ms == 0x0606_4b50)
  some (field 7 ms, field 9 ms)

-- The same from the end record, which says by a field of all ones that the Zip64 records count.
unfoldable pub end_record : List ℕ → Option (ℕ × ℕ)
end_record whole = do
  (ns, rest) ← fields end_widths (drop (length whole - 22) whole)
  ok ← guard (field 0 ns == 0x0605_4b50)
  if field 4 ns == 0xffff || field 5 ns == 0xffff_ffff || field 6 ns == 0xffff_ffff
      then zip64_end whole
      else some (field 4 ns, field 6 ns)

unfoldable pub unzip : List ℕ → Option (List Unzipped)
unzip whole = do (count, offset) ← end_record whole; files whole count (drop offset whole)

-- The data of a file, for a reader that holds their checksum against the recorded one.
abbrev pub verified : (List ℕ → ℕ) → Unzipped → Option (List ℕ)
verified sum file = if sum file.content == file.checksum then some file.content else none

-- What a reader that verifies checksums gives for each file of the archive.
unfoldable pub unzip_verified : (List ℕ → ℕ) → List ℕ → Option (List (Option (List ℕ)))
unzip_verified sum whole = do files ← unzip whole; some (map (verified sum) files)
