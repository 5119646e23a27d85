-- ===== src/Archive/Zip/Unzip/Central.antt =====
-- The reader of directory entries, on what src/archive/zip.rs writes.
use raas.Prelude.{
  ℕ, ◌+◌, ◌<◌, ◌≡◌, refl, sym, ap, ◌∙◌, Bool, true, false, ◌||◌, some, List, [], ◌∷◌, ◌++◌,
  append_assoc, append-nil, length, ◌==◌, ◌=bytes=◌, leb, arith, if◌then◌else◌,
}
use raas.Prelude.Words.{le_bytes, as_u16, as_u32, u64_mod}
use raas.Archive.Zip.Index.{ZipEntry, is_large, u32_max, zip64_extra_header}
use raas.Archive.Zip.Records.{central_entry_of, central_extra_data, central_extra, version_of}
use raas.Archive.Zip.Records.Lengths.{length-central_extra_data}
use raas.Archive.Zip.Unzip.{zip64_data, wide, Listed, central_file}
use raas.Archive.Zip.Unzip.Fields.{encoded, AllFit, fields-encoded, encoded-append, bytes-front}
use raas.Archive.Zip.Unzip.Local.{
  IsPlain, not_large, wide_itself, wide_mark, zip64_data-nil, zip64_data-extra, same_number,
}

-- A field of 32 bits, and its part of the Zip64 data.
abbrev narrow : Bool → ℕ → ℕ
narrow b n = if b then as_u32 u32_max else as_u32 n

abbrev widened : Bool → ℕ → List ℕ
widened b n = if b then le_bytes 8 n else []

wide-widened :
    (b : Bool) (n : ℕ) (t : List ℕ)
    → n < u64_mod
    → (b ≡ false → n < 0xffff_ffff)
    → wide (narrow b n) (widened b n ++ t) ≡ some (n, t)
wide-widened true n t h small = wide_mark n t h
wide-widened false n t h small =
    let below : n < 0xffff_ffff = small refl in
    let same : as_u32 n ≡ n = omega (arith, below) in
    ap (λ m. wide m t) same ∙ wide_itself n t below

both_sizes :
    (b : Bool) (n : ℕ) (t : List ℕ)
    → (if b then le_bytes 8 n ++ le_bytes 8 n else []) ++ t ≡ widened b n ++ (widened b n ++ t)
both_sizes true n t = append_assoc (le_bytes 8 n) (le_bytes 8 n) t
both_sizes false n t = refl

-- The length of the extra field.
abbrev extra_len : List ℕ → ℕ
extra_len extra_data =
    if extra_data =bytes= [] then 0 else as_u16 (zip64_extra_header + length extra_data)

length-central_extra-extra_len :
    (d : List ℕ) → length d < 100 → length (central_extra d) ≡ extra_len d
unfolding central_extra le_bytes
length-central_extra-extra_len [] h = refl
length-central_extra-extra_len (b ∷ bs) h = omega (arith, h)

zip64_data-central_extra : (d : List ℕ) → length d < 100 → zip64_data (central_extra d) ≡ some d
unfolding central_extra
zip64_data-central_extra [] h = zip64_data-nil
zip64_data-central_extra (b ∷ bs) h =
    let k : as_u16 (length (b ∷ bs)) ≡ length (b ∷ bs) = omega (arith, h) in
    zip64_data-extra (as_u16 (length (b ∷ bs))) (b ∷ bs) (sym k) (omega (arith, h))

abbrev external : Bool → ℕ
external is_dir = if is_dir then 0x10 else 0

external-is_dir : (b : Bool) → (external b == 16) ≡ b
external-is_dir true = refl
external-is_dir false = refl

abbrev central_fields : ZipEntry → List (ℕ × ℕ)
central_fields e =
    (4, 0x0201_4b50)
    ∷ (2, 20)
    ∷ (2, version_of (e.central_size_zip64 || e.central_offset_zip64))
    ∷ (2, 0x0800)
    ∷ (2, 0)
    ∷ (2, 0)
    ∷ (2, 0x0021)
    ∷ (4, 0)
    ∷ (4, narrow e.central_size_zip64 e.size)
    ∷ (4, narrow e.central_size_zip64 e.size)
    ∷ (2, as_u16 (length e.name_bytes))
    ∷ (2, extra_len (central_extra_data e))
    ∷ (2, 0)
    ∷ (2, 0)
    ∷ (2, 0)
    ∷ (4, external e.is_dir)
    ∷ (4, narrow e.central_offset_zip64 e.local_offset)
    ∷ []

central_entry_lem :
    (e : ZipEntry)
    → central_entry_of e 0
      ≡ encoded (central_fields e) (e.name_bytes ++ central_extra (central_extra_data e))
unfolding central_entry_of
central_entry_lem e = refl

narrow_bound : (b : Bool) (n : ℕ) → narrow b n < 0x1_0000_0000
narrow_bound b n = ground arith

external_bound : (b : Bool) → external b < 17
external_bound b = ground arith

version_bound : (b : Bool) → version_of b < 46
version_bound b = ground arith

extra_len_bound : (d : List ℕ) → extra_len d < 0x1_0000
extra_len_bound d = ground arith

central_fields-AllFit : (e : ZipEntry) → AllFit (central_fields e)
central_fields-AllFit e = omega (
  arith,
  version_bound (e.central_size_zip64 || e.central_offset_zip64),
  narrow_bound e.central_size_zip64 e.size,
  narrow_bound e.central_offset_zip64 e.local_offset,
  extra_len_bound (central_extra_data e),
  external_bound e.is_dir,
)

short_data : (e : ZipEntry) → length (central_extra_data e) < 100
short_data e =
    let a : (if e.central_size_zip64 then 16 else 0) < 17 = ground arith in
    let b : (if e.central_offset_zip64 then 8 else 0) < 9 = ground arith in
    omega (arith, a, b, length-central_extra_data e)

central_data :
    (e : ZipEntry)
    → central_extra_data e
      ≡ widened e.central_size_zip64 e.size
        ++ (widened e.central_size_zip64 e.size
            ++ (widened e.central_offset_zip64 e.local_offset ++ []))
unfolding central_extra_data
central_data e =
    both_sizes e.central_size_zip64 e.size (widened e.central_offset_zip64 e.local_offset)
    ∙ ap (λ l. widened e.central_size_zip64 e.size ++ (widened e.central_size_zip64 e.size ++ l))
        (sym (append-nil (widened e.central_offset_zip64 e.local_offset)))

-- What the directory must say of an entry.
abbrev pub listed : ZipEntry → Listed
listed e = record {
  name = e.name_bytes;
  is_dir = e.is_dir;
  checksum = 0;
  size = e.size;
  local_offset = e.local_offset;
}

not_far : (n : ℕ) → leb u32_max n ≡ false → n < 0xffff_ffff
not_far n h = ground (arith, h)

size_wide :
    (e : ZipEntry) (t : List ℕ)
    → IsPlain e
    → e.central_size_zip64 ≡ is_large e
    → wide (narrow e.central_size_zip64 e.size) (widened e.central_size_zip64 e.size ++ t)
      ≡ some (e.size, t)
size_wide e t p l =
    wide-widened e.central_size_zip64 e.size t p.size_fits (λ f. not_large e p (sym l ∙ f))

-- The name, the extra field and the comment behind the fixed part.
central_file_fields :
    (e : ZipEntry) (rest : List ℕ)
    → IsPlain e
    → e.local_offset < u64_mod
    → e.central_size_zip64 ≡ is_large e
    → e.central_offset_zip64 ≡ leb u32_max e.local_offset
    → central_file (
        encoded (central_fields e) (e.name_bytes ++ (central_extra (central_extra_data e) ++ rest)))
      ≡ some (listed e, rest)
unfolding central_file
central_file_fields e rest p ho ls lo =
    let d : List ℕ = central_extra_data e in
    let name_len : length e.name_bytes ≡ as_u16 (length e.name_bytes) =
      omega (arith, p.name_fits) in
    rw
      (
        fields-encoded (central_fields e) (e.name_bytes ++ (central_extra d ++ rest))
            (central_fields-AllFit e),
        bytes-front (as_u16 (length e.name_bytes)) e.name_bytes (central_extra d ++ rest) name_len,
        bytes-front (extra_len d) (central_extra d) rest
            (length-central_extra-extra_len d (short_data e)),
        bytes-front 0 [] rest refl,
        zip64_data-central_extra d (short_data e) ∙ ap some (central_data e),
        size_wide e
            (widened e.central_size_zip64 e.size
              ++ (widened e.central_offset_zip64 e.local_offset ++ []))
            p ls,
        size_wide e (widened e.central_offset_zip64 e.local_offset ++ []) p ls,
        wide-widened e.central_offset_zip64 e.local_offset [] ho
            (λ f. not_far e.local_offset (sym lo ∙ f)),
        same_number e.size,
        external-is_dir e.is_dir,
      )
      refl

pub central_file-central_entry_of :
    (e : ZipEntry) (rest : List ℕ)
    → IsPlain e
    → e.local_offset < u64_mod
    → e.central_size_zip64 ≡ is_large e
    → e.central_offset_zip64 ≡ leb u32_max e.local_offset
    → central_file (central_entry_of e 0 ++ rest) ≡ some (listed e, rest)
central_file-central_entry_of e rest p ho ls lo =
    let d : List ℕ = central_extra_data e in
    ap central_file (
      ap (λ l. l ++ rest) (central_entry_lem e)
      ∙ encoded-append (central_fields e) (e.name_bytes ++ central_extra d) rest
      ∙ ap (encoded (central_fields e)) (append_assoc e.name_bytes (central_extra d) rest))
    ∙ central_file_fields e rest p ho ls lo
