-- ===== src/Archive/Zip/Unzip/Local.antt =====
-- The reader of local headers, on what src/archive/zip.rs writes.
use raas.Prelude.{
  ℕ, ◌+◌, ◌<◌, ◌≡◌, refl, sym, ap, ◌∙◌, Bool, true, false, some, List, [], ◌∷◌, ◌++◌, append_assoc,
  append-nil, length, length-append, ◌==◌, =bytes=_refl, leb, arith, ap₂, inl, inr, Bool-cases,
  if◌then◌else◌, ==_iff,
}
use raas.Prelude.Words.{le_bytes, length-le_bytes, as_u16, as_u32, u64_mod}
use raas.Archive.Zip.Index.{ZipEntry, is_large, u32_max, zip64_extra_header, zip64_local_data}
use raas.Archive.Zip.Records.{local_header_of, local_extra, version_of}
use raas.Archive.Zip.Unzip.{bytes, zip64_field, zip64_data, wide, local_file}
use raas.Archive.Zip.Unzip.Fields.{
  encoded, AllFit, number-le_bytes, fields-encoded, encoded-append, bytes-front,
}

-- What an entry must have, beside its layout, to be read back: a name whose length fits into 16
-- bits, a size below 2 ^ 64, and no data if it is a directory.
pub record IsPlain (e : ZipEntry) : Type 0 where
  pub name_fits : length e.name_bytes < 0x1_0000
  pub size_fits : e.size < u64_mod
  pub dir_is_empty : e.is_dir ≡ true → e.size ≡ 0

-- A size that is not marked large is below the mark.
pub not_large : (e : ZipEntry) → IsPlain e → is_large e ≡ false → e.size < 0xffff_ffff
not_large e p h = elim (Bool-cases e.is_dir) [
  | inl d ↦ omega (arith, p.dir_is_empty d)
  | inr f ↦ let small : leb u32_max e.size ≡ false = rw f at h in ground (arith, small)
]

pub wide_itself : (n : ℕ) (t : List ℕ) → n < 0xffff_ffff → wide n t ≡ some (n, t)
unfolding wide
wide_itself n t h = let other : (n == 0xffff_ffff) ≡ false = ground arith in rw other refl

pub wide_mark :
    (n : ℕ) (t : List ℕ) → n < u64_mod → wide 0xffff_ffff (le_bytes 8 n ++ t) ≡ some (n, t)
unfolding wide
wide_mark n t h = number-le_bytes 8 n t (omega arith)

zip64_field-extra :
    (k : ℕ) (body : List ℕ)
    → length body ≡ k
    → k < 0x1_0000
    → zip64_field (le_bytes 2 1 ++ (le_bytes 2 k ++ body)) ≡ some body
unfolding zip64_field
zip64_field-extra k body l h =
    rw (fields-encoded ((2, 1) ∷ (2, k) ∷ []) body (omega (arith, h)))
      (rw (ap (bytes k) (sym (append-nil body)) ∙ bytes-front k body [] l) refl)

zip64_data_lem : (t : List ℕ) → zip64_data (le_bytes 2 1 ++ t) ≡ zip64_field (le_bytes 2 1 ++ t)
unfolding zip64_data le_bytes
zip64_data_lem t = refl

-- An extra field with this data.
pub zip64_data-extra :
    (k : ℕ) (body : List ℕ)
    → length body ≡ k
    → k < 0x1_0000
    → zip64_data (le_bytes 2 1 ++ (le_bytes 2 k ++ body)) ≡ some body
zip64_data-extra k body l h = zip64_data_lem _ ∙ zip64_field-extra k body l h

pub zip64_data-nil : zip64_data [] ≡ some []
unfolding zip64_data
zip64_data-nil = refl

abbrev local_fields : ZipEntry → ℕ → ℕ → List (ℕ × ℕ)
local_fields e size extra_len =
    (4, 0x0403_4b50)
    ∷ (2, version_of e.local_zip64)
    ∷ (2, 0x0800)
    ∷ (2, 0)
    ∷ (2, 0)
    ∷ (2, 0x0021)
    ∷ (4, 0)
    ∷ (4, size)
    ∷ (4, size)
    ∷ (2, as_u16 (length e.name_bytes))
    ∷ (2, extra_len)
    ∷ []

local_header_lem :
    (e : ZipEntry)
    → local_header_of e 0
      ≡ encoded
          (local_fields e
            (if e.local_zip64 then as_u32 u32_max else as_u32 e.size)
            (if e.local_zip64 then as_u16 (zip64_extra_header + zip64_local_data) else 0))
          (e.name_bytes ++ local_extra e)
unfolding local_header_of
local_header_lem e = refl

local_fields-AllFit :
    (e : ZipEntry) (size extra_len : ℕ)
    → size < 0x1_0000_0000
    → extra_len < 0x1_0000
    → AllFit (local_fields e size extra_len)
local_fields-AllFit e size extra_len hs hx =
    let version : version_of e.local_zip64 < 46 = ground arith in omega (arith, version, hs, hx)

pub same_number : (n : ℕ) → (n == n) ≡ true
same_number n = (==_iff n n).1 refl

-- The name, the extra field and the data behind the fixed part.
local_file_fields :
    (e : ZipEntry) (size extra_len : ℕ) (extra content rest z z' z'' : List ℕ)
    → IsPlain e
    → size < 0x1_0000_0000
    → extra_len < 0x1_0000
    → length extra ≡ extra_len
    → length content ≡ e.size
    → zip64_data extra ≡ some z
    → wide size z ≡ some (e.size, z')
    → wide size z' ≡ some (e.size, z'')
    → local_file e.name_bytes 0 e.size
        (encoded (local_fields e size extra_len) (e.name_bytes ++ (extra ++ (content ++ rest))))
      ≡ some content
unfolding local_file
local_file_fields e size extra_len extra content rest z z' z'' p hs hx lx lc hz hw hw' =
    let name_len : length e.name_bytes ≡ as_u16 (length e.name_bytes) =
      omega (arith, p.name_fits) in
    rw
      (
        fields-encoded (local_fields e size extra_len)
            (e.name_bytes ++ (extra ++ (content ++ rest)))
            (local_fields-AllFit e size extra_len hs hx),
        bytes-front (as_u16 (length e.name_bytes)) e.name_bytes (extra ++ (content ++ rest))
            name_len,
        bytes-front extra_len extra (content ++ rest) lx,
        hz,
        hw,
        hw',
        =bytes=_refl e.name_bytes,
        same_number e.size,
        bytes-front e.size content rest lc,
      )
      refl

abbrev large_data : ZipEntry → List ℕ
large_data e = le_bytes 8 e.size ++ le_bytes 8 e.size

length-large_data : (e : ZipEntry) → length (large_data e) ≡ 16
length-large_data e =
    length-append (le_bytes 8 e.size) (le_bytes 8 e.size) ∙ omega (arith, length-le_bytes 8 e.size)

abbrev large_extra : ZipEntry → List ℕ
large_extra e = le_bytes 2 1 ++ (le_bytes 2 16 ++ large_data e)

length-large_extra : (e : ZipEntry) → length (large_extra e) ≡ 20
unfolding le_bytes
length-large_extra e = ap (λ n. 4 + n) (length-large_data e)

local_extra-large : (e : ZipEntry) → e.local_zip64 ≡ true → local_extra e ≡ large_extra e
unfolding local_extra
local_extra-large e h = rw h refl

local_extra-small : (e : ZipEntry) → e.local_zip64 ≡ false → local_extra e ≡ []
unfolding local_extra
local_extra-small e h = rw h refl

-- The size field and the length of the extra field.
abbrev size_field : ZipEntry → Bool → ℕ
size_field e b = if b then as_u32 u32_max else as_u32 e.size

abbrev extra_len_field : Bool → ℕ
extra_len_field b = if b then as_u16 (zip64_extra_header + zip64_local_data) else 0

local_header_case :
    (e : ZipEntry) (b : Bool) (extra : List ℕ)
    → e.local_zip64 ≡ b
    → local_extra e ≡ extra
    → local_header_of e 0
      ≡ encoded (local_fields e (size_field e b) (extra_len_field b)) (e.name_bytes ++ extra)
local_header_case e b extra h hx =
    local_header_lem e
    ∙ ap₂
        (λ b' extra'.
          encoded (local_fields e (size_field e b') (extra_len_field b')) (e.name_bytes ++ extra'))
        h hx

header_then :
    (e : ZipEntry) (size extra_len : ℕ) (extra content rest : List ℕ)
    → local_header_of e 0 ≡ encoded (local_fields e size extra_len) (e.name_bytes ++ extra)
    → (local_header_of e 0 ++ content) ++ rest
      ≡ encoded (local_fields e size extra_len) (e.name_bytes ++ (extra ++ (content ++ rest)))
header_then e size extra_len extra content rest h =
    append_assoc (local_header_of e 0) content rest
    ∙ ap (λ l. l ++ (content ++ rest)) h
    ∙ encoded-append (local_fields e size extra_len) (e.name_bytes ++ extra) (content ++ rest)
    ∙ ap (encoded (local_fields e size extra_len))
        (append_assoc e.name_bytes extra (content ++ rest))

pub local_file-local_header_of :
    (e : ZipEntry) (content rest : List ℕ)
    → IsPlain e
    → e.local_zip64 ≡ is_large e
    → length content ≡ e.size
    → local_file e.name_bytes 0 e.size ((local_header_of e 0 ++ content) ++ rest) ≡ some content
local_file-local_header_of e content rest p l lc = elim (Bool-cases e.local_zip64) [
  | inl large ↦
      let last : wide 0xffff_ffff (le_bytes 8 e.size) ≡ some (e.size, []) =
        ap (wide 0xffff_ffff) (sym (append-nil (le_bytes 8 e.size)))
        ∙ wide_mark e.size [] p.size_fits in
      ap (local_file e.name_bytes 0 e.size) (
        header_then e 0xffff_ffff 20 (large_extra e) content rest
          (local_header_case e true (large_extra e) large (local_extra-large e large)))
      ∙ local_file_fields e 0xffff_ffff 20 (large_extra e) content rest (large_data e)
          (le_bytes 8 e.size) [] p (omega arith) (omega arith) (length-large_extra e) lc
          (zip64_data-extra 16 _ (length-large_data e) (omega arith))
          (wide_mark e.size (le_bytes 8 e.size) p.size_fits) last
  | inr small ↦
      let below : e.size < 0xffff_ffff = not_large e p (sym l ∙ small) in
      let same : as_u32 e.size ≡ e.size = omega (arith, below) in
      let direct : wide (as_u32 e.size) [] ≡ some (e.size, []) =
        ap (λ n. wide n []) same ∙ wide_itself e.size [] below in
      ap (local_file e.name_bytes 0 e.size) (
        header_then e (as_u32 e.size) 0 [] content rest
          (local_header_case e false [] small (local_extra-small e small)))
      ∙ local_file_fields e (as_u32 e.size) 0 [] content rest [] [] [] p (omega (arith, below))
          (omega arith) refl lc zip64_data-nil direct direct
]
