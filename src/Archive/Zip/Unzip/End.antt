-- ===== src/Archive/Zip/Unzip/End.antt =====
-- The reader of the end records, on what src/archive/zip.rs writes.
use raas.Prelude.{
  ℕ, ◌-◌, ◌<◌, ◌≡◌, refl, sym, ap, ◌∙◌, min, Bool, false, ◌||◌, some, List, [], ◌∷◌, ◌++◌,
  append_assoc, length, length-append, ◌==◌, leb, ltb, arith, inl, inr, Bool-cases, if◌then◌else◌,
  ap₂, drop,
}
use raas.Prelude.Words.{le_bytes, as_u16, as_u32, u64_mod}
use raas.Archive.Zip.Index.{ZipArchive, needs_zip64_eocd, u32_max, u16_max}
use raas.Archive.Zip.Records.{write_zip64_eocd, write_zip64_locator, write_eocd}
use raas.Archive.Zip.Records.Lengths.{length-write_zip64_locator, length-write_eocd}
use raas.Archive.Zip.Unzip.{fields, end_record, end_widths, zip64_end}
use raas.Archive.Zip.Unzip.Fields.{
  encoded, AllFit, values, fields-encoded, encoded-append, drop-front,
}

-- A field of all ones.
marked16 : (n : ℕ) → ¬ (n ≡ 0xffff) → (as_u16 (min n u16_max) == 0xffff) ≡ ltb u16_max n
marked16 n h = ground (arith, h)

marked32 : (n : ℕ) → (as_u32 (min n u32_max) == 0xffff_ffff) ≡ leb u32_max n
marked32 n = ground arith

unmarked16 : (n : ℕ) → ltb u16_max n ≡ false → as_u16 (min n u16_max) ≡ n
unmarked16 n h = ground (arith, h)

unmarked32 : (n : ℕ) → leb u32_max n ≡ false → as_u32 (min n u32_max) ≡ n
unmarked32 n h = ground (arith, h)

abbrev end_fields : ZipArchive → List (ℕ × ℕ)
end_fields z =
    let count = as_u16 (min (length z.entries) u16_max) in
    (4, 0x0605_4b50)
    ∷ (2, 0)
    ∷ (2, 0)
    ∷ (2, count)
    ∷ (2, count)
    ∷ (4, as_u32 (min z.cd_size u32_max))
    ∷ (4, as_u32 (min z.cd_offset u32_max))
    ∷ (2, 0)
    ∷ []

write_eocd_lem : (z : ZipArchive) → write_eocd z ≡ encoded (end_fields z) []
unfolding write_eocd le_bytes
write_eocd_lem z = refl

end_fields-AllFit : (z : ZipArchive) → AllFit (end_fields z)
end_fields-AllFit z = omega arith

abbrev locator_fields : ZipArchive → List (ℕ × ℕ)
locator_fields z = (4, 0x0706_4b50) ∷ (4, 0) ∷ (8, z.zip64_eocd_offset) ∷ (4, 1) ∷ []

locator_lem :
    (z : ZipArchive) (t : List ℕ) → write_zip64_locator z ++ t ≡ encoded (locator_fields z) t
unfolding write_zip64_locator le_bytes
locator_lem z t = encoded-append (locator_fields z) [] t

abbrev zip64_fields : ZipArchive → List (ℕ × ℕ)
zip64_fields z =
    let count = length z.entries in
    (4, 0x0606_4b50)
    ∷ (8, 44)
    ∷ (2, 20)
    ∷ (2, 45)
    ∷ (4, 0)
    ∷ (4, 0)
    ∷ (8, count)
    ∷ (8, count)
    ∷ (8, z.cd_size)
    ∷ (8, z.cd_offset)
    ∷ []

zip64_eocd_lem :
    (z : ZipArchive) (t : List ℕ) → write_zip64_eocd z ++ t ≡ encoded (zip64_fields z) t
unfolding write_zip64_eocd le_bytes
zip64_eocd_lem z t = encoded-append (zip64_fields z) [] t

-- The last `n` bytes.
drop-last :
    (n : ℕ) (front back : List ℕ)
    → length back ≡ n
    → drop (length (front ++ back) - n) (front ++ back) ≡ back
drop-last n front back h =
    ap (λ m. drop m (front ++ back)) {y = length front} (omega (arith, h, length-append front back))
    ∙ drop-front front back

-- Counts and offsets that the end records can say.
pub record IsSayable (z : ZipArchive) : Type 0 where
  pub count_fits : length z.entries < u64_mod
  pub size_fits : z.cd_size < u64_mod
  pub offset_fits : z.cd_offset < u64_mod
  pub end_fits : z.zip64_eocd_offset < u64_mod
  pub not_the_mark : ¬ (length z.entries ≡ 0xffff)

module _ (z : ZipArchive) (say : IsSayable z) (front : List ℕ) where
  abbrev needed : Bool
  needed = needs_zip64_eocd (length z.entries) z.cd_size z.cd_offset

  abbrev with_zip64 : List ℕ
  with_zip64 = front ++ ((write_zip64_eocd z ++ write_zip64_locator z) ++ write_eocd z)

  -- The locator stands before the end record.
  locator_found :
      drop (length with_zip64 - 42) with_zip64 ≡ encoded (locator_fields z) (write_eocd z)
  locator_found =
      let back : List ℕ = write_zip64_locator z ++ write_eocd z in
      let split : with_zip64 ≡ (front ++ write_zip64_eocd z) ++ back =
        ap (λ l. front ++ l)
          (append_assoc (write_zip64_eocd z) (write_zip64_locator z) (write_eocd z))
        ∙ sym (append_assoc front (write_zip64_eocd z) back) in
      let len : length back ≡ 42 =
        length-append (write_zip64_locator z) (write_eocd z)
        ∙ omega (arith, length-write_zip64_locator z, length-write_eocd z) in
      ap (λ l. drop (length l - 42) l) split
      ∙ drop-last 42 (front ++ write_zip64_eocd z) back len
      ∙ locator_lem z (write_eocd z)

  record_found :
      length front ≡ z.zip64_eocd_offset
      → drop z.zip64_eocd_offset with_zip64
        ≡ encoded (zip64_fields z) (write_zip64_locator z ++ write_eocd z)
  record_found h =
      ap (λ n. drop n with_zip64) (sym h)
      ∙ drop-front front _
      ∙ append_assoc (write_zip64_eocd z) (write_zip64_locator z) (write_eocd z)
      ∙ zip64_eocd_lem z (write_zip64_locator z ++ write_eocd z)

  zip64_end_lem :
      length front ≡ z.zip64_eocd_offset
      → zip64_end with_zip64 ≡ some (length z.entries, z.cd_offset)
  unfolding zip64_end
  zip64_end_lem h =
      rw
        (
          locator_found,
          fields-encoded (locator_fields z) (write_eocd z) (omega (arith, say.end_fits)),
          record_found h,
          fields-encoded (zip64_fields z) (write_zip64_locator z ++ write_eocd z)
              (omega (arith, say.count_fits, say.size_fits, say.offset_fits)),
        )
        refl

  abbrev zip64_records : Bool → List ℕ
  zip64_records b = if b then write_zip64_eocd z ++ write_zip64_locator z else []

  end_found :
      (middle : List ℕ)
      → let whole = front ++ (middle ++ write_eocd z) in
        fields end_widths (drop (length whole - 22) whole) ≡ some (values (end_fields z), [])
  end_found middle =
      ap (λ l. fields end_widths (drop (length l - 22) l))
        (sym (append_assoc front middle (write_eocd z)))
      ∙ ap (fields end_widths)
          (drop-last 22 (front ++ middle) (write_eocd z) (length-write_eocd z) ∙ write_eocd_lem z)
      ∙ fields-encoded (end_fields z) [] (end_fields-AllFit z)

  marks :
      (as_u16 (min (length z.entries) u16_max) == 0xffff
        || as_u32 (min z.cd_size u32_max) == 0xffff_ffff
        || as_u32 (min z.cd_offset u32_max) == 0xffff_ffff)
      ≡ needed
  unfolding needs_zip64_eocd
  marks =
      rw (marked16 (length z.entries) say.not_the_mark, marked32 z.cd_size, marked32 z.cd_offset)
        refl

  unneeded :
      needed ≡ false
      → (as_u16 (min (length z.entries) u16_max) ≡ length z.entries)
        × (as_u32 (min z.cd_offset u32_max) ≡ z.cd_offset)
  unfolding needs_zip64_eocd
  unneeded b = ground (arith, b)

  pub end_record-eocd :
      length front ≡ z.zip64_eocd_offset
      → end_record (front ++ (zip64_records needed ++ write_eocd z))
        ≡ some (length z.entries, z.cd_offset)
  unfolding end_record
  end_record-eocd h = elim (Bool-cases needed) [
    | inl b ↦ rw (end_found (zip64_records needed), marks, b) (zip64_end_lem h)
    | inr b ↦
        rw (end_found (zip64_records needed), marks, b)
          (ap₂ (λ n m. some (n, m)) (unneeded b).0 (unneeded b).1)
  ]
