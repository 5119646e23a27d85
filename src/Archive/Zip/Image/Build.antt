-- ===== src/Archive/Zip/Image/Build.antt =====
-- The index that `build` makes from a scan, and its total size.
use raas.Prelude.{
  ℕ, ◌+◌, ◌≤◌, ◌<◌, ◌≡◌, refl, sym, ap, ap₂, ◌∙◌, Bool, some, List, [], ◌∷◌, ◌++◌, length,
  length-append, get_elem?, map, inl, inr, Bool-cases, arith, if◌then◌else◌, subst,
}
use raas.Prelude.Words.{u64_mod, add64, add64_exact, sub64, sub64_exact}
use raas.Archive.Scanner.{ScannedEntry}
use raas.Archive.Zip.Index.{
  ZipEntry, ZipArchive, Segment, eocd, new_entry, local_segments, central_segments, zip64_segments,
  assemble, needs_zip64_eocd, build, layout_local, layout_central,
}
use raas.Archive.Zip.Index.Layout.{
  IsLocalLaidOut, IsCentralLaidOut, local_spans, central_spans, local_bound, central_bound, core,
  LocalPlaced, CentralPlaced, layout_local-LocalPlaced, layout_central-CentralPlaced,
}
use raas.Archive.Zip.Records.{write_zip64_eocd, write_zip64_locator, write_eocd}
use raas.Archive.Zip.Records.Lengths.{
  length-write_zip64_eocd, length-write_zip64_locator, length-write_eocd,
}
use raas.Archive.Zip.Image.{IsZipLayout, data_part, directory_part, zip64_part, image}
use raas.Archive.Zip.Image.Segments.{
  LooksUp, Spans, Spans-append, one, nothing, local_segments-Spans, central_segments-Spans,
}

-- Whether an archive has the Zip64 records.
abbrev has_zip64 : ZipArchive → Bool
has_zip64 z = needs_zip64_eocd (length z.entries) z.cd_size z.cd_offset

record Fields (z : ZipArchive) (es : List ZipEntry) (cd_offset cpos : ℕ) : Type 0 where
  segments :
      z.segments
      ≡ local_segments 0 es
        ++ (central_segments 0 es
            ++ (zip64_segments (has_zip64 z) cpos
                ++ (record { start = sub64 z.total_size 22; len = 22; kind = eocd } ∷ [])))
  total : z.total_size ≡ add64 (if has_zip64 z then add64 cpos 76 else cpos) 22

assembled-Fields :
    (z : ZipArchive) (es : List ZipEntry) (cd_offset cpos : ℕ)
    → z ≡ assemble es cd_offset cpos
    → Fields z es cd_offset cpos
unfolding assemble
assembled-Fields z es cd_offset cpos e = rw e (record { segments = refl; total = refl })

module _ (content : ZipEntry → List ℕ) (z : ZipArchive) where
  length-zip64_part : length (zip64_part content z) ≡ (if has_zip64 z then 76 else 0)
  length-zip64_part =
      let a = length-append (write_zip64_eocd z) (write_zip64_locator z) in
      elim (Bool-cases (has_zip64 z)) [
        | inl b ↦ rw b (omega (arith, length-write_zip64_eocd z, length-write_zip64_locator z))
        | inr b ↦ rw b refl
      ]

  zip64_segments-Spans :
      (cpos : ℕ)
      → cpos + 98 < u64_mod
      → Spans content z cpos (zip64_part content z) (zip64_segments (has_zip64 z) cpos)
  unfolding zip64_segments
  zip64_segments-Spans cpos fits = elim (Bool-cases (has_zip64 z)) [
    | inr b ↦ rw b (nothing content z cpos [] refl)
    | inl b ↦
        let l = length-write_zip64_eocd z in
        rw b (
          Spans-append content z cpos (write_zip64_eocd z) (write_zip64_locator z) (_ ∷ []) (_ ∷ [])
            (one content z cpos _ (write_zip64_eocd z) refl refl (sym l))
            (one content z _ _ (write_zip64_locator z)
              (add64_exact cpos 56 (omega arith) ∙ ap (λ n. cpos + n) (sym l)) refl
              (sym (length-write_zip64_locator z))))
  ]

  module _ (layout : IsZipLayout z)
      (sized : (i : ℕ) (e : ZipEntry)
        → get_elem? z.entries i ≡ some e
        → length (content e) ≡ e.size) where
    abbrev directory_end : ℕ
    directory_end = local_spans z.entries + central_spans z.entries

    total_exact : z.total_size ≡ directory_end + (if has_zip64 z then 76 else 0) + 22
    total_exact =
        let f = (assembled-Fields z z.entries _ directory_end layout.assembled).total in
        let h = layout.fits in
        elim (Bool-cases (has_zip64 z)) [
          | inl b ↦
              (rw b at f)
              ∙ (rw
                  (
                    add64_exact directory_end 76 (omega arith),
                    add64_exact (directory_end + 76) 22 (omega arith),
                    b,
                  )
                  (omega arith))
          | inr b ↦ (rw b at f) ∙ rw (add64_exact directory_end 22 (omega arith), b) (omega arith)
        ]

    pub total_size-lt : z.total_size < u64_mod
    total_size-lt =
        let extra : (if has_zip64 z then 76 else 0) ≤ 76 = ground arith in
        omega (arith, total_exact, layout.fits)

    up : LooksUp content z 0 z.entries
    up j = ap (get_elem? z.entries) {x = 0 + j} (omega arith)

    pub data_run :
        Spans content z 0 (data_part content z.entries) (local_segments 0 z.entries)
        × (length (data_part content z.entries) ≡ local_spans z.entries)
    data_run =
        local_segments-Spans content z 0 0 z.entries up layout.local_part sized
          (omega (arith, layout.fits))

    pub directory_run :
        Spans content z
          (local_spans z.entries)
          (directory_part content z.entries)
          (central_segments 0 z.entries)
        × (length (directory_part content z.entries) ≡ central_spans z.entries)
    directory_run =
        central_segments-Spans content z 0 (local_spans z.entries) z.entries up layout.directory

    end_run :
        Spans content z
          (directory_end + length (zip64_part content z))
          (write_eocd z)
          (record { start = sub64 z.total_size 22; len = 22; kind = eocd } ∷ [])
    end_run =
        let l = length-zip64_part in
        let extra : (if has_zip64 z then 76 else 0) ≤ 76 = ground arith in
        one content z _ _ (write_eocd z)
          (sub64_exact z.total_size 22 (omega (arith, total_exact))
              (omega (arith, total_exact, layout.fits))
            ∙ omega (arith, total_exact))
          refl (sym (length-write_eocd z))

    abbrev tail_segments : List Segment
    tail_segments =
        zip64_segments (has_zip64 z) directory_end
        ++ (record { start = sub64 z.total_size 22; len = 22; kind = eocd } ∷ [])

    abbrev tail_part : List ℕ
    tail_part = zip64_part content z ++ write_eocd z

    tail_run : Spans content z directory_end tail_part tail_segments
    tail_run =
        Spans-append content z directory_end (zip64_part content z) (write_eocd z)
          (zip64_segments (has_zip64 z) directory_end) (_ ∷ [])
          (zip64_segments-Spans directory_end (omega (arith, layout.fits))) end_run

    records_run :
        Spans content z
          (local_spans z.entries)
          (directory_part content z.entries ++ tail_part)
          (central_segments 0 z.entries ++ tail_segments)
    records_run =
        let base : directory_end
            ≡ local_spans z.entries + length (directory_part content z.entries) =
          omega (arith, directory_run.1) in
        Spans-append content z (local_spans z.entries) (directory_part content z.entries) tail_part
          (central_segments 0 z.entries) tail_segments directory_run.0
          (subst (λ n. Spans content z n tail_part tail_segments) base tail_run)

    -- If the files are as long as indexed, the segments of a laid out index tile the zip file:
    -- one behind the other from 0 on, each as long as the record or the data that it stands for.
    pub segments-Spans : Spans content z 0 (image content z) z.segments
    segments-Spans =
        let base : local_spans z.entries ≡ 0 + length (data_part content z.entries) =
          omega (arith, data_run.1) in
        let rest : List Segment = central_segments 0 z.entries ++ tail_segments in
        let part : List ℕ = directory_part content z.entries ++ tail_part in
        subst (Spans content z 0 (image content z))
          (sym (assembled-Fields z z.entries _ directory_end layout.assembled).segments)
          (Spans-append content z 0 (data_part content z.entries) part (local_segments 0 z.entries)
            rest data_run.0 (subst (λ n. Spans content z n part rest) base records_run))

    -- If the files are as long as indexed, the zip file of a laid out index is exactly as long as
    -- the index says, with and without the Zip64 records.
    pub length-zip_image : length (image content z) ≡ z.total_size
    length-zip_image =
        let tail : List ℕ = zip64_part content z ++ write_eocd z in
        let directory : List ℕ = directory_part content z.entries in
        let a = length-append (data_part content z.entries) (directory ++ tail) in
        let b = length-append directory tail in
        let c = length-append (zip64_part content z) (write_eocd z) in
        let l = length-zip64_part in
        omega (arith, data_run.1, directory_run.1, length-write_eocd z, total_exact)

-- The passes on the entries of a scan.
abbrev pub fresh : List ScannedEntry → List ZipEntry
fresh scanned = map new_entry scanned

assemble-entries :
    (es : List ZipEntry) (cd_offset cpos : ℕ) → (assemble es cd_offset cpos).entries ≡ es
unfolding assemble
assemble-entries es cd_offset cpos = refl

layout_of :
    (es : List ZipEntry) (cd_offset cpos : ℕ)
    → cd_offset ≡ local_spans es
    → cpos ≡ local_spans es + central_spans es
    → IsLocalLaidOut 0 es
    → IsCentralLaidOut cd_offset es
    → local_spans es + central_spans es + 98 < u64_mod
    → IsZipLayout (assemble es cd_offset cpos)
unfolding assemble
layout_of es cd_offset cpos a b l c fits =
    let e = assemble-entries es cd_offset cpos in
    record {
      local_part = rw e l;
      directory = rw e (rw a at c);
      assembled = rw e (ap₂ (assemble es) a b);
      fits = rw e fits;
    }

-- For a scan that fits in 64 bits, both passes of `build` lay out the items of the scan in order,
-- local headers and data first and the central directory directly behind, and leave names,
-- sources and sizes as they were.
pub build-IsZipLayout :
    (scanned : List ScannedEntry)
    → local_bound (fresh scanned) + central_bound (fresh scanned) + 98 < u64_mod
    → IsZipLayout (build scanned) × (map core (build scanned).entries ≡ map core (fresh scanned))
unfolding build
build-IsZipLayout scanned fits =
    let first : List ZipEntry × ℕ = layout_local 0 (fresh scanned) in
    let l : LocalPlaced 0 (fresh scanned) first =
      layout_local-LocalPlaced 0 (fresh scanned) (omega arith) in
    let second : List ZipEntry × ℕ = layout_central first.1 first.0 in
    let c : CentralPlaced first.1 first.0 second =
      layout_central-CentralPlaced first.1 first.0 (omega (arith, l.end, l.below, l.directory)) in
    let end : second.1 ≡ local_spans second.0 + central_spans second.0 =
      omega (arith, l.end, c.end, c.same) in
    (
      layout_of second.0 first.1 second.1 (omega (arith, l.end, c.same)) end (c.keeps 0 l.laid_out)
          c.laid_out (omega (arith, l.below, c.below, l.directory, c.same)),
      rw (assemble-entries second.0 first.1 second.1) (c.cores ∙ l.cores),
    )
