-- ===== src/Archive/Zip/Unzip/RoundTrip.antt =====
-- src/archive/zip.rs against the reader of the format: what is packed is what comes out.
use raas.Prelude.{
  ℕ, suc, ◌+◌, ◌≤◌, ◌<◌, ◌≡◌, refl, sym, ap, ◌∙◌, some, List, [], ◌∷◌, ◌++◌, append_assoc, length,
  length-append, get_elem?, map, drop, arith, ◌≢◌, if◌then◌else◌,
}
use raas.Prelude.Words.{u64_mod, sub64_exact}
use raas.Archive.Zip.Index.{ZipEntry, ZipArchive, assemble}
use raas.Archive.Zip.Index.Layout.{
  IsLocalLaidOut, IsCentralLaidOut, local_spans, central_spans, local_span,
}
use raas.Archive.Zip.Records.{local_header_of, central_entry_of, write_eocd}
use raas.Archive.Zip.Records.Lengths.{length-local_header_of}
use raas.Archive.Zip.Image.{IsZipLayout, data_part, directory_part, zip64_part, image}
use raas.Archive.Zip.Image.Build.{data_run, directory_run}
use raas.Archive.Zip.Unzip.{Unzipped, files, unzip, end_record, local_file}
use raas.Archive.Zip.Unzip.Fields.{drop-front}
use raas.Archive.Zip.Unzip.Local.{IsPlain, local_file-local_header_of}
use raas.Archive.Zip.Unzip.Central.{central_file-central_entry_of}
use raas.Archive.Zip.Unzip.End.{IsSayable, end_record-eocd}

-- What must come out for an entry.
abbrev pub unzipped : (ZipEntry → List ℕ) → ZipEntry → Unzipped
unzipped content e = record {
  name = e.name_bytes;
  is_dir = e.is_dir;
  checksum = 0;
  content = content e;
}

module _ (content : ZipEntry → List ℕ) where
  abbrev packed : ZipEntry → List ℕ
  packed e = local_header_of e 0 ++ content e

  length-packed :
      (e : ZipEntry)
      → length (content e) ≡ e.size
      → e.local_header_len ≡ 30 + length e.name_bytes + (if e.local_zip64 then 20 else 0)
      → length (packed e) ≡ local_span e
  length-packed e s h =
      length-append (local_header_of e 0) (content e)
      ∙ omega (arith, s, h, length-local_header_of e 0)

  files-directory_part :
      (es : List ZipEntry) (base cbase : ℕ) (front tail rest : List ℕ)
      → length front ≡ base
      → IsLocalLaidOut base es
      → IsCentralLaidOut cbase es
      → base + local_spans es < u64_mod
      → ((i : ℕ) (e : ZipEntry) → get_elem? es i ≡ some e → IsPlain e)
      → ((i : ℕ) (e : ZipEntry) → get_elem? es i ≡ some e → length (content e) ≡ e.size)
      → files
          (front ++ (data_part content es ++ tail))
          (length es)
          (directory_part content es ++ rest)
        ≡ some (map (unzipped content) es)
  unfolding files
  files-directory_part [] base cbase front tail rest lf l c fits plain sized = refl
  files-directory_part (e ∷ es) base cbase front tail rest lf l c fits plain sized =
      let whole : List ℕ = front ++ (data_part content (e ∷ es) ++ tail) in
      let p : IsPlain e = plain 0 e refl in
      let s : length (content e) ≡ e.size = sized 0 e refl in
      let here : drop e.local_offset whole ≡ packed e ++ (data_part content es ++ tail) =
        ap (λ n. drop n whole) (l.0 ∙ sym lf)
        ∙ drop-front front _
        ∙ append_assoc (packed e) (data_part content es) tail in
      let next : whole ≡ (front ++ packed e) ++ (data_part content es ++ tail) =
        ap (λ t. front ++ t) (append_assoc (packed e) (data_part content es) tail)
        ∙ sym (append_assoc front (packed e) _) in
      let len : length (front ++ packed e) ≡ base + local_span e =
        length-append front (packed e) ∙ omega (arith, lf, length-packed e s l.2) in
      rw
        (
          append_assoc (central_entry_of e 0) (directory_part content es) rest,
          central_file-central_entry_of e (directory_part content es ++ rest) p
              (omega (arith, l.0, fits)) c.1 c.2,
          ap (local_file e.name_bytes 0 e.size) here
              ∙ local_file-local_header_of e (content e) (data_part content es ++ tail) p l.1 s,
          ap (λ w. files w (length es) (directory_part content es ++ rest)) next
              ∙ files-directory_part es (base + local_span e) (cbase + e.central_len)
                  (front ++ packed e) tail rest len l.3 c.4 (omega (arith, fits))
                  (λ i. plain (suc i)) (λ i. sized (suc i)),
        )
        refl

  count_lem :
      (es : List ZipEntry) (base : ℕ) → IsCentralLaidOut base es → length es ≤ central_spans es
  count_lem [] base c = omega arith
  count_lem (e ∷ es) base c = omega (arith, c.3, count_lem es (base + e.central_len) c.4)

  assembled-Ends :
      (z : ZipArchive) (cd_offset cd_size : ℕ)
      → z ≡ assemble z.entries cd_offset (cd_offset + cd_size)
      → cd_offset + cd_size < u64_mod
      → (z.cd_offset ≡ cd_offset)
        × (z.cd_size ≡ cd_size)
        × (z.zip64_eocd_offset ≡ cd_offset + cd_size)
  unfolding assemble
  assembled-Ends z cd_offset cd_size e h = (
    ap (λ y. y.cd_offset) e,
    ap (λ y. y.cd_size) e
        ∙ sub64_exact (cd_offset + cd_size) cd_offset (omega arith) h
        ∙ omega arith,
    ap (λ y. y.zip64_eocd_offset) e,
  )

  module _ (z : ZipArchive) (layout : IsZipLayout z)
      (sized : (i : ℕ) (e : ZipEntry)
        → get_elem? z.entries i ≡ some e
        → length (content e) ≡ e.size)
      (count : length z.entries ≢ 0xffff) where
    places :
        (z.cd_offset ≡ local_spans z.entries)
        × (z.cd_size ≡ central_spans z.entries)
        × (z.zip64_eocd_offset ≡ local_spans z.entries + central_spans z.entries)
    places = assembled-Ends z _ _ layout.assembled (omega (arith, layout.fits))

    z-IsSayable : IsSayable z
    z-IsSayable =
        let n = count_lem z.entries (local_spans z.entries) layout.directory in
        record {
          count_fits = omega (arith, n, layout.fits);
          size_fits = omega (arith, places, layout.fits);
          offset_fits = omega (arith, places, layout.fits);
          end_fits = omega (arith, places, layout.fits);
          not_the_mark = count;
        }

    abbrev front : List ℕ
    front = data_part content z.entries ++ directory_part content z.entries

    length-front : length front ≡ z.zip64_eocd_offset
    length-front =
        length-append (data_part content z.entries) (directory_part content z.entries)
        ∙ omega (
          arith,
          (data_run content z layout sized).1,
          (directory_run content z layout sized).1,
          places,
        )

    abbrev end_part : List ℕ
    end_part = zip64_part content z ++ write_eocd z

    directory_found :
        drop z.cd_offset (image content z) ≡ directory_part content z.entries ++ end_part
    directory_found =
        ap (λ n. drop n (image content z)) (places.0 ∙ sym (data_run content z layout sized).1)
        ∙ drop-front (data_part content z.entries) _

    pub unzip-image :
        ((i : ℕ) (e : ZipEntry) → get_elem? z.entries i ≡ some e → IsPlain e)
        → unzip (image content z) ≡ some (map (unzipped content) z.entries)
    unfolding unzip
    unzip-image plain =
        rw
          (
            ap end_record (
                  sym (
                    append_assoc (data_part content z.entries) (directory_part content z.entries)
                      end_part))
                ∙ end_record-eocd z z-IsSayable front length-front,
            directory_found,
          )
          (files-directory_part z.entries 0 (local_spans z.entries) []
            (directory_part content z.entries ++ end_part) end_part refl layout.local_part
            layout.directory (omega (arith, layout.fits)) plain sized)
