-- ===== src/Tests/Zips.antt =====
-- A zip archive of the same directory.
use raas.Prelude.{
  ℕ, zero, suc, ◌+◌, ◌<◌, ◌≤◌, false, ◌≡◌, refl, true, none, some, List, [], ◌∷◌, map, length,
  get_elem?, arith, subst,
}
use raas.Prelude.Words.{u64_mod, add64, sub64}
use raas.Io.{HoldsFile}
use raas.Io.Paths.{FilePath}
use raas.Archive.Zip.Index.{
  ZipEntry, build, new_entry, layout_local, layout_central, place_local, place_central, assemble,
  needs_zip64_eocd,
}
use raas.Archive.Zip.Index.Layout.{local_bound, central_bound, core}
use raas.Archive.Zip.Image.{IsZipLayout, IsBacked, image}
use raas.Archive.Zip.Image.Build.{fresh, build-IsZipLayout, segments-Spans}
use raas.Archive.Zip.Image.Segments.{Spans}
use raas.Archive.Zip.Reader.{read_into_buffer, stream_range}
use raas.Archive.Zip.Reader.Read.{ReadsImage, read_into_buffer-ReadsZip}
use raas.Archive.Zip.Unzip.Built.{content_of}
use raas.Archive.Zip.Served.{made-IsZipLayout, build-read_into_buffer}
use raas.Server.Stream.{create_stream_body, stream_buffer_size}
use raas.Server.Stream.Laws.{Delivers}
use raas.Server.Stream.Zips.{zip_read, zip_body-Delivers}
use raas.Tests.Files.{disk, consistent, root, file_bytes, first_file}
use raas.Tests.Tars.{directory, file, scan}

pub small : local_bound (fresh scan) + central_bound (fresh scan) + 98 < u64_mod
unfolding new_entry
small = omega arith

abbrev placed : ℕ → ℕ → ZipEntry → ZipEntry
placed pos cpos e = place_central cpos (place_local pos e)

entries_are :
    (build scan).entries ≡ placed 0 67 (new_entry directory) ∷ placed 31 114 (new_entry file) ∷ []
unfolding build new_entry layout_local layout_central place_local place_central assemble add64
entries_are = refl

-- Every path leads to the same file.
abbrev pub held : FilePath → List ℕ
held path = file_bytes 0

abbrev pub content : ZipEntry → List ℕ
content = content_of held

abbrev source : ZipEntry → FilePath
source e = elim e.source_path [ none ↦ root | some path ↦ path ]

record IsThere (e : ZipEntry) : Type 0 where
  sized : length (content e) ≡ e.size
  has_source : 0 < e.size → e.source_path ≡ some (source e)
  held : 0 < e.size → HoldsFile disk (source e) (content e)

are-IsThere :
    (i : ℕ) (e : ZipEntry)
    → get_elem? (placed 0 67 (new_entry directory) ∷ placed 31 114 (new_entry file) ∷ []) i ≡ some e
    → IsThere e
unfolding new_entry place_local place_central
are-IsThere zero e h =
    let same : placed 0 67 (new_entry directory) ≡ e = cc in
    subst IsThere same (record {
      sized = refl;
      has_source = λ w. absurd (omega arith);
      held = λ w. absurd (omega arith);
    })
are-IsThere (suc zero) e h =
    let same : placed 31 114 (new_entry file) ≡ e = cc in
    subst IsThere same (record { sized = refl; has_source = λ w. refl; held = λ w. first_file })
are-IsThere (suc (suc i)) e h = absurd (cc)

pub backed : IsBacked content disk (build scan)
backed = record {
  consistent = consistent;
  sized = λ i e h. (are-IsThere i e (rw entries_are at h)).sized;
  source = source;
  has_source = λ i e h. (are-IsThere i e (rw entries_are at h)).has_source;
  held = λ i e h. (are-IsThere i e (rw entries_are at h)).held;
}

zip_layout_example :
    IsZipLayout (build scan) × (map core (build scan).entries ≡ map core (fresh scan))
zip_layout_example = build-IsZipLayout scan small

segments_example : Spans content (build scan) 0 (image content (build scan)) (build scan).segments
segments_example =
    segments-Spans content (build scan) (made-IsZipLayout disk scan content small backed)
      backed.sized

-- Bytes 60 to 130: the data of `d/f` and the start of the central directory.
zip_served_example :
    ReadsImage disk
      (build scan)
      content
      (made-IsZipLayout disk scan content small backed)
      backed
      (stream_range 60 130)
      64
      (read_into_buffer disk (build scan) 65 (stream_range 60 130) 64)
zip_served_example =
    build-read_into_buffer disk scan content small backed 60 130 65 64 (omega arith)

zip_read_example :
    ReadsImage disk
      (build scan)
      content
      (made-IsZipLayout disk scan content small backed)
      backed
      (record {
        end = 90;
        current_pos = 64;
        buffers = record { file_handle_cache = none; scratch = [] };
      })
      10
      (read_into_buffer disk
        (build scan)
        11
        (record {
          end = 90;
          current_pos = 64;
          buffers = record { file_handle_cache = none; scratch = [] };
        })
        10)
zip_read_example =
    read_into_buffer-ReadsZip disk (build scan) content
      (made-IsZipLayout disk scan content small backed) backed 11
      (record {
        end = 90;
        current_pos = 64;
        buffers = record { file_handle_cache = none; scratch = [] };
      })
      10 (omega arith) tt

total_size_is : (build scan).total_size ≡ 185
unfolding build new_entry layout_local layout_central place_local place_central assemble add64
    needs_zip64_eocd sub64
total_size_is = refl

pub zip_inside : 130 ≤ (build scan).total_size
zip_inside = omega (arith, total_size_is)

zip_body_example :
    Delivers
      (λ k. true)
      (stream_buffer_size 70000)
      (image content (build scan))
      130
      60
      (record { items = []; sent_bytes = 0; aborted_by_client = false })
      (create_stream_body (zip_read disk (build scan)) (λ k. true) 71 70000 (stream_range 60 130))
zip_body_example =
    zip_body-Delivers disk (build scan) content (made-IsZipLayout disk scan content small backed)
      backed 130 zip_inside (λ k. true) 71 60 70000 (omega arith)
