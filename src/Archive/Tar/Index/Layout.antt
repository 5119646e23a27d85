-- ===== src/Archive/Tar/Index/Layout.antt =====
-- The index that src/archive/tar.rs builds: entries in whole blocks, one behind the other.
use raas.Prelude.{
  ℕ, ◌+◌, ◌%◌, ◌≤◌, ◌<◌, ◌≡◌, refl, sym, ap, ◌∙◌, inl, inr, List, [], ◌∷◌, ◌++◌, length,
  append_assoc, append-nil, arith,
}
use raas.Prelude.Words.{add64_exact, u64_mod}
use raas.Io.{Result, ok, err, Result-cases}
use raas.Io.Paths.{FilePath}
use raas.Archive.Error.{ArchiveError}
use raas.Archive.Scanner.{ScannedEntry}
use raas.Archive.Tar.Crate.{TarCrate, IsTarCrate}
use raas.Archive.Tar.Header.{FileInfo, calculate_padding, create_header}
use raas.Archive.Tar.Header.Blocks.{calculate_padding_lem, create_header-blocks}
use raas.Archive.Tar.Index.{
  TarEntry, TarArchive, Building, align_to_boundary, file_info, place, add_entries, start_building,
  finish, create,
}

-- The bytes that an entry takes: header, content and padding.
abbrev pub span : TarEntry → ℕ
span e = length e.header + e.info.size + calculate_padding e.info.size

abbrev pub spans : List TarEntry → ℕ
spans [] = 0
spans (e ∷ es) = span e + spans es

-- Each entry starts where the one before it ends, and its header is whole blocks.
abbrev pub IsLaidOut : ℕ → List TarEntry → Type 0
IsLaidOut base [] = Unit
IsLaidOut base (e ∷ es) =
    (e.info.offset ≡ base)
    × (length e.header % 512 ≡ 0)
    × (512 ≤ length e.header)
    × IsLaidOut (base + span e) es

module _ (crate : TarCrate) where
  -- The entries are the items of the scan in order, each with its place and its header.
  abbrev pub Indexes : List ScannedEntry → List TarEntry → Type 0
  Indexes [] [] = Unit
  Indexes [] (e ∷ es) = ⊥
  Indexes (i ∷ is) [] = ⊥
  Indexes (i ∷ is) (e ∷ es) =
      (e.info ≡ record (file_info i) { offset = e.info.offset })
      × (create_header crate (file_info i) ≡ ok e.header)
      × Indexes is es

  abbrev pub header_span : ScannedEntry → Result ArchiveError (List ℕ) → ℕ
  header_span i (ok h) = length h + (file_info i).size + calculate_padding (file_info i).size
  header_span i (err e) = 0

  -- The exact number of bytes that the items of a scan take.
  abbrev pub scan_size : List ScannedEntry → ℕ
  scan_size [] = 0
  scan_size (i ∷ is) = header_span i (create_header crate (file_info i)) + scan_size is

  -- What `add_entries` appends.
  pub record Added (b b' : Building) (items : List ScannedEntry) : Type 0 where
    pub added : List TarEntry
    pub split : b'.entries ≡ b.entries ++ added
    pub laid_out : IsLaidOut b.current_pos added
    pub indexes : Indexes items added
    pub end_pos : b'.current_pos ≡ b.current_pos + spans added

-- A position in whole blocks stays where it is.
align_of_aligned : (pos : ℕ) → pos % 512 ≡ 0 → align_to_boundary pos 512 ≡ pos
unfolding align_to_boundary
align_of_aligned pos h = ground arith

abbrev placed_entry : Building → FileInfo → List ℕ → TarEntry
placed_entry b info header = record {
  info = record info { offset = b.current_pos };
  header = header;
}

place_lem :
    (b : Building) (info : FileInfo) (header : List ℕ)
    → b.current_pos % 512 ≡ 0
    → b.current_pos + (length header + info.size + calculate_padding info.size) < u64_mod
    → ((place b info header).entries ≡ b.entries ++ (placed_entry b info header ∷ []))
      × ((place b info header).current_pos
          ≡ b.current_pos + (length header + info.size + calculate_padding info.size))
unfolding place
place_lem b info header a h =
    let o = align_of_aligned b.current_pos a in
    let size = info.size in
    let pad = calculate_padding size in
    let at = b.current_pos + length header in
    (
      rw o refl,
      rw
          (
            o,
            add64_exact b.current_pos (length header) (omega arith),
            add64_exact at size (omega arith),
            add64_exact (at + size) pad (omega arith),
          )
          (omega arith),
    )

aligned_next :
    (pos size hlen : ℕ)
    → pos % 512 ≡ 0
    → hlen % 512 ≡ 0
    → (pos + (hlen + size + calculate_padding size)) % 512 ≡ 0
aligned_next pos size hlen a b = let p = calculate_padding_lem size in omega arith

module _ (crate : TarCrate) where
  header_size :
      (i : ScannedEntry) (header : List ℕ)
      → create_header crate (file_info i) ≡ ok header
      → header_span crate i (create_header crate (file_info i))
        ≡ length header + (file_info i).size + calculate_padding (file_info i).size
  header_size i header e = rw e refl

  add_entries_ok :
      (b : Building) (i : ScannedEntry) (rest : List ScannedEntry) (header : List ℕ)
      → create_header crate (file_info i) ≡ ok header
      → add_entries crate (place b (file_info i) header) rest ≡ add_entries crate b (i ∷ rest)
  unfolding add_entries
  add_entries_ok b i rest header e = rw (e, add_entries) refl

  add_entries_err :
      (b : Building) (i : ScannedEntry) (rest : List ScannedEntry) (x : ArchiveError)
      → create_header crate (file_info i) ≡ err x
      → add_entries crate b (i ∷ rest) ≡ err x
  unfolding add_entries
  add_entries_err b i rest x e = rw (e, add_entries) refl

module _ (crate : TarCrate) (law : IsTarCrate crate) where
  prepend_entry :
      (b b' : Building) (i : ScannedEntry) (rest : List ScannedEntry) (header : List ℕ)
      → b.current_pos % 512 ≡ 0
      → create_header crate (file_info i) ≡ ok header
      → b.current_pos + (length header + (file_info i).size + calculate_padding (file_info i).size)
        < u64_mod
      → Added crate (place b (file_info i) header) b' rest
      → Added crate b b' (i ∷ rest)
  prepend_entry b b' i rest header a e fits more =
      let l = place_lem b (file_info i) header a fits in
      let blocks = create_header-blocks crate law (file_info i) header e in
      let new = placed_entry b (file_info i) header in
      record {
        added = new ∷ more.added;
        split =
            more.split
            ∙ ap (λ es. es ++ more.added) l.0
            ∙ append_assoc b.entries (new ∷ []) more.added;
        laid_out = (refl, blocks.0, blocks.1, rw l.1 at more.laid_out);
        indexes = (refl, e, more.indexes);
        end_pos = omega (arith, more.end_pos, l.1);
      }

  -- From an aligned place with room for the items, they are appended in order, in whole blocks.
  add_entries-Added :
      (items : List ScannedEntry) (b b' : Building)
      → b.current_pos % 512 ≡ 0
      → b.current_pos + scan_size crate items < u64_mod
      → add_entries crate b items ≡ ok b'
      → Added crate b b' items
  unfolding add_entries
  add_entries-Added [] b b' a fits h =
      let e : b' ≡ b = cc in
      record {
        added = [];
        split = ap (λ (c : Building). c.entries) e ∙ sym (append-nil b.entries);
        laid_out = tt;
        indexes = tt;
        end_pos = ap (λ (c : Building). c.current_pos) e ∙ omega arith;
      }
  add_entries-Added (i ∷ rest) b b' a fits h =
      elim (Result-cases (create_header crate (file_info i))) [
        | inl (header, e) ↦
            let sized = header_size crate i header e in
            let l = place_lem b (file_info i) header a (omega arith) in
            let blocks = create_header-blocks crate law (file_info i) header e in
            prepend_entry b b' i rest header a e (omega arith) (
              add_entries-Added rest (place b (file_info i) header) b'
                (rw l.1 (aligned_next b.current_pos (file_info i).size (length header) a blocks.0))
                (rw l.1 (omega arith)) (add_entries_ok crate b i rest header e ∙ h))
        | inr (x, e) ↦ cc (add_entries_err crate b i rest x e)
      ]

  -- The size of the entries is that of the items.
  pub spans-eq-scan_size :
      (items : List ScannedEntry) (es : List TarEntry)
      → Indexes crate items es
      → spans es ≡ scan_size crate items
  spans-eq-scan_size [] [] h = refl
  spans-eq-scan_size [] (e ∷ es) h = absurd h
  spans-eq-scan_size (i ∷ is) [] h = absurd h
  spans-eq-scan_size (i ∷ is) (e ∷ es) h =
      let size : e.info.size ≡ (file_info i).size = ap (λ (f : FileInfo). f.size) h.0 in
      rw size (omega (arith, header_size crate i e.header h.1, spans-eq-scan_size is es h.2))

  finish_lem :
      (source : FilePath) (scanned : List ScannedEntry) (archive : TarArchive) (b : Building)
      → scan_size crate scanned + 1024 < u64_mod
      → Added crate start_building b scanned
      → archive ≡ finish source b
      → IsLaidOut 0 archive.entries
        × Indexes crate scanned archive.entries
        × (archive.total_size ≡ spans archive.entries + 1024)
        × (archive.source_path ≡ source)
  unfolding finish
  finish_lem source scanned archive b fits a done =
      let sized = spans-eq-scan_size scanned a.added a.indexes in
      rw done (
        rw a.split (
          a.laid_out,
          a.indexes,
          rw (a.end_pos, add64_exact (0 + spans a.added) 1024 (omega arith)) (omega arith),
          refl,
        ))

  -- If the tar crate's headers are one block each and `create` returns an index of a scan that
  -- fits in 64 bits, its entries are the items of the scan in order, in whole blocks, one
  -- directly behind the other from 0 on, each with its header, and the total size is theirs and
  -- the two zero blocks'.
  pub create-IsLaidOut :
      (source : FilePath) (scanned : List ScannedEntry) (archive : TarArchive)
      → scan_size crate scanned + 1024 < u64_mod
      → create crate source (ok scanned) ≡ ok archive
      → IsLaidOut 0 archive.entries
        × Indexes crate scanned archive.entries
        × (archive.total_size ≡ spans archive.entries + 1024)
        × (archive.source_path ≡ source)
  unfolding create
  create-IsLaidOut source scanned archive fits h =
      elim (Result-cases (add_entries crate start_building scanned)) [
        | inl (b, e) ↦
            let a : Added crate start_building b scanned =
              add_entries-Added scanned start_building b refl (omega arith) e in
            let done : archive ≡ finish source b = cc in
            finish_lem source scanned archive b fits a done
        | inr (x, e) ↦ cc
      ]
