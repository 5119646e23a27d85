-- ===== src/Archive/Tar/Image.antt =====
-- The tar file that an index stands for, as one list of bytes, and what it takes to serve it.
use raas.Prelude.{
  ℕ, zero, suc, ◌+◌, ◌%◌, ◌≤◌, ◌<◌, ◌≡◌, refl, sym, some, List, [], ◌∷◌, ◌++◌, length,
  length-append, length-replicate, get_elem?, replicate, arith, subst,
}
use raas.Prelude.Words.{u64_mod}
use raas.Io.{Disk, IsConsistent, HoldsFile}
use raas.Archive.Tiles.{concat, Tiles}
use raas.Archive.Tar.Header.{calculate_padding}
use raas.Archive.Tar.Header.Blocks.{calculate_padding_lem}
use raas.Archive.Tar.Index.{TarEntry, TarArchive}
use raas.Archive.Tar.Index.Layout.{span, spans, IsLaidOut}
use raas.Archive.Tar.Reader.{source_file}

abbrev pub offset_of : TarEntry → ℕ
offset_of e = e.info.offset

module _ (content : TarEntry → List ℕ) where
  abbrev pub entry_bytes : TarEntry → List ℕ
  entry_bytes e = e.header ++ (content e ++ replicate (calculate_padding e.info.size) 0)

  -- The entries in order, then two zero blocks.
  abbrev pub image : List TarEntry → List ℕ
  image entries = concat offset_of entry_bytes entries ++ replicate 1024 0

  -- The archive's size is that of its index, and the files behind its entries can be read and hold
  -- `content`, as long as the index says.
  pub record IsServable (disk : Disk) (archive : TarArchive) : Type 0 where
    pub laid_out : IsLaidOut 0 archive.entries
    pub total : archive.total_size ≡ spans archive.entries + 1024
    pub fits : archive.total_size < u64_mod
    pub consistent : IsConsistent disk
    pub sized :
        (i : ℕ) (e : TarEntry)
        → get_elem? archive.entries i ≡ some e
        → length (content e) ≡ e.info.size
    pub held :
        (i : ℕ) (e : TarEntry)
        → get_elem? archive.entries i ≡ some e
        → 0 < e.info.size
        → HoldsFile disk (source_file disk archive e) (content e)

  pub length-entry_bytes :
      (e : TarEntry) → length (content e) ≡ e.info.size → length (entry_bytes e) ≡ span e
  length-entry_bytes e h =
      let pad : List ℕ = replicate (calculate_padding e.info.size) 0 in
      let a = length-append e.header (content e ++ pad) in
      let b = length-append (content e) pad in
      let c = length-replicate {A = ℕ} (calculate_padding e.info.size) 0 in omega arith

  pub Tiles-image :
      (base : ℕ) (entries : List TarEntry)
      → IsLaidOut base entries
      → ((i : ℕ) (e : TarEntry) → get_elem? entries i ≡ some e → length (content e) ≡ e.info.size)
      → Tiles offset_of entry_bytes base entries
        × (length (concat offset_of entry_bytes entries) ≡ spans entries)
  Tiles-image base [] laid sized = (tt, refl)
  Tiles-image base (e ∷ es) laid sized =
      let l = length-entry_bytes e (sized 0 e refl) in
      let r = Tiles-image (base + span e) es laid.3 (λ i. sized (suc i)) in
      let a = length-append (entry_bytes e) (concat offset_of entry_bytes es) in
      (
        (laid.0, subst (λ n. Tiles offset_of entry_bytes (base + n) es) (sym l) r.0),
        omega (arith, r.1),
      )

  -- The tar file of a servable archive is exactly as long as the archive says.
  pub length-image :
      (disk : Disk) (archive : TarArchive)
      → IsServable disk archive
      → length (image archive.entries) ≡ archive.total_size
  length-image disk archive s =
      let r = Tiles-image 0 archive.entries s.laid_out s.sized in
      let a = length-append (concat offset_of entry_bytes archive.entries) (replicate 1024 0) in
      let c = length-replicate {A = ℕ} 1024 0 in omega (arith, r.1, s.total)

-- What the layout says of one entry.
pub record IsPlaced (e : TarEntry) (total : ℕ) : Type 0 where
  pub aligned : e.info.offset % 512 ≡ 0
  pub blocks : length e.header % 512 ≡ 0
  pub nonempty : 512 ≤ length e.header
  pub inside : e.info.offset + span e ≤ total

pub IsLaidOut-IsPlaced :
    (base : ℕ) (entries : List TarEntry) (i : ℕ) (e : TarEntry)
    → base % 512 ≡ 0
    → IsLaidOut base entries
    → get_elem? entries i ≡ some e
    → IsPlaced e (base + spans entries)
IsLaidOut-IsPlaced base [] i e a laid h = absurd (cc)
IsLaidOut-IsPlaced base (x ∷ xs) zero e a laid h =
    let same : x ≡ e = cc in
    subst (λ w. IsPlaced w (base + spans (x ∷ xs))) same
      (record { aligned = omega arith; blocks = laid.1; nonempty = laid.2; inside = omega arith })
IsLaidOut-IsPlaced base (x ∷ xs) (suc i) e a laid h =
    let p = calculate_padding_lem x.info.size in
    let r = IsLaidOut-IsPlaced (base + span x) xs i e (omega arith) laid.3 h in
    record {
      aligned = r.aligned;
      blocks = r.blocks;
      nonempty = r.nonempty;
      inside = omega (arith, r.inside);
    }
