-- ===== src/Archive/Tar/Reader/Pieces.antt =====
-- Where the pieces of an entry stand in the image of the archive.
use raas.Prelude.{
  ℕ, ◌+◌, ◌-◌, ◌≤◌, ◌<◌, ◌≡◌, refl, ap, ◌∙◌, ◌⊎◌, none, some, List, length, get_elem?, replicate,
  ltb, inl, inr, Bool-cases, arith,
}
use raas.Prelude.Slices.{slice, slice-append_left, slice-append_right, slice-replicate}
use raas.Io.{Disk}
use raas.Archive.Tiles.{concat, Tiles-slice, Tiles-Found, Found}
use raas.Archive.Tar.Header.{calculate_padding}
use raas.Archive.Tar.Header.Blocks.{calculate_padding_lem}
use raas.Archive.Tar.Index.{TarEntry, TarArchive}
use raas.Archive.Tar.Index.Layout.{span, spans}
use raas.Archive.Tar.Image.{
  offset_of, entry_bytes, image, IsServable, length-entry_bytes, Tiles-image, IsPlaced,
  IsLaidOut-IsPlaced,
}
use raas.Archive.Tar.Reader.{item_end, locate}
use raas.Archive.Tar.Reader.Locate.{item_end_exact, locate-none}

module _ (disk : Disk) (archive : TarArchive) (content : TarEntry → List ℕ)
    (servable : IsServable content disk archive) where
  abbrev pub whole : List ℕ
  whole = image content archive.entries

  pub placed :
      (i : ℕ) (e : TarEntry)
      → get_elem? archive.entries i ≡ some e
      → IsPlaced e (spans archive.entries)
  placed i e h =
      let p = IsLaidOut-IsPlaced 0 archive.entries i e refl servable.laid_out h in
      record {
        aligned = p.aligned;
        blocks = p.blocks;
        nonempty = p.nonempty;
        inside = omega (arith, p.inside);
      }

  -- A piece of an entry is found at its place in the image.
  entry_slice :
      (i : ℕ) (e : TarEntry) (pos k : ℕ)
      → get_elem? archive.entries i ≡ some e
      → e.info.offset ≤ pos
      → pos + k ≤ e.info.offset + span e
      → slice pos k whole ≡ slice (pos - e.info.offset) k (entry_bytes content e)
  entry_slice i e pos k h lo hi =
      let t = Tiles-image content 0 archive.entries servable.laid_out servable.sized in
      let l = length-entry_bytes content e (servable.sized i e h) in
      let p = placed i e h in
      let all : List ℕ = concat offset_of (entry_bytes content) archive.entries in
      slice-append_left pos k all (replicate 1024 0) (omega (arith, t.1, p.inside))
      ∙ ap (λ n. slice n k all) {y = pos - 0} (omega arith)
      ∙ Tiles-slice offset_of (entry_bytes content) 0 archive.entries i e pos k t.0 h lo
          (omega (arith, l))

  pub header_slice :
      (i : ℕ) (e : TarEntry) (pos k : ℕ)
      → get_elem? archive.entries i ≡ some e
      → e.info.offset ≤ pos
      → pos + k ≤ e.info.offset + length e.header
      → slice pos k whole ≡ slice (pos - e.info.offset) k e.header
  header_slice i e pos k h lo hi =
      entry_slice i e pos k h lo (omega arith)
      ∙ slice-append_left (pos - e.info.offset) k e.header _ (omega arith)

  pub slice-content :
      (i : ℕ) (e : TarEntry) (pos k : ℕ)
      → get_elem? archive.entries i ≡ some e
      → e.info.offset + length e.header ≤ pos
      → pos + k ≤ e.info.offset + length e.header + e.info.size
      → slice pos k whole ≡ slice (pos - (e.info.offset + length e.header)) k (content e)
  slice-content i e pos k h lo hi =
      let sized = servable.sized i e h in
      entry_slice i e pos k h (omega arith) (omega arith)
      ∙ slice-append_right (pos - e.info.offset) k e.header _ (omega arith)
      ∙ slice-append_left (pos - e.info.offset - length e.header) k (content e) _ (omega arith)
      ∙ ap (λ n. slice n k (content e)) {x = pos - e.info.offset - length e.header} (omega arith)

  padding_slice :
      (i : ℕ) (e : TarEntry) (pos k : ℕ)
      → get_elem? archive.entries i ≡ some e
      → e.info.offset + length e.header + e.info.size ≤ pos
      → pos + k ≤ e.info.offset + span e
      → slice pos k whole ≡ replicate k 0
  padding_slice i e pos k h lo hi =
      let sized = servable.sized i e h in
      let n : ℕ = calculate_padding e.info.size in
      entry_slice i e pos k h (omega arith) hi
      ∙ slice-append_right (pos - e.info.offset) k e.header _ (omega arith)
      ∙ slice-append_right (pos - e.info.offset - length e.header) k (content e) _ (omega arith)
      ∙ slice-replicate (pos - e.info.offset - length e.header - length (content e)) k n 0
          (omega arith)

  tail_slice :
      (pos k : ℕ)
      → spans archive.entries ≤ pos
      → pos + k ≤ archive.total_size
      → slice pos k whole ≡ replicate k 0
  tail_slice pos k lo hi =
      let t = Tiles-image content 0 archive.entries servable.laid_out servable.sized in
      let all : List ℕ = concat offset_of (entry_bytes content) archive.entries in
      slice-append_right pos k all (replicate 1024 0) (omega (arith, t.1))
      ∙ slice-replicate (pos - length all) k 1024 0 (omega (arith, t.1, servable.total))

  -- From the end of an entry's content the next block boundary is the end of the entry.
  calculate_padding_after :
      (i : ℕ) (e : TarEntry) (pos : ℕ)
      → get_elem? archive.entries i ≡ some e
      → e.info.offset + length e.header + e.info.size ≤ pos
      → pos < e.info.offset + span e
      → pos + calculate_padding pos ≡ e.info.offset + span e
  calculate_padding_after i e pos h lo hi =
      let p = placed i e h in
      let a = calculate_padding_lem e.info.size in
      let b = calculate_padding_lem pos in omega (arith, p.aligned, p.blocks)

  placed_item_end :
      (i : ℕ) (e : TarEntry)
      → get_elem? archive.entries i ≡ some e
      → item_end e ≡ e.info.offset + length e.header + e.info.size
  placed_item_end i e h =
      let p = placed i e h in
      item_end_exact e (omega (arith, p.inside, servable.total, servable.fits))

  -- Outside the headers and contents the image is zero, up to the next block boundary or, from a
  -- boundary on, up to the end.
  pub zeros_slice :
      (pos cursor k : ℕ)
      → (locate archive.entries cursor pos).0 ≡ none
      → pos + k ≤ archive.total_size
      → (calculate_padding pos ≡ 0) ⊎ (k ≤ calculate_padding pos)
      → slice pos k whole ≡ replicate k 0
  zeros_slice pos cursor k n hi short = elim (Bool-cases (ltb pos (spans archive.entries))) [
    | inr past ↦ tail_slice pos k (ground arith) hi
    | inl inside ↦
        let t = Tiles-image content 0 archive.entries servable.laid_out servable.sized in
        let f : Found offset_of (entry_bytes content) archive.entries pos =
          Tiles-Found offset_of (entry_bytes content) 0 pos archive.entries t.0 (omega arith)
            (ground (arith, t.1)) in
        let l = length-entry_bytes content f.item (servable.sized f.index f.item f.elem) in
        let past = locate-none archive.entries cursor pos f.index f.item f.point f.elem n in
        let e = placed_item_end f.index f.item f.elem in
        let hi' : pos < f.item.info.offset + span f.item = omega (arith, f.to) in
        let after = calculate_padding_after f.index f.item pos f.elem (omega arith) hi' in
        padding_slice f.index f.item pos k f.elem (omega arith) (omega arith)
  ]
