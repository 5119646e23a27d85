-- ===== src/Archive/Tar/Untar/RoundTrip.antt =====
-- src/archive/tar.rs against the reader of the format: what is packed is what comes out.
use raas.Prelude.{
  ℕ, zero, suc, ◌+◌, ◌<◌, ◌≡◌, refl, sym, ap, ap₂, ◌∙◌, true, false, Option, none, some, List, [],
  ◌∷◌, ◌++◌, append_assoc, length, replicate, length-replicate, get_elem?, map, if◌then◌else◌,
  =bytes=_refl, arith, inl, inr, Bool-cases,
}
use raas.Prelude.Words.{u64_mod}
use raas.Io.{ok}
use raas.Io.Paths.{FilePath}
use raas.Archive.Scanner.{ScannedEntry}
use raas.Archive.Tiles.{concat}
use raas.Archive.Tar.Crate.{TarCrate, IsTarCrate}
use raas.Archive.Tar.Header.{FileInfo, create_header}
use raas.Archive.Tar.Header.Parsed.{create_header-IsMember}
use raas.Archive.Tar.Header.Members.{calculate_padding-padding}
use raas.Archive.Tar.Index.{TarEntry, TarArchive, file_info, create}
use raas.Archive.Tar.Index.Layout.{scan_size, Indexes, create-IsLaidOut}
use raas.Archive.Tar.Image.{offset_of, entry_bytes, image}
use raas.Archive.Zip.Unzip.{◌>>=◌}
use raas.Archive.Zip.Unzip.Fields.{bytes-front}
use raas.Archive.Tar.Untar.{
  View, Untarred, ended, broken, file, last, padding, read_member, member_of, next_of, untar,
}
use raas.Archive.Tar.Untar.Members.{ReadsBack}

replicate-append : (n m : ℕ) → replicate {A = ℕ} n 0 ++ replicate m 0 ≡ replicate (n + m) 0
replicate-append zero m = ap (λ k. replicate k 0) (omega arith)
replicate-append (suc n) m =
    ap (λ l. 0 ∷ l) (replicate-append n m) ∙ ap (λ k. replicate k 0) {x = suc (n + m)} (omega arith)

regrouped : (a b c d : List ℕ) → (a ++ (b ++ c)) ++ d ≡ a ++ (b ++ (c ++ d))
regrouped a b c d = simp append_assoc

module _ (held : List ℕ → List ℕ) where
  -- What stands behind a path; a directory holds nothing.
  abbrev pub content_of : TarEntry → List ℕ
  content_of e = if e.info.is_dir then [] else held e.info.path

  -- What must come out for an item of the scan.
  abbrev pub unpacked : ScannedEntry → Untarred
  unpacked s = record {
    name = s.relative_path;
    is_dir = s.is_dir;
    content = if s.is_dir then [] else held s.relative_path;
  }

  module _ (crate : TarCrate) (law : IsTarCrate crate) (parse : List ℕ → Option View)
      (back : ReadsBack crate parse) where
    -- An item with a path that headers store as it is, and as many bytes as scanned.
    pub record IsPackable (s : ScannedEntry) : Type 0 where
      pub stored : back.StoredAsIs s.relative_path
      pub held_size : s.is_dir ≡ false → length (held s.relative_path) ≡ s.size

    file_size : (s : ScannedEntry) → IsPackable s → length (unpacked s).content ≡ (file_info s).size
    unfolding file_info
    file_size s p = elim (Bool-cases s.is_dir) [ inl d ↦ rw d refl | inr f ↦ rw f (p.held_size f) ]

    empty_dir : (s : ScannedEntry) → (file_info s).is_dir ≡ true → (file_info s).size ≡ 0
    unfolding file_info
    empty_dir s d = rw d refl

    zero_block : (rest : List ℕ) → member_of parse (replicate 512 0) rest none ≡ ended
    unfolding member_of
    zero_block rest = ap (λ b. if b then ended else broken) (=bytes=_refl (replicate 512 0))

    end_of_archive : next_of parse (read_member parse (replicate 1024 0)) ≡ last
    unfolding next_of read_member member_of
    end_of_archive =
        ap (λ bs. next_of parse (read_member parse bs)) (sym (replicate-append 512 512))
        ∙ rw
            (
              bytes-front 512 (replicate 512 0) (replicate 512 0) (length-replicate {A = ℕ} 512 0),
              back.zero_law,
            )
            (ap (next_of parse) (zero_block (replicate 512 0)))

    untar-last : (fuel : ℕ) → untar parse (suc fuel) (replicate 1024 0) ≡ some []
    unfolding untar
    untar-last fuel = rw (untar, end_of_archive) refl

    untar-file :
        (fuel : ℕ) (bs rest : List ℕ) (f : Untarred)
        → next_of parse (read_member parse bs) ≡ file f rest
        → untar parse (suc fuel) bs ≡ (untar parse fuel rest >>= λ more. some (f ∷ more))
    unfolding untar
    untar-file fuel bs rest f h = rw (untar, h) refl

    entry-member :
        (s : ScannedEntry) (e : TarEntry) (rest : List ℕ)
        → IsPackable s
        → e.info ≡ record (file_info s) { offset = e.info.offset }
        → create_header crate (file_info s) ≡ ok e.header
        → next_of parse (read_member parse (entry_bytes content_of e ++ rest))
          ≡ file (unpacked s) rest
    unfolding file_info
    entry-member s e rest p same made =
        let content : List ℕ = (unpacked s).content in
        let kind : e.info.is_dir ≡ s.is_dir = ap (λ (x : FileInfo). x.is_dir) same in
        let path : e.info.path ≡ s.relative_path = ap (λ (x : FileInfo). x.path) same in
        let size : e.info.size ≡ length content =
          ap (λ (x : FileInfo). x.size) same ∙ sym (file_size s p) in
        let bytes_lem : entry_bytes content_of e
            ≡ e.header ++ (content ++ replicate (padding (length content)) 0) =
          ap₂ (λ c n. e.header ++ (c ++ replicate n 0))
            (ap₂ (λ b q. if b then [] else held q) kind path)
            (calculate_padding-padding e.info.size ∙ ap padding size) in
        ap (λ bs. next_of parse (read_member parse (bs ++ rest))) bytes_lem
        ∙ ap (λ bs. next_of parse (read_member parse bs))
            (regrouped e.header content (replicate (padding (length content)) 0) rest)
        ∙ create_header-IsMember crate law parse back (file_info s) content rest e.header made
            (empty_dir s) p.stored (file_size s p)

    untar-entries :
        (fuel : ℕ) (scanned : List ScannedEntry) (es : List TarEntry)
        → length scanned < fuel
        → Indexes crate scanned es
        → ((i : ℕ) (s : ScannedEntry) → get_elem? scanned i ≡ some s → IsPackable s)
        → untar parse fuel (concat offset_of (entry_bytes content_of) es ++ replicate 1024 0)
          ≡ some (map unpacked scanned)
    untar-entries zero scanned es h ix p = absurd (omega arith)
    untar-entries (suc fuel) [] [] h ix p = untar-last fuel
    untar-entries (suc fuel) [] (e ∷ es) h ix p = absurd ix
    untar-entries (suc fuel) (s ∷ ss) [] h ix p = absurd ix
    untar-entries (suc fuel) (s ∷ ss) (e ∷ es) h ix p =
        let rest : List ℕ = concat offset_of (entry_bytes content_of) es ++ replicate 1024 0 in
        ap (untar parse (suc fuel)) (
          append_assoc (entry_bytes content_of e) (concat offset_of (entry_bytes content_of) es)
            (replicate 1024 0))
        ∙ untar-file fuel (entry_bytes content_of e ++ rest) rest (unpacked s)
            (entry-member s e rest (p 0 s refl) ix.0 ix.1)
        ∙ ap (λ r. r >>= λ more. some (unpacked s ∷ more))
            (untar-entries fuel ss es (omega (arith, h)) ix.2 (λ i. p (suc i)))

    -- An independent reader of the format reads back the items of the scan, with their names and bytes.
    pub untar-create :
        (source : FilePath) (scanned : List ScannedEntry) (archive : TarArchive) (fuel : ℕ)
        → scan_size crate scanned + 1024 < u64_mod
        → create crate source (ok scanned) ≡ ok archive
        → ((i : ℕ) (s : ScannedEntry) → get_elem? scanned i ≡ some s → IsPackable s)
        → length scanned < fuel
        → untar parse fuel (image content_of archive.entries) ≡ some (map unpacked scanned)
    untar-create source scanned archive fuel fits made p h =
        untar-entries fuel scanned archive.entries h
          (create-IsLaidOut crate law source scanned archive fits made).1 p
