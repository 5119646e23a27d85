-- ===== src/Archive/Zip/Unzip/Built.antt =====
-- From a scan to what a reader of the format makes of the archive that is built for it.
use raas.Prelude.{
  ℕ, zero, suc, ◌+◌, ◌≤◌, ◌<◌, ◌≡◌, ◌≢◌, refl, sym, ap, ◌∙◌, subst, Bool, true, Option, none, some,
  List, [], ◌∷◌, length, get_elem?, map, arith, if◌then◌else◌, ◌==◌,
}
use raas.Prelude.Words.{u64_mod}
use raas.Io.Paths.{FilePath}
use raas.Archive.Scanner.{ScannedEntry}
use raas.Archive.Zip.Index.{ZipEntry, new_entry, build}
use raas.Archive.Zip.Index.Layout.{local_bound, central_bound, core}
use raas.Archive.Zip.Image.{image}
use raas.Archive.Zip.Image.Build.{fresh, build-IsZipLayout}
use raas.Archive.Zip.Unzip.{Unzipped, unzip, verified, unzip_verified}
use raas.Archive.Zip.Unzip.RoundTrip.{unzipped, unzip-image}

length-map : {A B : Type 0} (f : A → B) (xs : List A) → length (map f xs) ≡ length xs
length-map f [] = refl
length-map f (x ∷ xs) = ap suc (length-map f xs)

-- The passes keep the number of entries.
length-built :
    (es : List ZipEntry) (scanned : List ScannedEntry)
    → map core es ≡ map core (fresh scanned)
    → length es ≡ length scanned
length-built es scanned h =
    sym (length-map core es)
    ∙ ap length h
    ∙ length-map core (fresh scanned)
    ∙ length-map new_entry scanned

abbrev Core : Type 0
Core = List ℕ × List ℕ × Option FilePath × ℕ × Bool

module _ (held : FilePath → List ℕ) where
  -- What the files hold; a directory holds nothing.
  abbrev held_by : Option FilePath → List ℕ
  held_by none = []
  held_by (some path) = held path

  abbrev pub content_of : ZipEntry → List ℕ
  content_of e = held_by e.source_path

  abbrev pub scanned_content : ScannedEntry → List ℕ
  scanned_content s = held_by (if s.is_dir then none else some s.source_path)

  -- What must come out for an item of the scan, with the checksum 0.
  abbrev pub unpacked : ScannedEntry → Unzipped
  unpacked s = record {
    name = s.relative_path;
    is_dir = s.is_dir;
    checksum = 0;
    content = scanned_content s;
  }

  -- What a reader that verifies checksums gives for an item of the scan: its data, if their
  -- checksum is 0, and otherwise nothing.
  abbrev pub given : (List ℕ → ℕ) → ScannedEntry → Option (List ℕ)
  given sum s = if sum (scanned_content s) == 0 then some (scanned_content s) else none

  -- An item with a name of less than 2 ^ 16 bytes and as many bytes as scanned, none for a
  -- directory.
  pub record IsPackable (s : ScannedEntry) : Type 0 where
    pub name_fits : length s.relative_path < 0x1_0000
    pub held_size : length (held_by (if s.is_dir then none else some s.source_path)) ≡ s.size

  record IsGood (c : Core) : Type 0 where
    name_fits : length c.1 < 0x1_0000
    size_fits : c.3 < u64_mod
    dir_is_empty : c.4 ≡ true → c.3 ≡ 0
    held_size : length (held_by c.2) ≡ c.3

  abbrev AllGood : List Core → Type 0
  AllGood [] = Unit
  AllGood (c ∷ cs) = IsGood c × AllGood cs

  entry_core :
      (es : List ZipEntry) (i : ℕ) (e : ZipEntry)
      → AllGood (map core es)
      → get_elem? es i ≡ some e
      → IsGood (core e)
  entry_core [] i e all h = absurd (cc)
  entry_core (e' ∷ es) zero e all h =
      let same : e' ≡ e = cc in subst (λ x. IsGood (core x)) same all.0
  entry_core (e' ∷ es) (suc i) e all h = entry_core es i e all.1 h

  core_of-IsGood :
      (s : ScannedEntry) → IsPackable s → s.size < u64_mod → IsGood (core (new_entry s))
  unfolding new_entry
  core_of-IsGood s p h = record {
    name_fits = p.name_fits;
    size_fits = h;
    dir_is_empty = λ d. sym (rw d at p.held_size);
    held_size = p.held_size;
  }

  size-local_bound :
      (s : ScannedEntry) (ss : List ScannedEntry) → s.size ≤ local_bound (fresh (s ∷ ss))
  unfolding new_entry
  size-local_bound s ss = omega arith

  fresh-AllGood :
      (ss : List ScannedEntry)
      → local_bound (fresh ss) < u64_mod
      → ((i : ℕ) (s : ScannedEntry) → get_elem? ss i ≡ some s → IsPackable s)
      → AllGood (map core (fresh ss))
  fresh-AllGood [] fits p = tt
  fresh-AllGood (s ∷ ss) fits p = (
    core_of-IsGood s (p 0 s refl) (omega (arith, size-local_bound s ss, fits)),
    fresh-AllGood ss (omega (arith, fits)) (λ i. p (suc i)),
  )

  abbrev of_core : Core → Unzipped
  of_core c = record { name = c.1; is_dir = c.4; checksum = 0; content = held_by c.2 }

  unzipped-core : (es : List ZipEntry) → map (unzipped content_of) es ≡ map of_core (map core es)
  unzipped-core [] = refl
  unzipped-core (e ∷ es) = ap (λ l. unzipped content_of e ∷ l) (unzipped-core es)

  unpacked-core : (ss : List ScannedEntry) → map of_core (map core (fresh ss)) ≡ map unpacked ss
  unfolding new_entry
  unpacked-core [] = refl
  unpacked-core (s ∷ ss) = ap (λ l. unpacked s ∷ l) (unpacked-core ss)

  -- An independent reader of the format reads back the items of the scan, with their names and bytes.
  pub unzip-build :
      (scanned : List ScannedEntry)
      → local_bound (fresh scanned) + central_bound (fresh scanned) + 98 < u64_mod
      → ((i : ℕ) (s : ScannedEntry) → get_elem? scanned i ≡ some s → IsPackable s)
      → length scanned ≢ 0xffff
      → unzip (image content_of (build scanned)) ≡ some (map unpacked scanned)
  unzip-build scanned fits packable count =
      let built = build-IsZipLayout scanned fits in
      let good : AllGood (map core (build scanned).entries) =
        subst AllGood (sym built.1) (fresh-AllGood scanned (omega (arith, fits)) packable) in
      unzip-image content_of (build scanned) built.0
        (λ i e h. (entry_core (build scanned).entries i e good h).held_size)
        (λ h. count (sym (length-built (build scanned).entries scanned built.1) ∙ h))
        (λ i e h.
          let g = entry_core (build scanned).entries i e good h in
          record {
            name_fits = g.name_fits;
            size_fits = g.size_fits;
            dir_is_empty = g.dir_is_empty;
          })
      ∙ ap some
          (unzipped-core (build scanned).entries ∙ ap (map of_core) built.1 ∙ unpacked-core scanned)

  map-verified :
      (sum : List ℕ → ℕ) (ss : List ScannedEntry)
      → map (verified sum) (map unpacked ss) ≡ map (given sum) ss
  map-verified sum [] = refl
  map-verified sum (s ∷ ss) = ap (λ l. given sum s ∷ l) (map-verified sum ss)

  pub unzip_verified-unzip :
      (sum : List ℕ → ℕ) (bytes : List ℕ) (scanned : List ScannedEntry)
      → unzip bytes ≡ some (map unpacked scanned)
      → unzip_verified sum bytes ≡ some (map (given sum) scanned)
  unfolding unzip_verified
  unzip_verified-unzip sum bytes scanned h = rw h (ap some (map-verified sum scanned))
