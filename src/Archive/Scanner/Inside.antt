-- ===== src/Archive/Scanner/Inside.antt =====
-- src/archive/scanner.rs: where the entries of a scan lie.
use raas.Prelude.{
  ℕ, zero, suc, ◌≡◌, refl, sym, ap, ◌∙◌, append-nil, true, Option, none, some, List, [], ◌∷◌, All,
  All-append, inl, inr, Bool-cases, Option-cases,
}
use raas.Io.{Result, IoError, ok, err}
use raas.Io.Paths.{FilePath, Component, components, join, starts_with, component_eq, last_name}
use raas.Io.Paths.Joined.{starts_with-append}
use raas.Io.Paths.Stripped.{strip_prefix, strip_components, spelled_of}
use raas.Archive.Fill.{running, failed, panicked, out_of_fuel, and_then}
use raas.Archive.Scanner.{
  ScannedEntry, Metadata, DirEntry, Directories, file_entry, dir_entry, Scan, scan_kind,
  scan_stripped, scan_path, scan_entry, scan_entries, scan_read, scan_dir, scan_named, scan_file,
  scan_source,
}

stripped-starts :
    (cs ps rest : List Component) → strip_components cs ps ≡ some rest → starts_with cs ps ≡ true
unfolding strip_components starts_with
stripped-starts [] [] rest h = refl
stripped-starts (c ∷ cs) [] rest h = refl
stripped-starts [] (p ∷ ps) rest h = absurd (cc)
stripped-starts (c ∷ cs) (p ∷ ps) rest h = elim (Bool-cases (component_eq c p)) [
  | inl same ↦ rw same (stripped-starts cs ps rest (rw same at h))
  | inr other ↦ let absent : none ≡ some rest = rw other at h in absurd (cc)
]

module _ (fs : Directories) (base : FilePath) where
  -- The source of the entry is the base or lies below it.
  abbrev pub IsBelow : ScannedEntry → Type 0
  IsBelow e = starts_with (components e.source_path) (components base) ≡ true

  abbrev pub Gives : Scan → Type 0
  Gives (running es) = All IsBelow es
  Gives (failed e es) = Unit
  Gives panicked = Unit
  Gives out_of_fuel = Unit

  and_then-Gives :
      (r : Scan) (k : List ScannedEntry → Scan)
      → Gives r
      → ((es : List ScannedEntry) → All IsBelow es → Gives (k es))
      → Gives (and_then r k)
  and_then-Gives (running es) k g h = h es g
  and_then-Gives (failed e es) k g h = tt
  and_then-Gives panicked k g h = tt
  and_then-Gives out_of_fuel k g h = tt

  prefix-starts :
      (path rel : FilePath)
      → strip_prefix path base ≡ some rel
      → starts_with (components path) (components base) ≡ true
  unfolding strip_prefix spelled_of
  prefix-starts path rel h =
      elim (Option-cases (strip_components (components path) (components base))) [
        | inl failing ↦ let absent : none ≡ some rel = rw failing at h in absurd (cc)
        | inr (cs, left) ↦ stripped-starts _ _ cs left
      ]

  module _ (deeper : FilePath → List ScannedEntry → Scan)
      (deeper-Gives : (path : FilePath) (es : List ScannedEntry)
        → All IsBelow es
        → Gives (deeper path es)) where
    scan_kind-Gives :
        (path : FilePath) (m : Metadata) (rel_str : List ℕ) (es : List ScannedEntry)
        → starts_with (components path) (components base) ≡ true
        → All IsBelow es
        → Gives (scan_kind fs deeper base path m rel_str es)
    unfolding scan_kind file_entry dir_entry
    scan_kind-Gives path m rel_str es below h = elim (Bool-cases m.is_file) [
      | inl is_file ↦ rw is_file (All-append IsBelow es _ h (below, tt))
      | inr other ↦ rw other (elim (Bool-cases m.is_dir) [
        | inl is_dir ↦ rw is_dir (deeper-Gives path _ (All-append IsBelow es _ h (below, tt)))
        | inr special ↦ rw special h
      ])
    ]

    scan_stripped-Gives :
        (path : FilePath) (m : Metadata) (rel : Option FilePath) (es : List ScannedEntry)
        → strip_prefix path base ≡ rel
        → All IsBelow es
        → Gives (scan_stripped fs deeper base path m rel es)
    unfolding scan_stripped
    scan_stripped-Gives path m none es e h = tt
    scan_stripped-Gives path m (some rel) es e h =
        scan_kind-Gives path m _ es (prefix-starts path rel e) h

    scan_path-Gives :
        (path : FilePath) (m : Result IoError Metadata) (es : List ScannedEntry)
        → All IsBelow es
        → Gives (scan_path fs deeper base path m es)
    unfolding scan_path
    scan_path-Gives path (err e) es h = tt
    scan_path-Gives path (ok m) es h = scan_stripped-Gives path m _ es refl h

    scan_entry-Gives :
        (current : FilePath) (entry : Result IoError DirEntry) (es : List ScannedEntry)
        → All IsBelow es
        → Gives (scan_entry fs deeper base current entry es)
    unfolding scan_entry
    scan_entry-Gives current (err e) es h = tt
    scan_entry-Gives current (ok entry) es h =
        scan_path-Gives (join current entry.file_name) entry.metadata es h

    scan_entries-Gives :
        (current : FilePath) (found : List (Result IoError DirEntry)) (es : List ScannedEntry)
        → All IsBelow es
        → Gives (scan_entries fs deeper base current found es)
    unfolding scan_entries
    scan_entries-Gives current [] es h = h
    scan_entries-Gives current (entry ∷ found) es h =
        and_then-Gives (scan_entry fs deeper base current entry es) _
          (scan_entry-Gives current entry es h) (scan_entries-Gives current found)

    scan_read-Gives :
        (current : FilePath) (found : Result IoError (List (Result IoError DirEntry)))
        (es : List ScannedEntry)
        → All IsBelow es
        → Gives (scan_read fs deeper base current found es)
    unfolding scan_read
    scan_read-Gives current (err e) es h = tt
    scan_read-Gives current (ok found) es h = scan_entries-Gives current found es h

  scan_dir-Gives :
      (fuel : ℕ) (current : FilePath) (es : List ScannedEntry)
      → All IsBelow es
      → Gives (scan_dir fs fuel base current es)
  unfolding scan_dir
  scan_dir-Gives zero current es h = tt
  scan_dir-Gives (suc fuel) current es h =
      scan_read-Gives (scan_dir fs fuel base) (scan_dir-Gives fuel) current (fs.read_dir current) es
        h

  itself-below : starts_with (components base) (components base) ≡ true
  itself-below =
      ap (λ cs. starts_with cs (components base)) (sym (append-nil (components base)))
      ∙ starts_with-append (components base) []

  scan_named-Gives : (m : Metadata) (name : Option (List ℕ)) → Gives (scan_named fs base m name)
  unfolding scan_named file_entry
  scan_named-Gives m none = tt
  scan_named-Gives m (some name) = (itself-below, tt)

  scan_file-Gives : (m : Result IoError Metadata) → Gives (scan_file fs base m)
  unfolding scan_file
  scan_file-Gives (err e) = tt
  scan_file-Gives (ok m) = scan_named-Gives m (last_name (components base))

  -- Whatever the directories answer, each entry of a scan that ends without an error has the
  -- source itself or a path below it as its source path.
  pub scan_source-Gives : (fuel : ℕ) → Gives (scan_source fs fuel base)
  unfolding scan_source
  scan_source-Gives fuel = elim (Bool-cases (fs.is_file base)) [
    | inl single ↦ rw single (scan_file-Gives (fs.metadata base))
    | inr other ↦ rw other (scan_dir-Gives fuel base [] tt)
  ]
