-- ===== src/Archive/Scanner/Tree.antt =====
-- src/archive/scanner.rs: a scan of a tree of directories lists what it should.
use raas.Prelude.{
  ℕ, zero, suc, ◌≤◌, ◌<◌, ◌≡◌, refl, sym, ap, ◌∙◌, ◌≢◌, true, false, List, [], ◌∷◌, ◌++◌, map,
  append_assoc, append-nil, arith,
}
use raas.Io.{Result, IoError, ok}
use raas.Io.Paths.{FilePath, normal, components, join}
use raas.Io.Paths.Stripped.{
  IsName, prefix_of, prefix_of-append, components-name, strip_prefix-name, join_ne_nil,
}
use raas.Archive.Fill.{running, and_then}
use raas.Archive.Scanner.{
  ScannedEntry, Metadata, DirEntry, Directories, replace_backslashes, Scan, scan_kind,
  scan_stripped, scan_path, scan_entry, scan_entries, scan_read, scan_dir, scan_source,
}
use raas.Archive.Scanner.Listing.{
  Tree, nothing, file, dir, special, depth, entries_of, Shows, listing, listed_file, listed_dir,
  file_entry-listed_file, dir_entry-listed_dir,
}

regroup :
    {A : Type 0} (acc : List A) (e : A) (l k : List A)
    → ((acc ++ (e ∷ [])) ++ l) ++ k ≡ acc ++ (e ∷ (l ++ k))
regroup acc e l k = append_assoc (acc ++ (e ∷ [])) l k ∙ append_assoc acc (e ∷ []) (l ++ k)

module _ (fs : Directories) where
  module _ (base : FilePath) where
    module _ (deeper : FilePath → List ScannedEntry → Scan) (path : FilePath) (ns : List (List ℕ))
        (below : components path ≡ components base ++ map normal ns) (there : path ≢ [])
        (name : List ℕ) (h : IsName name) (m : Metadata) (acc : List ScannedEntry) where
      abbrev scanned : Scan
      scanned =
          scan_entry fs deeper base path (ok (record { file_name = name; metadata = ok m })) acc

      abbrev rel : List ℕ
      rel = prefix_of ns ++ name

      scan_entry-kind :
          scanned
          ≡ scan_kind fs deeper base
              (join path name)
              m
              (replace_backslashes (fs.to_string_lossy rel))
              acc
      unfolding scan_entry scan_path scan_stripped
      scan_entry-kind = rw (strip_prefix-name base path ns below there name h) refl

      scan_entry_file :
          m.is_file ≡ true → scanned ≡ running (acc ++ (listed_file fs rel (join path name) m ∷ []))
      scan_entry_file f =
          rw⁻¹ (file_entry-listed_file fs rel (join path name) m)
            (scan_entry-kind ∙ unfold scan_kind in rw f refl)

      scan_entry_dir :
          m.is_file ≡ false
          → m.is_dir ≡ true
          → scanned ≡ deeper (join path name) (acc ++ (listed_dir fs rel (join path name) m ∷ []))
      scan_entry_dir f d =
          rw⁻¹ (dir_entry-listed_dir fs rel (join path name) m)
            (scan_entry-kind ∙ unfold scan_kind in rw (f, d) refl)

      scan_entry_special : m.is_file ≡ false → m.is_dir ≡ false → scanned ≡ running acc
      scan_entry_special f d = scan_entry-kind ∙ unfold scan_kind in rw (f, d) refl

    scan_dir-read :
        (fuel : ℕ) (path : FilePath) (found : List (Result IoError DirEntry))
        (acc : List ScannedEntry)
        → fs.read_dir path ≡ ok found
        → scan_dir fs (suc fuel) base path acc
          ≡ scan_entries fs (scan_dir fs fuel base) base path found acc
    unfolding scan_dir scan_read
    scan_dir-read fuel path found acc h = rw h refl

    scan_entries-listing :
        (t : Tree) (fuel : ℕ) (path : FilePath) (ns : List (List ℕ)) (acc : List ScannedEntry)
        → depth t ≤ fuel
        → Shows fs path t
        → path ≢ []
        → components path ≡ components base ++ map normal ns
        → scan_entries fs (scan_dir fs fuel base) base path (entries_of t) acc
          ≡ running (acc ++ listing fs path (prefix_of ns) t)
    unfolding scan_entries
    scan_entries-listing nothing fuel path ns acc d s n c = ap running (sym (append-nil acc))
    scan_entries-listing (file name m beside) fuel path ns acc d s n c =
        rw (scan_entry_file (scan_dir fs fuel base) path ns c n name s.0 m acc s.1) (
          scan_entries-listing beside fuel path ns _ d s.2 n c
          ∙ ap running (append_assoc acc (_ ∷ []) _))
    scan_entries-listing (dir name m inside beside) zero path ns acc d s n c =
        absurd (omega (arith, d))
    scan_entries-listing (dir name m inside beside) (suc fuel) path ns acc d s n c =
        let (h, f, d', r, s', s'') = s in
        let e = components-name base path ns c n name h in
        let k = join_ne_nil base path ns c n name h in
        let below =
          scan_entries-listing inside fuel (join path name) (ns ++ (name ∷ []))
            (acc ++ (listed_dir fs (prefix_of ns ++ name) (join path name) m ∷ []))
            (omega (arith, d)) s' k e in
        rw (scan_entry_dir (scan_dir fs (suc fuel) base) path ns c n name h m acc f d') (
          ap
            (λ r.
              and_then r
                (scan_entries fs (scan_dir fs (suc fuel) base) base path (entries_of beside)))
            (scan_dir-read fuel (join path name) (entries_of inside) _ r ∙ below)
          ∙ scan_entries-listing beside (suc fuel) path ns _ (omega (arith, d)) s'' n c
          ∙ ap running (regroup acc _ _ _)
          ∙ ap
              (λ p. running (
                acc
                ++ (listed_dir fs (prefix_of ns ++ name) (join path name) m
                    ∷ (listing fs (join path name) p inside
                        ++ listing fs path (prefix_of ns) beside))))
              (prefix_of-append ns name))
    scan_entries-listing (special name m beside) fuel path ns acc d s n c =
        rw (scan_entry_special (scan_dir fs fuel base) path ns c n name s.0 m acc s.1 s.2)
          (scan_entries-listing beside fuel path ns acc d s.3 n c)

  -- If the source is a directory that holds a tree of files, directories and other things, with
  -- names that a directory can have, a scan with more fuel than the tree has levels ends without
  -- an error and gives the files and directories of the tree in the order of the directories,
  -- each directory before what is in it, and each under its path relative to the source, with
  -- slashes for backslashes and a slash at the end of a directory's; a file has its size and a
  -- directory the size 0, each has its own path, the lower twelve bits of its mode and the
  -- seconds of its time of change, 0 if that is not known or before the epoch; links and other
  -- things are left out.
  pub scan_source-listing :
      (source : FilePath) (t : Tree) (fuel : ℕ)
      → source ≢ []
      → fs.is_file source ≡ false
      → fs.read_dir source ≡ ok (entries_of t)
      → Shows fs source t
      → depth t < fuel
      → scan_source fs fuel source ≡ running (listing fs source [] t)
  unfolding scan_source
  scan_source-listing source t zero n f r s d = absurd (omega (arith, d))
  scan_source-listing source t (suc fuel) n f r s d = rw f (
      scan_dir-read source fuel source (entries_of t) [] r
      ∙ scan_entries-listing source t fuel source [] [] (omega (arith, d)) s n
          (sym (append-nil (components source))))
