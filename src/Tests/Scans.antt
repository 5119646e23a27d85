-- ===== src/Tests/Scans.antt =====
-- A scan of a directory with a directory, a file in it, a link and a file beside it.
use raas.Prelude.{ℕ, ◌≡◌, refl, ◌≢◌, true, false, [], ◌∷◌, arith, if◌then◌else◌, ◌=bytes=◌}
use raas.Io.{IoError, ok, err}
use raas.Io.Paths.{join, is_absolute, ends_with_slash}
use raas.Io.Paths.Stripped.{IsName}
use raas.Io.Text.{codes}
use raas.Archive.Fill.{running}
use raas.Archive.Scanner.{Metadata, Directories, since_epoch, scan_source}
use raas.Archive.Scanner.Listing.{Tree, nothing, file, dir, special, entries_of, Shows, listing}
use raas.Archive.Scanner.Tree.{scan_source-listing}
use raas.Archive.Scanner.Inside.{Gives, scan_source-Gives}
use raas.Tests.Files.{root}

abbrev of_file : Metadata
of_file = record {
  is_file = true;
  is_dir = false;
  len = 3;
  permissions = 33_188;
  modified = ok (since_epoch 7);
}

abbrev of_dir : Metadata
of_dir = record {
  is_file = false;
  is_dir = true;
  len = 4096;
  permissions = 16_877;
  modified = err (IoError.os 1);
}

abbrev of_link : Metadata
of_link = record {
  is_file = false;
  is_dir = false;
  len = 5;
  permissions = 41_471;
  modified = ok (since_epoch 7);
}

abbrev inner : Tree
inner = file (codes "f\\x") of_file nothing

abbrev tree : Tree
tree = dir (codes "d") of_dir inner (special (codes "l") of_link (file (codes "g") of_file nothing))

abbrev fs : Directories
fs = record {
  is_file = λ path. false;
  metadata = λ path. ok of_dir;
  read_dir = λ path.
      if path =bytes= root
      then ok (entries_of tree)
      else if path =bytes= codes "s/d"
      then ok (entries_of inner)
      else err IoError.invalid_input;
  to_string_lossy = λ bytes. bytes;
}

one_byte-IsName : (b : ℕ) → b ≢ 47 → b ≢ 46 → IsName (b ∷ [])
one_byte-IsName b n m = record {
  some_bytes = λ e. cc;
  no_slash = (n, tt);
  not_itself = λ e. m (cc);
  not_parent = λ e. cc;
}

backslash-IsName : IsName (codes "f\\x")
backslash-IsName = record {
  some_bytes = λ e. cc;
  no_slash = (λ e. omega (arith, e), (λ e. omega (arith, e), (λ e. omega (arith, e), tt)));
  not_itself = λ e. cc;
  not_parent = λ e. cc;
}

shows : Shows fs root tree
unfolding join is_absolute ends_with_slash
shows = (
  one_byte-IsName 100 (λ e. omega (arith, e)) (λ e. omega (arith, e)),
  refl,
  refl,
  refl,
  (backslash-IsName, refl, tt),
  (
    one_byte-IsName 108 (λ e. omega (arith, e)) (λ e. omega (arith, e)),
    refl,
    refl,
    (one_byte-IsName 103 (λ e. omega (arith, e)) (λ e. omega (arith, e)), refl, tt),
  ),
)

listing_example : scan_source fs 2 root ≡ running (listing fs root [] tree)
listing_example = scan_source-listing fs root tree 2 (λ e. cc) refl refl shows (omega arith)

below_example : Gives fs root (scan_source fs 2 root)
below_example = scan_source-Gives fs root 2
