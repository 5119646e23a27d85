-- ===== src/Tests/Files.antt =====
-- A disk with two files, on which every read returns two bytes at most.
use raas.Prelude.{
  ℕ, zero, suc, ◌-◌, min, ◌≡◌, refl, ap, false, List, [], ◌∷◌, length, arith, if◌then◌else◌, some,
}
use raas.Prelude.Slices.{slice}
use raas.Io.{Disk, IoError, Result, ok, IsConsistent, HoldsFile}
use raas.Cache.FileHandle.{read_at}
use raas.Cache.FileHandle.Laws.{Reads, read_at-Reads}
use raas.Io.Paths.{FilePath, Component, components, components_eq, component_eq, path_eq→≡}

-- `s`, `s/d/f` and `s/g`
abbrev pub root : FilePath
root = 115 ∷ []

abbrev pub first_path : FilePath
first_path = 115 ∷ 47 ∷ 100 ∷ 47 ∷ 102 ∷ []

abbrev pub second_path : FilePath
second_path = 115 ∷ 47 ∷ 103 ∷ []

abbrev pub file_bytes : ℕ → List ℕ
file_bytes zero = 10 ∷ 20 ∷ 30 ∷ []
file_bytes (suc n) = 1 ∷ 2 ∷ 3 ∷ 4 ∷ 5 ∷ []

abbrev read_count : ℕ → ℕ → ℕ → ℕ
read_count inode n want = min (min want 2) (length (file_bytes inode) - n)

unfoldable pub named : List Component → Result IoError ℕ
unfolding components
named cs = if components_eq cs (components first_path) then ok 0 else ok 1

abbrev pub disk : Disk
disk = record {
  is_file = λ path. false;
  open_file = λ path. named (components path);
  seek_file = λ inode n. ok n;
  read_file = λ inode n want. ok (slice n (read_count inode n want) (file_bytes inode));
}

pub consistent : IsConsistent disk
consistent = record { same_file = λ p q h. ap named (path_eq→≡ p q h) }

pub holds :
    (path : FilePath) (inode : ℕ)
    → named (components path) ≡ ok inode
    → HoldsFile disk path (file_bytes inode)
holds path inode opens = record {
  inode = inode;
  opens = opens;
  seeks = λ n h. refl;
  reads = λ n want h w. record {
    count = read_count inode n want;
    some_bytes = omega arith;
    at_most = omega arith;
    inside = omega arith;
    answer = refl;
  };
}

pub first_file : HoldsFile disk first_path (file_bytes 0)
unfolding named components components_eq component_eq
first_file = holds first_path 0 refl

second_opens : disk.open_file second_path ≡ ok 1
unfolding named components components_eq component_eq
second_opens = refl

-- The cache holds the other file.
read_at_example :
    Reads disk
      (file_bytes 0)
      1
      5
      (read_at disk (some (second_path, record { inode = 1; offset = 4 })) first_path 1 5)
read_at_example =
    read_at-Reads disk first_path (file_bytes 0) first_file consistent
      (some (second_path, record { inode = 1; offset = 4 })) 1 5 second_opens (omega arith)
      (omega arith)
