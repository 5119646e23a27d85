-- ===== src/Io.antt =====
-- What the program uses of `std::io`, `std::fs` and `std::path` on Unix: errors, paths as bytes,
-- and the operating system's files as a parameter.
pub mod Paths
pub mod Text
use raas.Prelude.{ℕ, ◌+◌, ◌≤◌, ◌<◌, ◌≡◌, refl, ◌⊎◌, inl, inr, Bool, true, List}
use raas.Prelude.Slices.{slice}
use raas.Prelude.{length}
use Paths.{FilePath, path_eq}

-- The kinds of `io::Error` that the program makes itself, and `os` for those of the system.
pub data IoError : Type 0 where
  os : ℕ → IoError
  invalid_data invalid_input unexpected_eof other : IoError

pub data Result {ℓ} (E A : Type ℓ) : Type ℓ where
  ok : A → Result E A
  err : E → Result E A

infixl 5 ◌>>=◌
abbrev pub ◌>>=◌ {ℓ} : {E A B : Type ℓ} → Result E A → (A → Result E B) → Result E B
ok a >>= f = f a
err e >>= f = err e

-- To split on a computed result and keep the equation.
pub Result-cases {ℓ} :
    {E A : Type ℓ} (r : Result E A) → ((a : A) × (r ≡ ok a)) ⊎ ((e : E) × (r ≡ err e))
Result-cases (ok a) = inl (a, refl)
Result-cases (err e) = inr (e, refl)

-- The system's answers. An open file is named by a number; `seek_file` and `read_file` take the
-- place to go to and the number of bytes wanted.
pub record Disk : Type 0 where
  pub is_file : FilePath → Bool
  pub open_file : FilePath → Result IoError ℕ
  pub seek_file : ℕ → ℕ → Result IoError ℕ
  pub read_file : ℕ → ℕ → ℕ → Result IoError (List ℕ)

-- Two spellings of a path open the same file.
pub record IsConsistent (disk : Disk) : Type 0 where
  pub same_file : (p q : FilePath) → path_eq p q ≡ true → disk.open_file p ≡ disk.open_file q

-- The answer to a read of `want` bytes at `n`: at least one byte and perhaps fewer than `want`.
pub record ReadsAt (disk : Disk) (inode n want : ℕ) (bytes : List ℕ) : Type 0 where
  pub count : ℕ
  pub some_bytes : 0 < count
  pub at_most : count ≤ want
  pub inside : n + count ≤ length bytes
  pub answer : disk.read_file inode n want ≡ ok (slice n count bytes)

-- The file at `path` can be opened and holds `bytes`, and stays so. A read before its end returns
-- at least one byte (`read(2)`), possibly fewer than asked for.
pub record HoldsFile (disk : Disk) (path : FilePath) (bytes : List ℕ) : Type 0 where
  pub inode : ℕ
  pub opens : disk.open_file path ≡ ok inode
  pub seeks : (n : ℕ) → n ≤ length bytes → disk.seek_file inode n ≡ ok n
  pub reads : (n want : ℕ) → n < length bytes → 0 < want → ReadsAt disk inode n want bytes
