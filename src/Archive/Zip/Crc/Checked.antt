-- ===== src/Archive/Zip/Crc/Checked.antt =====
-- src/archive/zip.rs with the feature `zip-crc32`: the checksum is that of the file.
use raas.Prelude.{
  ℕ, zero, suc, ◌+◌, ◌≤◌, ◌<◌, ◌≡◌, refl, sym, ap, ◌∙◌, false, some, List, [], ◌∷◌, ◌++◌, length,
  take, ◌==◌, arith, true, ==_iff, ◌≢◌, inl, inr, Bool-cases, ltb,
}
use raas.Prelude.Slices.{slice, length-slice, take-append, take-all}
use raas.Prelude.Words.{add64, add64_exact, u64_mod}
use raas.Io.{ok, err, Disk, HoldsFile, ReadsAt}
use raas.Io.Paths.{FilePath}
use raas.Archive.Zip.Crc.{
  Hasher, Hashing, more, end_of_file, source_changed, crc_buffer, hashed, crc_loop, checked,
  compute_crc32,
}

-- The documented behaviour of a hasher: pieces may be given one after the other.
pub record IsIncremental (hashers : Hasher) : Type 0 where
  pub update_nil : (s : hashers.State) → hashers.update [] s ≡ s
  pub update_append :
      (xs ys : List ℕ) (s : hashers.State)
      → hashers.update (xs ++ ys) s ≡ hashers.update ys (hashers.update xs s)

-- A read at the end of a file gives nothing.
abbrev pub EndsAt : Disk → ℕ → List ℕ → Type 0
EndsAt disk inode bytes = (want : ℕ) → disk.read_file inode (length bytes) want ≡ ok []

hashed-piece :
    (hashers : Hasher) (s : Hashing hashers.State) (piece : List ℕ)
    → 0 < length piece
    → hashed hashers s (ok piece)
      ≡ more (record {
        offset = s.offset + length piece;
        hasher = hashers.update piece s.hasher;
        total = add64 s.total (length piece);
      })
unfolding hashed
hashed-piece hashers s [] h = absurd (omega arith)
hashed-piece hashers s (b ∷ bs) h = refl

hashed-nil : (hashers : Hasher) (s : Hashing hashers.State) → hashed hashers s (ok []) ≡ end_of_file
unfolding hashed
hashed-nil hashers s = refl

same_hashing :
    {H : Type 0} (n m : ℕ) (h k : H) (t u : ℕ)
    → n ≡ m
    → h ≡ k
    → t ≡ u
    → more (record { offset = n; hasher = h; total = t })
      ≡ more (record { offset = m; hasher = k; total = u })
same_hashing n m h k t u a b c = rw (a, b, c) refl

module _ (hashers : Hasher) (law : IsIncremental hashers) where
  -- The checksum of some bytes.
  abbrev pub checksum : List ℕ → ℕ
  checksum bytes = hashers.finalize (hashers.update bytes hashers.fresh)

  module _ (disk : Disk) (path : FilePath) (bytes : List ℕ) (held : HoldsFile disk path bytes)
      (ends : EndsAt disk held.inode bytes) (fits : length bytes < u64_mod) where
    -- The loop at `n`.
    abbrev at : ℕ → Hashing hashers.State
    at n = record { offset = n; hasher = hashers.update (take n bytes) hashers.fresh; total = n }

    hashed_step :
        (n count : ℕ)
        → 0 < count
        → n + count ≤ length bytes
        → hashed hashers (at n) (ok (slice n count bytes)) ≡ more (at (n + count))
    hashed_step n count h inside =
        let piece : List ℕ = slice n count bytes in
        let len : length piece ≡ count = length-slice n count bytes inside in
        hashed-piece hashers (at n) piece (omega (arith, len, h))
        ∙ same_hashing (n + length piece) (n + count)
            (hashers.update piece (hashers.update (take n bytes) hashers.fresh))
            (hashers.update (take (n + count) bytes) hashers.fresh) (add64 n (length piece))
            (n + count) (ap (λ m. n + m) len)
            (sym (law.update_append (take n bytes) piece hashers.fresh)
              ∙ ap (λ xs. hashers.update xs hashers.fresh) (take-append n count bytes))
            (ap (add64 n) len ∙ add64_exact n count (omega (arith, inside, fits)))

    crc_loop_end :
        (fuel n : ℕ)
        → n ≤ length bytes
        → length bytes < n + fuel
        → crc_loop hashers disk held.inode fuel (at n) ≡ some (ok (at (length bytes)))
    unfolding crc_loop
    crc_loop_end zero n h k = absurd (omega arith)
    crc_loop_end (suc fuel) n h k = elim (Bool-cases (ltb n (length bytes))) [
      | inl inside ↦
          let r : ReadsAt disk held.inode n crc_buffer bytes =
            held.reads n crc_buffer (ground (arith, inside)) (omega arith) in
          rw (crc_loop, r.answer, hashed_step n r.count r.some_bytes r.inside)
            (crc_loop_end fuel (n + r.count) r.inside (let w = r.some_bytes in omega (arith, w, k)))
      | inr done ↦
          let last : n ≡ length bytes = ground (arith, done, h) in
          rw (crc_loop, last, ends crc_buffer, hashed-nil hashers (at (length bytes)))
            (ap (λ m. some (ok (at m))) last)
    ]

    checked_lem :
        (size : ℕ) (s : Hashing hashers.State)
        → s.total ≡ size
        → checked hashers size (some (ok s)) ≡ some (ok (hashers.finalize s.hasher))
    unfolding checked
    checked_lem size s h =
        let same : (s.total == size) ≡ true = (==_iff s.total size).1 h in rw same refl

    changed_lem :
        (size : ℕ) (s : Hashing hashers.State)
        → s.total ≢ size
        → checked hashers size (some (ok s)) ≡ some (err (source_changed size s.total))
    unfolding checked
    changed_lem size s h =
        let differs : (s.total == size) ≡ false = ground (arith, h) in rw differs refl

    compute_crc32_lem :
        (fuel size : ℕ)
        → length bytes < fuel
        → compute_crc32 hashers disk fuel path size
          ≡ checked hashers size (some (ok (at (length bytes))))
    unfolding compute_crc32
    compute_crc32_lem fuel size h =
        let zero_at : record { offset = 0; hasher = hashers.fresh; total = 0 } ≡ at 0 =
          ap (λ x. record { offset = 0; hasher = x; total = 0 })
            (sym (law.update_nil hashers.fresh)) in
        rw (compute_crc32, held.opens)
          (ap (λ s. checked hashers size (crc_loop hashers disk held.inode fuel s)) zero_at
            ∙ ap (checked hashers size) (crc_loop_end fuel 0 (omega arith) (omega (arith, h))))

    whole : hashers.finalize (at (length bytes)).hasher ≡ checksum bytes
    whole =
        ap (λ xs. hashers.finalize (hashers.update xs hashers.fresh))
          (take-all (length bytes) bytes (omega arith))

    pub compute_crc32-checksum :
        (fuel size : ℕ)
        → length bytes < fuel
        → length bytes ≡ size
        → compute_crc32 hashers disk fuel path size ≡ some (ok (checksum bytes))
    compute_crc32-checksum fuel size h same =
        compute_crc32_lem fuel size h
        ∙ checked_lem size (at (length bytes)) same
        ∙ ap (λ n. some (ok n)) whole

    pub compute_crc32-changed :
        (fuel size : ℕ)
        → length bytes < fuel
        → length bytes ≢ size
        → compute_crc32 hashers disk fuel path size
          ≡ some (err (source_changed size (length bytes)))
    compute_crc32-changed fuel size h other =
        compute_crc32_lem fuel size h ∙ changed_lem size (at (length bytes)) other
