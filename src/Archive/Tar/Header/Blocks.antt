-- ===== src/Archive/Tar/Header/Blocks.antt =====
-- src/archive/tar.rs: the lengths of headers.
use raas.Prelude.{
  ℕ, ◌+◌, ◌-◌, ◌*◌, ◌/◌, ◌%◌, ◌≤◌, ◌<◌, ◌≡◌, List, ◌∷◌, ◌++◌, length, length-append, length-take,
  length-replicate, replicate, take, arith, leb, Bool-cases, inl, inr,
}
use raas.Io.{ok, err, IoError, Result}
use raas.Archive.Tar.Crate.{TarCrate, IsTarCrate}
use raas.Archive.Tar.Header.{
  calculate_padding, align_to_512_bytes, set_path_with_gnu_extension, create_header, FileInfo,
  long_path_blocks, prepare_header, set_truncated, use_long_link, path_is_set, lift_io,
}

-- The padding fills the last block and is shorter than one.
pub calculate_padding_lem :
    (n : ℕ) → ((n + calculate_padding n) % 512 ≡ 0) × (calculate_padding n < 512)
unfolding calculate_padding
calculate_padding_lem n = omega arith

pub length-align_to_512_bytes :
    (bytes : List ℕ)
    → (length (align_to_512_bytes bytes) % 512 ≡ 0)
      × (length bytes ≤ length (align_to_512_bytes bytes))
unfolding align_to_512_bytes
length-align_to_512_bytes bytes =
    let n : ℕ = (length bytes + 511) / 512 * 512 in
    let a = length-append (take n bytes) (replicate (n - length bytes) 0) in
    let b = length-take n bytes in
    let c = length-replicate {A = ℕ} (n - length bytes) 0 in (omega arith, omega arith)

module _ (crate : TarCrate) (law : IsTarCrate crate) where
  open crate use {Header, as_bytes, set_path}

  -- What is in whole blocks already is left as long as it is.
  align_block : (h : Header) → length (align_to_512_bytes (as_bytes h)) ≡ 512
  unfolding align_to_512_bytes
  align_block h =
      let n : ℕ = (length (as_bytes h) + 511) / 512 * 512 in
      let a = length-append (take n (as_bytes h)) (replicate (n - length (as_bytes h)) 0) in
      let b = length-take n (as_bytes h) in
      let c = length-replicate {A = ℕ} (n - length (as_bytes h)) 0 in
      omega (arith, law.header_block h)

  -- If the tar crate's headers are one block each, the blocks of a long path are two headers and
  -- between them the path with its terminator, padded to whole blocks.
  pub length-long_path_blocks :
      (path : List ℕ) (h : Header)
      → length (long_path_blocks crate path h)
        ≡ 1024 + (length path + 1 + calculate_padding (length path + 1))
  unfolding long_path_blocks
  length-long_path_blocks path h =
      let long = prepare_header crate (length path) 76 in
      let pad : List ℕ = replicate (calculate_padding (length path + 1)) 0 in
      let last : List ℕ = align_to_512_bytes (as_bytes h) in
      let a = length-append (align_to_512_bytes (as_bytes long)) (path ++ (0 ∷ (pad ++ last))) in
      let b = length-append path (0 ∷ (pad ++ last)) in
      let c = length-append pad last in
      let d = length-replicate {A = ℕ} (calculate_padding (length path + 1)) 0 in
      omega (arith, align_block h, align_block long)

  abbrev IsBlocks : Result IoError (List ℕ) → Type 0
  IsBlocks (ok h) = (length h % 512 ≡ 0) × (512 ≤ length h)
  IsBlocks (err e) = Unit

  block_IsBlocks : (h : Header) → (length (as_bytes h) % 512 ≡ 0) × (512 ≤ length (as_bytes h))
  block_IsBlocks h = omega (arith, law.header_block h)

  long_IsBlocks : (path : List ℕ) (h : Header) → IsBlocks (ok (long_path_blocks crate path h))
  long_IsBlocks path h =
      omega (arith, length-long_path_blocks path h, calculate_padding_lem (length path + 1))

  truncated_IsBlocks :
      (path : List ℕ) (r : Result IoError (Unit {0}) × Header)
      → IsBlocks (set_truncated crate path r)
  unfolding set_truncated
  truncated_IsBlocks path (ok _, h) = long_IsBlocks path (crate.set_cksum h)
  truncated_IsBlocks path (err e, h) = tt

  long_link_IsBlocks :
      (path : List ℕ) (e : IoError) (h : Header) → IsBlocks (use_long_link crate path e h)
  unfolding use_long_link
  long_link_IsBlocks path e h = elim (Bool-cases (leb (length path) crate.name_len)) [
    | inl short ↦ rw short tt
    | inr long ↦ rw long (truncated_IsBlocks path _)
  ]

  path_is_set-IsBlocks :
      (path : List ℕ) (r : Result IoError (Unit {0}) × Header) → IsBlocks (path_is_set crate path r)
  unfolding path_is_set
  path_is_set-IsBlocks path (ok _, h) = block_IsBlocks (crate.set_cksum h)
  path_is_set-IsBlocks path (err e, h) = long_link_IsBlocks path e h

  lifted_IsBlocks :
      (r : Result IoError (List ℕ)) (h : List ℕ)
      → IsBlocks r
      → lift_io r ≡ ok h
      → (length h % 512 ≡ 0) × (512 ≤ length h)
  unfolding lift_io
  lifted_IsBlocks (ok b) h blocks e = ground arith
  lifted_IsBlocks (err x) h blocks e = ground arith

  -- If the tar crate's headers are one block each and `create_header` returns, the header bytes
  -- of the entry are whole blocks, at least one, with or without GNU's long path.
  pub create_header-blocks :
      (info : FileInfo) (h : List ℕ)
      → create_header crate info ≡ ok h
      → (length h % 512 ≡ 0) × (512 ≤ length h)
  unfolding create_header set_path_with_gnu_extension
  create_header-blocks info h e = lifted_IsBlocks _ h (path_is_set-IsBlocks info.path _) e
