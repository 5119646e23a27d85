-- ===== src/Archive/Tar/Header.antt =====
-- src/archive/tar.rs: the header bytes of an entry, with GNU's extension for long paths.
pub mod Members
pub mod Parsed
pub mod Blocks
use raas.Prelude.{
  ℕ, zero, suc, ◌+◌, ◌-◌, ◌*◌, ◌/◌, ◌%◌, min, Bool, true, false, ◌&&◌, ◌||◌, List, [], ◌∷◌, ◌++◌,
  length, take, replicate, leb, ltb, ◌==◌, if◌then◌else◌,
}
use raas.Io.{IoError, Result, ok, err, ◌>>=◌}
use raas.Archive.Error.{ArchiveError, io}
use raas.Archive.Tar.Crate.{TarCrate}

abbrev pub block_size : ℕ
block_size = 512

abbrev pub end_of_archive_blocks : ℕ
end_of_archive_blocks = 2

pub record FileInfo : Type 0 where
  pub path : List ℕ
  pub offset : ℕ
  pub size : ℕ
  pub is_dir : Bool
  pub mode : ℕ
  pub mtime : ℕ

unfoldable pub calculate_padding : ℕ → ℕ
calculate_padding content_size = (block_size - content_size % block_size) % block_size

-- `Vec::resize(n, 0)`
abbrev resize : ℕ → List ℕ → List ℕ
resize n bytes = take n bytes ++ replicate (n - length bytes) 0

unfoldable pub align_to_512_bytes : List ℕ → List ℕ
align_to_512_bytes bytes =
    resize ((length bytes + (block_size - 1)) / block_size * block_size) bytes

-- UTF-8, as `str::from_utf8` reads it: the length of the character that starts here, 0 if there is
-- none or it is cut off.
continues : ℕ → Bool
continues b = leb 128 b && ltb b 192

scalar_len : List ℕ → ℕ
unfolding continues
scalar_len [] = 0
scalar_len (a ∷ []) = if ltb a 128 then 1 else 0
scalar_len (a ∷ b ∷ []) =
    if ltb a 128 then 1 else if leb 194 a && ltb a 224 && continues b then 2 else 0
scalar_len (a ∷ b ∷ c ∷ []) =
    if ltb a 128
    then 1
    else if leb 194 a && ltb a 224 && continues b
    then 2
    else if leb 224 a
        && ltb a 240
        && continues b
        && continues c
        && (leb 225 a || leb 160 b)
        && (ltb a 237 || ltb 237 a || ltb b 160)
    then 3
    else 0
scalar_len (a ∷ b ∷ c ∷ d ∷ _) =
    if ltb a 128
    then 1
    else if leb 194 a && ltb a 224 && continues b
    then 2
    else if leb 224 a
        && ltb a 240
        && continues b
        && continues c
        && (leb 225 a || leb 160 b)
        && (ltb a 237 || ltb 237 a || ltb b 160)
    then 3
    else if leb 240 a
        && ltb a 245
        && continues b
        && continues c
        && continues d
        && (leb 241 a || leb 144 b)
        && (ltb a 244 || ltb b 144)
    then 4
    else 0

-- The longest prefix of whole characters: the text itself if it is valid, and what `valid_up_to`
-- cuts off otherwise. The number is how much of the current character is still to come.
valid_prefix : ℕ → List ℕ → List ℕ
valid_prefix k [] = []
valid_prefix (suc k) (b ∷ bs) = b ∷ valid_prefix k bs
valid_prefix zero (b ∷ bs) = elim (scalar_len (b ∷ bs)) [
  | zero ↦ []
  | suc k ↦ b ∷ valid_prefix k bs
]

unfoldable pub truncate_path : ℕ → List ℕ → List ℕ
unfolding scalar_len valid_prefix
truncate_path max_len path = valid_prefix 0 (take (min max_len (length path)) path)

-- `b"././@LongLink"` and `b'L'`
abbrev long_link_name : List ℕ
long_link_name = 46 ∷ 47 ∷ 46 ∷ 47 ∷ 64 ∷ 76 ∷ 111 ∷ 110 ∷ 103 ∷ 76 ∷ 105 ∷ 110 ∷ 107 ∷ []

abbrev long_link_type : ℕ
long_link_type = 76

-- On Unix the bytes of a path are the path.
abbrev path2bytes : List ℕ → List ℕ
path2bytes path = path

-- `?` on an `io::Result`, by `From<io::Error>`.
lift_io : Result IoError (List ℕ) → Result ArchiveError (List ℕ)
lift_io (ok h) = ok h
lift_io (err e) = err (io e)

module _ (crate : TarCrate) where
  open crate use {
    Header, entry_dir, entry_file, entry_new, new_gnu, set_size, set_entry_type, set_mode, set_uid,
    set_gid, set_mtime, set_cksum, set_gnu_name, set_path, name_len, as_bytes,
  }

  unfoldable pub prepare_header : ℕ → ℕ → Header
  prepare_header size entry_type = set_cksum (
      set_entry_type (entry_new entry_type) (
        set_size (size + 1) (
          set_mtime 0
            (set_gid 0 (set_uid 0 (set_mode 420 (set_gnu_name long_link_name new_gnu)))))))

  -- The long name's own header, the path with its terminator and padding, then the entry's header.
  unfoldable pub long_path_blocks : List ℕ → Header → List ℕ
  unfolding prepare_header align_to_512_bytes calculate_padding
  long_path_blocks path header =
      align_to_512_bytes (as_bytes (prepare_header (length path) long_link_type))
      ++ (path
          ++ (0
              ∷ (replicate (calculate_padding (length path + 1)) 0
                  ++ align_to_512_bytes (as_bytes header))))

  -- `header.set_path(truncated)?; header.set_cksum();`
  set_truncated : List ℕ → Result IoError (Unit {0}) × Header → Result IoError (List ℕ)
  set_truncated path (ok _, header) = ok (long_path_blocks path (set_cksum header))
  set_truncated path (err e, header) = err e

  -- After a `set_path` that failed with `e`: the error, unless the path is really too long.
  use_long_link : List ℕ → IoError → Header → Result IoError (List ℕ)
  unfolding set_truncated truncate_path
  use_long_link path e header =
      if leb (length (path2bytes path)) name_len
      then err e
      else set_truncated (path2bytes path)
          (set_path (truncate_path name_len (path2bytes path)) header)

  path_is_set : List ℕ → Result IoError (Unit {0}) × Header → Result IoError (List ℕ)
  path_is_set path (ok _, header) = ok (as_bytes (set_cksum header))
  path_is_set path (err e, header) = use_long_link path e header

  unfoldable pub set_path_with_gnu_extension : Header → List ℕ → Result IoError (List ℕ)
  unfolding path_is_set use_long_link set_truncated
  set_path_with_gnu_extension header path = path_is_set path (set_path path header)

  kind_is_set : FileInfo → Header → Header
  kind_is_set info header =
      if info.is_dir
      then set_entry_type entry_dir (set_size 0 header)
      else set_entry_type entry_file (set_size info.size header)

  unfoldable pub create_header : FileInfo → Result ArchiveError (List ℕ)
  unfolding kind_is_set lift_io
  create_header info =
      let header = kind_is_set info new_gnu in
      let header' = set_mtime info.mtime (set_gid 0 (set_uid 0 (set_mode info.mode header))) in
      lift_io (set_path_with_gnu_extension header' info.path)
