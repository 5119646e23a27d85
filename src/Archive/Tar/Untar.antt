-- ===== src/Archive/Tar/Untar.antt =====
-- A reader of tar files, from the format's specification (POSIX ustar with GNU's long names) and
-- not from the code. What stands in the fields of a header is read by a parameter.
pub mod Members
pub mod RoundTrip
use raas.Prelude.{
  ℕ, zero, suc, ◌+◌, ◌-◌, ◌*◌, ◌%◌, Bool, true, false, Option, none, some, List, [], ◌∷◌, ◌++◌,
  take, replicate, length, ◌==◌, ltb, if◌then◌else◌, ◌=bytes=◌,
}
use raas.Archive.Zip.Unzip.{◌>>=◌, bytes}

-- What a header says: a name, the size of the data behind it, and the type flag.
pub record View : Type 0 where
  pub name : List ℕ
  pub size : ℕ
  pub flag : ℕ

-- A header with its data, the end of the archive, or neither.
pub data Member : Type 0 where
  found : View → List ℕ → List ℕ → Member
  ended broken : Member

-- A file of the archive: its name, whether it is a directory, and its data.
pub record Untarred : Type 0 where
  pub name : List ℕ
  pub is_dir : Bool
  pub content : List ℕ

pub data Next : Type 0 where
  file : Untarred → List ℕ → Next
  last nothing : Next

-- Data fill whole blocks.
abbrev pub padding : ℕ → ℕ
padding n = (512 - n % 512) % 512

unfoldable pub with_data : View → List ℕ → Option Member
with_data h bs = do
  (content, rest) ← bytes h.size bs
  (pad, rest') ← bytes (padding h.size) rest
  some (found h content rest')

abbrev pub or_broken : Option Member → Member
or_broken none = broken
or_broken (some m) = m

module _ (parse : List ℕ → Option View) where
  unfoldable pub member_of : List ℕ → List ℕ → Option View → Member
  member_of block rest (some h) = or_broken (with_data h rest)
  member_of block rest none = if block =bytes= replicate 512 0 then ended else broken

  abbrev pub block_member : Option (List ℕ × List ℕ) → Member
  block_member none = broken
  block_member (some (block, rest)) = member_of block rest (parse block)

  unfoldable pub read_member : List ℕ → Member
  read_member bs = block_member (bytes 512 bs)

-- The name of a long name's data ends at its last byte.
abbrev pub without_last : List ℕ → List ℕ
without_last data' = take (length data' - 1) data'

abbrev pub named : List ℕ → Member → Next
named name (found h content rest) =
    file (record { name = name; is_dir = h.flag == 53; content = content }) rest
named name ended = nothing
named name broken = nothing

module _ (parse : List ℕ → Option View) where
  -- A member of the flag `L` has the name of the one behind it as its data.
  unfoldable pub next_of : Member → Next
  next_of ended = last
  next_of broken = nothing
  next_of (found h content rest) =
      if h.flag == 76
      then named (without_last content) (read_member parse rest)
      else named h.name (found h content rest)

  unfoldable pub untar : ℕ → List ℕ → Option (List Untarred)
  untar zero bs = none
  untar (suc fuel) bs = elim (next_of (read_member parse bs)) [
    | last ↦ some []
    | nothing ↦ none
    | file f rest ↦ untar fuel rest >>= λ more. some (f ∷ more)
  ]
