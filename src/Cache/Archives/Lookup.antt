-- ===== src/Cache/Archives/Lookup.antt =====
-- src/cache/archive.rs: what a lookup returns.
pub mod Functional
pub mod Fresh
use raas.Prelude.{Bool, Option, none, some, List, [], ◌∷◌, ◌++◌, if◌then◌else◌}
use raas.Io.{Result, ok, err}
use raas.Io.Paths.{FilePath}
use raas.Io.Text.{Text, codes}
use raas.Archive.Format.{ArchiveFormat}
use raas.Cache.Archives.{Entry, ArchiveCache, has_key}

module _ {V : Type 0} where
  unfoldable pub value_at : List (Entry V) → FilePath → ArchiveFormat → Option V
  value_at [] path format = none
  value_at (e ∷ es) path format =
      let rest = value_at es path format in if has_key path format e then some e.value else rest

  unfoldable pub or_else : Option V → V → V
  or_else none created = created
  or_else (some value) created = value

  -- What `get_with` gives: what is there, or what `create` gives.
  unfoldable pub get_with : FilePath → ArchiveFormat → V → ArchiveCache V → V
  get_with path format created c = or_else (value_at c.cache path format) created

-- The error's message gets its prefix.
unfoldable pub unpacked_result : {A : Type 0} → Result Text A → Result Text A
unpacked_result (ok archive) = ok archive
unpacked_result (err e) = err (codes "创建随机访问存档失败: " ++ e)

-- The result of `get_or_create`.
unfoldable pub looked_up_archive :
    {A : Type 0}
    → FilePath
    → ArchiveFormat
    → Result Text A
    → ArchiveCache (Result Text A)
    → Result Text A
looked_up_archive path format created c = unpacked_result (get_with path format created c)
