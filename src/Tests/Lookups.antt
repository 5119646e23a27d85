-- ===== src/Tests/Lookups.antt =====
-- Lookups of the same archive, before and behind a change below its directory.
use raas.Prelude.{ℕ, ◌≡◌, ◌⊎◌}
use raas.Io.{Result, ok, err}
use raas.Io.Text.{Text, codes}
use raas.Archive.Format.{tar}
use raas.Cache.Archives.{ArchiveCache, empty, get_or_create, invalidate}
use raas.Cache.Archives.Place.{IsAtOrBelow}
use raas.Cache.Archives.Reachable.{Reachable, new, looked_up}
use raas.Cache.Archives.Lookup.{looked_up_archive, unpacked_result}
use raas.Cache.Archives.Lookup.Fresh.{looked_up_archive-invalidate, looked_up_archive-get_or_create}
use raas.Tests.Files.{root, first_path}

-- An archive that could not be made is cached too.
abbrev failure : Result Text ℕ
failure = err (codes "gone")

abbrev cached : ArchiveCache (Result Text ℕ)
cached = get_or_create root tar failure (empty 2)

cached-Reachable : Reachable cached
cached-Reachable = looked_up root tar failure _ (new 2)

anew_example :
    (IsAtOrBelow first_path root
      × (looked_up_archive root tar (ok 5) (invalidate first_path cached) ≡ unpacked_result (ok 5)))
    ⊎ (¬ (IsAtOrBelow first_path root)
        × (looked_up_archive root tar (ok 5) (invalidate first_path cached)
            ≡ looked_up_archive root tar (ok 5) cached))
anew_example = looked_up_archive-invalidate cached cached-Reachable first_path root tar (ok 5)

twice_example :
    looked_up_archive root tar (ok 5) cached ≡ looked_up_archive root tar failure (empty 2)
twice_example = looked_up_archive-get_or_create (empty 2) root tar failure (ok 5)
