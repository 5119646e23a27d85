-- ===== src/Tests/Caches.antt =====
-- The archive cache after one lookup.
use raas.Prelude.{ℕ, ◌≡◌, refl, true, false, [], ◌↔◌, inl}
use raas.Archive.Format.{tar}
use raas.Cache.Archives.{
  Entry, ArchiveCache, get_or_create, register_key, load, contains_key, any, pruned, invalidate,
  empty, victims, filter,
}
use raas.Cache.Archives.Registry.{IsIn, IsRegistered, concerns}
use raas.Cache.Archives.Reachable.{
  Reachable, new, looked_up, Reachable-IsRegistered, invalidate-Exact,
}
use raas.Cache.Archives.Place.{IsAtOrBelow}
use raas.Cache.Archives.Race.{invalidate-between}
use raas.Io.Paths.{components, starts_with, component_eq}
use raas.Tests.Files.{root, first_path}

abbrev kept : ArchiveCache ℕ
kept = get_or_create root tar 7 (empty 2)

abbrev entry : Entry ℕ
entry = record { path = root; format = tar; value = 7 }

kept-Reachable : Reachable kept
kept-Reachable = looked_up root tar 7 (empty 2) (new 2)

is_cached_now : IsIn entry kept.cache
unfolding get_or_create register_key load contains_key any pruned
is_cached_now = inl refl

keys_example : IsRegistered kept
keys_example = Reachable-IsRegistered kept kept-Reachable

-- A file below the directory changes.
invalidate_example :
    IsIn entry (invalidate first_path kept).cache ↔ ¬ (IsAtOrBelow first_path entry.path)
invalidate_example = invalidate-Exact kept kept-Reachable first_path entry is_cached_now

abbrev fresh : ArchiveCache ℕ
fresh = empty 2

nothing_cached : contains_key fresh.cache root tar ≡ false
unfolding contains_key any
nothing_cached = refl

nothing_known : victims first_path fresh.cached_keys ≡ []
unfolding victims filter
nothing_known = refl

is_concerned : concerns first_path entry ≡ true
unfolding starts_with components component_eq
is_concerned = refl

-- The file changes while the directory's archive is made.
between_example :
    IsIn entry (register_key root (invalidate first_path (load root tar 7 fresh))).cache
    × ¬ (IsIn entry (invalidate first_path (get_or_create root tar 7 fresh)).cache)
between_example =
    invalidate-between root first_path tar 7 fresh (λ e i. absurd i) nothing_cached nothing_known
      is_concerned
