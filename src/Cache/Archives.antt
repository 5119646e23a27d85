-- ===== src/Cache/Archives.antt =====
-- src/cache/archive.rs: the archives that are kept, and the registry that finds those that a
-- change of a file makes stale. The cache itself (moka) is a list of its keys and values, from
-- which an entry may vanish at any time.
pub mod Registry
pub mod Place
pub mod Reachable
pub mod Shared
pub mod Race
pub mod Lookup
use raas.Prelude.{
  ℕ, ◌+◌, ◌*◌, Bool, true, false, not, ◌&&◌, ◌||◌, List, [], ◌∷◌, length, ltb, if◌then◌else◌,
}
use raas.Io.Paths.{
  FilePath, Component, root_dir, cur_dir, parent_dir, normal, components, starts_with, path_eq,
}
use raas.Archive.Format.{ArchiveFormat, tar, zip, format_eq}

pub record Entry (V : Type 0) : Type 0 where
  pub path : FilePath
  pub format : ArchiveFormat
  pub value : V

-- `cache` and `cached_keys`
pub record ArchiveCache (V : Type 0) : Type 0 where
  pub cache : List (Entry V)
  pub cached_keys : List FilePath
  pub max_capacity : ℕ

unfoldable pub filter : {A : Type 0} → (A → Bool) → List A → List A
filter p [] = []
filter p (x ∷ xs) = let rest = filter p xs in if p x then x ∷ rest else rest

unfoldable pub any : {A : Type 0} → (A → Bool) → List A → Bool
any p [] = false
any p (x ∷ xs) = p x || any p xs

-- `PathBuf::pop`: neither the root nor nothing can be removed.
unfoldable pub pop : List Component → List Component
pop [] = []
pop (root_dir ∷ []) = root_dir ∷ []
pop (_ ∷ []) = []
pop (c ∷ d ∷ cs) = c ∷ pop (d ∷ cs)

-- `PathBuf::push` of one component: the root replaces what is there.
unfoldable pub push : List Component → Component → List Component
push done root_dir = root_dir ∷ []
push [] c = c ∷ []
push (d ∷ ds) c = d ∷ push ds c

unfoldable pub normalize_from : List Component → List Component → List Component
normalize_from done [] = done
normalize_from done (cur_dir ∷ cs) = normalize_from done cs
normalize_from done (parent_dir ∷ cs) = normalize_from (pop done) cs
normalize_from done (root_dir ∷ cs) = normalize_from (push done root_dir) cs
normalize_from done (normal n ∷ cs) = normalize_from (push done (normal n)) cs

-- `normalize_for_match` on Unix, as the components of its result.
unfoldable pub normalize_for_match : FilePath → List Component
normalize_for_match path = normalize_from [] (components path)

unfoldable pub saturating_threshold : ℕ → ℕ
saturating_threshold max_capacity =
    let four =
      if ltb 4_611_686_018_427_387_903 max_capacity
      then 18_446_744_073_709_551_615
      else max_capacity * 4 in
    if ltb four 8 then 8 else four

unfoldable pub victims : FilePath → List FilePath → List FilePath
victims changed keys =
    filter (λ k. starts_with (normalize_for_match changed) (normalize_for_match k)) keys

unfoldable pub forget : List FilePath → List FilePath → List FilePath
forget [] keys = keys
forget (path ∷ paths) keys = forget paths (filter (λ k. not (path_eq path k)) keys)

module _ {V : Type 0} where
  unfoldable pub has_key : FilePath → ArchiveFormat → Entry V → Bool
  has_key path format e = path_eq path e.path && format_eq format e.format

  unfoldable pub contains_key : List (Entry V) → FilePath → ArchiveFormat → Bool
  contains_key cache path format = any (has_key path format) cache

  unfoldable pub is_cached : List (Entry V) → FilePath → Bool
  is_cached cache path = contains_key cache path tar || contains_key cache path zip

  -- `register_key`: prunes first if there are too many keys.
  unfoldable pub pruned : ArchiveCache V → List FilePath
  pruned c =
      if ltb (saturating_threshold c.max_capacity) (length c.cached_keys)
      then filter (is_cached c.cache) c.cached_keys
      else c.cached_keys

  unfoldable pub register_key : FilePath → ArchiveCache V → ArchiveCache V
  register_key path c = record c {
    cached_keys = if any (λ k. path_eq k path) (pruned c) then pruned c else path ∷ pruned c;
  }

  -- `get_with`: what is there, or what `create` gives.
  unfoldable pub load : FilePath → ArchiveFormat → V → ArchiveCache V → ArchiveCache V
  load path format created c =
      if contains_key c.cache path format
      then c
      else record c { cache = record { path = path; format = format; value = created } ∷ c.cache }

  -- The state that `get_or_create` leaves.
  unfoldable pub get_or_create : FilePath → ArchiveFormat → V → ArchiveCache V → ArchiveCache V
  get_or_create path format created c = register_key path (load path format created c)

  -- `cache.invalidate` of both keys of a path.
  unfoldable pub drop_path : FilePath → List (Entry V) → List (Entry V)
  drop_path path cache =
      filter (λ e. not (has_key path zip e)) (filter (λ e. not (has_key path tar e)) cache)

  unfoldable pub drop_paths : List FilePath → List (Entry V) → List (Entry V)
  drop_paths [] cache = cache
  drop_paths (path ∷ paths) cache = drop_paths paths (drop_path path cache)

  -- The state that `invalidate` leaves; its result is `victims`.
  unfoldable pub invalidate : FilePath → ArchiveCache V → ArchiveCache V
  invalidate changed c = record c {
    cache = drop_paths (victims changed c.cached_keys) c.cache;
    cached_keys = forget (victims changed c.cached_keys) c.cached_keys;
  }

  -- `ArchiveCache::new`
  abbrev pub empty : ℕ → ArchiveCache V
  empty max_capacity = record { cache = []; cached_keys = []; max_capacity = max_capacity }
