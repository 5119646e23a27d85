-- ===== src/Cache/Archives/Race.antt =====
-- src/cache/archive.rs: an invalidation between the two steps of a lookup.
use raas.Prelude.{◌≡◌, refl, sym, ap, ◌∙◌, subst, true, false, [], ◌∷◌, inl}
use raas.Io.Paths.{FilePath}
use raas.Archive.Format.{ArchiveFormat}
use raas.Cache.Archives.{
  Entry, ArchiveCache, victims, drop_paths, contains_key, register_key, load, get_or_create,
  invalidate,
}
use raas.Cache.Archives.Registry.{
  IsIn, IsRegistered, concerns, invalidate-IsRegistered, both_absurd,
}
use raas.Cache.Archives.Reachable.{get_or_create-IsRegistered}

module _ {V : Type 0} (path changed : FilePath) (format : ArchiveFormat) (created : V)
    (c : ArchiveCache V) where
  abbrev made : Entry V
  made = record { path = path; format = format; value = created }

  load_new :
      contains_key c.cache path format ≡ false
      → load path format created c ≡ record c { cache = made ∷ c.cache }
  unfolding load
  load_new h = rw h refl

  invalidate_nothing :
      (d : ArchiveCache V)
      → victims changed d.cached_keys ≡ []
      → (invalidate changed d).cache ≡ d.cache
  unfolding invalidate drop_paths
  invalidate_nothing d h = rw h refl

  register_key-cache : (d : ArchiveCache V) → (register_key path d).cache ≡ d.cache
  unfolding register_key
  register_key-cache d = refl

  abbrev raced : ArchiveCache V
  raced = register_key path (invalidate changed (load path format created c))

  raced-IsIn :
      contains_key c.cache path format ≡ false
      → victims changed c.cached_keys ≡ []
      → IsIn made raced.cache
  raced-IsIn absent unknown =
      let d : ArchiveCache V = record c { cache = made ∷ c.cache } in
      subst (IsIn made)
        (sym (
          ap (λ x. (register_key path (invalidate changed x)).cache) (load_new absent)
          ∙ register_key-cache (invalidate changed d)
          ∙ invalidate_nothing d unknown))
        (inl refl)

  created-IsIn :
      contains_key c.cache path format ≡ false
      → IsIn made (get_or_create path format created c).cache
  unfolding get_or_create
  created-IsIn absent =
      subst (IsIn made)
        (sym (
          register_key-cache (load path format created c)
          ∙ ap (λ (x : ArchiveCache V). x.cache) (load_new absent)))
        (inl refl)

  -- For an archive that is not cached, on a cache whose archives are registered and with no
  -- registered key that the change concerns, an invalidation between the insertion and the
  -- registration of a lookup leaves the archive in the cache although the change concerns it,
  -- where an invalidation behind the whole lookup removes it.
  pub invalidate-between :
      IsRegistered c
      → contains_key c.cache path format ≡ false
      → victims changed c.cached_keys ≡ []
      → concerns changed made ≡ true
      → IsIn made (register_key path (invalidate changed (load path format created c))).cache
        × ¬ (IsIn made (invalidate changed (get_or_create path format created c)).cache)
  invalidate-between r absent unknown hit =
      let once =
        invalidate-IsRegistered changed (get_or_create path format created c)
          (get_or_create-IsRegistered path format created c r) in
      (raced-IsIn absent unknown, λ i. both_absurd _ hit ((once.1 made (created-IsIn absent)).0 i))
