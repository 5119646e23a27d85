-- ===== src/Cache/Archives/Shared.antt =====
-- src/cache/archive.rs, shared by src/state.rs and src/watcher.rs: an `Arc` of the archive cache is
-- a reference into a store of caches.
use raas.Prelude.{
  ℕ, zero, suc, ◌≡◌, refl, Option, none, some, List, [], ◌∷◌, ◌++◌, length, get_elem?,
}
use raas.Cache.Archives.{ArchiveCache}

abbrev pub CacheRef : Type 0
CacheRef = ℕ

abbrev pub Store : Type 0 → Type 0
Store V = List (ArchiveCache V)

module _ {V : Type 0} where
  -- `Arc::new`: a reference that none had before.
  unfoldable pub new_arc : ArchiveCache V → Store V → CacheRef × Store V
  new_arc cache store = (length store, store ++ (cache ∷ []))

  -- The cache that a reference leads to is changed.
  unfoldable pub modify : CacheRef → (ArchiveCache V → ArchiveCache V) → Store V → Store V
  modify i f [] = []
  modify zero f (c ∷ cs) = f c ∷ cs
  modify (suc i) f (c ∷ cs) = c ∷ modify i f cs

  abbrev pub after_change :
      (ArchiveCache V → ArchiveCache V) → Option (ArchiveCache V) → Option (ArchiveCache V)
  after_change f none = none
  after_change f (some c) = some (f c)

  pub modify_lem :
      (i : CacheRef) (f : ArchiveCache V → ArchiveCache V) (store : Store V)
      → get_elem? (modify i f store) i ≡ after_change f (get_elem? store i)
  unfolding modify
  modify_lem i f [] = refl
  modify_lem zero f (c ∷ cs) = refl
  modify_lem (suc i) f (c ∷ cs) = modify_lem i f cs
