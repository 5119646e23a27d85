-- ===== src/Cache/Archives/Reachable.antt =====
-- The states of the archive cache: any sequence of lookups, invalidations and evictions.
use raas.Prelude.{
  ℕ, ◌≡◌, refl, sym, ap, true, false, List, length, ltb, ◌⊎◌, ◌↔◌, inl, inr, Bool-cases, arith,
  subst,
}
use raas.Io.Paths.{FilePath, path_eq}
use raas.Archive.Format.{ArchiveFormat, tar, zip, format_eq}
use raas.Cache.Archives.{
  Entry, ArchiveCache, any, has_key, contains_key, is_cached, pruned, register_key, load,
  get_or_create, invalidate, empty, saturating_threshold,
}
use raas.Cache.Archives.Registry.{
  IsIn, IsIn-filter_intro, IsIn-any, any-IsIn, path_eq_of, IsRegistered, concerns,
  invalidate-IsRegistered, both_absurd,
}
use raas.Cache.Archives.Place.{IsAtOrBelow, starts_with-IsAtOrBelow, IsAtOrBelow-starts_with}

-- A lookup may find an archive or make it, and the cache may drop any of its entries between two
-- operations.
pub data Reachable {V : Type 0} : ArchiveCache V → Type 0 where
  new : (max_capacity : ℕ) → Reachable (empty max_capacity)
  looked_up :
      (path : FilePath) (format : ArchiveFormat) (created : V) (c : ArchiveCache V)
      → Reachable c
      → Reachable (get_or_create path format created c)
  invalidated :
      (changed : FilePath) (c : ArchiveCache V) → Reachable c → Reachable (invalidate changed c)
  evicted :
      (kept : List (Entry V)) (c : ArchiveCache V)
      → ((e : Entry V) → IsIn e kept → IsIn e c.cache)
      → Reachable c
      → Reachable (record c { cache = kept })

format_cases : (f : ArchiveFormat) → (f ≡ tar) ⊎ (f ≡ zip)
format_cases tar = inl refl
format_cases zip = inr refl

pub format_eq_refl : (f : ArchiveFormat) → format_eq f f ≡ true
unfolding format_eq
format_eq_refl tar = refl
format_eq_refl zip = refl

key_of :
    {V : Type 0} (k : FilePath) (e : Entry V) (f : ArchiveFormat)
    → path_eq k e.path ≡ true
    → e.format ≡ f
    → has_key k f e ≡ true
unfolding has_key
key_of k e f h g = rw h (subst (λ x. format_eq f x ≡ true) (sym g) (format_eq_refl f))

module _ {V : Type 0} where
  -- A key of a cached archive.
  abbrev HasKey : List FilePath → Entry V → Type 0
  HasKey keys e = (k : FilePath) × IsIn k keys × (path_eq k e.path ≡ true)

  is_cached-IsIn :
      (cache : List (Entry V)) (k : FilePath) (e : Entry V)
      → IsIn e cache
      → path_eq k e.path ≡ true
      → is_cached cache k ≡ true
  unfolding is_cached contains_key
  is_cached-IsIn cache k e i h = elim (format_cases e.format) [
    | inl t ↦ ground (arith, IsIn-any (has_key k tar) e cache i (key_of k e tar h t))
    | inr z ↦ ground (arith, IsIn-any (has_key k zip) e cache i (key_of k e zip h z))
  ]

  HasKey-pruned :
      (c : ArchiveCache V) (e : Entry V)
      → IsIn e c.cache
      → HasKey c.cached_keys e
      → HasKey (pruned c) e
  unfolding pruned
  HasKey-pruned c e i (k, ik, h) =
      elim (Bool-cases (ltb (saturating_threshold c.max_capacity) (length c.cached_keys))) [
        | inl large ↦ rw large (
          k,
          IsIn-filter_intro (is_cached c.cache) k c.cached_keys ik (is_cached-IsIn c.cache k e i h),
          h,
        )
        | inr small ↦ rw small (k, ik, h)
      ]

  register_key-HasKey :
      (path : FilePath) (c : ArchiveCache V) (e : Entry V)
      → IsIn e c.cache
      → HasKey c.cached_keys e ⊎ (e.path ≡ path)
      → HasKey (register_key path c).cached_keys e
  unfolding register_key
  register_key-HasKey path c e i known = elim (Bool-cases (any (λ k. path_eq k path) (pruned c))) [
    | inl there ↦
        let (k, ik, h) = any-IsIn (λ k. path_eq k path) (pruned c) there in
        rw there (elim known [
          | inl old ↦ HasKey-pruned c e i old
          | inr same ↦ (k, ik, subst (λ p. path_eq k p ≡ true) (sym same) h)
        ])
    | inr absent ↦ rw absent (elim known [
      | inl old ↦ let (k, ik, h) = HasKey-pruned c e i old in (k, inr ik, h)
      | inr same ↦ (
        path,
        inl refl,
        subst (λ p. path_eq path p ≡ true) (sym same) (path_eq_of path path refl),
      )
    ])
  ]

  pub load-known :
      (path : FilePath) (format : ArchiveFormat) (created : V) (c : ArchiveCache V)
      → IsRegistered c
      → (e : Entry V) → IsIn e (load path format created c).cache
      → HasKey (load path format created c).cached_keys e ⊎ (e.path ≡ path)
  unfolding load
  load-known path format created c registered e =
      elim (Bool-cases (contains_key c.cache path format)) [
        | inl hit ↦ rw hit (λ i. inl (registered e i))
        | inr miss ↦ rw miss (λ i. elim i [
          | inl new_one ↦ inr (sym (ap (λ (x : Entry V). x.path) new_one))
          | inr old ↦ inl (registered e old)
        ])
      ]

  pub register_key-cache :
      (path : FilePath) (c : ArchiveCache V) → (register_key path c).cache ≡ c.cache
  unfolding register_key
  register_key-cache path c = refl

  pub get_or_create-IsRegistered :
      (path : FilePath) (format : ArchiveFormat) (created : V) (c : ArchiveCache V)
      → IsRegistered c
      → IsRegistered (get_or_create path format created c)
  unfolding get_or_create
  get_or_create-IsRegistered path format created c before e i =
      let l : ArchiveCache V = load path format created c in
      let i' : IsIn e l.cache = subst (IsIn e) (register_key-cache path l) i in
      register_key-HasKey path l e i' (load-known path format created c before e i')

  -- What a lookup leaves was there, or is what it made.
  pub IsIn-get_or_create :
      (path : FilePath) (format : ArchiveFormat) (created : V) (c : ArchiveCache V) (e : Entry V)
      → IsIn e (get_or_create path format created c).cache
      → IsIn e c.cache ⊎ (e.value ≡ created)
  unfolding get_or_create load register_key
  IsIn-get_or_create path format created c e i =
      elim (Bool-cases (contains_key c.cache path format)) [
        | inl hit ↦ inl (rw hit at i)
        | inr miss ↦ elim (rw miss at i) [
          | inl made ↦ inr (sym (ap (λ (x : Entry V). x.value) made))
          | inr old ↦ inl old
        ]
      ]

  -- In every state that a sequence of lookups, invalidations and evictions reaches, each cached
  -- archive is registered, also after the registry was pruned.
  pub Reachable-IsRegistered : (c : ArchiveCache V) → Reachable c → IsRegistered c
  Reachable-IsRegistered _ (new max_capacity) e i = absurd i
  Reachable-IsRegistered _ (looked_up path format created c r) e i =
      get_or_create-IsRegistered path format created c (Reachable-IsRegistered c r) e i
  Reachable-IsRegistered _ (invalidated changed c r) e i =
      (invalidate-IsRegistered changed c (Reachable-IsRegistered c r)).0 e i
  Reachable-IsRegistered _ (evicted kept c less r) e i = Reachable-IsRegistered c r e (less e i)

  pub invalidate-unconcerned :
      (c : ArchiveCache V)
      → Reachable c
      → (changed : FilePath) (e : Entry V) → IsIn e c.cache
      → IsIn e (invalidate changed c).cache ↔ (concerns changed e ≡ false)
  invalidate-unconcerned c r changed e i =
      (invalidate-IsRegistered changed c (Reachable-IsRegistered c r)).1 e i

  -- After any sequence of lookups, invalidations and evictions, `invalidate` removes exactly the
  -- archives, in both formats, of the directories that the changed path is at or below, by the
  -- names of both paths that no later `..` takes away.
  pub invalidate-Exact :
      (c : ArchiveCache V)
      → Reachable c
      → (changed : FilePath) (e : Entry V) → IsIn e c.cache
      → IsIn e (invalidate changed c).cache ↔ ¬ (IsAtOrBelow changed e.path)
  invalidate-Exact c r changed e i = (
    λ j below.
        both_absurd _ (IsAtOrBelow-starts_with changed e.path below)
          ((invalidate-unconcerned c r changed e i).0 j),
    λ apart. elim (Bool-cases (concerns changed e)) [
      | inl h ↦ absurd (apart (starts_with-IsAtOrBelow changed e.path h))
      | inr h ↦ (invalidate-unconcerned c r changed e i).1 h
    ],
  )
