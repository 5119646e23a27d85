-- ===== src/Cache/Archives/Lookup/Functional.antt =====
-- src/cache/archive.rs: the entries of one key have one value.
use raas.Prelude.{
  ◌≡◌, refl, sym, ap, ◌∙◌, true, false, List, ◌∷◌, inl, inr, Bool-cases, arith, subst,
}
use raas.Io.Paths.{FilePath, components, path_eq, path_eq→≡}
use raas.Archive.Format.{ArchiveFormat, tar, zip, format_eq}
use raas.Cache.Archives.{Entry, ArchiveCache, any, has_key, contains_key, load, get_or_create}
use raas.Cache.Archives.Registry.{IsIn, IsIn-any, path_eq_of, IsIn-invalidate, both_absurd}
use raas.Cache.Archives.Reachable.{
  Reachable, new, looked_up, invalidated, evicted, format_eq_refl, register_key-cache,
}

format_eq→≡ : (f g : ArchiveFormat) → format_eq f g ≡ true → f ≡ g
unfolding format_eq
format_eq→≡ tar tar h = refl
format_eq→≡ zip zip h = refl
format_eq→≡ tar zip h = absurd (cc)
format_eq→≡ zip tar h = absurd (cc)

module _ {V : Type 0} where
  -- An entry for this path, perhaps spelled otherwise, and this format.
  abbrev pub IsOf : FilePath → ArchiveFormat → Entry V → Type 0
  IsOf path format e = (components path ≡ components e.path) × (format ≡ e.format)

  pub has_key-IsOf :
      (path : FilePath) (format : ArchiveFormat) (e : Entry V)
      → has_key path format e ≡ true
      → IsOf path format e
  unfolding has_key
  has_key-IsOf path format e h =
      let p : path_eq path e.path ≡ true = ground (arith, h) in
      let f : format_eq format e.format ≡ true = ground (arith, h) in
      (path_eq→≡ path e.path p, format_eq→≡ format e.format f)

  pub IsOf-has_key :
      (path : FilePath) (format : ArchiveFormat) (e : Entry V)
      → IsOf path format e
      → has_key path format e ≡ true
  unfolding has_key
  IsOf-has_key path format e (p, f) =
      rw (path_eq_of path e.path p)
        (subst (λ g. format_eq format g ≡ true) f (format_eq_refl format))

  -- Entries of one key have one value.
  abbrev pub IsFunctional : List (Entry V) → Type 0
  IsFunctional cache =
      (e e' : Entry V) → IsIn e cache → IsIn e' cache → IsOf e.path e.format e' → e.value ≡ e'.value

  pub absent :
      (path : FilePath) (format : ArchiveFormat) (cache : List (Entry V)) (e : Entry V)
      → any (has_key path format) cache ≡ false
      → IsIn e cache
      → IsOf path format e
      → ⊥
  absent path format cache e miss i k =
      both_absurd _ (IsIn-any (has_key path format) e cache i (IsOf-has_key path format e k)) miss

  cons-IsFunctional :
      (path : FilePath) (format : ArchiveFormat) (created : V) (cache : List (Entry V))
      → any (has_key path format) cache ≡ false
      → IsFunctional cache
      → IsFunctional (record { path = path; format = format; value = created } ∷ cache)
  cons-IsFunctional path format created cache miss f e e' (inl a) (inl b) k =
      ap (λ (x : Entry V). x.value) (sym a ∙ b)
  cons-IsFunctional path format created cache miss f e e' (inl a) (inr j) k =
      absurd (absent path format cache e' miss j (subst (λ x. IsOf x.path x.format e') (sym a) k))
  cons-IsFunctional path format created cache miss f e e' (inr i) (inl b) k =
      let k' : IsOf e.path e.format (record { path = path; format = format; value = created }) =
        subst (IsOf e.path e.format) (sym b) k in
      absurd (absent path format cache e miss i (sym k'.0, sym k'.1))
  cons-IsFunctional path format created cache miss f e e' (inr i) (inr j) k = f e e' i j k

  load-IsFunctional :
      (path : FilePath) (format : ArchiveFormat) (created : V) (c : ArchiveCache V)
      → IsFunctional c.cache
      → IsFunctional (load path format created c).cache
  unfolding load contains_key
  load-IsFunctional path format created c f =
      elim (Bool-cases (any (has_key path format) c.cache)) [
        | inl hit ↦ rw hit f
        | inr miss ↦ rw miss (cons-IsFunctional path format created c.cache miss f)
      ]

  pub get_or_create-cache :
      (path : FilePath) (format : ArchiveFormat) (created : V) (c : ArchiveCache V)
      → (get_or_create path format created c).cache ≡ (load path format created c).cache
  unfolding get_or_create
  get_or_create-cache path format created c = register_key-cache path (load path format created c)

  pub Reachable-IsFunctional : (c : ArchiveCache V) → Reachable c → IsFunctional c.cache
  Reachable-IsFunctional _ (new max_capacity) e e' i j k = absurd i
  Reachable-IsFunctional _ (looked_up path format created c r) e e' i j k =
      subst IsFunctional (sym (get_or_create-cache path format created c))
        (load-IsFunctional path format created c (Reachable-IsFunctional c r)) e e' i j k
  Reachable-IsFunctional _ (invalidated changed c r) e e' i j k =
      Reachable-IsFunctional c r e e' (IsIn-invalidate changed c e i)
        (IsIn-invalidate changed c e' j) k
  Reachable-IsFunctional _ (evicted kept c less r) e e' i j k =
      Reachable-IsFunctional c r e e' (less e i) (less e' j) k
