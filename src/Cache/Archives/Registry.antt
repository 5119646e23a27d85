-- ===== src/Cache/Archives/Registry.antt =====
-- src/cache/archive.rs: the registry of cached archives, and invalidation.
use raas.Prelude.{
  ◌≡◌, refl, sym, ap, ap₂, ◌∙◌, Bool, true, false, not, ◌&&◌, List, [], ◌∷◌, ◌++◌, map, ◌⊎◌, ◌↔◌,
  inl, inr, Bool-cases, arith, subst,
}
use raas.Io.Paths.{
  starts_with, normal, FilePath, components, path_eq, path_eq→≡, components_eq, components_eq_refl,
}
use raas.Archive.Format.{ArchiveFormat, tar, zip, format_eq}
use raas.Cache.Archives.{
  Entry, ArchiveCache, filter, any, normalize_for_match, normalize_from, has_key, victims,
  drop_path, drop_paths, forget, invalidate,
}
use raas.Cache.Archives.Place.{place, anchor, names, normalize_for_match-place}

abbrev pub IsIn : {A : Type 0} → A → List A → Type 0
IsIn x [] = ⊥
IsIn x (y ∷ ys) = (y ≡ x) ⊎ IsIn x ys

pub IsIn-filter :
    {A : Type 0} (p : A → Bool) (x : A) (xs : List A)
    → IsIn x (filter p xs)
    → IsIn x xs × (p x ≡ true)
unfolding filter
IsIn-filter p x [] i = absurd i
IsIn-filter p x (y ∷ ys) i = elim (Bool-cases (p y)) [
  | inl h' ↦ elim (rw h' at i) [
    | inl same ↦ (inl same, subst (λ z. p z ≡ true) same h')
    | inr later ↦ let r = IsIn-filter p x ys later in (inr r.0, r.1)
  ]
  | inr n ↦ let r = IsIn-filter p x ys (rw n at i) in (inr r.0, r.1)
]

pub IsIn-filter_intro :
    {A : Type 0} (p : A → Bool) (x : A) (xs : List A)
    → IsIn x xs
    → p x ≡ true
    → IsIn x (filter p xs)
unfolding filter
IsIn-filter_intro p x [] i h = absurd i
IsIn-filter_intro p x (y ∷ ys) (inl same) h = rw (subst (λ z. p z ≡ true) (sym same) h) (inl same)
IsIn-filter_intro p x (y ∷ ys) (inr later) h = elim (Bool-cases (p y)) [
  | inl h' ↦ rw h' (inr (IsIn-filter_intro p x ys later h))
  | inr n ↦ rw n (IsIn-filter_intro p x ys later h)
]

pub IsIn-any :
    {A : Type 0} (p : A → Bool) (x : A) (xs : List A) → IsIn x xs → p x ≡ true → any p xs ≡ true
unfolding any
IsIn-any p x [] i h = absurd i
IsIn-any p x (y ∷ ys) (inl same) h = rw (subst (λ z. p z ≡ true) (sym same) h) refl
IsIn-any p x (y ∷ ys) (inr later) h = ground (arith, IsIn-any p x ys later h)

pub any-IsIn :
    {A : Type 0} (p : A → Bool) (xs : List A) → any p xs ≡ true → (x : A) × IsIn x xs × (p x ≡ true)
unfolding any
any-IsIn p [] h = absurd (cc)
any-IsIn p (y ∷ ys) h = elim (Bool-cases (p y)) [
  | inl h' ↦ (y, inl refl, h')
  | inr n ↦ let (x, i, q) = any-IsIn p ys (rw n at h) in (x, inr i, q)
]

neither :
    (b : Bool) (f : ArchiveFormat)
    → not (b && format_eq zip f) ≡ true
    → not (b && format_eq tar f) ≡ true
    → b ≡ false
unfolding format_eq
neither false f z t = refl
neither true tar z t = sym t
neither true zip z t = sym z

pub path_eq_of : (p q : FilePath) → components p ≡ components q → path_eq p q ≡ true
unfolding path_eq
path_eq_of p q h =
    subst (λ c. components_eq (components p) c ≡ true) h (components_eq_refl (components p))

pub path_eq_trans :
    (p q r : FilePath) → path_eq p q ≡ true → path_eq q r ≡ true → path_eq p r ≡ true
path_eq_trans p q r a b = path_eq_of p r (path_eq→≡ p q a ∙ path_eq→≡ q r b)

normalize_of_eq :
    (p q : FilePath) → path_eq p q ≡ true → normalize_for_match p ≡ normalize_for_match q
unfolding normalize_for_match
normalize_of_eq p q h = ap (normalize_from []) (path_eq→≡ p q h)

pub place_of_eq : (p q : FilePath) → path_eq p q ≡ true → place p ≡ place q
place_of_eq p q h = ap (λ cs. anchor cs ++ map normal (names cs)) (path_eq→≡ p q h)

pub both_absurd : (b : Bool) → b ≡ true → b ≡ false → ⊥
both_absurd b t f = cc

forget-keeps :
    (paths keys : List FilePath) (k : FilePath)
    → IsIn k keys
    → ((p : FilePath) → IsIn p paths → path_eq p k ≡ false)
    → IsIn k (forget paths keys)
unfolding forget
forget-keeps [] keys k i h = i
forget-keeps (path ∷ paths) keys k i h =
    forget-keeps paths (filter (λ k. not (path_eq path k)) keys) k
      (IsIn-filter_intro (λ k. not (path_eq path k)) k keys i (ap not (h path (inl refl))))
      (λ p j. h p (inr j))

module _ {V : Type 0} where
  -- The path of every cached archive stands in the registry, perhaps spelled otherwise.
  abbrev pub IsRegistered : ArchiveCache V → Type 0
  IsRegistered c =
      (e : Entry V)
      → IsIn e c.cache
      → (k : FilePath) × IsIn k c.cached_keys × (path_eq k e.path ≡ true)

  -- What stays when a path is dropped was there, and is of another path.
  drop_path-left :
      (path : FilePath) (e : Entry V) (cache : List (Entry V))
      → IsIn e (drop_path path cache)
      → IsIn e cache × (path_eq path e.path ≡ false)
  unfolding drop_path has_key format_eq
  drop_path-left path e cache i =
      let z = IsIn-filter (λ e. not (has_key path zip e)) e _ i in
      let t = IsIn-filter (λ e. not (has_key path tar e)) e _ z.0 in
      (t.0, neither (path_eq path e.path) e.format z.1 t.1)

  drop_paths-left :
      (paths : List FilePath) (e : Entry V) (cache : List (Entry V))
      → IsIn e (drop_paths paths cache)
      → IsIn e cache × ((p : FilePath) → IsIn p paths → path_eq p e.path ≡ false)
  unfolding drop_paths
  drop_paths-left [] e cache i = (i, λ p j. absurd j)
  drop_paths-left (path ∷ paths) e cache i =
      let later = drop_paths-left paths e (drop_path path cache) i in
      let first = drop_path-left path e cache later.0 in
      (
        first.0,
        λ p j. elim j [
          | inl same ↦ subst (λ q. path_eq q e.path ≡ false) same first.1
          | inr rest ↦ later.1 p rest
        ],
      )

  drop_path-keeps :
      (path : FilePath) (e : Entry V) (cache : List (Entry V))
      → IsIn e cache
      → path_eq path e.path ≡ false
      → IsIn e (drop_path path cache)
  unfolding drop_path has_key
  drop_path-keeps path e cache i h =
      IsIn-filter_intro (λ e. not (has_key path zip e)) e _
        (IsIn-filter_intro (λ e. not (has_key path tar e)) e cache i (rw h refl)) (rw h refl)

  drop_paths-keeps :
      (paths : List FilePath) (e : Entry V) (cache : List (Entry V))
      → IsIn e cache
      → ((p : FilePath) → IsIn p paths → path_eq p e.path ≡ false)
      → IsIn e (drop_paths paths cache)
  unfolding drop_paths
  drop_paths-keeps [] e cache i h = i
  drop_paths-keeps (path ∷ paths) e cache i h =
      drop_paths-keeps paths e (drop_path path cache)
        (drop_path-keeps path e cache i (h path (inl refl))) (λ p j. h p (inr j))

  -- The changed path leads to the entry's own directory or below it.
  abbrev pub concerns : FilePath → Entry V → Bool
  concerns changed e = starts_with (place changed) (place e.path)

  same_concern :
      (changed k : FilePath) (e : Entry V)
      → path_eq k e.path ≡ true
      → starts_with (normalize_for_match changed) (normalize_for_match k) ≡ concerns changed e
  same_concern changed k e h =
      ap₂ starts_with (normalize_for_match-place changed)
        (normalize_of_eq k e.path h ∙ normalize_for_match-place e.path)

  module _ (changed : FilePath) (c : ArchiveCache V) (registered : IsRegistered c) where
    abbrev gone : List FilePath
    gone = victims changed c.cached_keys

    left_is-IsRegistered : IsRegistered (invalidate changed c)
    unfolding invalidate
    left_is-IsRegistered e i =
        let left = drop_paths-left gone e c.cache i in
        let (k, ik, pk) = registered e left.0 in
        (
          k,
          forget-keeps gone c.cached_keys k ik (λ p j. elim (Bool-cases (path_eq p k)) [
            | inl h ↦ absurd (both_absurd _ (path_eq_trans p k e.path h pk) (left.1 p j))
            | inr h ↦ h
          ]),
          pk,
        )

    left_unconcerned :
        (e : Entry V) → IsIn e (invalidate changed c).cache → concerns changed e ≡ false
    unfolding invalidate victims
    left_unconcerned e i =
        let left = drop_paths-left gone e c.cache i in
        let (k, ik, pk) = registered e left.0 in
        elim (Bool-cases (concerns changed e)) [
          | inl h ↦ absurd (
              both_absurd _ pk (
                left.1 k
                  (IsIn-filter_intro _ k c.cached_keys ik (same_concern changed k e pk ∙ h))))
          | inr h ↦ h
        ]

    unconcerned_left :
        (e : Entry V)
        → IsIn e c.cache
        → concerns changed e ≡ false
        → IsIn e (invalidate changed c).cache
    unfolding invalidate victims
    unconcerned_left e i f = drop_paths-keeps gone e c.cache i λ p j.
        elim (Bool-cases (path_eq p e.path)) [
          | inl h ↦
              let v = IsIn-filter _ p c.cached_keys j in
              absurd (both_absurd _ (sym (same_concern changed p e h) ∙ v.1) f)
          | inr h ↦ h
        ]

  -- If every cached archive is registered, `invalidate` removes exactly the archives of the changed
  -- path and of the directories above it, in both formats, and every archive that is left is still
  -- registered.
  pub invalidate-IsRegistered :
      (changed : FilePath) (c : ArchiveCache V)
      → IsRegistered c
      → IsRegistered (invalidate changed c)
        × ((e : Entry V)
            → IsIn e c.cache
            → IsIn e (invalidate changed c).cache ↔ (concerns changed e ≡ false))
  invalidate-IsRegistered changed c registered = (
    left_is-IsRegistered changed c registered,
    λ e i. (left_unconcerned changed c registered e, unconcerned_left changed c registered e i),
  )

  pub IsIn-invalidate :
      (changed : FilePath) (c : ArchiveCache V) (e : Entry V)
      → IsIn e (invalidate changed c).cache
      → IsIn e c.cache
  unfolding invalidate
  IsIn-invalidate changed c e i = (drop_paths-left (victims changed c.cached_keys) e c.cache i).0
