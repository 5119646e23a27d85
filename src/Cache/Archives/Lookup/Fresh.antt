-- ===== src/Cache/Archives/Lookup/Fresh.antt =====
-- src/cache/archive.rs: a lookup behind a change makes the archive again, exactly if the change
-- concerns it.
use raas.Prelude.{
  ◌≡◌, refl, sym, ap, ◌∙◌, Bool, true, false, none, some, List, [], ◌∷◌, ◌⊎◌, inl, inr, Bool-cases,
  subst, ◌++◌, map,
}
use raas.Io.{Result}
use raas.Io.Paths.{FilePath, starts_with, normal}
use raas.Io.Text.{Text}
use raas.Archive.Format.{ArchiveFormat}
use raas.Cache.Archives.{
  Entry, ArchiveCache, any, has_key, contains_key, load, get_or_create, invalidate,
}
use raas.Cache.Archives.Place.{
  place, anchor, names, IsAtOrBelow, starts_with-IsAtOrBelow, IsAtOrBelow-starts_with,
}
use raas.Cache.Archives.Registry.{IsIn, any-IsIn, concerns, IsIn-invalidate, both_absurd}
use raas.Cache.Archives.Reachable.{Reachable, invalidate-unconcerned}
use raas.Cache.Archives.Lookup.{value_at, or_else, get_with, unpacked_result, looked_up_archive}
use raas.Cache.Archives.Lookup.Functional.{
  IsOf, has_key-IsOf, IsOf-has_key, absent, get_or_create-cache, Reachable-IsFunctional,
}

module _ {V : Type 0} where
  -- What `value_at` finds.
  abbrev Found : List (Entry V) → FilePath → ArchiveFormat → Type 0
  Found cache path format =
      (e : Entry V) × IsIn e cache
      × IsOf path format e
      × (value_at cache path format ≡ some e.value)

  abbrev Missing : List (Entry V) → FilePath → ArchiveFormat → Type 0
  Missing cache path format =
      ((e : Entry V) → IsIn e cache → IsOf path format e → ⊥) × (value_at cache path format ≡ none)

  not_here :
      (x : Entry V) (xs : List (Entry V)) (path : FilePath) (format : ArchiveFormat)
      → has_key path format x ≡ false
      → ((e : Entry V) → IsIn e xs → IsOf path format e → ⊥)
      → (e : Entry V) → IsIn e (x ∷ xs)
      → IsOf path format e
      → ⊥
  not_here x xs path format h none_left e (inl same) k =
      both_absurd _ (IsOf-has_key path format x (subst (IsOf path format) (sym same) k)) h
  not_here x xs path format h none_left e (inr i) k = none_left e i k

  value_at-cases :
      (cache : List (Entry V)) (path : FilePath) (format : ArchiveFormat)
      → Found cache path format ⊎ Missing cache path format
  unfolding value_at
  value_at-cases [] path format = inr (λ e i k. i, refl)
  value_at-cases (x ∷ xs) path format = elim (Bool-cases (has_key path format x)) [
    | inl h ↦ rw h (inl (x, inl refl, has_key-IsOf path format x h, refl))
    | inr h ↦
        let later = value_at-cases xs path format in
        rw h (elim later [
          | inl found ↦ inl (found.0, inr found.1, found.2, found.3)
          | inr missing ↦ inr (not_here x xs path format h missing.0, missing.1)
        ])
  ]

  value_at-hit :
      (cache : List (Entry V)) (path : FilePath) (format : ArchiveFormat) (x y : V)
      → any (has_key path format) cache ≡ true
      → or_else (value_at cache path format) x ≡ or_else (value_at cache path format) y
  unfolding or_else
  value_at-hit cache path format x y hit = elim (value_at-cases cache path format) [
    | inl found ↦ rw (found.3) refl
    | inr missing ↦
        let (e, i, h) = any-IsIn (has_key path format) cache hit in
        absurd (missing.0 e i (has_key-IsOf path format e h))
  ]

  value_at-miss :
      (cache : List (Entry V)) (path : FilePath) (format : ArchiveFormat)
      → any (has_key path format) cache ≡ false
      → value_at cache path format ≡ none
  value_at-miss cache path format miss = elim (value_at-cases cache path format) [
    | inl found ↦ absurd (absent path format cache found.0 miss found.1 found.2)
    | inr missing ↦ missing.1
  ]

  value_at-front :
      (cache : List (Entry V)) (path : FilePath) (format : ArchiveFormat) (created : V)
      → value_at (record { path = path; format = format; value = created } ∷ cache) path format
        ≡ some created
  unfolding value_at
  value_at-front cache path format created =
      let own : has_key path format (record { path = path; format = format; value = created })
          ≡ true =
        IsOf-has_key path format _ (refl, refl) in
      rw own refl

  load-hit :
      (path : FilePath) (format : ArchiveFormat) (created : V) (c : ArchiveCache V)
      → any (has_key path format) c.cache ≡ true
      → (load path format created c).cache ≡ c.cache
  unfolding load contains_key
  load-hit path format created c h = rw h refl

  load-miss :
      (path : FilePath) (format : ArchiveFormat) (created : V) (c : ArchiveCache V)
      → any (has_key path format) c.cache ≡ false
      → (load path format created c).cache
        ≡ record { path = path; format = format; value = created } ∷ c.cache
  unfolding load contains_key
  load-miss path format created c h = rw h refl

  get_with-get_or_create :
      (c : ArchiveCache V) (path : FilePath) (format : ArchiveFormat) (created again : V)
      → get_with path format again (get_or_create path format created c)
        ≡ get_with path format created c
  unfolding get_with or_else
  get_with-get_or_create c path format created again =
      let state = get_or_create-cache path format created c in
      elim (Bool-cases (any (has_key path format) c.cache)) [
        | inl hit ↦
            ap (λ es. or_else (value_at es path format) again)
              (state ∙ load-hit path format created c hit)
            ∙ value_at-hit c.cache path format again created hit
        | inr miss ↦
            ap (λ es. or_else (value_at es path format) again)
              (state ∙ load-miss path format created c miss)
            ∙ ap (λ v. or_else v again) (value_at-front c.cache path format created)
            ∙ ap (λ v. or_else v created) (sym (value_at-miss c.cache path format miss))
      ]

  concerns_key :
      (changed path : FilePath) (format : ArchiveFormat) (e : Entry V)
      → IsOf path format e
      → starts_with (place changed) (place path) ≡ concerns changed e
  concerns_key changed path format e k =
      ap (λ cs. starts_with (place changed) (anchor cs ++ map normal (names cs))) k.0

  module _ (c : ArchiveCache V) (r : Reachable c) (changed path : FilePath)
      (format : ArchiveFormat) where
    abbrev is_concerned : Bool
    is_concerned = starts_with (place changed) (place path)

    abbrev left : List (Entry V)
    left = (invalidate changed c).cache

    gone : is_concerned ≡ true → value_at left path format ≡ none
    gone h = elim (value_at-cases left path format) [
      | inr missing ↦ missing.1
      | inl found ↦
          let (e, i, k, v) = found in
          absurd (
            both_absurd _ (sym (concerns_key changed path format e k) ∙ h)
              ((invalidate-unconcerned c r changed e (IsIn-invalidate changed c e i)).0 i))
    ]

    stays_in :
        is_concerned ≡ false → (e : Entry V) → IsIn e c.cache → IsOf path format e → IsIn e left
    stays_in h e i k =
        (invalidate-unconcerned c r changed e i).1 (sym (concerns_key changed path format e k) ∙ h)

    same_value :
        (e e' : Entry V)
        → IsIn e c.cache
        → IsIn e' c.cache
        → IsOf path format e
        → IsOf path format e'
        → e.value ≡ e'.value
    same_value e e' i j k k' = Reachable-IsFunctional c r e e' i j (sym k.0 ∙ k'.0, sym k.1 ∙ k'.1)

    stays : is_concerned ≡ false → value_at left path format ≡ value_at c.cache path format
    stays h = elim (value_at-cases left path format) [
      | inl found ↦
          let (e, i, k, v) = found in
          elim (value_at-cases c.cache path format) [
            | inl before ↦
                let (e', j, k', v') = before in
                v ∙ ap some (same_value e e' (IsIn-invalidate changed c e i) j k k') ∙ sym v'
            | inr missing ↦ absurd (missing.0 e (IsIn-invalidate changed c e i) k)
          ]
      | inr missing ↦ elim (value_at-cases c.cache path format) [
        | inl before ↦ let (e', j, k', v') = before in absurd (missing.0 e' (stays_in h e' j k') k')
        | inr never ↦ missing.1 ∙ sym never.1
      ]
    ]

    pub get_with-invalidate :
        (created : V)
        → (IsAtOrBelow changed path
            × (get_with path format created (invalidate changed c) ≡ created))
          ⊎ (¬ (IsAtOrBelow changed path)
              × (get_with path format created (invalidate changed c)
                  ≡ get_with path format created c))
    unfolding get_with or_else
    get_with-invalidate created = elim (Bool-cases is_concerned) [
      | inl h ↦ inl (starts_with-IsAtOrBelow changed path h, rw (gone h) refl)
      | inr h ↦ inr (
        (λ below. both_absurd _ (IsAtOrBelow-starts_with changed path below) h),
        rw (stays h) refl,
      )
    ]

-- After any sequence of lookups, invalidations and evictions, a lookup right behind an
-- invalidation gives what is made then, archive or error, if the change is at the directory or
-- below it, and otherwise what a lookup before the invalidation would give; what is below what is
-- said by the names of a path that no later `..` takes away.
pub looked_up_archive-invalidate :
    {A : Type 0} (c : ArchiveCache (Result Text A))
    → Reachable c
    → (changed path : FilePath) (format : ArchiveFormat) (created : Result Text A)
    → (IsAtOrBelow changed path
        × (looked_up_archive path format created (invalidate changed c) ≡ unpacked_result created))
      ⊎ (¬ (IsAtOrBelow changed path)
          × (looked_up_archive path format created (invalidate changed c)
              ≡ looked_up_archive path format created c))
unfolding looked_up_archive
looked_up_archive-invalidate c r changed path format created =
    elim (get_with-invalidate c r changed path format created) [
      | inl made ↦ inl (made.0, ap unpacked_result made.1)
      | inr kept ↦ inr (kept.0, ap unpacked_result kept.1)
    ]

-- A second lookup gives what the first gave, whatever would be made then.
pub looked_up_archive-get_or_create :
    {A : Type 0} (c : ArchiveCache (Result Text A)) (path : FilePath) (format : ArchiveFormat)
    (created again : Result Text A)
    → looked_up_archive path format again (get_or_create path format created c)
      ≡ looked_up_archive path format created c
unfolding looked_up_archive
looked_up_archive-get_or_create c path format created again =
    ap unpacked_result (get_with-get_or_create c path format created again)
