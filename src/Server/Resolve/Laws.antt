-- ===== src/Server/Resolve/Laws.antt =====
-- src/server/handler.rs: what each outcome of `resolve_and_validate_path` means.
use raas.Prelude.{◌≡◌, refl, sym, ap, ◌∙◌, ◌≢◌, true, false, [], ◌⊎◌, inl, inr, Bool-cases}
use raas.Io.{Result, IoError, ok, err}
use raas.Io.Paths.{FilePath, components, starts_with, join, is_absolute, below}
use raas.Io.Paths.Joined.{components-join, starts_with-append}
use raas.Server.Errors.{
  ArchiveApiError, bad_request, internal_error, empty_path, unsupported_format, outside_root,
  path_not_found, archive_not_found, invalid_range_header, invalid_file_name,
}
use raas.Server.Resolve.{Links, is_inside, check_canonical, resolve_and_validate_path}

module _ (links : Links) (root relative : FilePath) where
  abbrev full : FilePath
  full = join root relative

  -- What a result says of the path: it leads to the result, which lies inside the root; it is absolute
  -- and outside, or leads outside; it leads nowhere; or it could not be resolved.
  abbrev pub Means : Result ArchiveApiError FilePath → Type 0
  Means (ok p) =
      (links.exists (join root relative) ≡ true)
      × (links.canonicalize (join root relative) ≡ ok p)
      × (is_inside p root ≡ true)
  Means (err (bad_request outside_root)) =
      ((is_absolute relative ≡ true) × (is_inside relative root ≡ false))
      ⊎ ((p : FilePath) × (links.canonicalize (join root relative) ≡ ok p)
          × (is_inside p root ≡ false))
  Means (err (bad_request path_not_found)) = links.exists (join root relative) ≡ false
  Means (err internal_error) = (e : IoError) × (links.canonicalize (join root relative) ≡ err e)
  Means (err (bad_request empty_path)) = ⊥
  Means (err (bad_request unsupported_format)) = ⊥
  Means (err (bad_request archive_not_found)) = ⊥
  Means (err (bad_request invalid_range_header)) = ⊥
  Means (err (bad_request invalid_file_name)) = ⊥

  join_absolute : is_absolute relative ≡ true → full ≡ relative
  unfolding join
  join_absolute h = rw h refl

  relative-inside : root ≢ [] → is_absolute relative ≡ false → is_inside full root ≡ true
  relative-inside n h =
      ap (λ c. starts_with c (components root)) (components-join root relative n h)
      ∙ starts_with-append (components root) (below relative)

  rejected : root ≢ [] → is_inside full root ≡ false → Means (err (bad_request outside_root))
  rejected n h = elim (Bool-cases (is_absolute relative)) [
    | inl absolute ↦ inl (absolute, ap (λ p. is_inside p root) (sym (join_absolute absolute)) ∙ h)
    | inr rel ↦ absurd (cc (relative-inside n rel, h))
  ]

  canonical-Means :
      links.exists full ≡ true
      → (r : Result IoError FilePath) → links.canonicalize full ≡ r
      → Means (check_canonical root r)
  unfolding check_canonical
  canonical-Means there (err e) h = (e, h)
  canonical-Means there (ok p) h = elim (Bool-cases (is_inside p root)) [
    | inl inside ↦ rw inside (there, h, inside)
    | inr outside ↦ rw outside (inr (p, h, outside))
  ]

  -- If the root is a path, every outcome of the check of a requested path means what it says: an
  -- accepted path is what the joined path leads to, and lies inside the root; `outside_root` is
  -- an absolute path outside the root or one that leads outside; `path_not_found` leads nowhere;
  -- an internal error is that of resolving the path.
  pub resolve_and_validate_path-Means :
      root ≢ [] → Means (resolve_and_validate_path links root relative)
  unfolding resolve_and_validate_path
  resolve_and_validate_path-Means n = elim (Bool-cases (is_inside full root)) [
    | inr outside ↦ rw outside (rejected n outside)
    | inl inside ↦ rw inside (elim (Bool-cases (links.exists full)) [
      | inr absent ↦ rw absent absent
      | inl there ↦ rw there (canonical-Means there (links.canonicalize full) refl)
    ])
  ]
