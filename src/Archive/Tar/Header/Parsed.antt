-- ===== src/Archive/Tar/Header/Parsed.antt =====
-- What a reader makes of the header bytes of src/archive/tar.rs.
use raas.Prelude.{
  ℕ, ◌≡◌, refl, sym, ◌∙◌, Bool, true, Option, List, ◌++◌, replicate, length, leb, inl, inr,
  Bool-cases, subst,
}
use raas.Io.{IoError, Result, ok, err}
use raas.Archive.Tar.Crate.{TarCrate, IsTarCrate}
use raas.Archive.Tar.Header.{
  FileInfo, long_path_blocks, set_truncated, use_long_link, path_is_set,
  set_path_with_gnu_extension, kind_is_set, create_header, lift_io, truncate_path,
}
use raas.Archive.Tar.Untar.{View, read_member, padding, file, next_of}
use raas.Archive.Tar.Untar.Members.{ReadsBack}
use raas.Archive.Tar.Header.Members.{
  Describes, kind_view, after_path, direct_member, long_member, unpacked_as,
}

lift_io-ok : (r : Result IoError (List ℕ)) (header : List ℕ) → lift_io r ≡ ok header → r ≡ ok header
unfolding lift_io
lift_io-ok (ok h) header e = cc
lift_io-ok (err x) header e = absurd (cc)

module _ (crate : TarCrate) (law : IsTarCrate crate) (parse : List ℕ → Option View)
    (back : ReadsBack crate parse) where
  open crate use {Header, as_bytes, set_path, set_cksum}

  -- The header of an entry, without its path.
  abbrev described : FileInfo → Header
  described info = crate.set_mtime info.mtime (
      crate.set_gid 0
        (crate.set_uid 0 (crate.set_mode info.mode (kind_is_set crate info crate.new_gnu))))

  described_view :
      (info : FileInfo)
      → (info.is_dir ≡ true → info.size ≡ 0)
      → Describes crate law parse back info.is_dir info.size (back.view (described info))
  unfolding kind_is_set
  described_view info empty =
      subst (Describes crate law parse back info.is_dir info.size)
        (sym (
          back.mtime_law info.mtime _
          ∙ back.gid_law 0 _
          ∙ back.uid_law 0 _
          ∙ back.mode_law info.mode _))
        (kind_view crate law parse back info.is_dir info.size empty)

  -- A header that is read, with the content behind it, as the member that it was made for.
  abbrev IsMember : List ℕ → Bool → List ℕ → List ℕ → List ℕ → Type 0
  IsMember path is_dir content rest header =
      next_of parse (
        read_member parse (header ++ (content ++ (replicate (padding (length content)) 0 ++ rest))))
      ≡ file (unpacked_as crate law parse back path is_dir content) rest

  module _ (path : List ℕ) (is_dir : Bool) (content rest header : List ℕ) where
    set_truncated-IsMember :
        (r : Result IoError (Unit {0}) × Header)
        → set_truncated crate path r ≡ ok header
        → Describes crate law parse back is_dir (length content) (back.view r.1)
        → IsMember path is_dir content rest header
    unfolding set_truncated
    set_truncated-IsMember (ok _, h) e d =
        let same : long_path_blocks crate path (set_cksum h) ≡ header = cc in
        subst (IsMember path is_dir content rest) same
          (long_member crate law parse back path is_dir h content rest d)
    set_truncated-IsMember (err x, h) e d = absurd (cc)

    use_long_link-IsMember :
        (x : IoError) (h : Header)
        → use_long_link crate path x h ≡ ok header
        → Describes crate law parse back is_dir (length content) (back.view h)
        → IsMember path is_dir content rest header
    unfolding use_long_link
    use_long_link-IsMember x h e d = elim (Bool-cases (leb (length path) crate.name_len)) [
      | inl short ↦ let failed : err x ≡ ok header = rw short at e in absurd (cc)
      | inr long ↦
          set_truncated-IsMember (set_path (truncate_path crate.name_len path) h) (rw long at e) (
            after_path crate law parse back is_dir (length content)
              (truncate_path crate.name_len path) h d)
    ]

    path_is_set-IsMember :
        (r : Result IoError (Unit {0}) × Header)
        → path_is_set crate path r ≡ ok header
        → Describes crate law parse back is_dir (length content) (back.view r.1)
        → (r.0 ≡ ok tt → (back.view r.1).name ≡ path)
        → IsMember path is_dir content rest header
    unfolding path_is_set
    path_is_set-IsMember (ok tt, h) e d n =
        let same : as_bytes (set_cksum h) ≡ header = cc in
        subst (IsMember path is_dir content rest) same
          (direct_member crate law parse back path is_dir h content rest d (n refl))
    path_is_set-IsMember (err x, h) e d n = use_long_link-IsMember x h e d

  pub create_header-IsMember :
      (info : FileInfo) (content rest header : List ℕ)
      → create_header crate info ≡ ok header
      → (info.is_dir ≡ true → info.size ≡ 0)
      → back.StoredAsIs info.path
      → length content ≡ info.size
      → IsMember info.path info.is_dir content rest header
  unfolding create_header set_path_with_gnu_extension
  create_header-IsMember info content rest header e empty stored sized =
      let h : Header = described info in
      path_is_set-IsMember info.path info.is_dir content rest header (set_path info.path h)
        (lift_io-ok _ header e)
        (after_path crate law parse back info.is_dir (length content) info.path h (
          subst (λ n. Describes crate law parse back info.is_dir n (back.view h)) (sym sized)
            (described_view info empty)))
        (back.stored_law info.path h stored)
