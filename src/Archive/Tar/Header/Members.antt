-- ===== src/Archive/Tar/Header/Members.antt =====
-- The parts that src/archive/tar.rs makes header bytes of, read back.
use raas.Prelude.{
  ℕ, ◌+◌, ◌≡◌, refl, sym, ap, ap₂, ◌∙◌, Bool, true, false, Option, some, List, [], ◌∷◌, ◌++◌,
  append_assoc, append-nil, take, replicate, length, length-append, ◌==◌, if◌then◌else◌, arith,
}
use raas.Prelude.Slices.{take-all}
use raas.Archive.Tar.Crate.{TarCrate, IsTarCrate}
use raas.Archive.Tar.Header.{
  calculate_padding, align_to_512_bytes, prepare_header, long_path_blocks,
}
use raas.Archive.Zip.Unzip.Fields.{take-front}
use raas.Archive.Tar.Untar.{
  View, found, read_member, padding, without_last, named, Untarred, file, next_of,
}
use raas.Archive.Tar.Untar.Members.{ReadsBack, read_member-block}

pub calculate_padding-padding : (n : ℕ) → calculate_padding n ≡ padding n
unfolding calculate_padding
calculate_padding-padding n = refl

align_to_512_bytes-block : (bs : List ℕ) → length bs ≡ 512 → align_to_512_bytes bs ≡ bs
unfolding align_to_512_bytes
align_to_512_bytes-block bs h = rw h (append-nil (take 512 bs) ∙ take-all 512 bs (omega (arith, h)))

regroup :
    (a p r h t : List ℕ)
    → (a ++ (p ++ (0 ∷ (r ++ h)))) ++ t ≡ a ++ ((p ++ (0 ∷ [])) ++ (r ++ (h ++ t)))
regroup a p r h t = simp append_assoc

module _ (crate : TarCrate) (law : IsTarCrate crate) (parse : List ℕ → Option View)
    (back : ReadsBack crate parse) where
  open crate use {Header, as_bytes, set_path, set_cksum}

  -- A header with its checksum, and its data.
  member_of_header :
      (h : Header) (content rest : List ℕ)
      → length content ≡ (back.view h).size
      → read_member parse (
          as_bytes (set_cksum h) ++ (content ++ (replicate (padding (back.view h).size) 0 ++ rest)))
        ≡ found (back.view h) content rest
  member_of_header h content rest c =
      read_member-block parse (as_bytes (set_cksum h)) content rest (back.view h)
        (law.header_block (set_cksum h)) (back.parse_law h) c

  abbrev pub flag : Bool → ℕ
  flag is_dir = if is_dir then 53 else 48

  -- What the header should say, but for the name.
  abbrev pub Describes : Bool → ℕ → View → Type 0
  Describes is_dir size v = (v.size ≡ size) × (v.flag ≡ flag is_dir)

  pub kind_view :
      (is_dir : Bool) (size : ℕ)
      → (is_dir ≡ true → size ≡ 0)
      → Describes is_dir size (
          back.view (
            if is_dir
            then crate.set_entry_type crate.entry_dir (crate.set_size 0 crate.new_gnu)
            else crate.set_entry_type crate.entry_file (crate.set_size size crate.new_gnu)))
  kind_view true size empty =
      let t = back.type_law crate.entry_dir (crate.set_size 0 crate.new_gnu) in
      (
        ap (λ v. v.size) t ∙ ap (λ v. v.size) (back.size_law 0 crate.new_gnu) ∙ sym (empty refl),
        ap (λ v. v.flag) t ∙ back.dir_law,
      )
  kind_view false size empty =
      let t = back.type_law crate.entry_file (crate.set_size size crate.new_gnu) in
      (
        ap (λ v. v.size) t ∙ ap (λ v. v.size) (back.size_law size crate.new_gnu),
        ap (λ v. v.flag) t ∙ back.file_law,
      )

  -- `set_path` leaves the rest.
  pub after_path :
      (is_dir : Bool) (size : ℕ) (path : List ℕ) (h : Header)
      → Describes is_dir size (back.view h)
      → Describes is_dir size (back.view (set_path path h).1)
  after_path is_dir size path h d =
      (ap (λ v. v.size) (back.path_law path h) ∙ d.0, ap (λ v. v.flag) (back.path_law path h) ∙ d.1)

  -- The header of the long name.
  prepared_view :
      (size : ℕ)
      → let v = back.view (prepare_header crate size 76) in (v.size ≡ size + 1) × (v.flag ≡ 76)
  unfolding prepare_header
  prepared_view size =
      let t = back.type_law (crate.entry_new 76) _ in
      let c = back.cksum_law _ in
      (
        ap (λ v. v.size) c ∙ ap (λ v. v.size) t ∙ ap (λ v. v.size) (back.size_law (size + 1) _),
        ap (λ v. v.flag) c ∙ ap (λ v. v.flag) t ∙ back.new_law 76,
      )

  -- The member that an entry should be.
  abbrev pub unpacked_as : List ℕ → Bool → List ℕ → Untarred
  unpacked_as path is_dir content = record { name = path; is_dir = is_dir; content = content }

  flag-dir : (b : Bool) → (flag b == 53) ≡ b
  flag-dir true = refl
  flag-dir false = refl

  flag-long : (b : Bool) → (flag b == 76) ≡ false
  flag-long true = refl
  flag-long false = refl

  -- The header of an entry with its checksum, behind a name from elsewhere.
  named_as :
      (path : List ℕ) (is_dir : Bool) (h : Header) (content rest : List ℕ)
      → Describes is_dir (length content) (back.view h)
      → named path (
          read_member parse (
            as_bytes (set_cksum h)
            ++ (content ++ (replicate (padding (length content)) 0 ++ rest))))
        ≡ file (unpacked_as path is_dir content) rest
  named_as path is_dir h content rest d =
      ap
        (λ n. named path (
          read_member parse
            (as_bytes (set_cksum h) ++ (content ++ (replicate (padding n) 0 ++ rest)))))
        (sym d.0)
      ∙ ap (named path) (member_of_header h content rest (sym d.0))
      ∙ ap (λ k. file (unpacked_as path k content) rest) (ap (λ n. n == 53) d.1 ∙ flag-dir is_dir)

  pub direct_member :
      (path : List ℕ) (is_dir : Bool) (h : Header) (content rest : List ℕ)
      → Describes is_dir (length content) (back.view h)
      → (back.view h).name ≡ path
      → next_of parse (
          read_member parse (
            as_bytes (set_cksum h)
            ++ (content ++ (replicate (padding (length content)) 0 ++ rest))))
        ≡ file (unpacked_as path is_dir content) rest
  unfolding next_of
  direct_member path is_dir h content rest d n =
      ap
        (λ k. next_of parse (
          read_member parse
            (as_bytes (set_cksum h) ++ (content ++ (replicate (padding k) 0 ++ rest)))))
        (sym d.0)
      ∙ ap (next_of parse) (member_of_header h content rest (sym d.0))
      ∙ rw (d.1, flag-long is_dir, flag-dir is_dir, n) refl

  without_last-path : (path : List ℕ) → without_last (path ++ (0 ∷ [])) ≡ path
  without_last-path path =
      ap (λ k. take k (path ++ (0 ∷ []))) {y = length path}
        (omega (arith, length-append path (0 ∷ [])))
      ∙ take-front path (0 ∷ [])

  prepared_parse :
      (size : ℕ)
      → let long = prepare_header crate size 76 in parse (as_bytes long) ≡ some (back.view long)
  unfolding prepare_header
  prepared_parse size = back.parse_law _ ∙ ap some (sym (back.cksum_law _))

  prepared_member :
      (path rest : List ℕ)
      → let long = prepare_header crate (length path) 76 in
        read_member parse (
          as_bytes long
          ++ ((path ++ (0 ∷ [])) ++ (replicate (padding (length path + 1)) 0 ++ rest)))
        ≡ found (back.view long) (path ++ (0 ∷ [])) rest
  prepared_member path rest =
      let long : Header = prepare_header crate (length path) 76 in
      let v = prepared_view (length path) in
      ap
        (λ n.
          read_member parse
            (as_bytes long ++ ((path ++ (0 ∷ [])) ++ (replicate (padding n) 0 ++ rest))))
        (sym v.0)
      ∙ read_member-block parse (as_bytes long) (path ++ (0 ∷ [])) rest (back.view long)
          (law.header_block long) (prepared_parse (length path))
          (length-append path (0 ∷ []) ∙ sym v.0)

  -- The blocks of a long path, and what stands behind them.
  long_blocks :
      (path : List ℕ) (h : Header) (tail : List ℕ)
      → let long = prepare_header crate (length path) 76 in
        long_path_blocks crate path h ++ tail
        ≡ as_bytes long
          ++ ((path ++ (0 ∷ []))
              ++ (replicate (padding (length path + 1)) 0 ++ (as_bytes h ++ tail)))
  unfolding long_path_blocks
  long_blocks path h tail =
      let long : Header = prepare_header crate (length path) 76 in
      ap₂ (λ a b. (a ++ (path ++ (0 ∷ (replicate (padding (length path + 1)) 0 ++ b)))) ++ tail)
        (align_to_512_bytes-block (as_bytes long) (law.header_block long))
        (align_to_512_bytes-block (as_bytes h) (law.header_block h))
      ∙ regroup (as_bytes long) path (replicate (padding (length path + 1)) 0) (as_bytes h) tail

  pub long_member :
      (path : List ℕ) (is_dir : Bool) (h : Header) (content rest : List ℕ)
      → Describes is_dir (length content) (back.view h)
      → next_of parse (
          read_member parse (
            long_path_blocks crate path (set_cksum h)
            ++ (content ++ (replicate (padding (length content)) 0 ++ rest))))
        ≡ file (unpacked_as path is_dir content) rest
  unfolding next_of
  long_member path is_dir h content rest d =
      let tail : List ℕ = content ++ (replicate (padding (length content)) 0 ++ rest) in
      ap (λ bs. next_of parse (read_member parse bs)) (long_blocks path (set_cksum h) tail)
      ∙ ap (next_of parse) (prepared_member path (as_bytes (set_cksum h) ++ tail))
      ∙ rw ((prepared_view (length path)).1, without_last-path path)
          (named_as path is_dir h content rest d)
