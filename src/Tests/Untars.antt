-- ===== src/Tests/Untars.antt =====
-- The tar archive of a directory with a file whose path is too long for a header, read back. The
-- headers have room for four bytes of a name.
use raas.Prelude.{
  ℕ, zero, suc, ◌+◌, ◌<◌, ◌≡◌, refl, sym, ap, ◌≤◌, false, Option, none, some, List, [], ◌∷◌, map,
  length, length-replicate, replicate, get_elem?, arith, subst, take,
}
use raas.Prelude.Words.{u64_mod, add64}
use raas.Io.{IoError, Result, ok, err, HoldsFile}
use raas.Archive.Error.{ArchiveError}
use raas.Archive.Scanner.{ScannedEntry}
use raas.Archive.Tar.Crate.{TarCrate, IsTarCrate}
use raas.Archive.Tar.Header.{
  create_header, set_path_with_gnu_extension, long_path_blocks, calculate_padding, truncate_path,
  prepare_header, align_to_512_bytes,
}
use raas.Archive.Tar.Index.{
  TarArchive, create, finish, start_building, add_entries, file_info, TarEntry, place,
  align_to_boundary,
}
use raas.Archive.Tar.Index.Layout.{scan_size}
use raas.Archive.Tar.Untar.{View, untar}
use raas.Archive.Tar.Untar.Members.{ReadsBack}
use raas.Archive.Tar.Untar.RoundTrip.{IsPackable, content_of, unpacked}
use raas.Archive.Tar.Served.{IsPresent}
use raas.Archive.Tar.Reader.{source_file}
use raas.Io.Paths.{join, trim_end_slashes, is_absolute, components, components_eq, component_eq}
use raas.Server.Handler.Bytes.{tar_served}
use raas.Server.Handler.Unzipped.{Resumes}
use raas.Server.Handler.Untarred.{tar_served-untar}
use raas.Tests.Files.{root, disk, consistent, holds, named, file_bytes}
use raas.Tests.Unzips.{stays_there}
use raas.Tests.Tars.{directory}

-- A name of at most four bytes: its length, and four places.
record Name : Type 0 where
  len : ℕ
  a : ℕ
  b : ℕ
  c : ℕ
  d : ℕ

abbrev name_of : Name → List ℕ
name_of n = take n.len (n.a ∷ n.b ∷ n.c ∷ n.d ∷ [])

abbrev name_from : List ℕ → Option Name
name_from [] = some (record { len = 0; a = 0; b = 0; c = 0; d = 0 })
name_from (a ∷ []) = some (record { len = 1; a = a; b = 0; c = 0; d = 0 })
name_from (a ∷ b ∷ []) = some (record { len = 2; a = a; b = b; c = 0; d = 0 })
name_from (a ∷ b ∷ c ∷ []) = some (record { len = 3; a = a; b = b; c = c; d = 0 })
name_from (a ∷ b ∷ c ∷ d ∷ []) = some (record { len = 4; a = a; b = b; c = c; d = d })
name_from (a ∷ b ∷ c ∷ d ∷ e ∷ es) = none

record Fields : Type 0 where
  name : Name
  size : ℕ
  flag : ℕ

abbrev with_name : Option Name → Fields → Result IoError (Unit {0}) × Fields
with_name none h = (err IoError.other, h)
with_name (some n) h = (ok tt, record h { name = n })

abbrev stored : Fields → List ℕ
stored h =
    1 ∷ h.size ∷ h.flag ∷ h.name.len ∷ h.name.a ∷ h.name.b ∷ h.name.c ∷ h.name.d ∷ replicate 504 0

abbrev crate : TarCrate
crate = record {
  Header = Fields;
  EntryType = ℕ;
  entry_dir = 53;
  entry_file = 48;
  entry_new = λ n. n;
  new_gnu = record { name = record { len = 0; a = 0; b = 0; c = 0; d = 0 }; size = 0; flag = 0 };
  set_size = λ n h. record h { size = n };
  set_entry_type = λ n h. record h { flag = n };
  set_mode = λ n h. h;
  set_uid = λ n h. h;
  set_gid = λ n h. h;
  set_mtime = λ n h. h;
  set_cksum = λ h. h;
  set_gnu_name = λ name h. (with_name (name_from (take 4 name)) h).1;
  set_path = λ path h. with_name (name_from path) h;
  name_len = 4;
  as_bytes = stored;
}

law : IsTarCrate crate
law = record { header_block = λ h. ap (λ n. 8 + n) (length-replicate {A = ℕ} 504 0) }

abbrev view_of : Fields → View
view_of h = record { name = name_of h.name; size = h.size; flag = h.flag }

abbrev parse : List ℕ → Option View
parse (suc k ∷ size ∷ flag ∷ len ∷ a ∷ b ∷ c ∷ d ∷ rest) = some (
    view_of (record {
      name = record { len = len; a = a; b = b; c = c; d = d };
      size = size;
      flag = flag;
    }))
parse _ = none

path_only :
    (n : Option Name) (h : Fields)
    → view_of (with_name n h).1 ≡ record (view_of h) { name = name_of (with_name n h).1.name }
path_only none h = refl
path_only (some n) h = refl

is_stored :
    (path : List ℕ) (h : Fields)
    → (with_name (name_from path) h).0 ≡ ok tt
    → name_of (with_name (name_from path) h).1.name ≡ path
is_stored [] h e = refl
is_stored (a ∷ []) h e = refl
is_stored (a ∷ b ∷ []) h e = refl
is_stored (a ∷ b ∷ c ∷ []) h e = refl
is_stored (a ∷ b ∷ c ∷ d ∷ []) h e = refl
is_stored (a ∷ b ∷ c ∷ d ∷ x ∷ xs) h e = absurd (cc)

back : ReadsBack crate parse
back = record {
  view = view_of;
  flag_of = λ n. n;
  StoredAsIs = λ path. Unit;
  size_law = λ n h. refl;
  type_law = λ t h. refl;
  mode_law = λ n h. refl;
  uid_law = λ n h. refl;
  gid_law = λ n h. refl;
  mtime_law = λ n h. refl;
  cksum_law = λ h. refl;
  path_law = λ path h. path_only (name_from path) h;
  stored_law = λ path h s e. is_stored path h e;
  new_law = λ n. refl;
  dir_law = refl;
  file_law = refl;
  parse_law = λ h. refl;
  zero_law = refl;
}

abbrev deep_file : ScannedEntry
deep_file = record {
  relative_path = 100 ∷ 47 ∷ 101 ∷ 101 ∷ 101 ∷ 102 ∷ [];
  source_path = [];
  size = 5;
  is_dir = false;
  mode = 420;
  mtime = 7;
}

abbrev scan : List ScannedEntry
scan = directory ∷ deep_file ∷ []

abbrev made : Result ArchiveError TarArchive → TarArchive
made (ok a) = a
made (err e) = finish root start_building

abbrev archive : TarArchive
archive = made (create crate root (ok scan))

is_made : create crate root (ok scan) ≡ ok archive
unfolding create create_header set_path_with_gnu_extension add_entries file_info truncate_path
is_made = refl

abbrev held : List ℕ → List ℕ
held path = file_bytes 1

are-IsPackable :
    (i : ℕ) (s : ScannedEntry) → get_elem? scan i ≡ some s → IsPackable held crate law parse back s
unfolding back
are-IsPackable zero s h =
    let same : directory ≡ s = cc in
    subst (IsPackable held crate law parse back) same
      (record { stored = tt; held_size = λ f. absurd (cc) })
are-IsPackable (suc zero) s h =
    let same : deep_file ≡ s = cc in
    subst (IsPackable held crate law parse back) same
      (record { stored = tt; held_size = λ f. refl })
are-IsPackable (suc (suc i)) s h = absurd (cc)

fits : scan_size crate scan + 1024 < u64_mod
unfolding create_header set_path_with_gnu_extension file_info calculate_padding truncate_path
    long_path_blocks prepare_header align_to_512_bytes
fits = omega arith

abbrev header_of : Result ArchiveError (List ℕ) → List ℕ
header_of (ok h) = h
header_of (err e) = []

abbrev entry_at : ℕ → ScannedEntry → TarEntry
entry_at offset i = record {
  info = record (file_info i) { offset = offset };
  header = header_of (create_header crate (file_info i));
}

entries_are : archive.entries ≡ entry_at 0 directory ∷ entry_at 512 deep_file ∷ []
unfolding create create_header set_path_with_gnu_extension add_entries file_info place finish
    align_to_boundary add64 calculate_padding truncate_path
entries_are = refl

is_as_long :
    (i : ℕ) (e : TarEntry)
    → get_elem? (entry_at 0 directory ∷ entry_at 512 deep_file ∷ []) i ≡ some e
    → length (content_of held e) ≡ e.info.size
unfolding file_info
is_as_long zero e h =
    let same : entry_at 0 directory ≡ e = cc in
    subst (λ w. length (content_of held w) ≡ w.info.size) same refl
is_as_long (suc zero) e h =
    let same : entry_at 512 deep_file ≡ e = cc in
    subst (λ w. length (content_of held w) ≡ w.info.size) same refl
is_as_long (suc (suc i)) e h = absurd (cc)

deep-HoldsFile : HoldsFile disk (source_file disk archive (entry_at 512 deep_file)) (file_bytes 1)
unfolding file_info source_file join trim_end_slashes is_absolute create create_header
    set_path_with_gnu_extension add_entries finish truncate_path named components components_eq
    component_eq
deep-HoldsFile = holds (source_file disk archive (entry_at 512 deep_file)) 1 refl

is_held :
    (i : ℕ) (e : TarEntry)
    → get_elem? (entry_at 0 directory ∷ entry_at 512 deep_file ∷ []) i ≡ some e
    → 0 < e.info.size
    → HoldsFile disk (source_file disk archive e) (content_of held e)
unfolding file_info
is_held zero e h w =
    let same : entry_at 0 directory ≡ e = cc in
    let w' : 0 < 0 = subst (λ w. 0 < w.info.size) (sym same) w in absurd (omega arith)
is_held (suc zero) e h w =
    let same : entry_at 512 deep_file ≡ e = cc in
    subst (λ w. HoldsFile disk (source_file disk archive w) (content_of held w)) same deep-HoldsFile
is_held (suc (suc i)) e h w = absurd (cc)

present : IsPresent (content_of held) disk archive
present = record {
  consistent = consistent;
  sized = λ i e h. is_as_long i e (rw entries_are at h);
  held = λ i e h. is_held i e (rw entries_are at h);
}

total_is : archive.total_size ≡ 3584
unfolding create create_header set_path_with_gnu_extension add_entries file_info place finish
    align_to_boundary add64 calculate_padding truncate_path long_path_blocks prepare_header
    align_to_512_bytes
total_is = refl

far_inside : 700 ≤ archive.total_size
far_inside = omega (arith, total_is)

unpacked_example :
    (bytes : List ℕ) × Resumes disk stays_there 16
      (tar_served disk stays_there 16 archive)
      700
      bytes
    × (untar parse 3 bytes ≡ some (map (unpacked held) scan))
unpacked_example =
    tar_served-untar disk stays_there 16 crate law parse back held root scan archive fits is_made
      present are-IsPackable (λ k. refl) 700 far_inside
