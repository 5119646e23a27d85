-- ===== src/Tests/Ended.antt =====
-- Reads of the archives of one file after it has become empty.
use raas.Prelude.{ℕ, ◌≤◌, ◌<◌, ◌≡◌, refl, false, some, [], ◌∷◌, arith, replicate}
use raas.Prelude.Words.{add64}
use raas.Io.{Disk, ok, unexpected_eof}
use raas.Io.Paths.{FilePath}
use raas.Io.Text.{codes}
use raas.Cache.FileHandle.Ended.{EndsBefore}
use raas.Archive.Fill.{failed, out_of_fuel}
use raas.Archive.Tar.Index.{TarEntry, TarArchive}
use raas.Archive.Tar.Reader.{
  locate, search_entry, check_candidate, item_end, content_start, read_into_buffer, stream_range,
}
use raas.Archive.Tar.Reader.Ended.{read_into_buffer-out_of_fuel}
use raas.Archive.Zip.Index.{Segment, local_header, data_of, eocd, SegmentKind, ZipEntry, ZipArchive}
use raas.Archive.Zip.Reader
use raas.Archive.Zip.Reader.{find_segment}
use raas.Archive.Zip.Reader.Ended.{left, read_into_buffer-unexpected_eof}
use raas.Tests.Files.{root, second_path}

abbrev cut : Disk
cut = record {
  is_file = λ path. false;
  open_file = λ path. ok 0;
  seek_file = λ inode n. ok n;
  read_file = λ inode n want. ok [];
}

abbrev cut_at : (path : FilePath) (n : ℕ) → EndsBefore cut path n
cut_at path n = record { inode = 0; opens = refl; seeks = refl; reads = λ want. refl }

abbrev tar_entry : TarEntry
tar_entry = record {
  info = record { path = codes "g"; offset = 0; size = 5; is_dir = false; mode = 420; mtime = 7 };
  header = replicate 16 0;
}

abbrev tar_archive : TarArchive
tar_archive = record {
  source_path = root;
  entries = tar_entry ∷ [];
  path_index = [];
  total_size = 2048;
}

is_located : locate tar_archive.entries 0 18 ≡ (some 0, 0)
unfolding locate search_entry check_candidate item_end add64
is_located = refl

content_before : content_start cut tar_archive 16 2000 tar_entry ≤ 18
unfolding add64
content_before = omega arith

ends_behind : 18 < item_end tar_entry
unfolding item_end add64
ends_behind = omega arith

endless_example : read_into_buffer cut tar_archive 1000 (stream_range 18 2000) 16 ≡ out_of_fuel
endless_example =
    read_into_buffer-out_of_fuel cut tar_archive 0 tar_entry refl 16 2000 18 (cut_at _ _)
      content_before ends_behind (omega arith) 1000 is_located (omega arith) (omega arith)
      (omega arith)

abbrev zip_entry : ZipEntry
zip_entry = record {
  name = codes "g";
  name_bytes = codes "g";
  source_path = some second_path;
  size = 5;
  is_dir = false;
  local_offset = 0;
  local_header_len = 31;
  local_zip64 = false;
  central_size_zip64 = false;
  central_offset_zip64 = false;
  central_offset = 36;
  central_len = 47;
}

abbrev data_segment : Segment
data_segment = record { start = 31; len = 5; kind = data_of 0 }

abbrev zip_archive : ZipArchive
zip_archive = record {
  entries = zip_entry ∷ [];
  segments =
      record { start = 0; len = 31; kind = local_header 0 }
      ∷ data_segment
      ∷ record { start = 36; len = 47; kind = SegmentKind.central_entry 0 }
      ∷ record { start = 83; len = 22; kind = eocd }
      ∷ [];
  total_size = 105;
  cd_offset = 36;
  cd_size = 47;
  zip64_eocd_offset = 83;
}

is_found : find_segment zip_archive.segments 33 ≡ some 1
unfolding find_segment Reader.check_candidate add64
is_found = refl

early_end_example :
    Reader.read_into_buffer cut zip_archive 9 (Reader.stream_range 33 105) 16
    ≡ failed unexpected_eof (
      record (Reader.stream_range 33 105) {
        buffers =
            left cut zip_archive 1 0 data_segment zip_entry second_path refl refl refl refl 16 105
              33
              (cut_at _ _);
      },
      [],
    )
early_end_example =
    read_into_buffer-unexpected_eof cut zip_archive 1 0 data_segment zip_entry second_path refl refl
      refl refl 16 105 33 (cut_at _ _) 8 is_found (omega arith) (omega arith) (omega arith)
