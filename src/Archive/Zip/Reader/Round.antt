-- ===== src/Archive/Zip/Reader/Round.antt =====
-- One round of the read loop appends the next bytes of the zip file.
use raas.Prelude.{
  ℕ, zero, suc, ◌+◌, ◌-◌, ◌≤◌, ◌<◌, ◌≡◌, refl, sym, ap, ap₂, ◌∙◌, true, false, some, List, [], ◌∷◌,
  ◌++◌, length, get_elem?, ltb, lt→ltb, not-lt→ltb, inl, inr, Option-cases, arith, subst,
}
use raas.Prelude.Slices.{slice, length-slice}
use raas.Prelude.Words.{u64_mod, add64, add64_exact}
use raas.Io.{Disk, Result, IoError, ok, HoldsFile}
use raas.Io.Paths.{FilePath}
use raas.Cache.FileHandle.{FileHandleCache, read_at}
use raas.Cache.FileHandle.Laws.{IsCoherent, Reads, read_at-Reads}
use raas.Archive.Fill.{Run, running, Progress, wants_more}
use raas.Archive.Fill.Laws.{Advances, Continues}
use raas.Archive.Tiles.{concat, Tiles-slice, Tiles-Found, Found, start-le}
use raas.Archive.Zip.Index.{
  ZipEntry, ZipArchive, Segment, SegmentKind, local_header, data_of, central_entry, zip64_eocd,
  zip64_locator, eocd,
}
use raas.Archive.Zip.Records.{write_segment_into}
use raas.Archive.Zip.Records.Lengths.{write_local_header-ok, write_central_entry-ok}
use raas.Archive.Zip.Image.{
  start_of, IsZipLayout, image, of_entry, kind_bytes, segment_bytes, IsBacked,
}
use raas.Archive.Zip.Image.Segments.{Spans, Measured}
use raas.Archive.Zip.Image.Build.{segments-Spans, length-zip_image, total_size-lt}
use raas.Archive.Zip.Reader.{
  Buffers, check_candidate, find_segment, want, data_is_read, read_data, copy_record, read_kind,
  read_found, read_round,
}

record Wants (buf_len end total : ℕ) (s : Progress Buffers) : Type 0 where
  room : length s.out < buf_len
  before_end : s.pos < end
  before_total : s.pos < total

wants :
    (buf_len end total : ℕ) (s : Progress Buffers)
    → wants_more buf_len end total s ≡ true
    → Wants buf_len end total s
unfolding wants_more
wants buf_len end total s h = ground arith

abbrev pub Keeps : Disk → Buffers → Type 0
Keeps disk b = IsCoherent disk b.file_handle_cache

-- A round that appends `chunk`, which is the next `k` bytes of the image.
appends :
    (disk : Disk) (bytes : List ℕ) (s : Progress Buffers) (b : Buffers) (chunk : List ℕ) (k : ℕ)
    → Keeps disk b
    → s.pos + k < u64_mod
    → slice s.pos k bytes ≡ chunk
    → Continues {E = IoError}
        (Keeps disk)
        bytes
        s
        (running (record { aux = b; out = s.out ++ chunk; pos = add64 s.pos k }))
        k
appends disk bytes s b chunk k keeps fits e = record {
  aux' = b;
  keeps = keeps;
  result =
      ap₂ (λ c n. running (record { aux = b; out = s.out ++ c; pos = n })) (sym e)
        (add64_exact s.pos k fits);
}

-- Which kinds are written to the scratch buffer.
abbrev IsRecord : SegmentKind → Type 0
IsRecord (data_of i) = ⊥
IsRecord _ = Unit

Measured-elem :
    (content : ZipEntry → List ℕ) (z : ZipArchive) (ss : List Segment) (i : ℕ) (s : Segment)
    → Measured content z ss
    → get_elem? ss i ≡ some s
    → s.len ≡ length (segment_bytes content z s)
Measured-elem content z [] i s m h = absurd (cc)
Measured-elem content z (x ∷ xs) zero s m h =
    let e : x ≡ s = cc in subst (λ w. w.len ≡ length (segment_bytes content z w)) e m.0
Measured-elem content z (x ∷ xs) (suc i) s m h = Measured-elem content z xs i s m.1 h

module _ (content : ZipEntry → List ℕ) (z : ZipArchive) where
  -- A record segment that is not empty is written as it stands in the image.
  write_segment_into-kind_bytes :
      (kind : SegmentKind)
      → IsRecord kind
      → 0 < length (kind_bytes content z kind)
      → write_segment_into z kind ≡ running (kind_bytes content z kind)
  unfolding write_segment_into
  write_segment_into-kind_bytes (local_header i) r h = elim (Option-cases (get_elem? z.entries i)) [
    | inl missing ↦ absurd (omega (arith, rw missing at h))
    | inr (e, at) ↦ rw (at, write_segment_into) (rw (write_local_header-ok e) refl)
  ]
  write_segment_into-kind_bytes (central_entry i) r h =
      elim (Option-cases (get_elem? z.entries i)) [
        | inl missing ↦ absurd (omega (arith, rw missing at h))
        | inr (e, at) ↦ rw (at, write_segment_into) (rw (write_central_entry-ok e) refl)
      ]
  write_segment_into-kind_bytes (data_of i) r h = absurd r
  write_segment_into-kind_bytes zip64_eocd r h = refl
  write_segment_into-kind_bytes zip64_locator r h = refl
  write_segment_into-kind_bytes eocd r h = refl

-- What a successful, non-empty read of the file appends.
data_read :
    (disk : Disk) (z : ZipArchive) (buf_len end : ℕ) (s : Progress Buffers) (chunk : List ℕ)
    (cache : FileHandleCache) (a : Result IoError (List ℕ) × FileHandleCache) (k : ℕ)
    → a ≡ (ok chunk, cache)
    → length chunk ≡ k
    → 0 < k
    → data_is_read disk z buf_len end s a
      ≡ running (record {
        aux = record s.aux { file_handle_cache = cache };
        out = s.out ++ chunk;
        pos = add64 s.pos k;
      })
unfolding data_is_read
data_read disk z buf_len end s [] cache a k e l p = absurd (omega arith)
data_read disk z buf_len end s (b ∷ bs) cache a k e l p = rw e (rw l refl)

module _ (disk : Disk) (z : ZipArchive) (content : ZipEntry → List ℕ) (layout : IsZipLayout z)
    (backed : IsBacked content disk z) (buf_len end : ℕ) where
  abbrev whole : List ℕ
  whole = image content z

  spanned : Spans content z 0 whole z.segments
  spanned = segments-Spans content z layout backed.sized

  total_fits : z.total_size < u64_mod
  total_fits = total_size-lt content z layout backed.sized

  -- A segment of the index that covers a position: its length, its room, its piece of the image.
  record Placed (seg : Segment) (pos : ℕ) : Type 0 where
    from : seg.start ≤ pos
    to : pos < seg.start + seg.len
    measured : seg.len ≡ length (segment_bytes content z seg)
    inside : seg.start + seg.len ≤ z.total_size
    piece :
        (k : ℕ)
        → pos + k ≤ seg.start + seg.len
        → slice pos k whole ≡ slice (pos - seg.start) k (segment_bytes content z seg)

  -- In the archive every position is in a segment, and the search finds it.
  record Located (pos : ℕ) : Type 0 where
    index : ℕ
    segment : Segment
    found : find_segment z.segments pos ≡ some index
    elem : get_elem? z.segments index ≡ some segment
    placed : Placed segment pos

  find_candidate :
      (pos i : ℕ) (seg : Segment)
      → get_elem? z.segments i ≡ some seg
      → pos < add64 seg.start seg.len
      → check_candidate z.segments pos (suc i) ≡ some i
  unfolding check_candidate
  find_candidate pos i seg at h = rw (at, check_candidate) (rw (lt→ltb _ _ h) refl)

  find_segment-Located : (pos : ℕ) → pos < z.total_size → Located pos
  unfolding find_segment
  find_segment-Located pos h =
      let sp = spanned in
      let bytes = segment_bytes content z in
      let len = length-zip_image content z layout backed.sized in
      let all : length (concat start_of bytes z.segments) ≡ z.total_size =
        ap length sp.whole ∙ len in
      let f : Found start_of bytes z.segments pos =
        Tiles-Found start_of bytes 0 pos z.segments sp.tiles (omega arith) (omega arith) in
      let m = Measured-elem content z z.segments f.index f.item sp.measured f.elem in
      let room = start-le start_of bytes 0 z.segments f.index f.item sp.tiles f.elem in
      let exact = add64_exact f.item.start f.item.len (omega (arith, total_fits)) in
      record {
        index = f.index;
        segment = f.item;
        found =
            ap (check_candidate z.segments pos) f.point
            ∙ find_candidate pos f.index f.item f.elem (omega (arith, f.to));
        elem = f.elem;
        placed = record {
          from = f.from;
          to = omega (arith, f.to);
          measured = m;
          inside = omega arith;
          piece = λ k hi.
              ap (λ l. slice pos k l) (sym sp.whole)
              ∙ ap (λ n. slice n k (concat start_of bytes z.segments)) {y = pos - 0} (omega arith)
              ∙ Tiles-slice start_of bytes 0 z.segments f.index f.item pos k sp.tiles f.elem f.from
                  (omega arith);
        };
      }

  module _ (s : Progress Buffers) (keeps : Keeps disk s.aux) (w : Wants buf_len end z.total_size s)
      (seg : Segment) (p : Placed seg s.pos) where
    abbrev Goal : Run IoError (Progress Buffers) → Type 0
    Goal = Advances (Keeps disk) whole buf_len end z.total_size s

    abbrev offset : ℕ
    offset = s.pos - seg.start

    want_bounds :
        let n = want disk z buf_len end s seg in
        (0 < n)
        × (length s.out + n ≤ buf_len)
        × (s.pos + n ≤ end)
        × (s.pos + n ≤ seg.start + seg.len)
    unfolding want
    want_bounds =
        let a = w.room in
        let b = w.before_end in
        let c = p.from in let d = p.to in (omega arith, omega arith, omega arith, omega arith)

    copy_record-Advances :
        (r : Run IoError (List ℕ))
        → r ≡ running (segment_bytes content z seg)
        → Goal (copy_record disk z buf_len end s seg r)
    unfolding copy_record
    copy_record-Advances r e =
        let n = want disk z buf_len end s seg in
        let b = want_bounds in
        let bytes : List ℕ = segment_bytes content z seg in
        let enough : ltb (length bytes) (offset + n) ≡ false =
          not-lt→ltb _ _ (omega (arith, p.measured, p.from)) in
        record {
          count = n;
          some_bytes = b.0;
          in_buffer = b.1;
          in_range = b.2;
          in_archive = omega (arith, b.3, p.inside);
          step =
              rw (e, copy_record)
                (rw enough (
                  appends disk whole s _ (slice offset n bytes) n keeps
                    (omega (arith, b.3, p.inside, total_fits)) (p.piece n b.3)));
        }

    record_kind :
        (kind : SegmentKind)
        → seg.kind ≡ kind
        → IsRecord kind
        → Goal (copy_record disk z buf_len end s seg (write_segment_into z kind))
    record_kind kind k r =
        let same : segment_bytes content z seg ≡ kind_bytes content z kind =
          ap (kind_bytes content z) k in
        copy_record-Advances _ (
          write_segment_into-kind_bytes content z kind r
            (omega (arith, p.to, p.from, p.measured, ap length same))
          ∙ ap running (sym same))

    source_read :
        (e : ZipEntry) (source : FilePath)
        → e.source_path ≡ some source
        → read_data disk z buf_len end s seg e
          ≡ data_is_read disk z buf_len end s
              (read_at disk s.aux.file_handle_cache source offset (want disk z buf_len end s seg))
    unfolding read_data
    source_read e source has = rw (has, read_data) refl

    data_is_read-Advances :
        (e : ZipEntry) (source : FilePath)
        → segment_bytes content z seg ≡ content e
        → HoldsFile disk source (content e)
        → e.source_path ≡ some source
        → Goal (read_data disk z buf_len end s seg e)
    unfolding read_data
    data_is_read-Advances e source same held has =
        let n = want disk z buf_len end s seg in
        let b = want_bounds in
        let len = ap length same in
        let r : Reads disk (content e) offset n
            (read_at disk s.aux.file_handle_cache source offset n) =
          read_at-Reads disk source (content e) held backed.consistent s.aux.file_handle_cache
            offset n keeps (omega (arith, p.to, p.from, p.measured)) b.0 in
        let k = r.count in
        let fits : s.pos + k ≤ seg.start + seg.len = omega (arith, b.3, r.at_most) in
        let c =
          appends disk whole s (record s.aux { file_handle_cache = r.cache' })
            (slice offset k (content e)) k r.coherent (omega (arith, fits, p.inside, total_fits))
            (p.piece k fits ∙ ap (slice offset k) same) in
        record {
          count = k;
          some_bytes = r.some_bytes;
          in_buffer = omega (arith, b.1, r.at_most);
          in_range = omega (arith, b.2, r.at_most);
          in_archive = omega (arith, fits, p.inside);
          step = record {
            aux' = c.aux';
            keeps = c.keeps;
            result =
                source_read e source has
                ∙ data_read disk z buf_len end s _ r.cache' _ k r.answer
                    (length-slice offset k (content e) r.inside) r.some_bytes
                ∙ c.result;
          };
        }

    read_kind-Advances :
        (kind : SegmentKind) → seg.kind ≡ kind → Goal (read_kind disk z buf_len end s seg kind)
    unfolding read_kind
    read_kind-Advances (data_of i) k = elim (Option-cases (get_elem? z.entries i)) [
      | inl missing ↦ absurd (
          let same : segment_bytes content z seg ≡ [] =
            ap (kind_bytes content z) k ∙ ap (of_entry content content) missing in
          omega (arith, p.to, p.from, p.measured, ap length same))
      | inr (e, at) ↦
          let same : segment_bytes content z seg ≡ content e =
            ap (kind_bytes content z) k ∙ ap (of_entry content content) at in
          let filled : 0 < e.size =
            omega (arith, p.to, p.from, p.measured, ap length same, backed.sized i e at) in
          rw (at, read_kind)
            (data_is_read-Advances e (backed.source e) same (backed.held i e at filled)
              (backed.has_source i e at filled))
    ]
    read_kind-Advances (local_header i) k = record_kind _ k tt
    read_kind-Advances (central_entry i) k = record_kind _ k tt
    read_kind-Advances zip64_eocd k = record_kind _ k tt
    read_kind-Advances zip64_locator k = record_kind _ k tt
    read_kind-Advances eocd k = record_kind _ k tt

  found_round :
      (s : Progress Buffers) (keeps : Keeps disk s.aux) (w : Wants buf_len end z.total_size s)
      (l : Located s.pos)
      → Advances
          (Keeps disk)
          whole
          buf_len
          end
          z.total_size
          s
          (read_found disk z buf_len end s (some l.index))
  unfolding read_found
  found_round s keeps w l =
      rw (l.elem, read_found) (read_kind-Advances s keeps w l.segment l.placed l.segment.kind refl)

  -- Each round of the loop appends at least one byte, the next ones of the zip file.
  pub read_round-Advances :
      (s : Progress Buffers)
      → Keeps disk s.aux
      → wants_more buf_len end z.total_size s ≡ true
      → Advances (Keeps disk) whole buf_len end z.total_size s (read_round disk z buf_len end s)
  unfolding read_round
  read_round-Advances s keeps more =
      let w : Wants buf_len end z.total_size s = wants buf_len end z.total_size s more in
      let l : Located s.pos = find_segment-Located s.pos w.before_total in
      rw l.found (found_round s keeps w l)
