-- ===== src/Archive/Tar/Reader/Round.antt =====
-- One round of the read loop appends the next bytes of the image.
use raas.Prelude.{
  ℕ, ◌+◌, ◌-◌, ◌≤◌, ◌<◌, ◌≡◌, refl, sym, ap, ap₂, ◌∙◌, true, Option, none, some, List, ◌++◌, length,
  get_elem?, replicate, ltb, lt→ltb, le→leb, ◌⊎◌, inl, inr, Bool-cases, arith, ◌==◌,
}
use raas.Prelude.Slices.{slice, length-slice}
use raas.Prelude.Words.{u64_mod, add64, add64_exact}
use raas.Io.{Disk, Result, IoError, ok}
use raas.Cache.FileHandle.{FileHandleCache, read_at}
use raas.Cache.FileHandle.Laws.{IsCoherent, Reads, read_at-Reads}
use raas.Archive.Error.{ArchiveError}
use raas.Archive.Fill.{Run, running, Progress, wants_more}
use raas.Archive.Fill.Laws.{Advances, Continues}
use raas.Archive.Tar.Header.{calculate_padding}
use raas.Archive.Tar.Index.{TarEntry, TarArchive}
use raas.Archive.Tar.Image.{IsServable}
use raas.Archive.Tar.Reader.{
  Place, item_end, locate, source_file, fill_zeros, zeros_to_add, copy_header, header_bytes_to_read,
  read_content, content_is_read, content_bytes_to_read, content_start, content_end, read_entry,
  read_located, read_round,
}
use raas.Archive.Tar.Reader.Locate.{item_end_exact, Covers, locate-Covers}
use raas.Archive.Tar.Reader.Pieces.{whole, placed, header_slice, slice-content, zeros_slice}

-- What the test of the loop says.
record Wants (buf_len end total : ℕ) (s : Progress Place) : Type 0 where
  room : length s.out < buf_len
  before_end : s.pos < end
  before_total : s.pos < total

wants :
    (buf_len end total : ℕ) (s : Progress Place)
    → wants_more buf_len end total s ≡ true
    → Wants buf_len end total s
unfolding wants_more
wants buf_len end total s h = ground arith

-- The handle cache is all that has to be kept.
abbrev pub Keeps : Disk → Place → Type 0
Keeps disk p = IsCoherent disk p.file_handle_cache

-- A round that appends `chunk`, which is the next `k` bytes of the image.
appends :
    (disk : Disk) (bytes : List ℕ) (s : Progress Place) (p : Place) (chunk : List ℕ) (k : ℕ)
    → Keeps disk p
    → s.pos + k < u64_mod
    → slice s.pos k bytes ≡ chunk
    → Continues {E = ArchiveError}
        (Keeps disk)
        bytes
        s
        (running (record { aux = p; out = s.out ++ chunk; pos = add64 s.pos k }))
        k
appends disk bytes s p chunk k keeps fits e = record {
  aux' = p;
  keeps = keeps;
  result =
      ap₂ (λ c n. running (record { aux = p; out = s.out ++ c; pos = n })) (sym e)
        (add64_exact s.pos k fits);
}

-- What a successful read of the file appends.
content_read :
    (disk : Disk) (archive : TarArchive) (buf_len end : ℕ) (s : Progress Place) (cursor : ℕ)
    (chunk : List ℕ) (cache : FileHandleCache) (a : Result IoError (List ℕ) × FileHandleCache)
    (k : ℕ)
    → a ≡ (ok chunk, cache)
    → length chunk ≡ k
    → content_is_read disk archive buf_len end s cursor a
      ≡ running (record {
        aux = record { cursor = cursor; file_handle_cache = cache };
        out = s.out ++ chunk;
        pos = add64 s.pos k;
      })
unfolding content_is_read
content_read disk archive buf_len end s cursor chunk cache a k e l = rw e (rw l refl)

module _ (disk : Disk) (archive : TarArchive) (content : TarEntry → List ℕ)
    (servable : IsServable content disk archive) (buf_len end : ℕ) (s : Progress Place)
    (keeps : Keeps disk s.aux) (w : Wants buf_len end archive.total_size s) (cursor : ℕ) where
  abbrev bytes : List ℕ
  bytes = whole disk archive content servable

  abbrev Goal : Run ArchiveError (Progress Place) → Type 0
  Goal = Advances (Keeps disk) bytes buf_len end archive.total_size s

  zeros_bounds :
      let k = zeros_to_add disk archive buf_len end s in
      (0 < k)
      × (length s.out + k ≤ buf_len)
      × (s.pos + k ≤ end)
      × (s.pos + k ≤ archive.total_size)
      × ((calculate_padding s.pos ≡ 0) ⊎ (k ≤ calculate_padding s.pos))
  unfolding zeros_to_add
  zeros_bounds =
      let a = w.room in
      let b = w.before_end in
      let c = w.before_total in
      elim (Bool-cases (calculate_padding s.pos == 0)) [
        | inl none_needed ↦
            rw none_needed (omega arith, omega arith, omega arith, omega arith, inl (ground arith))
        | inr needed ↦
            rw needed (ground arith, omega arith, omega arith, omega arith, inr (omega arith))
      ]

  fill_zeros-Advances :
      (locate archive.entries s.aux.cursor s.pos).0 ≡ none
      → Goal (fill_zeros disk archive buf_len end s cursor)
  unfolding fill_zeros
  fill_zeros-Advances n =
      let (p, b, e, t, short) = zeros_bounds in
      let k = zeros_to_add disk archive buf_len end s in
      record {
        count = k;
        some_bytes = p;
        in_buffer = b;
        in_range = e;
        in_archive = t;
        step =
            appends disk bytes s _ (replicate k 0) k keeps (omega (arith, servable.fits))
              (zeros_slice disk archive content servable s.pos s.aux.cursor k n t short);
      }

  module _ (i : ℕ) (entry : TarEntry) (at : get_elem? archive.entries i ≡ some entry) where
    starts : content_start disk archive buf_len end entry ≡ entry.info.offset + length entry.header
    starts =
        let p = placed disk archive content servable i entry at in
        add64_exact entry.info.offset (length entry.header)
          (omega (arith, p.inside, servable.total, servable.fits))

    ends :
        content_end disk archive buf_len end entry
        ≡ entry.info.offset + length entry.header + entry.info.size
    ends =
        let p = placed disk archive content servable i entry at in
        rw starts (
          add64_exact (entry.info.offset + length entry.header) entry.info.size
            (omega (arith, p.inside, servable.total, servable.fits)))

    header_bounds :
        entry.info.offset ≤ s.pos
        → s.pos < entry.info.offset + length entry.header
        → let n = header_bytes_to_read disk archive buf_len end s entry in
          (0 < n)
          × (length s.out + n ≤ buf_len)
          × (s.pos + n ≤ end)
          × (s.pos + n ≤ entry.info.offset + length entry.header)
    unfolding header_bytes_to_read
    header_bounds lo hi =
        let a = w.room in
        let b = w.before_end in (omega arith, omega arith, omega arith, omega arith)

    copy_header-Advances :
        entry.info.offset ≤ s.pos
        → s.pos < entry.info.offset + length entry.header
        → Goal (copy_header disk archive buf_len end s cursor entry)
    unfolding copy_header
    copy_header-Advances lo hi =
        let n = header_bytes_to_read disk archive buf_len end s entry in
        let b = header_bounds lo hi in
        let p = placed disk archive content servable i entry at in
        record {
          count = n;
          some_bytes = b.0;
          in_buffer = b.1;
          in_range = b.2;
          in_archive = omega (arith, b.3, p.inside, servable.total);
          step =
              appends disk bytes s _ (slice (s.pos - entry.info.offset) n entry.header) n keeps
                (omega (arith, b.3, p.inside, servable.total, servable.fits))
                (header_slice disk archive content servable i entry s.pos n at lo b.3);
        }

    content_bounds :
        entry.info.offset + length entry.header ≤ s.pos
        → s.pos < entry.info.offset + length entry.header + entry.info.size
        → let n = content_bytes_to_read disk archive buf_len end s entry in
          (0 < n)
          × (length s.out + n ≤ buf_len)
          × (s.pos + n ≤ end)
          × (s.pos + n ≤ entry.info.offset + length entry.header + entry.info.size)
    unfolding content_bytes_to_read
    content_bounds lo hi =
        let a = w.room in
        let b = w.before_end in let e = ends in (omega arith, omega arith, omega arith, omega arith)

    read_content-Advances :
        entry.info.offset + length entry.header ≤ s.pos
        → s.pos < entry.info.offset + length entry.header + entry.info.size
        → Goal (read_content disk archive buf_len end s cursor entry)
    unfolding read_content
    read_content-Advances lo hi =
        let n = content_bytes_to_read disk archive buf_len end s entry in
        let b = content_bounds lo hi in
        let p = placed disk archive content servable i entry at in
        let sized = servable.sized i entry at in
        let from : content_start disk archive buf_len end entry
            ≡ entry.info.offset + length entry.header =
          starts in
        let at_content : ℕ = s.pos - content_start disk archive buf_len end entry in
        let r : Reads disk (content entry) at_content n
            (read_at disk s.aux.file_handle_cache (source_file disk archive entry) at_content n) =
          read_at-Reads disk (source_file disk archive entry) (content entry)
            (servable.held i entry at (omega arith)) servable.consistent s.aux.file_handle_cache
            at_content n keeps (omega (arith, sized)) b.0 in
        let k = r.count in
        let len = length-slice at_content k (content entry) r.inside in
        let piece =
          slice-content disk archive content servable i entry s.pos k at lo
            (omega (arith, r.at_most, b.3)) in
        record {
          count = k;
          some_bytes = r.some_bytes;
          in_buffer = omega (arith, b.1, r.at_most);
          in_range = omega (arith, b.2, r.at_most);
          in_archive = omega (arith, b.3, r.at_most, p.inside, servable.total);
          step =
              let c =
                appends disk bytes s (record { cursor = cursor; file_handle_cache = r.cache' })
                  (slice at_content k (content entry)) k r.coherent
                  (omega (arith, b.3, r.at_most, p.inside, servable.total, servable.fits))
                  (piece ∙ ap (λ m. slice (s.pos - m) k (content entry)) (sym from)) in
              record {
                aux' = c.aux';
                keeps = c.keeps;
                result =
                    content_read disk archive buf_len end s cursor _ r.cache' _ k r.answer len
                    ∙ c.result;
              };
        }

    -- In either region of an entry that covers the position.
    read_entry-Advances :
        entry.info.offset ≤ s.pos
        → s.pos < item_end entry
        → Goal (read_entry disk archive buf_len end s cursor entry)
    unfolding read_entry
    read_entry-Advances lo hi =
        let from = starts in
        let to = ends in
        let p = placed disk archive content servable i entry at in
        let exact = item_end_exact entry (omega (arith, p.inside, servable.total, servable.fits)) in
        elim (Bool-cases (ltb s.pos (content_start disk archive buf_len end entry))) [
          | inl in_header ↦
              rw (le→leb _ _ lo, in_header) (copy_header-Advances lo (ground (arith, from)))
          | inr past ↦
              let lo' : content_start disk archive buf_len end entry ≤ s.pos = ground arith in
              rw
                (
                  le→leb _ _ lo,
                  past,
                  le→leb _ _ lo',
                  lt→ltb s.pos (content_end disk archive buf_len end entry)
                      (omega (arith, to, exact)),
                )
                (read_content-Advances (omega (arith, from)) (omega (arith, exact)))
        ]

  read_located-Advances :
      (r : Option ℕ × ℕ)
      → Covers archive.entries s.pos r
      → r.1 ≡ cursor
      → (r.0 ≡ none → (locate archive.entries s.aux.cursor s.pos).0 ≡ none)
      → Goal (read_located disk archive buf_len end s r)
  unfolding read_located
  read_located-Advances (none, c) covers same n = rw same (fill_zeros-Advances (n refl))
  read_located-Advances (some i, c) (entry, at, lo, hi) same n =
      rw same (rw (at, read_located) (read_entry-Advances i entry at lo hi))

module _ (disk : Disk) (archive : TarArchive) (content : TarEntry → List ℕ)
    (servable : IsServable content disk archive) (buf_len end : ℕ) where
  -- Each round of the loop appends at least one byte, the next ones of the image.
  pub read_round-Advances :
      (s : Progress Place)
      → Keeps disk s.aux
      → wants_more buf_len end archive.total_size s ≡ true
      → Advances
          (Keeps disk)
          (whole disk archive content servable)
          buf_len
          end
          archive.total_size
          s
          (read_round disk archive buf_len end s)
  unfolding read_round
  read_round-Advances s keeps more =
      read_located-Advances disk archive content servable buf_len end s keeps
        (wants buf_len end archive.total_size s more) _ (locate archive.entries s.aux.cursor s.pos)
        (locate-Covers archive.entries s.aux.cursor s.pos) refl (λ h. h)
