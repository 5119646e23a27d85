-- ===== src/Archive/Tar/Reader/Ended.antt =====
-- `RangeStreamWriter` on a file that has become shorter since the index was built.
use raas.Prelude.{
  ℕ, ◌-◌, ◌≤◌, ◌<◌, ◌≡◌, refl, ap, ap₂, ◌∙◌, true, false, some, List, [], ◌∷◌, ◌++◌, get_elem?, ltb,
  leb, lt→leb, lt→ltb, le→leb, not-lt→ltb, arith, inl, inr, Bool-cases, subst,
}
use raas.Prelude.Words.{u64_mod, add64, add64_exact}
use raas.Io.{Disk}
use raas.Cache.FileHandle.{read_at}
use raas.Cache.FileHandle.Ended.{EndsBefore, IsIdle, open_here, read_at-ended}
use raas.Archive.Fill.{running, out_of_fuel, Progress, wants_more}
use raas.Archive.Fill.Stuck.{fill-Repeats}
use raas.Archive.Tar.Index.{TarEntry, TarArchive}
use raas.Archive.Tar.Reader.Locate.{Covers, locate-Covers}
use raas.Archive.Tar.Reader.{
  Place, stream_range, item_end, locate, source_file, content_is_read, content_start, content_end,
  content_bytes_to_read, read_content, read_entry, read_located, read_round, end_of_read,
  read_into_buffer,
}

locate_again :
    (entries : List TarEntry) (i pos : ℕ) (e : TarEntry)
    → get_elem? entries i ≡ some e
    → e.info.offset ≤ pos
    → pos < item_end e
    → locate entries i pos ≡ (some i, i)
unfolding locate
locate_again [] i pos e at lo hi = absurd (cc)
locate_again (x ∷ xs) i pos e at lo hi = rw (at, locate) (rw (le→leb _ _ lo, lt→ltb _ _ hi) refl)

module _ (disk : Disk) (archive : TarArchive) (i : ℕ) (entry : TarEntry)
    (at : get_elem? archive.entries i ≡ some entry) (buf_len end start : ℕ)
    (ended : EndsBefore disk
      (source_file disk archive entry)
      (start - content_start disk archive buf_len end entry))
    (from : content_start disk archive buf_len end entry ≤ start) (to : start < item_end entry)
    (small : start < u64_mod) where
  -- Where the loop stands in each round.
  record IsStuck (s : Progress Place) : Type 0 where
    located : locate archive.entries s.aux.cursor start ≡ (some i, i)
    idle : IsIdle disk (source_file disk archive entry) _ ended s.aux.file_handle_cache
    empty : s.out ≡ []
    still : s.pos ≡ start

  abbrev next_state : ℕ → Progress Place
  next_state pos = record {
    aux = record {
      cursor = i;
      file_handle_cache = open_here disk (source_file disk archive entry) _ ended;
    };
    out = [];
    pos = pos;
  }

  start_again : add64 start 0 ≡ start
  start_again = add64_exact start 0 (omega (arith, small)) ∙ omega arith

  read_content_again :
      (s : Progress Place)
      → IsStuck s
      → read_content disk archive buf_len end s i entry ≡ running (next_state start)
  unfolding read_content content_is_read
  read_content_again s q =
      ap (content_is_read disk archive buf_len end s i) (
        ap
          (λ p.
            read_at disk s.aux.file_handle_cache (source_file disk archive entry)
              (p - content_start disk archive buf_len end entry)
              (content_bytes_to_read disk archive buf_len end s entry))
          q.still
        ∙ read_at-ended disk (source_file disk archive entry) _ ended s.aux.file_handle_cache _
            q.idle)
      ∙ ap₂ (λ o p. running (record (next_state (add64 p 0)) { out = o ++ [] })) q.empty q.still
      ∙ ap (λ p. running (next_state p)) start_again

  read_entry_again :
      (s : Progress Place)
      → IsStuck s
      → read_entry disk archive buf_len end s i entry ≡ running (next_state start)
  unfolding read_entry item_end
  read_entry_again s q =
      let behind : ltb s.pos (content_start disk archive buf_len end entry) ≡ false =
        not-lt→ltb _ _ (omega (arith, from, q.still)) in
      let started : leb (content_start disk archive buf_len end entry) s.pos ≡ true =
        le→leb _ _ (omega (arith, from, q.still)) in
      let inside : ltb s.pos (content_end disk archive buf_len end entry) ≡ true =
        lt→ltb _ _ (omega (arith, to, q.still)) in
      elim (Bool-cases (leb entry.info.offset s.pos)) [
        | inl h ↦ rw (h, behind, started, inside) (read_content_again s q)
        | inr h ↦ rw (h, started, inside) (read_content_again s q)
      ]

  read_round_again :
      (s : Progress Place)
      → IsStuck s
      → read_round disk archive buf_len end s ≡ running (next_state start)
  unfolding read_round read_located
  read_round_again s q =
      ap (λ p. read_located disk archive buf_len end s (locate archive.entries s.aux.cursor p))
        q.still
      ∙ ap (read_located disk archive buf_len end s) q.located
      ∙ rw (at, read_located) (read_entry_again s q)

  still_more :
      (s : Progress Place)
      → IsStuck s
      → 0 < buf_len
      → start < end
      → start < archive.total_size
      → wants_more buf_len end archive.total_size s ≡ true
  unfolding wants_more
  still_more s q room before_end before_total =
      rw
        (
          q.empty,
          q.still,
          lt→ltb 0 buf_len room,
          lt→ltb start end before_end,
          lt→ltb start archive.total_size before_total,
        )
        refl

  next_state-IsStuck : locate archive.entries 0 start ≡ (some i, i) → IsStuck (next_state start)
  next_state-IsStuck found =
      let (e, h, lo, hi) =
        subst (Covers archive.entries start) found (locate-Covers archive.entries 0 start) in
      record {
        located = locate_again archive.entries i start e h lo hi;
        idle = (refl, refl);
        empty = refl;
        still = refl;
      }

  -- If a tar file's entry is found for the start of a range in its content, and the file behind
  -- it has no byte there any more, the first read of the range into a non-empty buffer never
  -- returns, whatever the fuel.
  pub read_into_buffer-out_of_fuel :
      (fuel : ℕ)
      → locate archive.entries 0 start ≡ (some i, i)
      → 0 < buf_len
      → start < end
      → start < archive.total_size
      → read_into_buffer disk archive fuel (stream_range start end) buf_len ≡ out_of_fuel
  unfolding read_into_buffer stream_range end_of_read
  read_into_buffer-out_of_fuel fuel found room before_end before_total =
      let loops =
        fill-Repeats IsStuck buf_len end archive.total_size (read_round disk archive buf_len end)
          (λ s q. record {
            more = still_more s q room before_end before_total;
            next = next_state start;
            result = read_round_again s q;
            again = next_state-IsStuck found;
          })
          fuel (record { aux = (stream_range start end).place; out = []; pos = start })
          (record { located = found; idle = tt; empty = refl; still = refl }) in
      rw (lt→leb end start before_end, lt→leb archive.total_size start before_total)
        (ap (end_of_read disk archive (stream_range start end)) loops)
