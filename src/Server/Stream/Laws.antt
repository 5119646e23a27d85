-- ===== src/Server/Stream/Laws.antt =====
-- src/server/handler.rs: what the loop of a body delivers, over any reader.
use raas.Prelude.{
  ℕ, zero, suc, ◌+◌, ◌-◌, ◌≤◌, ◌<◌, min, ◌≡◌, refl, sym, ap, ap₂, ◌∙◌, Bool, true, false, List, [],
  ◌∷◌, ◌++◌, length, map, append_assoc, append-nil, arith, inl, inr, Bool-cases, subst, ltb,
}
use raas.Prelude.Slices.{slice, slice-append, length-slice}
use raas.Prelude.Words.{add64_exact, u64_mod}
use raas.Io.{ok}
use raas.Archive.Fill.{Run, running}
use raas.Server.Stream.{
  Streamed, send_chunk, after_read, stream_loop, create_stream_body, stream_buffer_size,
}

-- The contract of a reader of `bytes` up to `end`: at `pos` it returns the next bytes, as many as
-- the buffer and the range allow, and stands behind them.
pub record IsRangeReader {R E : Type 0} (read : R → ℕ → Run E (R × List ℕ)) (bytes : List ℕ)
    (end : ℕ) : Type 1 where
  pub StandsAt : ℕ → R → Type 0
  pub ends_inside : end ≤ length bytes
  pub next : (pos buf_len : ℕ) (r : R) → StandsAt pos r → R
  pub answer :
      (pos buf_len : ℕ) (r : R) (at : StandsAt pos r)
      → read r buf_len ≡ running (next pos buf_len r at, slice pos (min buf_len (end - pos)) bytes)
  pub moves :
      (pos buf_len : ℕ) (r : R) (at : StandsAt pos r)
      → StandsAt (pos + min buf_len (end - pos)) (next pos buf_len r at)

abbrev pub joined : List (List ℕ) → List ℕ
joined [] = []
joined (c ∷ cs) = c ++ joined cs

-- No chunk is empty, and none is larger than the buffer.
abbrev pub AreChunks : ℕ → List (List ℕ) → Type 0
AreChunks buffer_size [] = Unit
AreChunks buffer_size (c ∷ cs) =
    (0 < length c) × (length c ≤ buffer_size) × AreChunks buffer_size cs

-- What the loop delivers from `pos` on: chunks that are the next bytes, all of them up to `end`
-- unless the receiver went away.
pub record Delivers {E : Type 0} (accepts : ℕ → Bool) (buffer_size : ℕ) (bytes : List ℕ)
    (end pos : ℕ) (s : Streamed) (result : Run E Streamed) : Type 0 where
  pub chunks : List (List ℕ)
  pub count : ℕ
  pub aborted : Bool
  pub sized : AreChunks buffer_size chunks
  pub at_most : count ≤ end - pos
  pub joined_lem : joined chunks ≡ slice pos count bytes
  pub complete : (aborted ≡ false) → count ≡ end - pos
  pub stays : ((k : ℕ) → accepts k ≡ true) → aborted ≡ s.aborted_by_client
  pub answer :
      result
      ≡ running (record {
        items = s.items ++ map ok chunks;
        sent_bytes = s.sent_bytes + count;
        aborted_by_client = aborted;
      })

module _ {R E : Type 0} (read : R → ℕ → Run E (R × List ℕ)) (accepts : ℕ → Bool) (bytes : List ℕ)
    (end : ℕ) (law : IsRangeReader read bytes end) (buffer_size : ℕ)
    (positive : 0 < buffer_size) where
  abbrev Goal : ℕ → Streamed → Run E Streamed → Type 0
  Goal pos s result = Delivers accepts buffer_size bytes end pos s result

  abbrev with_chunk : Streamed → List ℕ → Streamed
  with_chunk s chunk = record s {
    items = s.items ++ (ok chunk ∷ []);
    sent_bytes = s.sent_bytes + length chunk;
  }

  send_chunk-sent :
      (next : R → Streamed → Run E Streamed) (s : Streamed) (r : R) (chunk : List ℕ)
      → 0 < length chunk
      → s.sent_bytes + length chunk < u64_mod
      → accepts (length s.items) ≡ true
      → send_chunk read accepts next s r chunk ≡ next r (with_chunk s chunk)
  unfolding send_chunk
  send_chunk-sent next s r [] w f a = absurd (omega arith)
  send_chunk-sent next s r (b ∷ bs) w f a =
      rw (a, send_chunk) (rw (add64_exact s.sent_bytes (length (b ∷ bs)) f) refl)

  send_chunk-refused :
      (next : R → Streamed → Run E Streamed) (s : Streamed) (r : R) (chunk : List ℕ)
      → 0 < length chunk
      → accepts (length s.items) ≡ false
      → send_chunk read accepts next s r chunk ≡ running (record s { aborted_by_client = true })
  unfolding send_chunk
  send_chunk-refused next s r [] w a = absurd (omega arith)
  send_chunk-refused next s r (b ∷ bs) w a = rw (a, send_chunk) refl

  unchanged :
      (s : Streamed)
      → s.aborted_by_client ≡ false
      → s
        ≡ record { items = s.items ++ []; sent_bytes = s.sent_bytes + 0; aborted_by_client = false }
  unchanged s clean =
      ap (λ b. record s { aborted_by_client = b }) clean
      ∙ ap₂ (λ items n. record { items = items; sent_bytes = n; aborted_by_client = false })
          (sym (append-nil s.items)) (omega arith)

  finished :
      (pos : ℕ) (s : Streamed) → end ≤ pos → s.aborted_by_client ≡ false → Goal pos s (running s)
  finished pos s over clean = record {
    chunks = [];
    count = 0;
    aborted = false;
    sized = tt;
    at_most = omega arith;
    joined_lem = refl;
    complete = λ h. omega arith;
    stays = λ h. sym clean;
    answer = ap running (unchanged s clean);
  }

  refused :
      (pos : ℕ) (s : Streamed)
      → accepts (length s.items) ≡ false
      → Goal pos s (running (record s { aborted_by_client = true }))
  refused pos s gone = record {
    chunks = [];
    count = 0;
    aborted = true;
    sized = tt;
    at_most = omega arith;
    joined_lem = refl;
    complete = λ h. absurd (cc);
    stays = λ h. absurd (cc (h (length s.items)));
    answer = ap running (
        ap₂ (λ items n. record { items = items; sent_bytes = n; aborted_by_client = true })
          (sym (append-nil s.items)) (omega arith));
  }

  -- A chunk that is sent, and what the rest of the loop delivers.
  prepended :
      (pos k : ℕ) (s : Streamed) (result : Run E Streamed)
      → 0 < k
      → k ≤ buffer_size
      → k ≤ end - pos
      → length (slice pos k bytes) ≡ k
      → Goal (pos + k) (with_chunk s (slice pos k bytes)) result
      → Goal pos s result
  prepended pos k s result some_bytes fits inside len rest = record {
    chunks = slice pos k bytes ∷ rest.chunks;
    count = k + rest.count;
    aborted = rest.aborted;
    sized = (omega arith, omega arith, rest.sized);
    at_most = omega (arith, rest.at_most);
    joined_lem =
        ap (λ l. slice pos k bytes ++ l) rest.joined_lem ∙ slice-append pos k rest.count bytes;
    complete = λ h. omega (arith, rest.complete h);
    stays = rest.stays;
    answer =
        rest.answer
        ∙ ap running (
            ap₂
              (λ items n. record {
                items = items;
                sent_bytes = n;
                aborted_by_client = rest.aborted;
              })
              (append_assoc s.items (ok (slice pos k bytes) ∷ []) (map ok rest.chunks))
              (omega arith));
  }

  -- With fuel for each byte of the range, the loop ends, and has delivered the range.
  pub stream_loop-Delivers :
      (fuel pos : ℕ) (r : R) (s : Streamed)
      → end - pos < fuel
      → s.sent_bytes + (end - pos) < u64_mod
      → s.aborted_by_client ≡ false
      → law.StandsAt pos r
      → Goal pos s (stream_loop read accepts fuel buffer_size r s)
  unfolding stream_loop after_read send_chunk
  stream_loop-Delivers zero pos r s f fits clean at = absurd (omega arith)
  stream_loop-Delivers (suc fuel) pos r s f fits clean at =
      let k = min buffer_size (end - pos) in
      rw (law.answer pos buffer_size r at, after_read)
        (elim (Bool-cases (ltb pos end)) [
          | inr over ↦
              let none_left : k ≡ 0 = ground arith in
              rw none_left (finished pos s (ground arith) clean)
          | inl more ↦
              let len = length-slice pos k bytes (ground (arith, law.ends_inside)) in
              let some_bytes : 0 < k = ground (arith, positive) in
              elim (Bool-cases (accepts (length s.items))) [
                | inl there ↦
                    let chunk : List ℕ = slice pos k bytes in
                    let next_reader : R = law.next pos buffer_size r at in
                    let sent =
                      send_chunk-sent (stream_loop read accepts fuel buffer_size) s next_reader
                        chunk (omega arith) (omega arith) there in
                    let rest =
                      stream_loop-Delivers fuel (pos + k) next_reader (with_chunk s chunk)
                        (omega arith) (omega arith) clean (law.moves pos buffer_size r at) in
                    prepended pos k s _ some_bytes (omega arith) (omega arith) len
                      (subst (Goal (pos + k) (with_chunk s chunk)) (sym sent) rest)
                | inr gone ↦
                    let sent =
                      send_chunk-refused (stream_loop read accepts fuel buffer_size) s
                        (law.next pos buffer_size r at) (slice pos k bytes) (omega arith) gone in
                    subst (Goal pos s) (sym sent) (refused pos s gone)
              ]
        ])

module _ {R E : Type 0} (read : R → ℕ → Run E (R × List ℕ)) (accepts : ℕ → Bool) (bytes : List ℕ)
    (end : ℕ) (law : IsRangeReader read bytes end) where
  stream_buffer_size-positive : (n : ℕ) → 0 < stream_buffer_size n
  unfolding stream_buffer_size
  stream_buffer_size-positive n = ground arith

  -- Over a reader that keeps the contract and stands at `start`, with fuel for each byte of the
  -- range and whatever the client does, the body's loop ends without an error. It delivers chunks,
  -- none empty and none larger than the buffer, that are the bytes from `start` on: all of them up
  -- to `end` unless the client went away, and it reports that only if the client did.
  pub create_stream_body-Delivers :
      (fuel start buffer_size : ℕ) (r : R)
      → end - start < fuel
      → end - start < u64_mod
      → law.StandsAt start r
      → Delivers accepts
          (stream_buffer_size buffer_size)
          bytes
          end
          start
          (record { items = []; sent_bytes = 0; aborted_by_client = false })
          (create_stream_body read accepts fuel buffer_size r)
  unfolding create_stream_body
  create_stream_body-Delivers fuel start buffer_size r f fits at =
      stream_loop-Delivers read accepts bytes end law (stream_buffer_size buffer_size)
        (stream_buffer_size-positive buffer_size) fuel start r
        (record { items = []; sent_bytes = 0; aborted_by_client = false }) f (omega arith) refl at
