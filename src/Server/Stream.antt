-- ===== src/Server/Stream.antt =====
-- src/server/handler.rs: `create_stream_body`, the loop that reads an archive into a response.
pub mod Laws
pub mod Tars
pub mod Zips
use raas.Prelude.{
  ℕ, zero, suc, ◌+◌, Bool, true, false, List, [], ◌∷◌, ◌++◌, length, ltb, if◌then◌else◌,
}
use raas.Prelude.Words.{add64}
use raas.Io.{Result, IoError, ok, err, other}
use raas.Archive.Fill.{Run, running, failed, panicked, out_of_fuel}

abbrev pub min_stream_read_buffer_size : ℕ
min_stream_read_buffer_size = 65_536

-- `buffer_size.max(MIN_STREAM_READ_BUFFER_SIZE)`
unfoldable pub stream_buffer_size : ℕ → ℕ
stream_buffer_size buffer_size =
    if ltb buffer_size min_stream_read_buffer_size then min_stream_read_buffer_size else buffer_size

-- What the loop has done: the items that the receiver has taken from it, and its counters.
pub record Streamed : Type 0 where
  pub items : List (Result IoError (List ℕ))
  pub sent_bytes : ℕ
  pub aborted_by_client : Bool

-- `read` is the archive's reader. `accepts k` says whether the receiver is still there when item
-- `k` is sent; the channel's capacity only makes the loop wait.
module _ {R E : Type 0} (read : R → ℕ → Run E (R × List ℕ)) (accepts : ℕ → Bool) where
  -- An `Ok(n)`: the end, or a chunk for the receiver.
  unfoldable pub send_chunk :
      (R → Streamed → Run E Streamed) → Streamed → R → List ℕ → Run E Streamed
  send_chunk next s r [] = running s
  send_chunk next s r (b ∷ bs) = elim (accepts (length s.items)) [
    | true ↦ next r (record s {
      items = s.items ++ (ok (b ∷ bs) ∷ []);
      sent_bytes = add64 s.sent_bytes (length (b ∷ bs));
    })
    | false ↦ running (record s { aborted_by_client = true })
  ]

  -- The error goes to the receiver, if it is there.
  unfoldable pub send_error : Streamed → Streamed
  send_error s = elim (accepts (length s.items)) [
    | true ↦ record s { items = s.items ++ (err other ∷ []) }
    | false ↦ s
  ]

  unfoldable pub after_read :
      (R → Streamed → Run E Streamed) → Streamed → Run E (R × List ℕ) → Run E Streamed
  after_read next s (running (r, chunk)) = send_chunk next s r chunk
  after_read next s (failed e x) = running (send_error s)
  after_read next s panicked = panicked
  after_read next s out_of_fuel = out_of_fuel

  unfoldable pub stream_loop : ℕ → ℕ → R → Streamed → Run E Streamed
  stream_loop zero buffer_size r s = out_of_fuel
  stream_loop (suc fuel) buffer_size r s =
      after_read (stream_loop fuel buffer_size) s (read r buffer_size)

  unfoldable pub create_stream_body : ℕ → ℕ → R → Run E Streamed
  create_stream_body fuel buffer_size r =
      stream_loop fuel (stream_buffer_size buffer_size) r
        (record { items = []; sent_bytes = 0; aborted_by_client = false })
