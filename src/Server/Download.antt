-- ===== src/Server/Download.antt =====
-- src/server/handler.rs: what `download_random_access_archive` makes of the `Range` header: the
-- status, the headers of the length and the range, and the range that the body streams.
pub mod Laws
use raas.Prelude.{ℕ, ◌+◌, Option, none, some}
use raas.Prelude.Words.{add64, sub64}
use raas.Io.{ok, err}
use raas.Io.Text.{Text}
use raas.Server.Range.{ParsedRange, malformed, unsatisfiable, parse_range_header}

-- 200 with `Content-Length`, 206 with `Content-Length` and `Content-Range: bytes start-last/total`,
-- and 416 with `Content-Range: bytes */total`.
pub data Response (B : Type 0) : Type 0 where
  full : ℕ → B → Response B
  partial_content : ℕ → ℕ → ℕ → ℕ → B → Response B
  range_not_satisfiable : ℕ → Response B

-- `parsed_range`: no header is `Ok(None)`.
unfoldable pub parsed_range : Option Text → ℕ → ParsedRange
parsed_range none total_size = ok none
parsed_range (some raw) total_size = parse_range_header raw total_size

-- `body start end` is `create_stream_body` on the half-open range.
module _ {B : Type 0} (body : ℕ → ℕ → B) where
  unfoldable pub respond_to : ℕ → ParsedRange → Response B
  respond_to total_size (ok (some (range_start, range_end))) =
      let end = add64 range_end 1 in
      partial_content (sub64 (add64 range_end 1) range_start) range_start (sub64 end 1) total_size
        (body range_start end)
  respond_to total_size (ok none) = full total_size (body 0 total_size)
  respond_to total_size (err malformed) = full total_size (body 0 total_size)
  respond_to total_size (err unsatisfiable) = range_not_satisfiable total_size

  unfoldable pub respond : Option Text → ℕ → Response B
  respond range total_size = respond_to total_size (parsed_range range total_size)
