-- ===== src/Tests/Streams.antt =====
-- Bodies and responses for ranges.
use raas.Prelude.{ℕ, ◌≤◌, Bool, false, some, [], ◌∷◌, ◌++◌, arith, ltb}
use raas.Archive.Tar.Image.{image}
use raas.Archive.Tar.Reader.{stream_range}
use raas.Server.Range.{bytes_prefix}
use raas.Server.Stream.{create_stream_body, stream_buffer_size}
use raas.Server.Stream.Laws.{Delivers}
use raas.Server.Stream.Tars.{tar_read, tar_body-Delivers}
use raas.Server.Download.{respond}
use raas.Server.Download.Laws.{Agrees, respond-Agrees}
use raas.Tests.Files.{disk}
use raas.Tests.Tars.{archive, content, servable, total_size_is}

-- The client takes one item and goes away.
abbrev one_item : ℕ → Bool
one_item k = ltb k 1

range_inside : 1600 ≤ archive.total_size
range_inside = omega (arith, total_size_is)

tar_body_example :
    Delivers one_item
      (stream_buffer_size 16)
      (image content archive.entries)
      1600
      1000
      (record { items = []; sent_bytes = 0; aborted_by_client = false })
      (create_stream_body (tar_read disk archive) one_item 601 16 (stream_range 1000 1600))
tar_body_example =
    tar_body-Delivers disk archive content servable 1600 range_inside one_item 601 1000 16
      (omega arith)

abbrev interval : ℕ → ℕ → ℕ × ℕ
interval start end = (start, end)

-- `bytes=5-9`
response_example :
    Agrees interval 8 (respond interval (some (bytes_prefix ++ (53 ∷ 45 ∷ 57 ∷ []))) 8)
response_example =
    respond-Agrees interval 8 (some (bytes_prefix ++ (53 ∷ 45 ∷ 57 ∷ []))) (omega arith)
