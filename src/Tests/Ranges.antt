-- ===== src/Tests/Ranges.antt =====
-- The parser of ranges on headers.
use raas.Prelude.{[], ◌∷◌, ◌++◌, arith}
use raas.Io.Text.{Text}
use raas.Server.Range.{parse_range_header, bytes_prefix}
use raas.Server.Range.Bounds.{InResource, parse_range_header-InResource}
use raas.Server.Range.Forms.{closed, Answers, show_spec}
use raas.Server.Range.Answers.{parse_range_header-Answers}

-- `bytes=5-9`
abbrev header : Text
header = bytes_prefix ++ (53 ∷ 45 ∷ 57 ∷ [])

inside_example : InResource 8 (parse_range_header header 8)
inside_example = parse_range_header-InResource header 8

parsed_example :
    Answers (closed 5 900) 8 (parse_range_header (bytes_prefix ++ show_spec (closed 5 900)) 8)
parsed_example = parse_range_header-Answers (closed 5 900) 8 (omega arith, omega arith)
