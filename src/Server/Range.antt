-- ===== src/Server/Range.antt =====
-- src/server/handler.rs: the `Range` header.
pub mod Bounds
pub mod Forms
pub mod Shown
pub mod Answers
use raas.Prelude.{
  ℕ, ◌+◌, ◌-◌, min, Bool, true, false, Option, none, some, List, [], ◌∷◌, leb, ltb, ◌==◌,
  if◌then◌else◌, ◌=bytes=◌,
}
use raas.Io.{Result, ok, err, ◌>>=◌}
use raas.Io.Text.{Text, trim, strip_prefix, before, split_once, parse_u64}

pub data RangeParseError : Type 0 where
  malformed unsatisfiable : RangeParseError

-- `"bytes="`, `','` and `'-'`
abbrev pub bytes_prefix : Text
bytes_prefix = 98 ∷ 121 ∷ 116 ∷ 101 ∷ 115 ∷ 61 ∷ []

abbrev pub comma : ℕ
comma = 44

abbrev pub dash : ℕ
dash = 45

abbrev pub is_empty : Text → Bool
is_empty t = t =bytes= []

-- `ok_or(Malformed)`
abbrev pub or_malformed : {A : Type 0} → Option A → Result RangeParseError A
or_malformed none = err malformed
or_malformed (some a) = ok a

-- `Ok(Some((start, end)))` is a closed interval.
abbrev pub ParsedRange : Type 0
ParsedRange = Result RangeParseError (Option (ℕ × ℕ))

-- `-N`: the last N bytes.
unfoldable pub suffix_range : ℕ → ℕ → ParsedRange
suffix_range suffix total_size =
    if suffix == 0
    then err unsatisfiable
    else (let len = min suffix total_size in ok (some (total_size - len, total_size - 1)))

-- `N-`: from N to the end.
unfoldable pub open_range : ℕ → ℕ → ParsedRange
open_range start total_size =
    if leb total_size start then err unsatisfiable else ok (some (start, total_size - 1))

-- `N-M`
unfoldable pub closed_range : ℕ → ℕ → ℕ → ParsedRange
closed_range start end total_size =
    if ltb end start
    then err malformed
    else if leb total_size start
    then err unsatisfiable
    else ok (some (start, min end (total_size - 1)))

-- By which of the two numbers are there.
unfoldable pub range_of : Text → Text → ℕ → ParsedRange
range_of start_str end_str total_size =
    if is_empty start_str
    then (if is_empty end_str
        then err malformed
        else do suffix ← or_malformed (parse_u64 end_str); suffix_range suffix total_size)
    else if is_empty end_str
    then (do start ← or_malformed (parse_u64 start_str); open_range start total_size)
    else do
      start ← or_malformed (parse_u64 start_str)
      end ← or_malformed (parse_u64 end_str)
      closed_range start end total_size

-- The first of the ranges.
unfoldable pub first_range : Text → ℕ → ParsedRange
first_range specs total_size = do
  parts ← or_malformed (split_once dash (trim (before comma specs)))
  range_of (trim parts.0) (trim parts.1) total_size

-- What comes behind the prefix; an empty resource has no range that can be satisfied.
unfoldable pub specs_range : Text → ℕ → ParsedRange
specs_range specs total_size =
    if is_empty specs
    then err malformed
    else if total_size == 0
    then err unsatisfiable
    else first_range specs total_size

unfoldable pub parse_range_header : Text → ℕ → ParsedRange
parse_range_header range_str total_size = do
  specs ← or_malformed (strip_prefix bytes_prefix range_str)
  specs_range (trim specs) total_size
