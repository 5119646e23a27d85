-- ===== src/Server/Range/Bounds.antt =====
-- src/server/handler.rs: where the ranges that the parser returns lie.
use raas.Prelude.{ℕ, ◌≤◌, ◌<◌, none, some, leb, ltb, ◌==◌, inl, inr, Bool-cases, arith}
use raas.Io.{Result, ok, err, ◌>>=◌}
use raas.Io.Text.{Text, trim, strip_prefix, before, split_once, parse_u64}
use raas.Server.Range.{
  RangeParseError, ParsedRange, suffix_range, open_range, closed_range, range_of, first_range,
  specs_range, parse_range_header, or_malformed, is_empty, bytes_prefix, comma, dash,
}

-- A non-empty closed interval of the resource, or an error: `Ok(None)` is never returned.
abbrev pub InResource : ℕ → ParsedRange → Type 0
InResource total (ok none) = ⊥
InResource total (ok (some (start, end))) = (start ≤ end) × (end < total)
InResource total (err e) = Unit

bind-InResource :
    {A : Type 0} (total : ℕ) (r : Result RangeParseError A) (f : A → ParsedRange)
    → ((a : A) → InResource total (f a))
    → InResource total (r >>= f)
bind-InResource total (ok a) f h = h a
bind-InResource total (err e) f h = tt

module _ (total : ℕ) (positive : 0 < total) where
  suffix_range-InResource : (n : ℕ) → InResource total (suffix_range n total)
  unfolding suffix_range
  suffix_range-InResource n = elim (Bool-cases (n == 0)) [
    | inl z ↦ rw z tt
    | inr nz ↦ rw nz (ground arith)
  ]

  open_range-InResource : (n : ℕ) → InResource total (open_range n total)
  unfolding open_range
  open_range-InResource n = elim (Bool-cases (leb total n)) [
    | inl z ↦ rw z tt
    | inr nz ↦ rw nz (ground arith)
  ]

  closed_range-InResource : (a b : ℕ) → InResource total (closed_range a b total)
  unfolding closed_range
  closed_range-InResource a b = elim (Bool-cases (ltb b a)) [
    | inl reversed ↦ rw reversed tt
    | inr ordered ↦ rw ordered (elim (Bool-cases (leb total a)) [
      | inl past ↦ rw past tt
      | inr inside ↦ rw inside (ground arith)
    ])
  ]

  range_of-InResource : (s e : Text) → InResource total (range_of s e total)
  unfolding range_of
  range_of-InResource s e = elim (Bool-cases (is_empty s)) [
    | inl no_start ↦ rw no_start (elim (Bool-cases (is_empty e)) [
      | inl no_end ↦ rw no_end tt
      | inr has_end ↦ rw has_end (
          bind-InResource total (or_malformed (parse_u64 e)) (λ n. suffix_range n total)
            suffix_range-InResource)
    ])
    | inr has_start ↦ rw has_start (elim (Bool-cases (is_empty e)) [
      | inl no_end ↦ rw no_end (
          bind-InResource total (or_malformed (parse_u64 s)) (λ n. open_range n total)
            open_range-InResource)
      | inr has_end ↦ rw has_end (
          bind-InResource total (or_malformed (parse_u64 s)) _ λ a.
            bind-InResource total (or_malformed (parse_u64 e)) (λ b. closed_range a b total)
              (closed_range-InResource a))
    ])
  ]

  first_range-InResource : (t : Text) → InResource total (first_range t total)
  unfolding first_range
  first_range-InResource t =
      bind-InResource total (or_malformed (split_once dash (trim (before comma t)))) _
        λ p. range_of-InResource (trim p.0) (trim p.1)

specs_range-InResource : (t : Text) (total : ℕ) → InResource total (specs_range t total)
unfolding specs_range
specs_range-InResource t total = elim (Bool-cases (is_empty t)) [
  | inl none_ ↦ rw none_ tt
  | inr some_ ↦ rw some_ (elim (Bool-cases (total == 0)) [
    | inl z ↦ rw z tt
    | inr nz ↦ rw nz (first_range-InResource total (ground arith) t)
  ])
]

-- Whatever the header says, an accepted range is a non-empty interval inside the resource, and
-- `Ok(None)` is never returned.
pub parse_range_header-InResource :
    (header : Text) (total : ℕ) → InResource total (parse_range_header header total)
unfolding parse_range_header
parse_range_header-InResource header total =
    bind-InResource total (or_malformed (strip_prefix bytes_prefix header)) _
      λ t. specs_range-InResource (trim t) total
