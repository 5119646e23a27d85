-- ===== src/Server/Range/Answers.antt =====
-- src/server/handler.rs: the parser's answers to the three forms of a range.
use raas.Prelude.{ℕ, ◌≡◌, ◌≢◌, refl, false, some, [], ◌∷◌, ◌++◌, ◌==◌, inl, inr, Bool-cases, arith}
use raas.Io.Text.{Text, trim, strip_prefix, show_u64}
use raas.Io.Text.Decimal.{trim-AllVisible}
use raas.Server.Range.{first_range, specs_range, parse_range_header, is_empty, bytes_prefix, dash}
use raas.Server.Range.Forms.{
  RangeSpec, closed, from, suffix, Fits, show_spec, Selects, Answers, computed, computed-Answers,
}
use raas.Server.Range.Shown.{
  AllSpec-AllVisible, show_spec-AllSpec, is_empty_of_ne, first_range-show_spec,
}

strip_bytes : (t : Text) → strip_prefix bytes_prefix (bytes_prefix ++ t) ≡ some t
unfolding strip_prefix
strip_bytes t = refl

append_cons_ne_nil : (xs : Text) (y : ℕ) (ys : Text) → xs ++ (y ∷ ys) ≢ []
append_cons_ne_nil [] y ys e = cc
append_cons_ne_nil (x ∷ xs) y ys e = cc

none_selected : (spec : RangeSpec) (total : ℕ) → total ≡ 0 → (p : ℕ) → ¬ (Selects spec total p)
none_selected (closed a b) total z p s = omega (arith, s.2)
none_selected (from a) total z p s = omega (arith, s.1)
none_selected (suffix n) total z p s = omega (arith, s.1)

show_spec_ne_nil : (spec : RangeSpec) → show_spec spec ≢ []
show_spec_ne_nil (closed a b) e = append_cons_ne_nil (show_u64 a) dash (show_u64 b) e
show_spec_ne_nil (from a) e = append_cons_ne_nil (show_u64 a) dash [] e
show_spec_ne_nil (suffix n) e = cc

specs_range-Answers :
    (t : Text) (spec : RangeSpec) (total : ℕ)
    → is_empty t ≡ false
    → first_range t total ≡ computed spec total
    → Answers spec total (specs_range t total)
unfolding specs_range
specs_range-Answers t spec total there e = rw there (elim (Bool-cases (total == 0)) [
  | inl z ↦ rw z (none_selected spec total (ground arith))
  | inr nz ↦ rw nz (rw e (computed-Answers spec total (ground arith)))
])

-- For each of the three forms of a range with numbers below 2^64 and a resource of any size, the
-- parser answers with the interval of exactly the positions selected, or with `Unsatisfiable`
-- only if none is selected, or with `Malformed` only if the range ends before it starts.
pub parse_range_header-Answers :
    (spec : RangeSpec) (total : ℕ)
    → Fits spec
    → Answers spec total (parse_range_header (bytes_prefix ++ show_spec spec) total)
unfolding parse_range_header
parse_range_header-Answers spec total f =
    let t = show_spec spec in
    let same : trim t ≡ t = trim-AllVisible t (AllSpec-AllVisible t (show_spec-AllSpec spec f)) in
    rw (strip_bytes t) (
      rw same (
        specs_range-Answers t spec total (is_empty_of_ne t (show_spec_ne_nil spec))
          (first_range-show_spec spec total f)))
