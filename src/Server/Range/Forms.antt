-- ===== src/Server/Range/Forms.antt =====
-- The three forms of a range, and what RFC 9110 has each of them select.
use raas.Prelude.{
  ℕ, ◌+◌, ◌≤◌, ◌<◌, ◌↔◌, none, some, [], ◌∷◌, ◌++◌, leb, ltb, ◌==◌, inl, inr, Bool-cases, arith,
}
use raas.Prelude.Words.{u64_mod}
use raas.Io.{ok, err}
use raas.Io.Text.{Text, show_u64}
use raas.Server.Range.{
  ParsedRange, malformed, unsatisfiable, suffix_range, open_range, closed_range, dash,
}

pub data RangeSpec : Type 0 where
  closed : ℕ → ℕ → RangeSpec
  from suffix : ℕ → RangeSpec

-- The numbers of a range are `u64`s.
abbrev pub Fits : RangeSpec → Type 0
Fits (closed a b) = (a < u64_mod) × (b < u64_mod)
Fits (from a) = a < u64_mod
Fits (suffix n) = n < u64_mod

abbrev pub show_spec : RangeSpec → Text
show_spec (closed a b) = show_u64 a ++ (dash ∷ show_u64 b)
show_spec (from a) = show_u64 a ++ (dash ∷ [])
show_spec (suffix n) = dash ∷ show_u64 n

-- The positions of a resource of `total` bytes that a range asks for.
abbrev pub Selects : RangeSpec → ℕ → ℕ → Type 0
Selects (closed a b) total p = (a ≤ p) × (p ≤ b) × (p < total)
Selects (from a) total p = (a ≤ p) × (p < total)
Selects (suffix n) total p = (total ≤ p + n) × (p < total)

-- A result that is right: an interval of exactly the selected positions; no selected position; or
-- a range whose end is before its start.
abbrev pub Answers : RangeSpec → ℕ → ParsedRange → Type 0
Answers spec total (ok none) = ⊥
Answers spec total (ok (some (s, e))) = (p : ℕ) → ((s ≤ p) × (p ≤ e)) ↔ Selects spec total p
Answers spec total (err unsatisfiable) = (p : ℕ) → ¬ (Selects spec total p)
Answers (closed a b) total (err malformed) = b < a
Answers (from a) total (err malformed) = ⊥
Answers (suffix n) total (err malformed) = ⊥

closed_range-Answers :
    (a b total : ℕ) → 0 < total → Answers (closed a b) total (closed_range a b total)
unfolding closed_range
closed_range-Answers a b total t = elim (Bool-cases (ltb b a)) [
  | inl reversed ↦ rw reversed (ground arith)
  | inr ordered ↦ rw ordered (elim (Bool-cases (leb total a)) [
    | inl past ↦ rw past (λ p s. ground arith)
    | inr inside ↦ rw inside (λ p. ground arith)
  ])
]

open_range-Answers : (a total : ℕ) → 0 < total → Answers (from a) total (open_range a total)
unfolding open_range
open_range-Answers a total t = elim (Bool-cases (leb total a)) [
  | inl past ↦ rw past (λ p s. ground arith)
  | inr inside ↦ rw inside (λ p. ground arith)
]

suffix_range-Answers : (n total : ℕ) → 0 < total → Answers (suffix n) total (suffix_range n total)
unfolding suffix_range
suffix_range-Answers n total t = elim (Bool-cases (n == 0)) [
  | inl z ↦ rw z (λ p s. ground arith)
  | inr nz ↦ rw nz (λ p. ground arith)
]

-- What the code computes for each form.
abbrev pub computed : RangeSpec → ℕ → ParsedRange
computed (closed a b) total = closed_range a b total
computed (from a) total = open_range a total
computed (suffix n) total = suffix_range n total

pub computed-Answers :
    (spec : RangeSpec) (total : ℕ) → 0 < total → Answers spec total (computed spec total)
computed-Answers (closed a b) total t = closed_range-Answers a b total t
computed-Answers (from a) total t = open_range-Answers a total t
computed-Answers (suffix n) total t = suffix_range-Answers n total t
