-- ===== src/Server/Range/Shown.antt =====
-- The parser on the printed form of a range.
use raas.Prelude.{ℕ, ◌≤◌, ◌<◌, ◌≡◌, ◌≢◌, refl, ◌∙◌, false, some, [], ◌∷◌, ◌++◌, ◌==◌, arith}
use raas.Prelude.Words.{u64_mod}
use raas.Io.Text.{Text, trim, before, split_once, parse_u64, show_u64}
use raas.Io.Text.Decimal.{
  AllDigits, AllVisible, AllDigits-AllVisible, show_u64-AllDigits, show_u64_ne_nil,
  parse_u64-show_u64, trim-AllVisible,
}
use raas.Server.Range.{
  suffix_range, open_range, closed_range, range_of, first_range, is_empty, comma, dash,
}
use raas.Server.Range.Forms.{RangeSpec, closed, from, suffix, Fits, show_spec, computed}

-- Characters from `-` to `9`.
abbrev pub AllSpec : Text → Type 0
AllSpec [] = Unit
AllSpec (c ∷ cs) = (45 ≤ c) × (c ≤ 57) × AllSpec cs

AllSpec-append : (xs ys : Text) → AllSpec xs → AllSpec ys → AllSpec (xs ++ ys)
AllSpec-append [] ys a b = b
AllSpec-append (x ∷ xs) ys a b = (a.0, a.1, AllSpec-append xs ys a.2 b)

AllDigits-AllSpec : (t : Text) → AllDigits t → AllSpec t
AllDigits-AllSpec [] d = tt
AllDigits-AllSpec (c ∷ cs) d = (omega (arith, d.0), d.1, AllDigits-AllSpec cs d.2)

pub AllSpec-AllVisible : (t : Text) → AllSpec t → AllVisible t
AllSpec-AllVisible [] d = tt
AllSpec-AllVisible (c ∷ cs) d = (omega (arith, d.0), omega (arith, d.1), AllSpec-AllVisible cs d.2)

pub show_spec-AllSpec : (spec : RangeSpec) → Fits spec → AllSpec (show_spec spec)
show_spec-AllSpec (closed a b) f =
    AllSpec-append (show_u64 a) _ (AllDigits-AllSpec _ (show_u64-AllDigits a f.0))
      (omega arith, omega arith, AllDigits-AllSpec _ (show_u64-AllDigits b f.1))
show_spec-AllSpec (from a) f =
    AllSpec-append (show_u64 a) _ (AllDigits-AllSpec _ (show_u64-AllDigits a f))
      (omega arith, omega arith, tt)
show_spec-AllSpec (suffix n) f =
    (omega arith, omega arith, AllDigits-AllSpec _ (show_u64-AllDigits n f))

before-comma : (t : Text) → AllSpec t → before comma t ≡ t
unfolding before
before-comma [] a = refl
before-comma (c ∷ cs) a =
    let other : (c == 44) ≡ false = ground (arith, a.0) in rw (other, before-comma cs a.2) refl

split_once-digits :
    (t rest : Text) → AllDigits t → split_once dash (t ++ (dash ∷ rest)) ≡ some (t, rest)
unfolding split_once
split_once-digits [] rest d = refl
split_once-digits (c ∷ cs) rest d =
    let other : (c == 45) ≡ false = ground (arith, d.0) in
    rw other (rw (split_once-digits cs rest d.2) refl)

pub is_empty_of_ne : (t : Text) → t ≢ [] → is_empty t ≡ false
is_empty_of_ne [] h = absurd (h refl)
is_empty_of_ne (c ∷ cs) h = refl

-- A printed number: its characters, its value, and that it is there.
record Printed (n : ℕ) : Type 0 where
  digits : AllDigits (show_u64 n)
  trimmed : trim (show_u64 n) ≡ show_u64 n
  there : is_empty (show_u64 n) ≡ false
  value : parse_u64 (show_u64 n) ≡ some n

printed : (n : ℕ) → n < u64_mod → Printed n
printed n f =
    let d = show_u64-AllDigits n f in
    record {
      digits = d;
      trimmed = trim-AllVisible (show_u64 n) (AllDigits-AllVisible (show_u64 n) d);
      there = is_empty_of_ne (show_u64 n) (show_u64_ne_nil n);
      value = parse_u64-show_u64 n f;
    }

range_of_closed :
    (a b total : ℕ)
    → Printed a
    → Printed b
    → range_of (trim (show_u64 a)) (trim (show_u64 b)) total ≡ closed_range a b total
unfolding range_of
range_of_closed a b total p q = rw (p.trimmed, q.trimmed, p.there, q.there, p.value, q.value) refl

range_of_from :
    (a total : ℕ) → Printed a → range_of (trim (show_u64 a)) (trim []) total ≡ open_range a total
unfolding range_of trim
range_of_from a total p = rw (p.trimmed, p.there, p.value) refl

range_of_suffix :
    (n total : ℕ) → Printed n → range_of (trim []) (trim (show_u64 n)) total ≡ suffix_range n total
unfolding range_of trim
range_of_suffix n total p = rw (p.trimmed, p.there, p.value) refl

first_range_split :
    (t a b : Text) (total : ℕ)
    → AllSpec t
    → split_once dash t ≡ some (a, b)
    → first_range t total ≡ range_of (trim a) (trim b) total
unfolding first_range
first_range_split t a b total spec e =
    rw (before-comma t spec, trim-AllVisible t (AllSpec-AllVisible t spec), e) refl

pub first_range-show_spec :
    (spec : RangeSpec) (total : ℕ)
    → Fits spec
    → first_range (show_spec spec) total ≡ computed spec total
first_range-show_spec (closed a b) total f =
    let p : Printed a = printed a f.0 in
    first_range_split _ (show_u64 a) (show_u64 b) total (show_spec-AllSpec (closed a b) f)
      (split_once-digits (show_u64 a) (show_u64 b) p.digits)
    ∙ range_of_closed a b total p (printed b f.1)
first_range-show_spec (from a) total f =
    let p : Printed a = printed a f in
    first_range_split _ (show_u64 a) [] total (show_spec-AllSpec (from a) f)
      (split_once-digits (show_u64 a) [] p.digits)
    ∙ range_of_from a total p
first_range-show_spec (suffix n) total f =
    first_range_split _ [] (show_u64 n) total (show_spec-AllSpec (suffix n) f)
      (split_once-digits [] (show_u64 n) tt)
    ∙ range_of_suffix n total (printed n f)
