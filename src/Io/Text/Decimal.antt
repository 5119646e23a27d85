-- ===== src/Io/Text/Decimal.antt =====
-- Printed numbers are read back, and hold digits alone.
use raas.Prelude.{
  ℕ, zero, suc, ◌+◌, ◌-◌, ◌*◌, ◌/◌, ◌%◌, ◌≤◌, ◌<◌, ◌≡◌, refl, ap, ◌∙◌, ◌≢◌, false, some, [], ◌∷◌,
  ◌++◌, ltb, lt→ltb, ◌==◌, inl, inr, Bool-cases, arith,
}
use Prim.Native.Nat.{◌^◌}
use native.Mathlib.Nat.{pow-suc}
use raas.Prelude.Words.{u64_mod}
use raas.Io.Text.{
  Text, is_digit, digits_from, parse_u64, some_digits, decimal, show_u64, is_whitespace, trim,
  trim_start, trim_end,
}

abbrev pub AllDigits : Text → Type 0
AllDigits [] = Unit
AllDigits (c ∷ cs) = (48 ≤ c) × (c ≤ 57) × AllDigits cs

AllDigits-append : (xs ys : Text) → AllDigits xs → AllDigits ys → AllDigits (xs ++ ys)
AllDigits-append [] ys a b = b
AllDigits-append (x ∷ xs) ys a b = (a.0, a.1, AllDigits-append xs ys a.2 b)

-- Reading one more digit.
digits_from-append :
    (xs : Text) (acc n d : ℕ)
    → digits_from acc xs ≡ some n
    → d < 10
    → n * 10 + d < u64_mod
    → digits_from acc (xs ++ ((48 + d) ∷ [])) ≡ some (n * 10 + d)
unfolding digits_from is_digit
digits_from-append [] acc n d h lt fits = ground arith
digits_from-append (x ∷ xs) acc n d h lt fits =
    ground (arith, digits_from-append xs (acc * 10 + (x - 48)) n d)

-- Dividing by ten leaves a number with one digit less.
div_digits : (fuel n : ℕ) → n < 10 ^ suc fuel → n / 10 < 10 ^ fuel
div_digits fuel n h = let p = pow-suc 10 fuel in omega arith

last_digit : (n : ℕ) → (48 ≤ 48 + n % 10) × (48 + n % 10 ≤ 57) × Unit {0}
last_digit n = (omega arith, omega arith, tt)

decimal_lem :
    (fuel n : ℕ)
    → n < 10 ^ suc fuel
    → n < u64_mod
    → AllDigits (decimal (suc fuel) n) × (digits_from 0 (decimal (suc fuel) n) ≡ some n)
unfolding decimal digits_from is_digit
decimal_lem zero n h fits =
    let small : n < 10 = omega arith in
    rw (lt→ltb n 10 small) ((omega arith, omega arith, tt), ground arith)
decimal_lem (suc fuel) n h fits = elim (Bool-cases (ltb n 10)) [
  | inl small ↦ rw small ((ground arith, ground arith, tt), ground arith)
  | inr large ↦
      let r = decimal_lem fuel (n / 10) (div_digits (suc fuel) n h) (omega arith) in
      rw large (
        AllDigits-append (decimal (suc fuel) (n / 10)) _ r.0 (last_digit n),
        digits_from-append (decimal (suc fuel) (n / 10)) 0 (n / 10) (n % 10) r.1 (omega arith)
              (omega arith)
            ∙ ap some (omega arith),
      )
]

pub show_u64-AllDigits : (n : ℕ) → n < u64_mod → AllDigits (show_u64 n)
unfolding show_u64
show_u64-AllDigits n fits = (decimal_lem 19 n (omega arith) fits).0

append_ne_nil : (xs : Text) (y : ℕ) → xs ++ (y ∷ []) ≢ []
append_ne_nil [] y e = cc
append_ne_nil (x ∷ xs) y e = cc

decimal_ne_nil : (fuel n : ℕ) → decimal (suc fuel) n ≢ []
unfolding decimal
decimal_ne_nil fuel n = elim (Bool-cases (ltb n 10)) [
  | inl small ↦ rw small (λ e. cc)
  | inr large ↦ rw large (append_ne_nil (decimal fuel (n / 10)) (48 + n % 10))
]

some_digits_cons : (t : Text) → t ≢ [] → some_digits t ≡ digits_from 0 t
unfolding some_digits
some_digits_cons [] h = absurd (h refl)
some_digits_cons (c ∷ cs) h = refl

-- Digits start with no sign.
parse_u64-digits : (t : Text) → t ≢ [] → AllDigits t → parse_u64 t ≡ digits_from 0 t
unfolding parse_u64 some_digits
parse_u64-digits [] h d = absurd (h refl)
parse_u64-digits (c ∷ cs) h d =
    let no_sign : (c == 43) ≡ false = ground (arith, d.0) in rw no_sign refl

pub show_u64_ne_nil : (n : ℕ) → show_u64 n ≢ []
unfolding show_u64
show_u64_ne_nil n = decimal_ne_nil 19 n

-- A printed `u64` is read back.
pub parse_u64-show_u64 : (n : ℕ) → n < u64_mod → parse_u64 (show_u64 n) ≡ some n
unfolding show_u64
parse_u64-show_u64 n fits =
    let d = decimal_lem 19 n (omega arith) fits in
    parse_u64-digits (decimal 20 n) (decimal_ne_nil 19 n) d.0 ∙ d.1

-- Visible ASCII characters are not trimmed.
abbrev pub AllVisible : Text → Type 0
AllVisible [] = Unit
AllVisible (c ∷ cs) = (33 ≤ c) × (c ≤ 126) × AllVisible cs

pub AllDigits-AllVisible : (t : Text) → AllDigits t → AllVisible t
AllDigits-AllVisible [] d = tt
AllDigits-AllVisible (c ∷ cs) d =
    (omega (arith, d.0), omega (arith, d.1), AllDigits-AllVisible cs d.2)

pub AllVisible-append : (xs ys : Text) → AllVisible xs → AllVisible ys → AllVisible (xs ++ ys)
AllVisible-append [] ys a b = b
AllVisible-append (x ∷ xs) ys a b = (a.0, a.1, AllVisible-append xs ys a.2 b)

pub visible : (c : ℕ) → 33 ≤ c → c ≤ 126 → is_whitespace c ≡ false
unfolding is_whitespace
visible c a b = ground arith

trim_end_step :
    (c : ℕ) (t : Text) (d : ℕ) (cs : Text) → trim_end t ≡ d ∷ cs → trim_end (c ∷ t) ≡ c ∷ d ∷ cs
unfolding trim_end
trim_end_step c t d cs e = rw e refl

pub trim_end-AllVisible : (t : Text) → AllVisible t → trim_end t ≡ t
unfolding trim_end
trim_end-AllVisible [] v = refl
trim_end-AllVisible (c ∷ []) v = rw (visible c v.0 v.1) refl
trim_end-AllVisible (c ∷ d ∷ cs) v =
    trim_end_step c (d ∷ cs) d cs (trim_end-AllVisible (d ∷ cs) v.2)

pub trim-AllVisible : (t : Text) → AllVisible t → trim t ≡ t
unfolding trim trim_start
trim-AllVisible [] v = refl
trim-AllVisible (c ∷ cs) v = rw (visible c v.0 v.1) (trim_end-AllVisible (c ∷ cs) v)
