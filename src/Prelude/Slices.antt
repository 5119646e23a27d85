-- ===== src/Prelude/Slices.antt =====
-- `slice n k xs` is `xs[n..n+k]`, cut off at the end of `xs`.
use Prim.Native.Nat.{ℕ, zero, suc, ◌+◌, ◌-◌, ◌≤◌}
use mathlib.Core.Path.{◌≡◌, refl, sym, ap, ◌∙◌}
use mathlib.Core.List.{List, [], ◌∷◌, ◌++◌}
use native.Mathlib.Omega.{arith}
use raas.Prelude.Lists.{length, take, drop, replicate, length-take, length-drop}

module _ {ℓ} {A : Type ℓ} where
  abbrev pub slice : ℕ → ℕ → List A → List A
  slice n k xs = take k (drop n xs)

  pub length-slice : (n k : ℕ) (xs : List A) → n + k ≤ length xs → length (slice n k xs) ≡ k
  length-slice n k xs h = omega (arith, length-take k (drop n xs), length-drop n xs)

  pub take-all : (n : ℕ) (xs : List A) → length xs ≤ n → take n xs ≡ xs
  take-all zero [] h = refl
  take-all zero (x ∷ xs) h = absurd (omega arith)
  take-all (suc n) [] h = refl
  take-all (suc n) (x ∷ xs) h = ap (λ l. x ∷ l) (take-all n xs (omega arith))

  pub take-nil : (n : ℕ) → take {A = A} n [] ≡ []
  take-nil zero = refl
  take-nil (suc n) = refl

  pub drop-nil : (n : ℕ) → drop {A = A} n [] ≡ []
  drop-nil zero = refl
  drop-nil (suc n) = refl

  -- Reading `j` items and then `k` more is reading `j + k`.
  pub take-append : (j k : ℕ) (xs : List A) → take j xs ++ take k (drop j xs) ≡ take (j + k) xs
  take-append zero k xs = ap (λ n. take n xs) (omega arith)
  take-append (suc j) k [] = take-nil k ∙ sym (take-nil (suc j + k))
  take-append (suc j) k (x ∷ xs) =
      ap (λ l. x ∷ l) (take-append j k xs)
      ∙ ap (λ n. take n (x ∷ xs)) {x = suc (j + k)} (omega arith)

  pub drop-drop : (j n : ℕ) (xs : List A) → drop j (drop n xs) ≡ drop (n + j) xs
  drop-drop j zero xs = ap (λ m. drop m xs) (omega arith)
  drop-drop zero (suc n) [] = sym (drop-nil (suc n + zero))
  drop-drop (suc j) (suc n) [] = sym (drop-nil (suc n + suc j))
  drop-drop j (suc n) (x ∷ xs) =
      drop-drop j n xs ∙ ap (λ m. drop m (x ∷ xs)) {x = suc (n + j)} (omega arith)

  pub slice-append :
      (n j k : ℕ) (xs : List A) → slice n j xs ++ slice (n + j) k xs ≡ slice n (j + k) xs
  slice-append n j k xs =
      ap (λ l. take j (drop n xs) ++ take k l) (sym (drop-drop j n xs))
      ∙ take-append j k (drop n xs)

  -- A slice inside the left or the right part of an append.
  pub drop-append_right :
      (n : ℕ) (xs ys : List A) → length xs ≤ n → drop n (xs ++ ys) ≡ drop (n - length xs) ys
  drop-append_right n [] ys h = ap (λ m. drop m ys) (omega arith)
  drop-append_right zero (x ∷ xs) ys h = absurd (omega arith)
  drop-append_right (suc n) (x ∷ xs) ys h =
      drop-append_right n xs ys (omega arith) ∙ ap (λ m. drop m ys) (omega arith)

  pub slice-append_right :
      (n k : ℕ) (xs ys : List A) → length xs ≤ n → slice n k (xs ++ ys) ≡ slice (n - length xs) k ys
  slice-append_right n k xs ys h = ap (take k) (drop-append_right n xs ys h)

  pub slice-append_left :
      (n k : ℕ) (xs ys : List A) → n + k ≤ length xs → slice n k (xs ++ ys) ≡ slice n k xs
  slice-append_left n zero xs ys h = refl
  slice-append_left zero (suc k) [] ys h = absurd (omega arith)
  slice-append_left zero (suc k) (x ∷ xs) ys h =
      ap (λ l. x ∷ l) (slice-append_left zero k xs ys (omega arith))
  slice-append_left (suc n) (suc k) [] ys h = absurd (omega arith)
  slice-append_left (suc n) (suc k) (x ∷ xs) ys h = slice-append_left n (suc k) xs ys (omega arith)

  pub slice-replicate : (n k m : ℕ) (a : A) → n + k ≤ m → slice n k (replicate m a) ≡ replicate k a
  slice-replicate n zero m a h = refl
  slice-replicate zero (suc k) zero a h = absurd (omega arith)
  slice-replicate zero (suc k) (suc m) a h =
      ap (λ l. a ∷ l) (slice-replicate zero k m a (omega arith))
  slice-replicate (suc n) (suc k) zero a h = absurd (omega arith)
  slice-replicate (suc n) (suc k) (suc m) a h = slice-replicate n (suc k) m a (omega arith)

  pub slice-all : (xs : List A) (k : ℕ) → length xs ≤ k → slice 0 k xs ≡ xs
  slice-all xs k h = take-all k xs h
