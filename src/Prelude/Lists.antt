-- ===== src/Prelude/Lists.antt =====
-- Lists measured and indexed by native numbers, under the library's names.
use Prim.Native.Nat.{ℕ, zero, suc, ◌+◌, ◌-◌, min}
use mathlib.Core.Path.{◌≡◌, refl, ap}
use mathlib.Core.Bool.{Bool, true, false}
use mathlib.Core.List.{List, [], ◌∷◌, ◌++◌}
use mathlib.Core.Option.{Option, none, some}
use native.Mathlib.Omega.{arith}
use raas.Prelude.Tests.{if◌then◌else◌, ◌==◌}

module _ {ℓ} {A : Type ℓ} where
  abbrev pub length : List A → ℕ
  length [] = 0
  length (x ∷ xs) = suc (length xs)

  abbrev pub get_elem? : List A → ℕ → Option A
  get_elem? [] i = none
  get_elem? (x ∷ xs) zero = some x
  get_elem? (x ∷ xs) (suc i) = get_elem? xs i

  abbrev pub take : ℕ → List A → List A
  take zero xs = []
  take (suc n) [] = []
  take (suc n) (x ∷ xs) = x ∷ take n xs

  abbrev pub drop : ℕ → List A → List A
  drop zero xs = xs
  drop (suc n) [] = []
  drop (suc n) (x ∷ xs) = drop n xs

  abbrev pub replicate : ℕ → A → List A
  replicate zero a = []
  replicate (suc n) a = a ∷ replicate n a

  pub length-append : (xs ys : List A) → length (xs ++ ys) ≡ length xs + length ys
  length-append [] ys = omega arith
  length-append (x ∷ xs) ys = omega (arith, length-append xs ys)

  pub length-take : (n : ℕ) (xs : List A) → length (take n xs) ≡ min n (length xs)
  length-take zero xs = omega arith
  length-take (suc n) [] = omega arith
  length-take (suc n) (x ∷ xs) = omega (arith, length-take n xs)

  pub length-drop : (n : ℕ) (xs : List A) → length (drop n xs) ≡ length xs - n
  length-drop zero xs = omega arith
  length-drop (suc n) [] = omega arith
  length-drop (suc n) (x ∷ xs) = omega (arith, length-drop n xs)

  pub length-replicate : (n : ℕ) (a : A) → length (replicate n a) ≡ n
  length-replicate zero a = refl
  length-replicate (suc n) a = ap suc (length-replicate n a)

  -- `slice::partition_point`, on a slice that the test partitions: the number of leading elements
  -- that pass it.
  abbrev pub partition_point : (A → Bool) → List A → ℕ
  partition_point p [] = 0
  partition_point p (x ∷ xs) = if p x then suc (partition_point p xs) else 0

  pub partition_point-elem :
      (p : A → Bool) (xs : List A) (i : ℕ)
      → partition_point p xs ≡ suc i
      → (x : A) × (get_elem? xs i ≡ some x) × (p x ≡ true)
  partition_point-elem p [] i h = absurd (omega arith)
  partition_point-elem p (x ∷ xs) zero h = (x, refl, ground arith)
  partition_point-elem p (x ∷ xs) (suc i) h = partition_point-elem p xs i (ground arith)

-- Byte strings are compared byte by byte.
infix 50 ◌=bytes=◌
abbrev pub ◌=bytes=◌ : List ℕ → List ℕ → Bool
[] =bytes= [] = true
[] =bytes= (y ∷ ys) = false
(x ∷ xs) =bytes= [] = false
(x ∷ xs) =bytes= (y ∷ ys) = if x == y then xs =bytes= ys else false

pub =bytes=_eq : (xs ys : List ℕ) → (xs =bytes= ys) ≡ true → xs ≡ ys
=bytes=_eq [] [] h = refl
=bytes=_eq [] (y ∷ ys) h = ground arith
=bytes=_eq (x ∷ xs) [] h = ground arith
=bytes=_eq (x ∷ xs) (y ∷ ys) h = ground (arith, =bytes=_eq xs ys)

pub =bytes=_refl : (xs : List ℕ) → (xs =bytes= xs) ≡ true
=bytes=_refl [] = refl
=bytes=_refl (x ∷ xs) = ground (arith, =bytes=_refl xs)

-- A predicate of every item.
abbrev pub All {ℓ κ} : {A : Type ℓ} → (A → Type κ) → List A → Type κ
All P [] = Unit
All P (x ∷ xs) = P x × All P xs

pub All-append {ℓ κ} :
    {A : Type ℓ} (P : A → Type κ) (xs ys : List A) → All P xs → All P ys → All P (xs ++ ys)
All-append P [] ys a b = b
All-append P (x ∷ xs) ys a b = (a.0, All-append P xs ys a.1 b)

pub All-map {ℓ κ} :
    {A : Type ℓ} (P Q : A → Type κ) (xs : List A) → ((x : A) → P x → Q x) → All P xs → All Q xs
All-map P Q [] h a = tt
All-map P Q (x ∷ xs) h a = (h x a.0, All-map P Q xs h a.1)
