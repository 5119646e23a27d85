-- ===== src/Archive/Zip/Unzip/Fields.antt =====
-- Numbers and byte strings that were written are read back.
use raas.Prelude.{
  ℕ, zero, suc, ◌/◌, ◌≡◌, refl, sym, ap, ◌∙◌, some, List, [], ◌∷◌, ◌++◌, append_assoc, take, drop,
  length, length-append, arith, not-lt→ltb, ap₂,
}
use raas.Prelude.Words.{le_bytes}
use raas.Archive.Zip.Unzip.{number, fields, bytes}

-- A number that fits into `k` bytes.
abbrev pub FitsIn : ℕ → ℕ → Type 0
FitsIn zero v = v ≡ 0
FitsIn (suc k) v = FitsIn k (v / 256)

pub number-le_bytes :
    (k v : ℕ) (t : List ℕ) → FitsIn k v → number k (le_bytes k v ++ t) ≡ some (v, t)
unfolding number le_bytes
number-le_bytes zero v t h = ap (λ n. some (n, t)) (sym h)
number-le_bytes (suc k) v t h =
    rw (number-le_bytes k (v / 256) t h) (ap (λ n. some (n, t)) (omega arith))

-- Fields as they are written, with their widths.
abbrev pub encoded : List (ℕ × ℕ) → List ℕ → List ℕ
encoded [] t = t
encoded ((k, v) ∷ fs) t = le_bytes k v ++ encoded fs t

abbrev pub widths : List (ℕ × ℕ) → List ℕ
widths [] = []
widths ((k, v) ∷ fs) = k ∷ widths fs

abbrev pub values : List (ℕ × ℕ) → List ℕ
values [] = []
values ((k, v) ∷ fs) = v ∷ values fs

abbrev pub AllFit : List (ℕ × ℕ) → Type 0
AllFit [] = Unit
AllFit ((k, v) ∷ fs) = FitsIn k v × AllFit fs

pub fields-encoded :
    (fs : List (ℕ × ℕ)) (t : List ℕ)
    → AllFit fs
    → fields (widths fs) (encoded fs t) ≡ some (values fs, t)
unfolding fields
fields-encoded [] t h = refl
fields-encoded ((k, v) ∷ fs) t h =
    rw (number-le_bytes k v (encoded fs t) h.0, fields-encoded fs t h.1) refl

pub encoded-append : (fs : List (ℕ × ℕ)) (t r : List ℕ) → encoded fs t ++ r ≡ encoded fs (t ++ r)
encoded-append [] t r = refl
encoded-append ((k, v) ∷ fs) t r =
    append_assoc (le_bytes k v) (encoded fs t) r
    ∙ ap (λ l. le_bytes k v ++ l) (encoded-append fs t r)

pub take-front : {A : Type 0} (xs ys : List A) → take (length xs) (xs ++ ys) ≡ xs
take-front [] ys = refl
take-front (x ∷ xs) ys = ap (λ l. x ∷ l) (take-front xs ys)

pub drop-front : {A : Type 0} (xs ys : List A) → drop (length xs) (xs ++ ys) ≡ ys
drop-front [] ys = refl
drop-front (x ∷ xs) ys = drop-front xs ys

pub bytes-front : (n : ℕ) (xs t : List ℕ) → length xs ≡ n → bytes n (xs ++ t) ≡ some (xs, t)
unfolding bytes
bytes-front n xs t h =
    let enough = not-lt→ltb (length (xs ++ t)) n (omega (arith, length-append xs t)) in
    rw enough (
      ap (λ m. some (take m (xs ++ t), drop m (xs ++ t))) (sym h)
      ∙ ap₂ (λ a b. some (a, b)) (take-front xs t) (drop-front xs t))
