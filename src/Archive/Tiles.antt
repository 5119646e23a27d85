-- ===== src/Archive/Tiles.antt =====
-- Items that lie side by side in an archive, each with its start and its bytes: the lookup by
-- `partition_point` finds the item that covers a position.
use raas.Prelude.{
  ℕ, zero, suc, ◌+◌, ◌-◌, ◌≤◌, ◌<◌, ◌≡◌, refl, ap, sym, subst, ◌∙◌, Bool, some, List, [], ◌∷◌, ◌++◌,
  length, length-append, append_assoc, get_elem?, partition_point, leb, ltb, inl, inr, Bool-cases,
  arith,
}
use raas.Prelude.Slices.{slice, slice-append_left, slice-append_right}

module _ {A : Type 0} (start : A → ℕ) (bytes : A → List ℕ) where
  -- All the bytes, in order.
  abbrev pub concat : List A → List ℕ
  concat [] = []
  concat (x ∷ xs) = bytes x ++ concat xs

  -- The items stand one behind the other from `base` on.
  abbrev pub Tiles : ℕ → List A → Type 0
  Tiles base [] = Unit
  Tiles base (x ∷ xs) = (start x ≡ base) × Tiles (base + length (bytes x)) xs

  abbrev pub starts_by : ℕ → A → Bool
  starts_by pos x = leb (start x) pos

  pub start-le :
      (base : ℕ) (xs : List A) (i : ℕ) (x : A)
      → Tiles base xs
      → get_elem? xs i ≡ some x
      → (base ≤ start x) × (start x + length (bytes x) ≤ base + length (concat xs))
  start-le base [] i x t h = ground arith
  start-le base (y ∷ ys) zero x t h = ground (arith, length-append (bytes y) (concat ys))
  start-le base (y ∷ ys) (suc i) x t h =
      let r = start-le (base + length (bytes y)) ys i x t.1 h in
      omega (arith, length-append (bytes y) (concat ys))

  -- An item is found at its place in the whole.
  pub Tiles-slice :
      (base : ℕ) (xs : List A) (i : ℕ) (x : A) (pos k : ℕ)
      → Tiles base xs
      → get_elem? xs i ≡ some x
      → start x ≤ pos
      → pos + k ≤ start x + length (bytes x)
      → slice (pos - base) k (concat xs) ≡ slice (pos - start x) k (bytes x)
  Tiles-slice base [] i x pos k t h lo hi = ground arith
  Tiles-slice base (y ∷ ys) zero x pos k t h lo hi =
      let e : y ≡ x = cc in
      subst
        (λ w.
          start w ≤ pos
          → pos + k ≤ start w + length (bytes w)
          → slice (pos - base) k (bytes y ++ concat ys) ≡ slice (pos - start w) k (bytes w))
        e
        (λ lo' hi'.
          ap (λ b. slice (pos - b) k (bytes y ++ concat ys)) (sym t.0)
          ∙ slice-append_left (pos - start y) k (bytes y) (concat ys) (omega arith))
        lo hi
  Tiles-slice base (y ∷ ys) (suc i) x pos k t h lo hi =
      let r = start-le (base + length (bytes y)) ys i x t.1 h in
      slice-append_right (pos - base) k (bytes y) (concat ys) (omega arith)
      ∙ ap (λ n. slice n k (concat ys)) {x = pos - base - length (bytes y)} (omega arith)
      ∙ Tiles-slice (base + length (bytes y)) ys i x pos k t.1 h lo hi

  -- No item starts by a position before the first.
  partition_point-before :
      (base pos : ℕ) (xs : List A)
      → Tiles base xs
      → pos < base
      → partition_point (starts_by pos) xs ≡ 0
  partition_point-before base pos [] t h = refl
  partition_point-before base pos (x ∷ xs) t h = ground arith

  -- The item that covers `pos` is the last one that starts by it.
  pub record Found (xs : List A) (pos : ℕ) : Type 0 where
    pub index : ℕ
    pub item : A
    pub point : partition_point (starts_by pos) xs ≡ suc index
    pub elem : get_elem? xs index ≡ some item
    pub from : start item ≤ pos
    pub to : pos < start item + length (bytes item)

  pub Tiles-Found :
      (base pos : ℕ) (xs : List A)
      → Tiles base xs
      → base ≤ pos
      → pos < base + length (concat xs)
      → Found xs pos
  Tiles-Found base pos [] t lo hi = absurd (omega arith)
  Tiles-Found base pos (x ∷ xs) t lo hi = elim (Bool-cases (ltb pos (base + length (bytes x)))) [
    | inl here ↦ record {
      index = 0;
      item = x;
      point = ground (arith, partition_point-before (base + length (bytes x)) pos xs t.1);
      elem = refl;
      from = omega arith;
      to = ground arith;
    }
    | inr there ↦
        let f : Found xs pos =
          Tiles-Found (base + length (bytes x)) pos xs t.1 (ground arith)
            (omega (arith, length-append (bytes x) (concat xs))) in
        record {
          index = suc f.index;
          item = f.item;
          point = ground (arith, f.point);
          elem = f.elem;
          from = f.from;
          to = f.to;
        }
  ]

  -- Two runs of items, one behind the other.
  pub concat-append : (xs ys : List A) → concat (xs ++ ys) ≡ concat xs ++ concat ys
  concat-append [] ys = refl
  concat-append (x ∷ xs) ys =
      ap (λ l. bytes x ++ l) (concat-append xs ys)
      ∙ sym (append_assoc (bytes x) (concat xs) (concat ys))

  pub Tiles-append :
      (base : ℕ) (xs ys : List A)
      → Tiles base xs
      → Tiles (base + length (concat xs)) ys
      → Tiles base (xs ++ ys)
  Tiles-append base [] ys t u = subst (λ n. Tiles n ys) {x = base + 0} (omega arith) u
  Tiles-append base (x ∷ xs) ys t u =
      let a = length-append (bytes x) (concat xs) in
      (
        t.0,
        Tiles-append (base + length (bytes x)) xs ys t.1
            (subst (λ n. Tiles n ys) {x = base + length (bytes x ++ concat xs)} (omega arith) u),
      )
