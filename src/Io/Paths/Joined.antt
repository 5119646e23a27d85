-- ===== src/Io/Paths/Joined.antt =====
-- `std::path` on Unix: the components of joined paths, and prefixes of paths.
use raas.Prelude.{
  ℕ, ◌≡◌, refl, sym, ap, ap₂, ◌∙◌, ◌≢◌, true, false, List, [], ◌∷◌, ◌++◌, ◌==◌, append_assoc,
  append-nil, arith, inl, inr, Bool-cases, and_left, and_right,
}
use raas.Io.Paths.{
  FilePath, Component, root_dir, slash, split, prepend, parts, relative_parts, components, below,
  component_eq_refl, starts_with, is_absolute, ends_with_slash, join, component_eq→≡,
}

prepend_ne_nil : (x : ℕ) (ws : List (List ℕ)) → prepend x ws ≢ []
unfolding prepend
prepend_ne_nil x [] e = cc
prepend_ne_nil x (w ∷ ws) e = cc

split_ne_nil : (xs : List ℕ) → split slash xs ≢ []
unfolding split prepend
split_ne_nil [] = λ e. cc
split_ne_nil (x ∷ xs) = elim (Bool-cases (x == slash)) [
  | inl h ↦ rw h (λ e. cc)
  | inr h ↦ rw h (prepend_ne_nil x (split slash xs))
]

prepend-append :
    (x : ℕ) (ws vs : List (List ℕ)) → ws ≢ [] → prepend x ws ++ vs ≡ prepend x (ws ++ vs)
unfolding prepend
prepend-append x [] vs n = absurd (n refl)
prepend-append x (w ∷ ws) vs n = refl

split-append : (a b : List ℕ) → split slash (a ++ (slash ∷ b)) ≡ split slash a ++ split slash b
unfolding split
split-append [] b = refl
split-append (x ∷ a) b = elim (Bool-cases (x == slash)) [
  | inl h ↦ rw (h, split-append a b) refl
  | inr h ↦ rw (h, split-append a b) (sym (prepend-append x _ _ (split_ne_nil a)))
]

parts-append : (ws vs : List (List ℕ)) → parts (ws ++ vs) ≡ parts ws ++ parts vs
unfolding parts
parts-append [] vs = refl
parts-append (w ∷ ws) vs = rw (parts-append ws vs) (ground arith)

relative_parts-append :
    (ws vs : List (List ℕ)) → ws ≢ [] → relative_parts (ws ++ vs) ≡ relative_parts ws ++ parts vs
unfolding relative_parts
relative_parts-append [] vs n = absurd (n refl)
relative_parts-append (w ∷ ws) vs n =
    rw (parts-append ws vs, parts-append (w ∷ ws) vs) (ground arith)

pub components_absolute :
    (b : ℕ) (bs : List ℕ)
    → (b == slash) ≡ true
    → components (b ∷ bs) ≡ root_dir ∷ parts (split slash bs)
unfolding components
components_absolute b bs h = rw h refl

pub components_relative :
    (b : ℕ) (bs : List ℕ)
    → (b == slash) ≡ false
    → components (b ∷ bs) ≡ relative_parts (split slash (b ∷ bs))
unfolding components
components_relative b bs h = rw h refl

below_lem : (rel : FilePath) → below rel ≡ parts (split slash rel)
unfolding below
below_lem rel = refl

components-slash :
    (base rel : FilePath)
    → base ≢ []
    → components (base ++ (slash ∷ rel)) ≡ components base ++ below rel
components-slash [] rel n = absurd (n refl)
components-slash (b ∷ bs) rel n = elim (Bool-cases (b == slash)) [
  | inl h ↦
      rw
        (
          components_absolute b (bs ++ (slash ∷ rel)) h,
          components_absolute b bs h,
          below_lem rel,
          split-append bs rel,
          parts-append (split slash bs) (split slash rel),
        )
        refl
  | inr h ↦
      rw (components_relative b (bs ++ (slash ∷ rel)) h, components_relative b bs h, below_lem rel)
        (ap relative_parts (split-append (b ∷ bs) rel)
          ∙ relative_parts-append (split slash (b ∷ bs)) (split slash rel) (split_ne_nil (b ∷ bs)))
]

-- What stands before a last slash.
ends-split :
    (base : FilePath) → ends_with_slash base ≡ true → (a : FilePath) × (base ≡ a ++ (slash ∷ []))
unfolding ends_with_slash
ends-split [] h = absurd (cc)
ends-split (b ∷ []) h = ([], ground (arith, h))
ends-split (b ∷ c ∷ bs) h = let (a, e) = ends-split (c ∷ bs) h in (b ∷ a, ap (λ l. b ∷ l) e)

components_root : (rel : FilePath) → components (slash ∷ rel) ≡ root_dir ∷ below rel
unfolding components below
components_root rel = refl

below_nil : below [] ≡ []
unfolding below split parts
below_nil = refl

components-ends :
    (a rel : FilePath)
    → components (a ++ (slash ∷ rel)) ≡ components (a ++ (slash ∷ [])) ++ below rel
components-ends [] rel =
    components_root rel
    ∙ ap (λ l. root_dir ∷ (l ++ below rel)) (sym below_nil)
    ∙ ap (λ l. l ++ below rel) (sym (components_root []))
components-ends (x ∷ a) rel =
    components-slash (x ∷ a) rel (λ e. cc)
    ∙ ap (λ l. l ++ below rel)
        (sym (append-nil (components (x ∷ a)))
          ∙ ap (λ l. components (x ∷ a) ++ l) (sym below_nil)
          ∙ sym (components-slash (x ∷ a) [] (λ e. cc)))

-- A relative path adds its components.
pub components-join :
    (base rel : FilePath)
    → base ≢ []
    → is_absolute rel ≡ false
    → components (join base rel) ≡ components base ++ below rel
unfolding join
components-join [] rel n r = absurd (n refl)
components-join (b ∷ bs) rel n r = elim (Bool-cases (ends_with_slash (b ∷ bs))) [
  | inr open_ended ↦ rw (r, open_ended) (components-slash (b ∷ bs) rel n)
  | inl closed ↦
      let (a, e) = ends-split (b ∷ bs) closed in
      rw (r, closed)
        (ap (λ l. components (l ++ rel)) e
          ∙ ap components (append_assoc a (slash ∷ []) rel)
          ∙ components-ends a rel
          ∙ ap (λ l. components l ++ below rel) (sym e))
]

starts_nil : (cs : List Component) → starts_with cs [] ≡ true
unfolding starts_with
starts_nil [] = refl
starts_nil (c ∷ cs) = refl

pub starts_with-append : (cs ds : List Component) → starts_with (cs ++ ds) cs ≡ true
unfolding starts_with
starts_with-append [] ds = starts_nil ds
starts_with-append (c ∷ cs) ds = rw (component_eq_refl c, starts_with-append cs ds) refl

-- A path with a prefix is the prefix and something more.
pub starts_with→append :
    (cs ps : List Component)
    → starts_with cs ps ≡ true
    → (rest : List Component) × (cs ≡ ps ++ rest)
unfolding starts_with
starts_with→append cs [] h = (cs, refl)
starts_with→append [] (p ∷ ps) h = absurd (cc)
starts_with→append (c ∷ cs) (p ∷ ps) h =
    let (rest, e) = starts_with→append cs ps (and_right _ _ h) in
    (rest, ap₂ (λ x xs. x ∷ xs) (component_eq→≡ c p (and_left _ _ h)) e)
