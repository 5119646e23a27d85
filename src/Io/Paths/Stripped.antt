-- ===== src/Io/Paths/Stripped.antt =====
-- `Path::strip_prefix` on Unix, and names below a directory.
use raas.Prelude.{
  ℕ, ◌≡◌, refl, sym, ap, ap₂, ◌∙◌, ◌≢◌, false, Option, none, some, List, [], ◌∷◌, ◌++◌, ◌==◌, map,
  append_assoc, All, arith, inl, inr, Bool-cases, if◌then◌else◌, ◌=bytes=◌, =bytes=_eq,
}
use raas.Io.Paths.{
  FilePath, Component, root_dir, cur_dir, parent_dir, normal, slash, split, prepend, parts,
  components, below, component_eq, component_eq_refl, is_absolute, ends_with_slash, join,
}
use raas.Io.Paths.Joined.{components-join}

-- `iter_after`
unfoldable pub strip_components : List Component → List Component → Option (List Component)
strip_components cs [] = some cs
strip_components [] (p ∷ ps) = none
strip_components (c ∷ cs) (p ∷ ps) =
    let rest = strip_components cs ps in if component_eq c p then rest else none

-- The path of some components, with one slash between two.
unfoldable pub spelled : List Component → FilePath
spelled [] = []
spelled (root_dir ∷ cs) = slash ∷ spelled cs
spelled (cur_dir ∷ []) = 46 ∷ []
spelled (parent_dir ∷ []) = 46 ∷ 46 ∷ []
spelled (normal n ∷ []) = n
spelled (cur_dir ∷ d ∷ cs) = 46 ∷ slash ∷ spelled (d ∷ cs)
spelled (parent_dir ∷ d ∷ cs) = 46 ∷ 46 ∷ slash ∷ spelled (d ∷ cs)
spelled (normal n ∷ d ∷ cs) = n ++ (slash ∷ spelled (d ∷ cs))

unfoldable pub spelled_of : Option (List Component) → Option FilePath
spelled_of none = none
spelled_of (some cs) = some (spelled cs)

-- `path.strip_prefix(base)`. What is left keeps the slashes of `path`: one between two names, where
-- the path was made by joining names.
unfoldable pub strip_prefix : FilePath → FilePath → Option FilePath
unfolding spelled_of
strip_prefix path base = spelled_of (strip_components (components path) (components base))

strip_components-append : (ps rest : List Component) → strip_components (ps ++ rest) ps ≡ some rest
unfolding strip_components
strip_components-append [] [] = refl
strip_components-append [] (c ∷ rest) = refl
strip_components-append (p ∷ ps) rest =
    rw (component_eq_refl p, strip_components-append ps rest) refl

-- A name that a directory can have.
pub record IsName (n : List ℕ) : Type 0 where
  pub some_bytes : n ≢ []
  pub no_slash : All (λ b. b ≢ slash) n
  pub not_itself : n ≢ 46 ∷ []
  pub not_parent : n ≢ 46 ∷ 46 ∷ []

split_whole : (n : List ℕ) → All (λ b. b ≢ slash) n → split slash n ≡ n ∷ []
unfolding split prepend
split_whole [] h = refl
split_whole (b ∷ n) h =
    let other : (b == slash) ≡ false = ground (arith, h.0) in rw (other, split_whole n h.1) refl

other_bytes : (a b : List ℕ) → a ≢ b → (a =bytes= b) ≡ false
other_bytes a b n = elim (Bool-cases (a =bytes= b)) [
  | inl same ↦ absurd (n (=bytes=_eq a b same))
  | inr other ↦ other
]

below-IsName : (n : List ℕ) → IsName n → below n ≡ normal n ∷ []
unfolding below parts
below-IsName n h =
    rw
      (
        split_whole n h.no_slash,
        other_bytes n [] h.some_bytes,
        other_bytes n (46 ∷ []) h.not_itself,
        other_bytes n (46 ∷ 46 ∷ []) h.not_parent,
      )
      refl

relative-IsName : (n : List ℕ) → IsName n → is_absolute n ≡ false
unfolding is_absolute
relative-IsName [] h = refl
relative-IsName (b ∷ n) h = let other = h.no_slash.0 in ground (arith, other)

-- Each name with a slash behind it.
abbrev pub prefix_of : List (List ℕ) → List ℕ
prefix_of [] = []
prefix_of (n ∷ ns) = n ++ (slash ∷ prefix_of ns)

pub prefix_of-append :
    (ns : List (List ℕ)) (n : List ℕ)
    → prefix_of (ns ++ (n ∷ [])) ≡ prefix_of ns ++ (n ++ (slash ∷ []))
prefix_of-append [] n = refl
prefix_of-append (m ∷ ns) n =
    ap (λ t. m ++ (slash ∷ t)) (prefix_of-append ns n) ∙ sym (append_assoc m _ _)

spelled-names :
    (ns : List (List ℕ)) (n : List ℕ) → spelled (map normal (ns ++ (n ∷ []))) ≡ prefix_of ns ++ n
unfolding spelled
spelled-names [] n = refl
spelled-names (m ∷ []) n = sym (append_assoc m (slash ∷ []) n)
spelled-names (m ∷ k ∷ ns) n =
    ap (λ t. m ++ (slash ∷ t)) (spelled-names (k ∷ ns) n)
    ∙ sym (append_assoc m (slash ∷ prefix_of (k ∷ ns)) n)

map_snoc :
    (ns : List (List ℕ)) (n : List ℕ)
    → map normal ns ++ (normal n ∷ []) ≡ map normal (ns ++ (n ∷ []))
map_snoc [] n = refl
map_snoc (m ∷ ns) n = ap (λ l. normal m ∷ l) (map_snoc ns n)

append_cons_ne_nil : (a : List ℕ) (b : ℕ) (c : List ℕ) → a ++ (b ∷ c) ≢ []
append_cons_ne_nil [] b c e = cc
append_cons_ne_nil (x ∷ a) b c e = cc

append_ne_nil : (a b : List ℕ) → a ≢ [] → a ++ b ≢ []
append_ne_nil [] b n e = n refl
append_ne_nil (x ∷ a) b n e = cc

join_relative_ne_nil :
    (base rel : FilePath) → base ≢ [] → is_absolute rel ≡ false → join base rel ≢ []
unfolding join
join_relative_ne_nil [] rel n r = absurd (n refl)
join_relative_ne_nil (b ∷ bs) rel n r = elim (Bool-cases (ends_with_slash (b ∷ bs))) [
  | inl closed ↦ rw (r, closed) (append_ne_nil (b ∷ bs) rel n)
  | inr open_ended ↦ rw (r, open_ended) (append_cons_ne_nil (b ∷ bs) slash rel)
]

-- The path of a name below a directory that lies below the base.
module _ (base current : FilePath) (ns : List (List ℕ))
    (inside : components current ≡ components base ++ map normal ns) (there : current ≢ [])
    (n : List ℕ) (h : IsName n) where
  pub components-name : components (join current n) ≡ components base ++ map normal (ns ++ (n ∷ []))
  components-name =
      components-join current n there (relative-IsName n h)
      ∙ ap₂ (λ a b. a ++ b) inside (below-IsName n h)
      ∙ append_assoc (components base) (map normal ns) (normal n ∷ [])
      ∙ ap (λ l. components base ++ l) (map_snoc ns n)

  pub strip_prefix-name : strip_prefix (join current n) base ≡ some (prefix_of ns ++ n)
  unfolding strip_prefix spelled_of
  strip_prefix-name =
      rw (components-name, strip_components-append (components base) (map normal (ns ++ (n ∷ []))))
        (ap some (spelled-names ns n))

  pub join_ne_nil : join current n ≢ []
  join_ne_nil = join_relative_ne_nil current n there (relative-IsName n h)
