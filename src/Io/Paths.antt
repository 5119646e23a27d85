-- ===== src/Io/Paths.antt =====
-- `std::path` on Unix: a path is its bytes, compared by components.
pub mod Joined
pub mod Stripped
use raas.Prelude.{
  ℕ, ◌≡◌, refl, Bool, true, false, ◌&&◌, Option, none, some, List, [], ◌∷◌, ◌++◌, ◌==◌,
  if◌then◌else◌, ◌=bytes=◌, =bytes=_refl, =bytes=_eq, arith, ap, ap₂, and_left, and_right,
}

abbrev pub FilePath : Type 0
FilePath = List ℕ

-- `b'/'` and `b'.'`
abbrev pub slash : ℕ
slash = 47

abbrev dot : ℕ
dot = 46

pub data Component : Type 0 where
  root_dir cur_dir parent_dir : Component
  normal : List ℕ → Component

unfoldable pub prepend : ℕ → List (List ℕ) → List (List ℕ)
prepend x [] = (x ∷ []) ∷ []
prepend x (w ∷ ws) = (x ∷ w) ∷ ws

-- `str::split` at a separator of one byte: never empty.
unfoldable pub split : ℕ → List ℕ → List (List ℕ)
unfolding prepend
split c [] = [] ∷ []
split c (x ∷ xs) = let rest = split c xs in if x == c then [] ∷ rest else prepend x rest

-- Empty parts and `.` are skipped.
unfoldable pub parts : List (List ℕ) → List Component
parts [] = []
parts (w ∷ ws) =
    let rest = parts ws in
    if w =bytes= []
    then rest
    else if w =bytes= (dot ∷ [])
    then rest
    else if w =bytes= (dot ∷ dot ∷ [])
    then parent_dir ∷ rest
    else normal w ∷ rest

-- A leading `.` of a relative path is kept.
unfoldable pub relative_parts : List (List ℕ) → List Component
relative_parts [] = []
relative_parts (w ∷ ws) = if w =bytes= (dot ∷ []) then cur_dir ∷ parts ws else parts (w ∷ ws)

-- `Path::components`
unfoldable pub components : FilePath → List Component
unfolding split parts relative_parts
components [] = []
components (b ∷ bs) =
    if b == slash then root_dir ∷ parts (split slash bs) else relative_parts (split slash (b ∷ bs))

-- `Path::file_name`: the last component, if it is a name.
unfoldable pub last_name : List Component → Option (List ℕ)
last_name [] = none
last_name (normal n ∷ []) = some n
last_name (root_dir ∷ []) = none
last_name (cur_dir ∷ []) = none
last_name (parent_dir ∷ []) = none
last_name (c ∷ d ∷ cs) = last_name (d ∷ cs)

unfoldable pub component_eq : Component → Component → Bool
component_eq root_dir root_dir = true
component_eq cur_dir cur_dir = true
component_eq parent_dir parent_dir = true
component_eq (normal a) (normal b) = a =bytes= b
component_eq _ _ = false

unfoldable pub components_eq : List Component → List Component → Bool
components_eq [] [] = true
components_eq (a ∷ as') (b ∷ bs) = component_eq a b && components_eq as' bs
components_eq _ _ = false

-- `Path == Path`
unfoldable pub path_eq : FilePath → FilePath → Bool
unfolding components component_eq components_eq
path_eq p q = components_eq (components p) (components q)

-- `Path::starts_with`, on components.
unfoldable pub starts_with : List Component → List Component → Bool
starts_with cs [] = true
starts_with [] (p ∷ ps) = false
starts_with (c ∷ cs) (p ∷ ps) = component_eq c p && starts_with cs ps

-- The components of a path that is joined to another.
unfoldable pub below : FilePath → List Component
unfolding split parts
below rel = parts (split slash rel)

unfoldable pub is_absolute : FilePath → Bool
is_absolute [] = false
is_absolute (b ∷ bs) = b == slash

unfoldable pub ends_with_slash : FilePath → Bool
ends_with_slash [] = false
ends_with_slash (b ∷ []) = b == slash
ends_with_slash (b ∷ c ∷ bs) = ends_with_slash (c ∷ bs)

-- `Path::join`: an absolute path replaces the base.
unfoldable pub join : FilePath → FilePath → FilePath
unfolding is_absolute ends_with_slash
join base rel =
    if is_absolute rel
    then rel
    else if base =bytes= []
    then rel
    else if ends_with_slash base
    then base ++ rel
    else base ++ (slash ∷ rel)

-- `trim_end_matches('/')`
unfoldable pub trim_end_slashes : List ℕ → List ℕ
trim_end_slashes [] = []
trim_end_slashes (b ∷ bs) =
    let rest = trim_end_slashes bs in
    if rest =bytes= [] then (if b == slash then [] else b ∷ []) else b ∷ rest

pub component_eq_refl : (a : Component) → component_eq a a ≡ true
unfolding component_eq
component_eq_refl root_dir = refl
component_eq_refl cur_dir = refl
component_eq_refl parent_dir = refl
component_eq_refl (normal a) = =bytes=_refl a

pub components_eq_refl : (l : List Component) → components_eq l l ≡ true
unfolding components_eq
components_eq_refl [] = refl
components_eq_refl (a ∷ l) = ground (arith, component_eq_refl a, components_eq_refl l)

pub component_eq→≡ : (a b : Component) → component_eq a b ≡ true → a ≡ b
unfolding component_eq
component_eq→≡ root_dir root_dir h = refl
component_eq→≡ cur_dir cur_dir h = refl
component_eq→≡ parent_dir parent_dir h = refl
component_eq→≡ (normal a) (normal b) h = ap normal (=bytes=_eq a b h)
component_eq→≡ root_dir cur_dir h = absurd (ground arith)
component_eq→≡ root_dir parent_dir h = absurd (ground arith)
component_eq→≡ root_dir (normal b) h = absurd (ground arith)
component_eq→≡ cur_dir root_dir h = absurd (ground arith)
component_eq→≡ cur_dir parent_dir h = absurd (ground arith)
component_eq→≡ cur_dir (normal b) h = absurd (ground arith)
component_eq→≡ parent_dir root_dir h = absurd (ground arith)
component_eq→≡ parent_dir cur_dir h = absurd (ground arith)
component_eq→≡ parent_dir (normal b) h = absurd (ground arith)
component_eq→≡ (normal a) root_dir h = absurd (ground arith)
component_eq→≡ (normal a) cur_dir h = absurd (ground arith)
component_eq→≡ (normal a) parent_dir h = absurd (ground arith)

components_eq→≡ : (xs ys : List Component) → components_eq xs ys ≡ true → xs ≡ ys
unfolding components_eq
components_eq→≡ [] [] h = refl
components_eq→≡ [] (y ∷ ys) h = absurd (ground arith)
components_eq→≡ (x ∷ xs) [] h = absurd (ground arith)
components_eq→≡ (x ∷ xs) (y ∷ ys) h =
    ap₂ (λ c cs. c ∷ cs) (component_eq→≡ x y (and_left _ _ h))
      (components_eq→≡ xs ys (and_right _ _ h))

-- Equal paths have the same components.
pub path_eq→≡ : (p q : FilePath) → path_eq p q ≡ true → components p ≡ components q
unfolding path_eq
path_eq→≡ p q h = components_eq→≡ (components p) (components q) h
