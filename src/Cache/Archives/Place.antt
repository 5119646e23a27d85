-- ===== src/Cache/Archives/Place.antt =====
-- src/cache/archive.rs: where a path leads, read from its end, and that `normalize_for_match` tells
-- it.
use raas.Prelude.{
  ℕ, zero, suc, ◌≡◌, refl, sym, ap, ◌∙◌, Bool, true, false, ◌==◌, List, [], ◌∷◌, ◌++◌, map,
  append_assoc, append-nil, inl, inr, Bool-cases, if◌then◌else◌, ◌=bytes=◌,
}
use raas.Io.Paths.{
  FilePath, Component, root_dir, cur_dir, parent_dir, normal, components, parts, relative_parts,
  split, starts_with, slash,
}
use raas.Io.Paths.Joined.{
  starts_with→append, starts_with-append, components_absolute, components_relative,
}
use raas.Cache.Archives.{pop, push, normalize_from, normalize_for_match}

abbrev one_less : ℕ → ℕ
one_less zero = zero
one_less (suc k) = k

-- The name, if nothing behind it takes it away.
abbrev unless_taken : ℕ → List ℕ → List (List ℕ) → List (List ℕ)
unless_taken zero n ns = n ∷ ns
unless_taken (suc k) n ns = ns

-- How many names in front the `..` of the components take away.
abbrev pub taken : List Component → ℕ
taken [] = 0
taken (root_dir ∷ cs) = taken cs
taken (cur_dir ∷ cs) = taken cs
taken (parent_dir ∷ cs) = suc (taken cs)
taken (normal n ∷ cs) = one_less (taken cs)

-- The names that no later `..` takes away.
abbrev pub names : List Component → List (List ℕ)
names [] = []
names (root_dir ∷ cs) = names cs
names (cur_dir ∷ cs) = names cs
names (parent_dir ∷ cs) = names cs
names (normal n ∷ cs) = unless_taken (taken cs) n (names cs)

abbrev pub anchor : List Component → List Component
anchor (root_dir ∷ cs) = root_dir ∷ []
anchor cs = []

-- Where a path leads: from the root, if it begins there, by the names that are left.
abbrev pub place : FilePath → List Component
place path = anchor (components path) ++ map normal (names (components path))

-- One path is at another or below it.
abbrev pub IsAtOrBelow : FilePath → FilePath → Type 0
IsAtOrBelow path dir = (rest : List Component) × (place path ≡ place dir ++ rest)

abbrev init : List (List ℕ) → List (List ℕ)
init [] = []
init (n ∷ []) = []
init (n ∷ m ∷ ns) = n ∷ init (m ∷ ns)

abbrev without_last : ℕ → List (List ℕ) → List (List ℕ)
without_last zero ns = ns
without_last (suc k) ns = without_last k (init ns)

init-append : (ns : List (List ℕ)) (n : List ℕ) → init (ns ++ (n ∷ [])) ≡ ns
init-append [] n = refl
init-append (m ∷ []) n = refl
init-append (m ∷ m' ∷ ns) n = ap (λ l. m ∷ l) (init-append (m' ∷ ns) n)

map_normal-append :
    (ns : List (List ℕ)) (n : List ℕ)
    → map normal (ns ++ (n ∷ [])) ≡ map normal ns ++ (normal n ∷ [])
map_normal-append [] n = refl
map_normal-append (m ∷ ns) n = ap (λ l. normal m ∷ l) (map_normal-append ns n)

pop-names : (ns : List (List ℕ)) → pop (map normal ns) ≡ map normal (init ns)
unfolding pop
pop-names [] = refl
pop-names (n ∷ []) = refl
pop-names (n ∷ m ∷ ns) = ap (λ l. normal n ∷ l) (pop-names (m ∷ ns))

pop-rooted : (ns : List (List ℕ)) → pop (root_dir ∷ map normal ns) ≡ root_dir ∷ map normal (init ns)
unfolding pop
pop-rooted [] = refl
pop-rooted (n ∷ ns) = ap (λ l. root_dir ∷ l) (pop-names (n ∷ ns))

push-normal : (done : List Component) (n : List ℕ) → push done (normal n) ≡ done ++ (normal n ∷ [])
unfolding push
push-normal [] n = refl
push-normal (d ∷ ds) n = ap (λ l. d ∷ l) (push-normal ds n)

-- The root stands nowhere among the components.
abbrev IsRootless : List Component → Type 0
IsRootless [] = Unit
IsRootless (root_dir ∷ cs) = ⊥
IsRootless (c ∷ cs) = IsRootless cs

IsRootless-if :
    (b : Bool) (cs ds : List Component)
    → IsRootless cs
    → IsRootless ds
    → IsRootless (if b then cs else ds)
IsRootless-if true cs ds r s = r
IsRootless-if false cs ds r s = s

parts-IsRootless : (ws : List (List ℕ)) → IsRootless (parts ws)
unfolding parts
parts-IsRootless [] = tt
parts-IsRootless (w ∷ ws) =
    let rest = parts-IsRootless ws in
    IsRootless-if (w =bytes= []) _ _ rest (
      IsRootless-if (w =bytes= (46 ∷ [])) _ _ rest (
        IsRootless-if (w =bytes= (46 ∷ 46 ∷ [])) (parent_dir ∷ parts ws) (normal w ∷ parts ws) rest
          rest))

module _ (base : List Component)
    (pops : (ns : List (List ℕ)) → pop (base ++ map normal ns) ≡ base ++ map normal (init ns)) where
  pushes :
      (ns : List (List ℕ)) (n : List ℕ)
      → push (base ++ map normal ns) (normal n) ≡ base ++ map normal (ns ++ (n ∷ []))
  pushes ns n =
      push-normal (base ++ map normal ns) n
      ∙ append_assoc base (map normal ns) (normal n ∷ [])
      ∙ ap (λ l. base ++ l) (sym (map_normal-append ns n))

  appended :
      (k : ℕ) (kept ns : List (List ℕ)) (n : List ℕ)
      → without_last k (ns ++ (n ∷ [])) ++ kept
        ≡ without_last (one_less k) ns ++ unless_taken k n kept
  appended zero kept ns n = append_assoc ns (n ∷ []) kept
  appended (suc k) kept ns n = ap (λ l. without_last k l ++ kept) (init-append ns n)

  normalize_from-names :
      (cs : List Component) (ns : List (List ℕ))
      → IsRootless cs
      → normalize_from (base ++ map normal ns) cs
        ≡ base ++ map normal (without_last (taken cs) ns ++ names cs)
  unfolding normalize_from
  normalize_from-names [] ns r = ap (λ l. base ++ map normal l) (sym (append-nil ns))
  normalize_from-names (root_dir ∷ cs) ns r = absurd r
  normalize_from-names (cur_dir ∷ cs) ns r = normalize_from-names cs ns r
  normalize_from-names (parent_dir ∷ cs) ns r =
      ap (λ d. normalize_from d cs) (pops ns) ∙ normalize_from-names cs (init ns) r
  normalize_from-names (normal n ∷ cs) ns r =
      ap (λ d. normalize_from d cs) (pushes ns n)
      ∙ normalize_from-names cs (ns ++ (n ∷ [])) r
      ∙ ap (λ l. base ++ map normal l) (appended (taken cs) (names cs) ns n)

without_last_nil : (k : ℕ) → without_last k [] ≡ []
without_last_nil zero = refl
without_last_nil (suc k) = without_last_nil k

abbrev IsAnchored : List Component → Type 0
IsAnchored [] = Unit
IsAnchored (root_dir ∷ cs) = IsRootless cs
IsAnchored (c ∷ cs) = IsRootless cs

relative_parts-IsRootless : (ws : List (List ℕ)) → IsRootless (relative_parts ws)
unfolding relative_parts
relative_parts-IsRootless [] = tt
relative_parts-IsRootless (w ∷ ws) =
    IsRootless-if (w =bytes= (46 ∷ [])) (cur_dir ∷ parts ws) (parts (w ∷ ws)) (parts-IsRootless ws)
      (parts-IsRootless (w ∷ ws))

anchor_rootless : (cs : List Component) → IsRootless cs → anchor cs ≡ []
anchor_rootless [] r = refl
anchor_rootless (root_dir ∷ cs) r = absurd r
anchor_rootless (cur_dir ∷ cs) r = refl
anchor_rootless (parent_dir ∷ cs) r = refl
anchor_rootless (normal n ∷ cs) r = refl

relative-place :
    (cs : List Component)
    → IsRootless cs
    → normalize_from [] cs ≡ anchor cs ++ map normal (names cs)
relative-place cs r =
    normalize_from-names [] pop-names cs [] r
    ∙ ap (λ l. map normal (l ++ names cs)) (without_last_nil (taken cs))
    ∙ ap (λ l. l ++ map normal (names cs)) (sym (anchor_rootless cs r))

rooted-place :
    (cs : List Component)
    → IsRootless cs
    → normalize_from [] (root_dir ∷ cs) ≡ root_dir ∷ map normal (names cs)
unfolding normalize_from push
rooted-place cs r =
    normalize_from-names (root_dir ∷ []) pop-rooted cs [] r
    ∙ ap (λ l. root_dir ∷ map normal (l ++ names cs)) (without_last_nil (taken cs))

-- What the code compares is where the path leads.
pub normalize_for_match-place : (path : FilePath) → normalize_for_match path ≡ place path
unfolding normalize_for_match
normalize_for_match-place [] = unfold normalize_from components in refl
normalize_for_match-place (b ∷ bs) = elim (Bool-cases (b == slash)) [
  | inl h ↦
      rw (components_absolute b bs h)
        (rooted-place (parts (split slash bs)) (parts-IsRootless (split slash bs)))
  | inr h ↦
      rw (components_relative b bs h)
        (relative-place _ (relative_parts-IsRootless (split slash (b ∷ bs))))
]

pub starts_with-IsAtOrBelow :
    (path dir : FilePath) → starts_with (place path) (place dir) ≡ true → IsAtOrBelow path dir
starts_with-IsAtOrBelow path dir h = starts_with→append (place path) (place dir) h

pub IsAtOrBelow-starts_with :
    (path dir : FilePath) → IsAtOrBelow path dir → starts_with (place path) (place dir) ≡ true
IsAtOrBelow-starts_with path dir (rest, e) = rw e (starts_with-append (place dir) rest)
