-- ===== src/Archive/Format/Names.antt =====
-- src/archive/mod.rs: the names of the formats, as a query gives them.
use raas.Prelude.{◌+◌, ◌≤◌, ◌≡◌, refl, ap, ◌∙◌, ◌≢◌, some, [], ◌∷◌, ◌++◌, arith, ◌⊎◌}
use raas.Io.Text.{Text, to_ascii_lowercase}
use raas.Io.Text.Decimal.{AllVisible}
use raas.Io.Text.Trim.{AllSpace, trim-between}
use raas.Archive.Format.{ArchiveFormat, tar, zip, from_name, from_lowercase, extension}

-- A text whose letters are those of `t`, each in either case.
abbrev pub Spells : Text → Text → Type 0
Spells [] [] = Unit
Spells [] (d ∷ t) = ⊥
Spells (c ∷ s) [] = ⊥
Spells (c ∷ s) (d ∷ t) = ((c ≡ d) ⊎ (c + 32 ≡ d)) × Spells s t

-- Lower-case letters.
abbrev IsLower : Text → Type 0
IsLower [] = Unit
IsLower (c ∷ cs) = (97 ≤ c) × (c ≤ 122) × IsLower cs

lower-IsLower : (s t : Text) → IsLower t → Spells s t → to_ascii_lowercase s ≡ t
unfolding to_ascii_lowercase
lower-IsLower [] [] l h = refl
lower-IsLower [] (d ∷ t) l h = absurd h
lower-IsLower (c ∷ s) [] l h = absurd h
lower-IsLower (c ∷ s) (d ∷ t) l h = ground (arith, lower-IsLower s t)

Spells-AllVisible : (s t : Text) → IsLower t → Spells s t → AllVisible s
Spells-AllVisible [] [] l h = tt
Spells-AllVisible [] (d ∷ t) l h = tt
Spells-AllVisible (c ∷ s) [] l h = absurd h
Spells-AllVisible (c ∷ s) (d ∷ t) l h =
    (ground (arith, h.0, l.0), ground (arith, h.0, l.1), Spells-AllVisible s t l.2 h.1)

extension-IsLower : (f : ArchiveFormat) → IsLower (extension f)
unfolding extension
extension-IsLower tar = omega arith
extension-IsLower zip = omega arith

from_lowercase-extension : (f : ArchiveFormat) → from_lowercase (extension f) ≡ some f
unfolding from_lowercase extension
from_lowercase-extension tar = refl
from_lowercase-extension zip = refl

extension_ne_nil : (f : ArchiveFormat) → extension f ≢ []
unfolding extension
extension_ne_nil tar e = cc
extension_ne_nil zip e = cc

spelling_ne_nil : (s t : Text) → Spells s t → t ≢ [] → s ≢ []
spelling_ne_nil [] [] h n e = n refl
spelling_ne_nil [] (d ∷ t) h n e = h
spelling_ne_nil (c ∷ s) t h n e = cc

-- The extension of a format, with each letter in either case and white space around it, names
-- that format.
pub from_name-extension :
    (f : ArchiveFormat) (a s b : Text)
    → AllSpace a
    → Spells s (extension f)
    → AllSpace b
    → from_name (a ++ (s ++ b)) ≡ some f
unfolding from_name
from_name-extension f a s b ha h hb =
    let l = extension-IsLower f in
    ap (λ t. from_lowercase (to_ascii_lowercase t))
      (trim-between a s b ha (Spells-AllVisible s (extension f) l h)
        (spelling_ne_nil s (extension f) h (extension_ne_nil f)) hb)
    ∙ ap from_lowercase (lower-IsLower s (extension f) l h)
    ∙ from_lowercase-extension f
