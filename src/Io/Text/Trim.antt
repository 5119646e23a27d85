-- ===== src/Io/Text/Trim.antt =====
-- `str::trim` on text between white space.
use raas.Prelude.{ℕ, ◌≡◌, refl, ap, ◌∙◌, ◌≢◌, true, false, [], ◌∷◌, ◌++◌}
use raas.Io.Text.{Text, is_whitespace, trim, trim_start, trim_end}
use raas.Io.Text.Decimal.{AllVisible, visible}

abbrev pub AllSpace : Text → Type 0
AllSpace [] = Unit
AllSpace (c ∷ cs) = (is_whitespace c ≡ true) × AllSpace cs

trim_start-AllSpace : (a t : Text) → AllSpace a → trim_start (a ++ t) ≡ trim_start t
unfolding trim_start
trim_start-AllSpace [] t h = refl
trim_start-AllSpace (c ∷ a) t h = rw h.0 (trim_start-AllSpace a t h.1)

trim_end-AllSpace : (a : Text) → AllSpace a → trim_end a ≡ []
unfolding trim_end
trim_end-AllSpace [] h = refl
trim_end-AllSpace (c ∷ a) h = rw (trim_end-AllSpace a h.1, h.0) refl

trim_end_cons :
    (c : ℕ) (t t' : Text) → trim_end t ≡ t' → is_whitespace c ≡ false → trim_end (c ∷ t) ≡ c ∷ t'
unfolding trim_end
trim_end_cons c t [] e v = rw (e, v) refl
trim_end_cons c t (d ∷ t') e v = rw e refl

trim_end-append : (t a : Text) → AllVisible t → AllSpace a → trim_end (t ++ a) ≡ t
trim_end-append [] a v h = trim_end-AllSpace a h
trim_end-append (c ∷ t) a v h =
    trim_end_cons c (t ++ a) t (trim_end-append t a v.2 h) (visible c v.0 v.1)

trim_start-visible : (t a : Text) → AllVisible t → t ≢ [] → trim_start (t ++ a) ≡ t ++ a
unfolding trim_start
trim_start-visible [] a v n = absurd (n refl)
trim_start-visible (c ∷ t) a v n = rw (visible c v.0 v.1) refl

-- White space around visible text is cut off.
pub trim-between :
    (a t b : Text) → AllSpace a → AllVisible t → t ≢ [] → AllSpace b → trim (a ++ (t ++ b)) ≡ t
unfolding trim
trim-between a t b ha v n hb =
    ap trim_end (trim_start-AllSpace a (t ++ b) ha ∙ trim_start-visible t b v n)
    ∙ trim_end-append t b v hb
