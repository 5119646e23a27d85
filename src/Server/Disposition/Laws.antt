-- ===== src/Server/Disposition/Laws.antt =====
-- src/server/handler.rs: what the encoding of a file name says, and which characters it has.
use raas.Prelude.{
  ℕ, ◌+◌, ◌-◌, ◌*◌, ◌/◌, ◌%◌, ◌≤◌, ◌<◌, ◌≡◌, refl, ap, ◌∙◌, ◌≢◌, true, false, ◌&&◌, Option, none,
  some, List, [], ◌∷◌, leb, ◌==◌, if◌then◌else◌, All, All-append, All-map, arith, inl, inr,
  Bool-cases, and_right,
}
use raas.Io.Text.{Text}
use raas.Server.Disposition.{
  is_unreserved, hex, percent_encode_utf8, is_safe, ascii_safe, build_content_disposition,
  quoted_start, quoted_end, encoded_start,
}

-- RFC 3986: `%` and two hexadecimal digits are a byte, all else is itself.
unhex : ℕ → Option ℕ
unhex c =
    if leb 48 c && leb c 57
    then some (c - 48)
    else if leb 65 c && leb c 70
    then some (c - 55)
    else none

pair_of : Option ℕ → Option ℕ → Option ℕ
pair_of (some a) (some b) = some (a * 16 + b)
pair_of (some a) none = none
pair_of none b = none

cons_of : Option ℕ → Option (List ℕ) → Option (List ℕ)
cons_of (some b) (some bs) = some (b ∷ bs)
cons_of (some b) none = none
cons_of none bs = none

unfoldable pub percent_decode : Text → Option (List ℕ)
unfolding unhex pair_of cons_of
percent_decode [] = some []
percent_decode (c ∷ []) = if c == 37 then none else some (c ∷ [])
percent_decode (c ∷ a ∷ []) =
    let rest = percent_decode (a ∷ []) in if c == 37 then none else cons_of (some c) rest
percent_decode (c ∷ a ∷ b ∷ cs) =
    let plain = percent_decode (a ∷ b ∷ cs) in
    let byte = percent_decode cs in
    if c == 37 then cons_of (pair_of (unhex a) (unhex b)) byte else cons_of (some c) plain

unhex-hex : (n : ℕ) → n < 16 → unhex (hex n) ≡ some n
unfolding unhex hex
unhex-hex n h = ground arith

decode_plain :
    (c : ℕ) (t : Text)
    → (c == 37) ≡ false
    → percent_decode (c ∷ t) ≡ cons_of (some c) (percent_decode t)
unfolding percent_decode
decode_plain c [] h = rw h refl
decode_plain c (a ∷ []) h = rw h refl
decode_plain c (a ∷ b ∷ cs) h = rw h refl

decode_byte :
    (b : ℕ) (t : Text)
    → b < 256
    → percent_decode (37 ∷ hex (b / 16) ∷ hex (b % 16) ∷ t) ≡ cons_of (some b) (percent_decode t)
unfolding percent_decode
decode_byte b t h =
    rw (unhex-hex (b / 16) (omega arith), unhex-hex (b % 16) (omega arith))
      (ap (λ n. cons_of (some n) (percent_decode t)) (omega arith))

unreserved_plain : (b : ℕ) → is_unreserved b ≡ true → (b == 37) ≡ false
unfolding is_unreserved
unreserved_plain b h = ground arith

abbrev pub IsByte : ℕ → Type 0
IsByte b = b < 256

-- Percent-decoding by RFC 3986 gives back the bytes that were encoded.
pub percent_decode-percent_encode_utf8 :
    (bytes : List ℕ) → All IsByte bytes → percent_decode (percent_encode_utf8 bytes) ≡ some bytes
unfolding percent_encode_utf8
percent_decode-percent_encode_utf8 [] h = unfold percent_decode in refl
percent_decode-percent_encode_utf8 (b ∷ bs) h = elim (Bool-cases (is_unreserved b)) [
  | inl plain ↦ rw plain (
      decode_plain b _ (unreserved_plain b plain)
      ∙ ap (cons_of (some b)) (percent_decode-percent_encode_utf8 bs h.1)
      ∙ unfold cons_of in refl)
  | inr other ↦ rw other (
      decode_byte b _ h.0
      ∙ ap (cons_of (some b)) (percent_decode-percent_encode_utf8 bs h.1)
      ∙ unfold cons_of in refl)
]

-- Printable ASCII: what `HeaderValue` always takes.
abbrev pub IsPrintable : ℕ → Type 0
IsPrintable c = (32 ≤ c) × (c ≤ 126)

-- No line break and no other control character but those above 127.
abbrev pub IsPlain : ℕ → Type 0
IsPlain b = (32 ≤ b) × (b ≢ 127) × (b < 256)

hex-IsPrintable : (n : ℕ) → n < 16 → IsPrintable (hex n)
unfolding hex
hex-IsPrintable n h = ground arith

unreserved-IsPrintable : (b : ℕ) → is_unreserved b ≡ true → IsPrintable b
unfolding is_unreserved
unreserved-IsPrintable b h = ground arith

encoded-IsPrintable :
    (bytes : List ℕ) → All IsByte bytes → All IsPrintable (percent_encode_utf8 bytes)
unfolding percent_encode_utf8
encoded-IsPrintable [] h = tt
encoded-IsPrintable (b ∷ bs) h = elim (Bool-cases (is_unreserved b)) [
  | inl plain ↦ rw plain (unreserved-IsPrintable b plain, encoded-IsPrintable bs h.1)
  | inr other ↦ rw other (
    omega arith,
    (
      hex-IsPrintable (b / 16) (omega (arith, h.0)),
      (hex-IsPrintable (b % 16) (omega arith), encoded-IsPrintable bs h.1),
    ),
  )
]

-- Neither CR nor LF.
abbrev pub NoBreak : ℕ → Type 0
NoBreak c = (c ≢ 13) × (c ≢ 10)

IsPrintable-NoBreak : (c : ℕ) → IsPrintable c → NoBreak c
IsPrintable-NoBreak c h = (λ e. omega (arith, h.0, e), λ e. omega (arith, h.0, e))

safe-NoBreak : (bs : List ℕ) → ascii_safe bs ≡ true → All NoBreak bs
unfolding ascii_safe is_safe
safe-NoBreak [] h = tt
safe-NoBreak (b ∷ bs) h =
    ((λ e. ground arith, λ e. ground arith), safe-NoBreak bs (and_right _ _ h))

safe-IsPrintable : (bs : List ℕ) → All IsPlain bs → ascii_safe bs ≡ true → All IsPrintable bs
unfolding ascii_safe is_safe
safe-IsPrintable [] p h = tt
safe-IsPrintable (b ∷ bs) p h = (ground (arith, p.0), safe-IsPrintable bs p.1 (and_right _ _ h))

-- A header of the three fixed pieces and the name.
disposition_All :
    (P : ℕ → Type 0) (name : List ℕ)
    → All P quoted_start
    → All P quoted_end
    → All P encoded_start
    → All P (percent_encode_utf8 name)
    → (ascii_safe name ≡ true → All P name)
    → All P (build_content_disposition name)
unfolding build_content_disposition
disposition_All P name qs qe es en safe = elim (Bool-cases (ascii_safe name)) [
  | inl yes_safe ↦ rw yes_safe (
      All-append P quoted_start _ qs
        (All-append P name _ (safe yes_safe) (All-append P quoted_end _ qe en)))
  | inr unsafe ↦ rw unsafe (All-append P encoded_start _ es en)
]

-- Whatever bytes a file name has, its `Content-Disposition` has no CR and no LF.
pub build_content_disposition-NoBreak :
    (name : List ℕ) → All IsByte name → All NoBreak (build_content_disposition name)
build_content_disposition-NoBreak name h =
    disposition_All NoBreak name
      (All-map IsPrintable NoBreak quoted_start IsPrintable-NoBreak (omega arith))
      (All-map IsPrintable NoBreak quoted_end IsPrintable-NoBreak (omega arith))
      (All-map IsPrintable NoBreak encoded_start IsPrintable-NoBreak (omega arith))
      (All-map IsPrintable NoBreak _ IsPrintable-NoBreak (encoded-IsPrintable name h))
      (safe-NoBreak name)

IsPlain-IsByte : (b : ℕ) → IsPlain b → IsByte b
IsPlain-IsByte b h = h.2

-- If no byte of a file name is an ASCII control character, its `Content-Disposition` is printable
-- ASCII.
pub build_content_disposition-IsPrintable :
    (name : List ℕ) → All IsPlain name → All IsPrintable (build_content_disposition name)
build_content_disposition-IsPrintable name h =
    disposition_All IsPrintable name (omega arith) (omega arith) (omega arith)
      (encoded-IsPrintable name (All-map IsPlain IsByte name IsPlain-IsByte h))
      (safe-IsPrintable name h)
