-- ===== src/Server/Disposition.antt =====
-- src/server/handler.rs: `percent_encode_utf8` and `build_content_disposition`.
pub mod Laws
use raas.Prelude.{
  ℕ, ◌+◌, ◌/◌, ◌%◌, Bool, true, false, ◌&&◌, ◌||◌, not, List, [], ◌∷◌, ◌++◌, leb, ltb, ◌==◌,
  if◌then◌else◌,
}
use raas.Io.Text.{Text, codes}

-- `is_ascii_alphanumeric`, or one of `-._~`
unfoldable pub is_unreserved : ℕ → Bool
is_unreserved b =
    (leb 48 b && leb b 57)
    || (leb 65 b && leb b 90)
    || (leb 97 b && leb b 122)
    || b == 45
    || b == 46
    || b == 95
    || b == 126

-- `HEX[n]`
unfoldable pub hex : ℕ → ℕ
hex n = if ltb n 10 then 48 + n else 55 + n

unfoldable pub percent_encode_utf8 : List ℕ → Text
percent_encode_utf8 [] = []
percent_encode_utf8 (byte ∷ bytes) =
    let rest = percent_encode_utf8 bytes in
    if is_unreserved byte then byte ∷ rest else 37 ∷ hex (byte / 16) ∷ hex (byte % 16) ∷ rest

-- `is_ascii`, and none of `"`, `\`, CR, LF
unfoldable pub is_safe : ℕ → Bool
is_safe b = ltb b 128 && not (b == 34 || b == 92 || b == 13 || b == 10)

unfoldable pub ascii_safe : List ℕ → Bool
ascii_safe [] = true
ascii_safe (b ∷ bs) = is_safe b && ascii_safe bs

abbrev quoted_start : Text
quoted_start = codes "attachment; filename=\""

abbrev quoted_end : Text
quoted_end = codes "\"; filename*=UTF-8''"

abbrev encoded_start : Text
encoded_start = codes "attachment; filename*=UTF-8''"

unfoldable pub build_content_disposition : List ℕ → Text
build_content_disposition file_name =
    if ascii_safe file_name
    then quoted_start ++ (file_name ++ (quoted_end ++ percent_encode_utf8 file_name))
    else encoded_start ++ percent_encode_utf8 file_name
