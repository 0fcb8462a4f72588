-- ===== src/Examples/Text.antt =====
-- The theorems on src/unicode_to_utf8.cpp, src/jfs_unicode.h and the descriptors of src/jfs_types.h and
-- src/jfs_xtree.h, at examples.
use jfsrec.Prelude.{ℕ, ◌<◌, ◌≤◌, ◌≡◌, some, List, [], ◌∷◌, ◌++◌, All, length, arith}
use jfsrec.Utf8.{
  utf8_character_to_unicode_character, unicode_string_to_utf8_string,
  unicode_string_to_utf8_std_string, utf8_string_to_unicode_string,
}
use jfsrec.Utf8.Char.{utf8_bytes, decode-utf8_bytes}
use jfsrec.Utf8.Text.{IsUnit16, encoding, string-bounds, std_string-encoding}
use jfsrec.Utf8.Decode.{decode_string-encoding, spread}

abbrev text : List ℕ
text = 0x41 ∷ 0xE5 ∷ 0x20AC ∷ []

text-IsUnit16 : All IsUnit16 text
text-IsUnit16 =
    ((omega arith, omega arith), ((omega arith, omega arith), ((omega arith, omega arith), tt)))

text_units : All (λ c. c < 65536) text
text_units = (omega arith, (omega arith, (omega arith, tt)))

text_fits : length (encoding text) ≤ 16
unfolding utf8_bytes
text_fits = omega arith

euro_fits : length (utf8_bytes 0x20AC) ≤ 6
unfolding utf8_bytes
euro_fits = omega arith

decode-utf8_bytes_example :
    utf8_character_to_unicode_character (utf8_bytes 0x20AC ++ 0x41 ∷ []) 6
    ≡ some (0x20AC, length (utf8_bytes 0x20AC))
decode-utf8_bytes_example = decode-utf8_bytes 0x20AC 6 (0x41 ∷ []) (omega arith) euro_fits

string-bounds_example :
    (length (unicode_string_to_utf8_string text 4) ≤ 4)
    × All (λ b. (0 < b) × (b < 256)) (unicode_string_to_utf8_string text 4)
string-bounds_example = string-bounds text 4 text_units

std_string-encoding_example : unicode_string_to_utf8_std_string text 3 ≡ encoding text
std_string-encoding_example = std_string-encoding text 3 text-IsUnit16 (omega arith)

decode_string-encoding_example :
    utf8_string_to_unicode_string (encoding text) 16 ≡ some (spread text)
decode_string-encoding_example = decode_string-encoding text 16 text-IsUnit16 text_fits
