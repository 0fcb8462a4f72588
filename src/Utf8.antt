-- ===== src/Utf8.antt =====
-- src/unicode_to_utf8.cpp: the UTF-8 table, and the conversions of characters and of strings.
-- A buffer that the code fills is the list of what it writes; a text that it reads is a list that
-- ends where the terminating 0 stands. Buffers are never null.
pub mod Facts
pub mod Char
pub mod Text
pub mod Decode
use Prim.Native.Nat.{bit_and, bit_or, bit_xor}
use mathlib.Core.Option
use jfsrec.Prelude.{
  ℕ, zero, suc, ◌+◌, ◌-◌, ◌*◌, ◌/◌, ◌%◌, ◌^◌, Option, none, some, List, [], ◌∷◌, ◌++◌, ltb, leb,
  ◌==◌, if◌then◌else◌, true, false, length, drop, replicate,
}

pub record Row : Type 0 where
  pub cmask : ℕ
  pub cval : ℕ
  pub shift : ℕ
  pub lmask : ℕ
  pub lval : ℕ

abbrev row : ℕ → ℕ → ℕ → ℕ → ℕ → Row
row m v s lm lv = record { cmask = m; cval = v; shift = s; lmask = lm; lval = lv }

-- The rows above the end mark.
abbrev pub utf8_table : List Row
utf8_table =
    row 0x80 0x00 0 0x7F 0
    ∷ row 0xE0 0xC0 6 0x7FF 0x80
    ∷ row 0xF0 0xE0 12 0xFFFF 0x800
    ∷ row 0xF8 0xF0 18 0x1FFFFF 0x10000
    ∷ row 0xFC 0xF8 24 0x3FFFFFF 0x200000
    ∷ row 0xFE 0xFC 30 0x7FFFFFFF 0x4000000
    ∷ []

-- `while (c > 0)` behind the first byte, `c` being six times the count.
unfoldable pub continuation : ℕ → ℕ → List ℕ
continuation l zero = []
continuation l (suc k) = bit_or 0x80 (bit_and (l / 2 ^ (6 * k)) 0x3F) ∷ continuation l k

unfoldable pub encode_row : Row → ℕ → List ℕ
unfolding continuation
encode_row t l = (bit_or t.cval (l / 2 ^ t.shift) % 256) ∷ continuation l (t.shift / 6)

-- The loop over the table; `nc` counts the rows behind.
unfoldable pub encode_from : List Row → ℕ → ℕ → ℕ → Option (ℕ × List ℕ)
unfolding encode_row
encode_from [] l maxlen nc = none
encode_from (t ∷ ts) l zero nc = none
encode_from (t ∷ ts) l (suc maxlen) nc =
    if leb l t.lmask then some (nc + 1, encode_row t l) else encode_from ts l maxlen (nc + 1)

-- `Unicode_Character_to_UTF8_Character`: the size returned and the bytes written; `none` is -1.
unfoldable pub unicode_character_to_utf8_character : ℕ → ℕ → Option (ℕ × List ℕ)
unfolding encode_from
unicode_character_to_utf8_character wc maxlen = encode_from utf8_table wc maxlen 0

-- One round of the string loop: the bytes written, and what `maxlen` loses.
unfoldable pub encode_step : ℕ → ℕ → List ℕ × ℕ
unfolding unicode_character_to_utf8_character
encode_step c maxlen =
    if ltb 0x7F c
    then elim (unicode_character_to_utf8_character c maxlen) [
      | none ↦ ([], 1)
      | some (size, bytes) ↦ (bytes, size)
    ]
    else ((c % 256) ∷ [], 1)

-- `Unicode_String_to_UTF8_String`; the value returned is the length of the result.
unfoldable pub unicode_string_to_utf8_string : List ℕ → ℕ → List ℕ
unfolding encode_step
unicode_string_to_utf8_string [] maxlen = []
unicode_string_to_utf8_string (zero ∷ cs) maxlen = []
unicode_string_to_utf8_string (suc c ∷ cs) zero = []
unicode_string_to_utf8_string (suc c ∷ cs) (suc m) =
    let (bytes, size) = encode_step (suc c) (suc m) in
    bytes ++ unicode_string_to_utf8_string cs (suc m - size)

-- `std::string((char*)s)`
unfoldable pub until_nul : List ℕ → List ℕ
until_nul [] = []
until_nul (zero ∷ bs) = []
until_nul (suc b ∷ bs) = suc b ∷ until_nul bs

abbrev pub jfs_path_max : ℕ
jfs_path_max = 4096

-- `Unicode_String_to_UTF8_std_string`: the argument `maxlen` is overwritten.
unfoldable pub unicode_string_to_utf8_std_string : List ℕ → ℕ → List ℕ
unfolding unicode_string_to_utf8_string until_nul
unicode_string_to_utf8_std_string pwcs maxlen =
    until_nul (unicode_string_to_utf8_string pwcs (8 * jfs_path_max - 1))

-- The byte that `*s` reads.
abbrev pub head_or_nul : List ℕ → ℕ
head_or_nul [] = 0
head_or_nul (b ∷ bs) = b

abbrev pub rest_of : List ℕ → List ℕ
rest_of [] = []
rest_of (b ∷ bs) = bs

-- The loop over the table; `s` is what follows the byte read last.
unfoldable pub decode_from : List Row → ℕ → ℕ → ℕ → ℕ → List ℕ → Option (ℕ × ℕ)
decode_from [] c0 l nc maxlen s = none
decode_from (t ∷ ts) c0 l nc maxlen s =
    if bit_and c0 t.cmask == t.cval
    then (let l' = bit_and l t.lmask in if ltb l' t.lval then none else some (l' % 65536, nc + 1))
    else if leb maxlen (nc + 1)
    then none
    else let c = bit_and (bit_xor (head_or_nul s) 0x80) 0xFF in
      let rest = decode_from ts c0 (bit_or (l * 64) c) (nc + 1) maxlen (rest_of s) in
      if bit_and c 0xC0 == 0 then rest else none

-- `UTF8_Character_To_Unicode_Character`: the character stored and the size; `none` is -1.
unfoldable pub utf8_character_to_unicode_character : List ℕ → ℕ → Option (ℕ × ℕ)
unfolding decode_from
utf8_character_to_unicode_character s maxlen =
    decode_from utf8_table (head_or_nul s) (head_or_nul s) 0 maxlen (rest_of s)

-- `UTF8_String_To_Unicode_String` with fuel. The cells of the output that `op += size` steps over
-- are `none`; the value returned is the length of the result.
unfoldable pub utf8_string_loop : ℕ → List ℕ → ℕ → Option (List (Option ℕ))
unfolding utf8_character_to_unicode_character
utf8_string_loop zero s maxlen = none
utf8_string_loop (suc f) [] maxlen = some []
utf8_string_loop (suc f) (zero ∷ s) maxlen = some []
utf8_string_loop (suc f) (suc b ∷ s) zero = some []
utf8_string_loop (suc f) (suc b ∷ s) (suc m) = elim (bit_and (suc b) 0x80 == 0) [
  | true ↦ Option.map (λ out. some (suc b) ∷ out) (utf8_string_loop f s (suc m))
  | false ↦ elim (utf8_character_to_unicode_character (suc b ∷ s) (suc m)) [
    | none ↦ utf8_string_loop f s m
    | some (c, size) ↦
        Option.map (λ out. some c ∷ (replicate (size - 1) none ++ out))
          (utf8_string_loop f (drop size (suc b ∷ s)) (suc m - size))
  ]
]

unfoldable pub utf8_string_to_unicode_string : List ℕ → ℕ → Option (List (Option ℕ))
unfolding utf8_string_loop
utf8_string_to_unicode_string s maxlen = utf8_string_loop (length s + 1) s maxlen
