-- ===== src/Api/Baggage/Octets.antt =====
-- src/api/baggage.cpp: the characters of keys and values, and the percent-encoding of a value.
pub mod Encoding
use microtel.Prelude.{
  ℕ, zero, suc, ◌+◌, ◌-◌, ◌*◌, ◌/◌, ◌%◌, Bool, true, false, ◌&&◌, ◌||◌, ◌==◌, if◌then◌else◌, not,
  ltb, leb, List, [], ◌∷◌, ◌++◌, Option, none, some, ◌>>=◌, length, get_or,
}
use microtel.Prelude.Bytes.{Bytes, bytes_eq, all, split_at, trim}

unfoldable pub is_digit : ℕ → Bool
is_digit c = leb b'0' c && leb c b'9'

unfoldable pub is_alpha : ℕ → Bool
is_alpha c = leb b'a' c && leb c b'z' || leb b'A' c && leb c b'Z'

abbrev pub token_specials : Bytes
token_specials =
    b'!' ∷ b'#' ∷ b'$' ∷ b'%' ∷ b'&' ∷ b'\'' ∷ b'*' ∷ b'+' ∷ b'-' ∷ b'.' ∷ b'^' ∷ b'_' ∷ b'`' ∷ b'|'
    ∷ b'~' ∷ []

unfoldable pub holds : Bytes → ℕ → Bool
holds [] c = false
holds (x ∷ xs) c = x == c || holds xs c

unfoldable pub is_token_char : ℕ → Bool
is_token_char c = is_alpha c || is_digit c || holds token_specials c

unfoldable pub is_token : Bytes → Bool
is_token [] = false
is_token (c ∷ cs) = all is_token_char (c ∷ cs)

unfoldable pub is_baggage_octet : ℕ → Bool
is_baggage_octet c =
    if ltb c 33 || ltb 126 c
    then false
    else not (c == b'"') && not (c == b',') && not (c == b';') && not (c == b'\\')

unfoldable pub is_wire_value : Bytes → Bool
is_wire_value text = all is_baggage_octet text

unfoldable pub is_hex_digit : ℕ → Bool
is_hex_digit c = is_digit c || leb b'a' c && leb c b'f' || leb b'A' c && leb c b'F'

unfoldable pub hex_digit_value : ℕ → ℕ
hex_digit_value c =
    if is_digit c then c - b'0' else c - (if leb b'a' c && leb c b'f' then b'a' else b'A') + 10

abbrev pub upper_hex_digits : Bytes
upper_hex_digits =
    b'0' ∷ b'1' ∷ b'2' ∷ b'3' ∷ b'4' ∷ b'5' ∷ b'6' ∷ b'7' ∷ b'8' ∷ b'9' ∷ b'A' ∷ b'B' ∷ b'C' ∷ b'D'
    ∷ b'E' ∷ b'F' ∷ []

-- `out.push_back` in front of what the rest of the loop appends; `none` is `return false`.
unfoldable pub push_back : ℕ → Option Bytes → Option Bytes
push_back c none = none
push_back c (some out) = some (c ∷ out)

-- A turn of the loop that finds `c`: `next` is what the rest makes of the text behind `c`, and
-- `escaped` of the text from an escape on.
unfoldable pub decode_octet : ℕ → Option Bytes → Option Bytes → Option Bytes
decode_octet c next escaped =
    if not (is_baggage_octet c) then none else if not (c == b'%') then push_back c next else escaped

unfoldable pub decode_escape : ℕ → ℕ → Option Bytes → Option Bytes
decode_escape high low rest =
    if not (is_hex_digit high) || not (is_hex_digit low)
    then none
    else push_back (hex_digit_value high * 16 + hex_digit_value low) rest

-- `none` is `return false`, here for a bad octet and for an escape that is cut off or not
-- hexadecimal.
unfoldable pub decode_value : Bytes → Option Bytes
decode_value [] = some []
decode_value (c ∷ []) = decode_octet c (some []) none
decode_value (c ∷ high ∷ []) = decode_octet c (decode_value (high ∷ [])) none
decode_value (c ∷ high ∷ low ∷ rest) =
    decode_octet c (decode_value (high ∷ low ∷ rest)) (decode_escape high low (decode_value rest))

unfoldable pub needs_escape : ℕ → Bool
needs_escape c = not (is_baggage_octet c) || c == b'%'

unfoldable pub encoded_size : Bytes → ℕ
encoded_size [] = 0
encoded_size (c ∷ cs) = (if needs_escape c then 3 else 1) + encoded_size cs

-- What `AppendEncoded` appends.
unfoldable pub append_encoded : Bytes → Bytes
append_encoded [] = []
append_encoded (c ∷ cs) =
    let rest = append_encoded cs in
    if not (needs_escape c)
    then c ∷ rest
    else b'%' ∷ get_or upper_hex_digits (c / 16 % 16) 0 ∷ get_or upper_hex_digits (c % 16) 0 ∷ rest
