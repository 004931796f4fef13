-- ===== src/Wire/GrpcStatus/Decode.antt =====
-- `PercentDecode` against a description of the texts that a server may send.
use microtel.Prelude.{ℕ, ◌+◌, ◌*◌, ◌≤◌, ◌<◌, ◌≡◌, ◌≢◌, refl, [], ◌∷◌, some, length, arith}
use microtel.Prelude.Bytes.{Bytes}
use microtel.Wire.GrpcStatus.{hex_value, decode_digits, decode_turn, percent_decode}

-- `c` is the hexadecimal digit of value `n`, in either case.
pub data HexDigit (c n : ℕ) : Type 0 where
  decimal : n < 10 → c ≡ b'0' + n → HexDigit c n
  lower : 10 ≤ n → n < 16 → c + 10 ≡ b'a' + n → HexDigit c n
  upper : 10 ≤ n → n < 16 → c + 10 ≡ b'A' + n → HexDigit c n

-- `wire` stands for `text`: each octet is sent as it is, unless it is `%`, or as `%` and two
-- hexadecimal digits of either case.
pub data Stands : Bytes → Bytes → Type 0 where
  end : Stands [] []
  literal : (c : ℕ) (wire text : Bytes) → c ≢ b'%' → Stands wire text → Stands (c ∷ wire) (c ∷ text)
  escape :
      (high low m n : ℕ) (wire text : Bytes)
      → HexDigit high m
      → HexDigit low n
      → Stands wire text
      → Stands (b'%' ∷ high ∷ low ∷ wire) ((m * 16 + n) ∷ text)

hex_value-HexDigit : (c n : ℕ) → HexDigit c n → hex_value c ≡ some n
unfolding hex_value
hex_value-HexDigit c n (decimal h e) = ground arith
hex_value-HexDigit c n (lower h k e) = ground arith
hex_value-HexDigit c n (upper h k e) = ground arith

decode_literal : (c : ℕ) (cs : Bytes) → c ≢ b'%' → percent_decode (c ∷ cs) ≡ c ∷ percent_decode cs
unfolding percent_decode decode_turn
decode_literal c [] h = refl
decode_literal c (d ∷ []) h = refl
decode_literal c (d ∷ e ∷ cs) h = ground arith

-- Every encoding of a text, whichever octets are escaped and in whichever case, decodes to that text.
pub percent_decode-Stands : (wire text : Bytes) → Stands wire text → percent_decode wire ≡ text
unfolding percent_decode decode_turn decode_digits
percent_decode-Stands _ _ end = refl
percent_decode-Stands _ _ (literal c wire text h s) =
    rw (decode_literal c wire h, percent_decode-Stands wire text s) refl
percent_decode-Stands _ _ (escape high low m n wire text h k s) =
    rw (hex_value-HexDigit high m h, hex_value-HexDigit low n k, percent_decode-Stands wire text s)
      refl

-- No decoding is longer than its text.
length-percent_decode : (wire : Bytes) → length (percent_decode wire) ≤ length wire
unfolding percent_decode decode_turn
length-percent_decode [] = omega arith
length-percent_decode (c ∷ []) = omega arith
length-percent_decode (c ∷ d ∷ []) = omega arith
length-percent_decode (c ∷ d ∷ e ∷ rest) =
    ground (arith, length-percent_decode (d ∷ e ∷ rest), length-percent_decode rest)
