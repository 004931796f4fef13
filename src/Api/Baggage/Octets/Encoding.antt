-- ===== src/Api/Baggage/Octets/Encoding.antt =====
-- The percent-encoding of src/api/baggage.cpp: `DecodeValue` and `AppendEncoded`.
use microtel.Prelude.{
  ℕ, ◌+◌, ◌-◌, ◌*◌, ◌/◌, ◌%◌, ◌<◌, ◌≡◌, refl, true, false, if◌then◌else◌, ltb, [], ◌∷◌, some,
  length, get_or, arith, Bool-cases, inl, inr,
}
use microtel.Prelude.Bytes.{Bytes, all}
use microtel.Api.Trace.{AllBytes}
use microtel.Api.Baggage.Octets.{
  is_digit, is_baggage_octet, is_hex_digit, hex_digit_value, push_back, decode_octet, decode_escape,
  decode_value, needs_escape, encoded_size, upper_hex_digits, append_encoded,
}

upper_digit : ℕ → ℕ
upper_digit n = if ltb n 10 then n + b'0' else n - 10 + b'A'

digit_of_nibble : (n : ℕ) → n < 16 → get_or upper_hex_digits n 0 ≡ upper_digit n
unfolding upper_digit
digit_of_nibble n h = ground arith

digit_read :
    (n : ℕ) → n < 16 → (is_hex_digit (upper_digit n) ≡ true) × (hex_digit_value (upper_digit n) ≡ n)
unfolding is_hex_digit is_digit hex_digit_value upper_digit
digit_read n h = ground arith

-- A digit is written as an octet of a value.
digit_octet : (n : ℕ) → n < 16 → is_baggage_octet (upper_digit n) ≡ true
unfolding is_baggage_octet upper_digit
digit_octet n h = ground arith

-- One octet in front of a text, literal or in the three characters of an escape.
decode_literal :
    (c : ℕ) (cs : Bytes)
    → needs_escape c ≡ false
    → decode_value (c ∷ cs) ≡ push_back c (decode_value cs)
unfolding decode_value decode_octet needs_escape
decode_literal c [] h = ground arith
decode_literal c (d ∷ []) h = ground arith
decode_literal c (d ∷ e ∷ cs) h = ground arith

escape_literal : is_baggage_octet b'%' ≡ true
unfolding is_baggage_octet
escape_literal = refl

decode_escaped :
    (c : ℕ) (cs : Bytes)
    → c < 256
    → decode_value (b'%' ∷ upper_digit (c / 16) ∷ upper_digit (c % 16) ∷ cs)
      ≡ push_back c (decode_value cs)
unfolding decode_value decode_octet decode_escape
decode_escaped c cs h =
    let e : c / 16 * 16 + c % 16 ≡ c = omega arith in
    let (h0, h1) = digit_read (c / 16) (omega arith) in
    let (l0, l1) = digit_read (c % 16) (omega arith) in rw (escape_literal, h0, l0, h1, l1, e) refl

-- Text is the bytes of a `std::string`: `DecodeValue` gives back whatever text `AppendEncoded` wrote, all 256 octets included.
pub decode_value-append_encoded :
    (value : Bytes) → AllBytes value → decode_value (append_encoded value) ≡ some value
unfolding append_encoded push_back
decode_value-append_encoded [] h = unfold decode_value in refl
decode_value-append_encoded (c ∷ cs) h =
    let ih = decode_value-append_encoded cs h.1 in
    let d0 = digit_of_nibble (c / 16 % 16) (omega arith) in
    let d1 = digit_of_nibble (c % 16) (omega arith) in
    let e : c / 16 % 16 ≡ c / 16 = omega (arith, h.0) in
    elim (Bool-cases (needs_escape c)) [
      | inl n ↦ rw (n, d0, d1, e, decode_escaped c (append_encoded cs) h.0, ih) refl
      | inr n ↦ rw (n, decode_literal c (append_encoded cs) n, ih) refl
    ]

-- `EncodedSize` is the length of what `AppendEncoded` writes.
pub length-append_encoded : (value : Bytes) → length (append_encoded value) ≡ encoded_size value
unfolding append_encoded encoded_size
length-append_encoded [] = refl
length-append_encoded (c ∷ cs) = ground (arith, length-append_encoded cs)

written_octet : (c : ℕ) → needs_escape c ≡ false → is_baggage_octet c ≡ true
unfolding needs_escape
written_octet c h = ground arith

-- `AppendEncoded` writes only octets that the grammar allows in a value, so no separator of the list can stand among them.
pub all-append_encoded :
    (value : Bytes) → AllBytes value → all is_baggage_octet (append_encoded value) ≡ true
unfolding append_encoded all
all-append_encoded [] h = refl
all-append_encoded (c ∷ cs) h =
    let ih = all-append_encoded cs h.1 in
    let d0 = digit_of_nibble (c / 16 % 16) (omega arith) in
    let d1 = digit_of_nibble (c % 16) (omega arith) in
    let o0 = digit_octet (c / 16 % 16) (omega arith) in
    let o1 = digit_octet (c % 16) (omega arith) in
    elim (Bool-cases (needs_escape c)) [
      | inl n ↦ rw (n, d0, d1, escape_literal, o0, o1, ih) refl
      | inr n ↦ rw (n, written_octet c n, ih) refl
    ]
