-- ===== src/Api/Propagator/Hex.antt =====
-- `ParseLowerHexBytes` inverts the hexadecimal form.
use microtel.Prelude.{
  ℕ, zero, suc, ◌*◌, ◌/◌, ◌%◌, ◌<◌, ◌≡◌, refl, inl, inr, true, [], ◌∷◌, some, length, get_or, arith,
  Option-cases,
}
use microtel.Prelude.Bytes.{Bytes}
use microtel.Api.Trace.{bytes_to_lower_hex, nibble_to_hex, AllBytes, IsBytes}
use microtel.Api.Trace.Hex.{length-bytes_to_lower_hex}
use microtel.Api.Propagator.{
  lower_hex_digits, is_lower_hex_digit, hex_digit_value, hex_bytes, parse_lower_hex_bytes,
}

nibble_read :
    (n : ℕ)
    → n < 16
    → (is_lower_hex_digit (nibble_to_hex n) ≡ true) × (hex_digit_value (nibble_to_hex n) ≡ n)
unfolding is_lower_hex_digit nibble_to_hex hex_digit_value
nibble_read n h = ground arith

nibble_written :
    (c : ℕ)
    → is_lower_hex_digit c ≡ true
    → (hex_digit_value c < 16) × (nibble_to_hex (hex_digit_value c) ≡ c)
unfolding is_lower_hex_digit nibble_to_hex hex_digit_value
nibble_written c h = ground arith

hex_bytes_written :
    (bs : Bytes) → AllBytes bs → hex_bytes (length bs) (bytes_to_lower_hex bs) ≡ some bs
unfolding hex_bytes bytes_to_lower_hex
hex_bytes_written [] h = refl
hex_bytes_written (b ∷ bs) h =
    ground (arith, nibble_read (b / 16), nibble_read (b % 16), hex_bytes_written bs h.1)

pub parse_written :
    (n : ℕ) (bs : Bytes) → IsBytes n bs → parse_lower_hex_bytes n (bytes_to_lower_hex bs) ≡ some bs
unfolding parse_lower_hex_bytes
parse_written n bs h =
    rw (← h.0) (ground (arith, length-bytes_to_lower_hex bs, hex_bytes_written bs h.1))

pub digit_of_nibble : (n : ℕ) → n < 16 → get_or lower_hex_digits n 0 ≡ nibble_to_hex n
unfolding nibble_to_hex
digit_of_nibble zero h = refl
digit_of_nibble (suc zero) h = refl
digit_of_nibble (suc (suc zero)) h = refl
digit_of_nibble (suc (suc (suc zero))) h = refl
digit_of_nibble (suc (suc (suc (suc zero)))) h = refl
digit_of_nibble (suc (suc (suc (suc (suc zero))))) h = refl
digit_of_nibble (suc (suc (suc (suc (suc (suc zero)))))) h = refl
digit_of_nibble (suc (suc (suc (suc (suc (suc (suc zero))))))) h = refl
digit_of_nibble (suc (suc (suc (suc (suc (suc (suc (suc zero)))))))) h = refl
digit_of_nibble (suc (suc (suc (suc (suc (suc (suc (suc (suc zero))))))))) h = refl
digit_of_nibble (suc (suc (suc (suc (suc (suc (suc (suc (suc (suc zero)))))))))) h = refl
digit_of_nibble (suc (suc (suc (suc (suc (suc (suc (suc (suc (suc (suc zero))))))))))) h = refl
digit_of_nibble (suc (suc (suc (suc (suc (suc (suc (suc (suc (suc (suc (suc zero)))))))))))) h =
    refl
digit_of_nibble (suc (suc (suc (suc (suc (suc (suc (suc (suc (suc (suc (suc (suc zero)))))))))))))
      h =
    refl
digit_of_nibble
      (suc (suc (suc (suc (suc (suc (suc (suc (suc (suc (suc (suc (suc (suc zero)))))))))))))) h =
    refl
digit_of_nibble
      (suc (suc (suc (suc (suc (suc (suc (suc (suc (suc (suc (suc (suc (suc (suc zero)))))))))))))))
      h =
    refl
digit_of_nibble
      (suc
        (suc (suc (suc (suc (suc (suc (suc (suc (suc (suc (suc (suc (suc (suc (suc n))))))))))))))))
      h =
    absurd (omega arith)

hex_bytes_sound :
    (n : ℕ) (hex : Bytes) {bs : Bytes}
    → length hex ≡ n * 2
    → hex_bytes n hex ≡ some bs
    → (hex ≡ bytes_to_lower_hex bs) × IsBytes n bs
unfolding hex_bytes bytes_to_lower_hex
hex_bytes_sound zero [] l h = ground arith
hex_bytes_sound zero (c ∷ cs) l h = absurd (omega arith)
hex_bytes_sound (suc n) [] l h = cc
hex_bytes_sound (suc n) (c ∷ []) l h = cc
hex_bytes_sound (suc n) (c ∷ d ∷ cs) l h = elim (Option-cases (hex_bytes n cs)) [
  | inl e ↦ ground arith
  | inr (b, e) ↦
      let ih = hex_bytes_sound n cs {bs = b} (omega arith) e in
      ground (arith, nibble_written c, nibble_written d)
]

pub parse_sound :
    (n : ℕ) (hex : Bytes) {bs : Bytes}
    → parse_lower_hex_bytes n hex ≡ some bs
    → (hex ≡ bytes_to_lower_hex bs) × IsBytes n bs
unfolding parse_lower_hex_bytes
parse_sound n hex h = hex_bytes_sound n hex (ground arith) (ground arith)
