-- ===== src/Api/Trace/Hex.antt =====
-- The width of the hexadecimal form.
use microtel.Prelude.{◌*◌, ◌≡◌, [], ◌∷◌, length, arith}
use microtel.Prelude.Bytes.{Bytes}
use microtel.Api.Trace.{bytes_to_lower_hex}

pub length-bytes_to_lower_hex : (bs : Bytes) → length (bytes_to_lower_hex bs) ≡ 2 * length bs
unfolding bytes_to_lower_hex
length-bytes_to_lower_hex [] = omega arith
length-bytes_to_lower_hex (b ∷ bs) = omega (arith, length-bytes_to_lower_hex bs)
