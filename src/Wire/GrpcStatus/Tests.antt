-- ===== src/Wire/GrpcStatus/Tests.antt =====
-- One status and one message, and the theorems at them.
use microtel.Prelude.{◌≡◌, refl, [], arith}
use microtel.Prelude.Int.{pos, negsuc}
use microtel.Prelude.Bytes.{codes}
use microtel.Wire.GrpcStatus.{
  lookup_grpc_status, hex_value, decode_digits, decode_turn, percent_decode, digits, to_string,
  name_of, message_part, format_grpc_error,
}
use microtel.Wire.GrpcStatus.Decode.{HexDigit, Stands, percent_decode-Stands}

unavailable : format_grpc_error (pos 14) (codes "no route") ≡ codes "UNAVAILABLE (14): no route"
unfolding format_grpc_error name_of lookup_grpc_status to_string digits message_part
unavailable = refl

unknown : format_grpc_error (negsuc 0) [] ≡ codes "UNRECOGNIZED (-1)"
unfolding format_grpc_error name_of lookup_grpc_status to_string digits message_part
unknown = refl

-- An escape is decoded, a percent sign that starts none is kept.
decoded : percent_decode (codes "a%2Fb%zz%4") ≡ codes "a/b%zz%4"
unfolding percent_decode decode_turn decode_digits hex_value
decoded = refl

slash : Stands (codes "a%2f%4F") (codes "a/O")
slash =
    Stands.literal b'a' (codes "%2f%4F") (codes "/O") (λ e. cc)
      (Stands.escape b'2' b'f' 2 15 (codes "%4F") (codes "O") (HexDigit.decimal (omega arith) refl)
        (HexDigit.lower (omega arith) (omega arith) refl)
        (Stands.escape b'4' b'F' 4 15 [] [] (HexDigit.decimal (omega arith) refl)
          (HexDigit.upper (omega arith) (omega arith) refl) Stands.end))

percent_decode-Stands_example : percent_decode (codes "a%2f%4F") ≡ codes "a/O"
percent_decode-Stands_example = percent_decode-Stands (codes "a%2f%4F") (codes "a/O") slash
