-- ===== src/Api/Propagator/Layout.antt =====
-- Which headers `ParseTraceparent` takes, and what it reads from them.
use microtel.Prelude.{ℕ, ◌<◌, ◌≡◌, refl, ap, ◌∙◌, true, [], ◌∷◌, some, arith}
use microtel.Prelude.Bytes.{Bytes, front}
use microtel.Api.Trace.{id_is_valid, bytes_to_lower_hex, IsBytes}
use microtel.Api.Propagator.{
  parse_lower_hex_bytes, substr, has_fixed_separators, has_parsable_length, has_parsable_shape,
  parse_traceparent,
}
use microtel.Api.Propagator.Hex.{parse_written}
use microtel.Api.Propagator.Text.{
  text, IsTail, text_trace, text-behind_trace, text_span, text-behind_span, text_flags, text_tail,
  length-text,
}

-- `ParseTraceparent` from its parts.
parse_parts :
    (h : Bytes) {t s fl : Bytes}
    → has_parsable_shape h ≡ true
    → parse_lower_hex_bytes 16 (substr h 3 32) ≡ some t
    → parse_lower_hex_bytes 8 (substr h 36 16) ≡ some s
    → parse_lower_hex_bytes 1 (substr h 53 2) ≡ some fl
    → id_is_valid t ≡ true
    → id_is_valid s ≡ true
    → parse_traceparent h ≡ some (record { trace_id = t; span_id = s; trace_flags = front fl })
unfolding parse_traceparent
parse_parts h a b c d e g = ground arith

module _ (v : ℕ) (t s : Bytes) (f : ℕ) (rest : Bytes) (ht : IsBytes 16 t) (hs : IsBytes 8 s)
    (hv : v < 255) (hf : f < 256) (tail : IsTail v rest) where
  text_separators : has_fixed_separators (text v t s f rest) ≡ true
  unfolding has_fixed_separators bytes_to_lower_hex
  text_separators =
      rw (text-behind_trace v t s f rest ht.0 hs.0, text-behind_span v t s f rest ht.0 hs.0) refl

  text_length : has_parsable_length (text v t s f rest) v ≡ true
  unfolding has_parsable_length
  text_length = ground (arith, length-text v t s f rest ht.0 hs.0, text_tail v t s f rest ht.0 hs.0)

  text_version : parse_lower_hex_bytes 1 (substr (text v t s f rest) 0 2) ≡ some (v ∷ [])
  text_version =
      ap (parse_lower_hex_bytes 1) at_front ∙ parse_written 1 (v ∷ []) (refl, (omega arith, tt))
    where
      at_front : substr (text v t s f rest) 0 2 ≡ bytes_to_lower_hex (v ∷ [])
      at_front = unfold bytes_to_lower_hex in refl

  text_shape : has_parsable_shape (text v t s f rest) ≡ true
  unfolding has_parsable_shape
  text_shape =
      ground (arith, length-text v t s f rest ht.0 hs.0, text_separators, text_version, text_length)

  -- Every header of this layout is taken, of version 00 with nothing behind the flags and of a
  -- higher version with or without further fields, and its ids and flags are read back, if the
  -- ids are valid.
  pub parse_traceparent-text :
      id_is_valid t ≡ true
      → id_is_valid s ≡ true
      → parse_traceparent (text v t s f rest)
        ≡ some (record { trace_id = t; span_id = s; trace_flags = f })
  parse_traceparent-text it is =
      parse_parts (text v t s f rest) {t = t} {s = s} {fl = f ∷ []} text_shape
        (ap (parse_lower_hex_bytes 16) (text_trace v t s f rest ht.0 hs.0) ∙ parse_written 16 t ht)
        (ap (parse_lower_hex_bytes 8) (text_span v t s f rest ht.0 hs.0) ∙ parse_written 8 s hs)
        (ap (parse_lower_hex_bytes 1) (text_flags v t s f rest ht.0 hs.0)
          ∙ parse_written 1 (f ∷ []) (refl, (hf, tt)))
        it is
