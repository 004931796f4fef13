-- ===== src/Api/Propagator/Text.antt =====
-- The text of a `traceparent`, field by field.
use microtel.Prelude.{
  ℕ, ◌+◌, ◌≡◌, ◌≢◌, ap, ◌∙◌, ◌⊎◌, [], ◌∷◌, ◌++◌, length, length-append, take, drop, take_prefix,
  drop_prefix, arith,
}
use microtel.Prelude.Bytes.{Bytes, front}
use microtel.Api.Trace.{bytes_to_lower_hex}
use microtel.Api.Trace.Hex.{length-bytes_to_lower_hex}
use microtel.Api.Propagator.{substr}

-- A `traceparent` of version `v`, with what stands behind its flags.
abbrev pub text : ℕ → Bytes → Bytes → ℕ → Bytes → Bytes
text v t s f rest =
    bytes_to_lower_hex (v ∷ [])
    ++ (b'-'
        ∷ (bytes_to_lower_hex t
            ++ (b'-' ∷ (bytes_to_lower_hex s ++ (b'-' ∷ (bytes_to_lower_hex (f ∷ []) ++ rest))))))

-- What may stand there: nothing, or further fields of a version above 00.
abbrev pub IsTail : ℕ → Bytes → Type 0
IsTail v rest = (rest ≡ []) ⊎ ((v ≢ 0) × (front rest ≡ b'-'))

module _ (v : ℕ) (t s : Bytes) (f : ℕ) (rest : Bytes) (lt : length t ≡ 16) (ls : length s ≡ 8) where
  abbrev pub behind_span : Bytes
  behind_span = b'-' ∷ (bytes_to_lower_hex (f ∷ []) ++ rest)

  abbrev pub behind_trace : Bytes
  behind_trace = b'-' ∷ (bytes_to_lower_hex s ++ behind_span)

  drop_trace : (k : ℕ) → drop (32 + k) (bytes_to_lower_hex t ++ behind_trace) ≡ drop k behind_trace
  drop_trace k =
      drop_prefix 32 k (bytes_to_lower_hex t) behind_trace
        (omega (arith, length-bytes_to_lower_hex t))

  drop_span : (k : ℕ) → drop (16 + k) (bytes_to_lower_hex s ++ behind_span) ≡ drop k behind_span
  drop_span k =
      drop_prefix 16 k (bytes_to_lower_hex s) behind_span
        (omega (arith, length-bytes_to_lower_hex s))

  pub text_trace : substr (text v t s f rest) 3 32 ≡ bytes_to_lower_hex t
  text_trace =
      unfold bytes_to_lower_hex in
      take_prefix 32 (bytes_to_lower_hex t) behind_trace
        (omega (arith, length-bytes_to_lower_hex t))

  pub text-behind_trace : drop 35 (text v t s f rest) ≡ behind_trace
  unfolding bytes_to_lower_hex
  text-behind_trace = drop_trace 0

  pub text_span : substr (text v t s f rest) 36 16 ≡ bytes_to_lower_hex s
  unfolding bytes_to_lower_hex
  text_span =
      ap (take 16) (drop_trace 1)
      ∙ take_prefix 16 (bytes_to_lower_hex s) behind_span
          (omega (arith, length-bytes_to_lower_hex s))

  pub text-behind_span : drop 52 (text v t s f rest) ≡ behind_span
  unfolding bytes_to_lower_hex
  text-behind_span = drop_trace 17 ∙ drop_span 0

  pub text_flags : substr (text v t s f rest) 53 2 ≡ bytes_to_lower_hex (f ∷ [])
  unfolding bytes_to_lower_hex
  text_flags = ap (take 2) (drop_trace 18 ∙ drop_span 1)

  pub text_tail : drop 55 (text v t s f rest) ≡ rest
  unfolding bytes_to_lower_hex
  text_tail = drop_trace 20 ∙ drop_span 3

  pub length-text : length (text v t s f rest) ≡ 55 + length rest
  length-text = omega (
    arith,
    length-append (bytes_to_lower_hex (v ∷ [])) (b'-' ∷ (bytes_to_lower_hex t ++ behind_trace)),
    length-append (bytes_to_lower_hex t) behind_trace,
    length-append (bytes_to_lower_hex s) behind_span,
    length-append (bytes_to_lower_hex (f ∷ [])) rest,
    length-bytes_to_lower_hex (v ∷ []),
    length-bytes_to_lower_hex t,
    length-bytes_to_lower_hex s,
    length-bytes_to_lower_hex (f ∷ []),
  )
