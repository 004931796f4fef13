-- ===== src/Api/Propagator.antt =====
-- src/api/propagator.cpp: the W3C `traceparent` codec and the trace-context propagator. A setter's
-- calls are the list of what it is given, in order; a getter is a function, and no getter is `none`.
pub mod Hex
pub mod Text
pub mod Layout
pub mod Accepted
pub mod RoundTrip
pub mod Baggage
mod Tests
use microtel.Prelude.{
  ◌>>=◌, ℕ, zero, suc, ◌+◌, ◌-◌, ◌*◌, ◌/◌, ◌%◌, ◌≤◌, ◌<◌, ◌≡◌, Bool, true, false, ◌&&◌, ◌||◌, ◌==◌,
  if◌then◌else◌, not, ltb, leb, List, [], ◌∷◌, ◌++◌, Option, none, some, length, take, drop, get_or,
}
use microtel.Prelude.Bytes.{codes, Bytes, front, bytes_eq}
use microtel.Api.TraceState.{TraceState, from_header, to_header}
use microtel.Api.Trace.{SpanContext, id_is_valid, is_valid, bytes_to_lower_hex}

abbrev pub traceparent_header : Bytes
traceparent_header = codes "traceparent"

abbrev pub tracestate_header : Bytes
tracestate_header = codes "tracestate"

abbrev pub traceparent_chars : ℕ
traceparent_chars = 55

abbrev forbidden_version : ℕ
forbidden_version = 255

unfoldable pub is_lower_hex_digit : ℕ → Bool
is_lower_hex_digit c = leb b'0' c && leb c b'9' || leb b'a' c && leb c b'f'

unfoldable pub hex_digit_value : ℕ → ℕ
hex_digit_value c = if leb b'0' c && leb c b'9' then c - b'0' else c - b'a' + 10

-- The loop over the output array: a byte for each two characters, high nibble first.
pub hex_bytes : ℕ → Bytes → Option Bytes
hex_bytes zero hex = some []
hex_bytes (suc n) [] = none
hex_bytes (suc n) (high ∷ []) = none
hex_bytes (suc n) (high ∷ low ∷ hex) =
    let rest = hex_bytes n hex in
    if not (is_lower_hex_digit high) || not (is_lower_hex_digit low) then none else elim rest [
      | none ↦ none
      | some bytes ↦ some ((hex_digit_value high * 16 + hex_digit_value low) ∷ bytes)
    ]

-- `ParseLowerHexBytes<n>`.
pub parse_lower_hex_bytes : ℕ → Bytes → Option Bytes
parse_lower_hex_bytes n hex = if length hex == n * 2 then hex_bytes n hex else none

abbrev pub substr : Bytes → ℕ → ℕ → Bytes
substr s offset count = take count (drop offset s)

-- `header[i]`, in range.
abbrev pub char_at : Bytes → ℕ → ℕ
char_at s i = front (drop i s)

has_fixed_separators : Bytes → Bool
has_fixed_separators header =
    char_at header 2 == b'-' && char_at header 35 == b'-' && char_at header 52 == b'-'

has_parsable_length : Bytes → ℕ → Bool
has_parsable_length header version =
    if length header == traceparent_chars
    then true
    else not (version == 0) && char_at header traceparent_chars == b'-'

pub has_parsable_shape : Bytes → Bool
has_parsable_shape header =
    if ltb (length header) traceparent_chars
    then false
    else if not (has_fixed_separators header)
    then false
    else elim (parse_lower_hex_bytes 1 (substr header 0 2)) [
      | none ↦ false
      | some version ↦
          if front version == forbidden_version
          then false
          else has_parsable_length header (front version)
    ]

pub record Traceparent : Type 0 where
  pub trace_id : Bytes
  pub span_id : Bytes
  pub trace_flags : ℕ

-- The three fields that it writes, or `none` for `return false`.
pub parse_traceparent : Bytes → Option Traceparent
parse_traceparent header = if not (has_parsable_shape header) then none else do
  trace_bytes ← parse_lower_hex_bytes 16 (substr header 3 32)
  span_bytes ← parse_lower_hex_bytes 8 (substr header 36 16)
  flags ← parse_lower_hex_bytes 1 (substr header 53 2)
  if not (id_is_valid trace_bytes) || not (id_is_valid span_bytes)
      then none
      else some (record { trace_id = trace_bytes; span_id = span_bytes; trace_flags = front flags })

abbrev lower_hex_digits : Bytes
lower_hex_digits = codes "0123456789abcdef"

pub format_traceparent : SpanContext → Bytes
format_traceparent context =
    b'0'
    ∷ b'0'
    ∷ b'-'
    ∷ (bytes_to_lower_hex context.trace_id
        ++ b'-'
          ∷ (bytes_to_lower_hex context.span_id
              ++ b'-'
                ∷ get_or lower_hex_digits (context.trace_flags / 16) 0
                ∷ get_or lower_hex_digits (context.trace_flags % 16) 0
                ∷ []))

-- `W3CTraceContextPropagator::Inject` with a setter: the headers that it sets, in order.
pub inject : SpanContext → List (Bytes × Bytes)
inject context =
    if not (is_valid context)
    then []
    else (traceparent_header, format_traceparent context)
      ∷ elim (to_header context.trace_state) [ [] ↦ [] | c ∷ cs ↦ (tracestate_header, c ∷ cs) ∷ [] ]

abbrev pub default_context : SpanContext
default_context = record {
  trace_id = 0 ∷ 0 ∷ 0 ∷ 0 ∷ 0 ∷ 0 ∷ 0 ∷ 0 ∷ 0 ∷ 0 ∷ 0 ∷ 0 ∷ 0 ∷ 0 ∷ 0 ∷ 0 ∷ [];
  span_id = 0 ∷ 0 ∷ 0 ∷ 0 ∷ 0 ∷ 0 ∷ 0 ∷ 0 ∷ [];
  trace_flags = 0;
  trace_state = none;
  remote = false;
}

-- `W3CTraceContextPropagator::Extract`.
pub extract : Option (Bytes → Option Bytes) → SpanContext
extract none = default_context
extract (some getter) = elim (getter traceparent_header) [
  | none ↦ default_context
  | some traceparent ↦ elim (parse_traceparent traceparent) [
    | none ↦ default_context
    | some parent ↦ record {
      trace_id = parent.trace_id;
      span_id = parent.span_id;
      trace_flags = parent.trace_flags;
      trace_state = elim (getter tracestate_header) [
        | none ↦ none
        | some state ↦ from_header state
      ];
      remote = true;
    }
  ]
]
