-- ===== src/Api/Propagator/Tests.antt =====
-- The example of the W3C recommendation.
use microtel.Prelude.{◌≡◌, ◌↔◌, refl, true, false, [], ◌∷◌, ◌++◌, none, some, arith}
use microtel.Prelude.Bytes.{codes, Bytes}
use microtel.Api.Trace.{SpanContext, is_valid, id_is_valid, IsBytes}
use microtel.Api.Propagator.{inject, extract, parse_traceparent}
use microtel.Api.Propagator.Text.{text}
use microtel.Api.Baggage.{from_header}
use microtel.Api.Baggage.Limits.History.{Mutation, mutates}
use microtel.Api.Propagator.Baggage.{
  inject_baggage, extract_baggage, extract_baggage-inject_baggage,
}
use microtel.Api.Propagator.Accepted.{IsTraceparent, parse_traceparent_iff}
use microtel.Api.Propagator.RoundTrip.{IsContext, read, extract-inject}

abbrev trace : Bytes
trace =
    0x4b ∷ 0xf9 ∷ 0x2f ∷ 0x35 ∷ 0x77 ∷ 0xb3 ∷ 0x4d ∷ 0xa6 ∷ 0xa3 ∷ 0xce ∷ 0x92 ∷ 0x9d ∷ 0x0e ∷ 0x0e
    ∷ 0x47 ∷ 0x36 ∷ []

abbrev parent : Bytes
parent = 0 ∷ 0xf0 ∷ 0x67 ∷ 0xaa ∷ 0x0b ∷ 0xa9 ∷ 0x02 ∷ 0xb7 ∷ []

trace-IsBytes : IsBytes 16 trace
trace-IsBytes = (refl, omega arith)

parent-IsBytes : IsBytes 8 parent
parent-IsBytes = (refl, omega arith)

abbrev context : SpanContext
context = record {
  trace_id = trace;
  span_id = parent;
  trace_flags = 1;
  trace_state = none;
  remote = false;
}

context-IsContext : IsContext context
unfolding is_valid id_is_valid
context-IsContext = record {
  trace_width = trace-IsBytes;
  span_width = parent-IsBytes;
  flags_byte = omega arith;
  valid = refl;
  state = tt;
}

extract-inject_example : extract (some (read (inject context))) ≡ record context { remote = true }
extract-inject_example = extract-inject context context-IsContext

-- A value with octets that need escapes, beside a member with a property.
extract_baggage-inject_baggage_example :
    extract_baggage (
      some (
        read (
          inject context
          ++ inject_baggage (
              mutates
                (Mutation.sets (codes "k") (0xc3 ∷ 0xa9 ∷ b',' ∷ []) ∷ [])
                (from_header (codes "user = a%20b;ttl=1"))))))
    ≡ mutates
        (Mutation.sets (codes "k") (0xc3 ∷ 0xa9 ∷ b',' ∷ []) ∷ [])
        (from_header (codes "user = a%20b;ttl=1"))
extract_baggage-inject_baggage_example =
    extract_baggage-inject_baggage context (codes "user = a%20b;ttl=1")
      (Mutation.sets (codes "k") (0xc3 ∷ 0xa9 ∷ b',' ∷ []) ∷ [])
      ((omega arith, (omega arith, (omega arith, tt))), tt)

parse_traceparent_iff_example :
    (parse_traceparent (text 0 trace parent 1 [])
      ≡ some (record { trace_id = trace; span_id = parent; trace_flags = 1 }))
    ↔ IsTraceparent
        (text 0 trace parent 1 [])
        (record { trace_id = trace; span_id = parent; trace_flags = 1 })
parse_traceparent_iff_example =
    parse_traceparent_iff (text 0 trace parent 1 [])
      (record { trace_id = trace; span_id = parent; trace_flags = 1 })
