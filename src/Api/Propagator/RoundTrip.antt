-- ===== src/Api/Propagator/RoundTrip.antt =====
-- `Extract` after `Inject`.
use microtel.Prelude.{
  ◌/◌, ◌%◌, ◌<◌, ◌≡◌, refl, sym, ap, ◌∙◌, inl, true, false, if◌then◌else◌, List, [], ◌∷◌, Option,
  none, some, arith,
}
use microtel.Prelude.Bytes.{Bytes, bytes_eq}
use microtel.Api.TraceState.{TraceState, from_header, to_header}
use microtel.Api.TraceState.Lists.{IsWellFormed}
use microtel.Api.TraceState.RoundTrip.{from_header-to_header, from_header_empty}
use microtel.Api.Trace.{SpanContext, is_valid, id_is_valid, bytes_to_lower_hex, IsBytes}
use microtel.Api.Propagator.{
  traceparent_header, tracestate_header, parse_traceparent, format_traceparent, inject, extract,
  Traceparent,
}
use microtel.Api.Propagator.Hex.{digit_of_nibble}
use microtel.Api.Propagator.Text.{text}
use microtel.Api.Propagator.Layout.{parse_traceparent-text}

-- A carrier that keeps what the setter was given, the first of a name.
abbrev pub read : List (Bytes × Bytes) → Bytes → Option Bytes
read [] name = none
read ((k, v) ∷ hs) name = if bytes_eq k name then some v else read hs name

pub record IsContext (c : SpanContext) : Type 0 where
  pub trace_width : IsBytes 16 c.trace_id
  pub span_width : IsBytes 8 c.span_id
  pub flags_byte : c.trace_flags < 256
  pub valid : is_valid c ≡ true
  pub state : IsWellFormed c.trace_state

format-text :
    (c : SpanContext)
    → c.trace_flags < 256
    → format_traceparent c ≡ text 0 c.trace_id c.span_id c.trace_flags []
unfolding format_traceparent bytes_to_lower_hex
format-text c h = rw (
  digit_of_nibble (c.trace_flags / 16) (omega arith),
  digit_of_nibble (c.trace_flags % 16) (omega arith),
)

-- What a getter finds of the two headers in what was injected.
unfoldable pub pairs : Bytes → List (Bytes × Bytes)
pairs [] = []
pairs (c ∷ cs) = (tracestate_header, c ∷ cs) ∷ []

pub injected :
    (c : SpanContext)
    → is_valid c ≡ true
    → inject c ≡ (traceparent_header, format_traceparent c) ∷ pairs (to_header c.trace_state)
unfolding inject
injected c v = rw v (
    ap (λ (ps : List (Bytes × Bytes)). (traceparent_header, format_traceparent c) ∷ ps)
      (same (to_header c.trace_state)))
  where
    same : (h : Bytes) → elim h [ [] ↦ [] | c ∷ cs ↦ (tracestate_header, c ∷ cs) ∷ [] ] ≡ pairs h
    same [] = unfold pairs in refl
    same (c ∷ cs) = unfold pairs in refl

state_of : Option Bytes → TraceState
state_of none = none
state_of (some state) = from_header state

state_read :
    (parent h : Bytes)
    → state_of (read ((traceparent_header, parent) ∷ pairs h) tracestate_header) ≡ from_header h
unfolding state_of pairs bytes_eq
state_read parent [] = sym from_header_empty
state_read parent (c ∷ cs) = refl

extract_read :
    (getter : Bytes → Option Bytes) (parent : Bytes) (p : Traceparent)
    → getter traceparent_header ≡ some parent
    → parse_traceparent parent ≡ some p
    → extract (some getter) ≡ record {
      trace_id = p.trace_id;
      span_id = p.span_id;
      trace_flags = p.trace_flags;
      trace_state = state_of (getter tracestate_header);
      remote = true;
    }
unfolding extract state_of
extract_read getter parent p e f = ground arith

ids :
    (c : SpanContext)
    → is_valid c ≡ true
    → (id_is_valid c.trace_id ≡ true) × (id_is_valid c.span_id ≡ true)
unfolding is_valid
ids c h = ground arith

-- A valid context comes through a carrier as it was, ids, flags and trace state, and is marked
-- remote.
pub extract-inject :
    (c : SpanContext) → IsContext c → extract (some (read (inject c))) ≡ record c { remote = true }
extract-inject c h = rw (injected c h.valid) (
    extract_read
      (read ((traceparent_header, format_traceparent c) ∷ pairs (to_header c.trace_state)))
      (format_traceparent c)
      (record { trace_id = c.trace_id; span_id = c.span_id; trace_flags = c.trace_flags })
      (unfold bytes_eq in refl)
      (ap parse_traceparent (format-text c h.flags_byte)
        ∙ parse_traceparent-text 0 c.trace_id c.span_id c.trace_flags [] h.trace_width h.span_width
            (omega arith) h.flags_byte (inl refl) (ids c h.valid).0 (ids c h.valid).1)
    ∙ ap (λ (ts : TraceState). record c { trace_state = ts; remote = true })
        (state_read (format_traceparent c) (to_header c.trace_state)
          ∙ from_header-to_header c.trace_state h.state))

-- An invalid context is not injected at all.
pub inject_invalid : (c : SpanContext) → is_valid c ≡ false → inject c ≡ []
unfolding inject
inject_invalid c h = ground arith
