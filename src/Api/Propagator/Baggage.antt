-- ===== src/Api/Propagator/Baggage.antt =====
-- src/api/propagator.cpp, `W3CBaggagePropagator`, in a carrier that the trace-context propagator may
-- have written to before it.
use microtel.Prelude.{
  ◌≡◌, refl, inl, inr, if◌then◌else◌, List, [], ◌∷◌, ◌++◌, Option, none, some, Bool-cases, arith,
}
use microtel.Prelude.Bytes.{codes, Bytes, bytes_eq}
use microtel.Api.Trace.{SpanContext, is_valid}
use microtel.Api.TraceState.{to_header}
use microtel.Api.Baggage.{Baggage, empty, size, from_header}
use microtel.Api.Baggage as Baggage
use microtel.Api.Baggage.Limits.{IsWithinLimits}
use microtel.Api.Baggage.Limits.History.{Mutation, mutates, mutates-IsWithinLimits}
use microtel.Api.Baggage.RoundTrip.Mutated.{AllOctets, empty-none, from_header-to_header_mutated}
use microtel.Api.Propagator.{inject}
use microtel.Api.Propagator.RoundTrip.{read, pairs, injected, inject_invalid}

abbrev pub baggage_header : Bytes
baggage_header = codes "baggage"

-- `Inject` with a setter: the headers that it sets.
unfoldable pub inject_baggage : Baggage → List (Bytes × Bytes)
inject_baggage b = if empty b then [] else (baggage_header, Baggage.to_header b) ∷ []

-- `Extract`.
unfoldable pub extract_baggage : Option (Bytes → Option Bytes) → Baggage
extract_baggage none = none
extract_baggage (some getter) = elim (getter baggage_header) [
  | none ↦ none
  | some baggage ↦ from_header baggage
]

behind :
    (h : Bytes) (headers : List (Bytes × Bytes))
    → read (pairs h ++ headers) baggage_header ≡ read headers baggage_header
unfolding pairs bytes_eq
behind [] headers = refl
behind (c ∷ cs) headers = refl

-- The headers of the trace context have other names.
read-inject :
    (c : SpanContext) (headers : List (Bytes × Bytes))
    → read (inject c ++ headers) baggage_header ≡ read headers baggage_header
unfolding bytes_eq
read-inject c headers = elim (Bool-cases (is_valid c)) [
  | inr v ↦ rw (inject_invalid c v) refl
  | inl v ↦ rw (injected c v) (behind (to_header c.trace_state) headers)
]

extract_within :
    (b : Baggage)
    → IsWithinLimits b
    → from_header (Baggage.to_header b) ≡ b
    → (getter : Bytes → Option Bytes)
    → getter baggage_header ≡ read (inject_baggage b) baggage_header
    → extract_baggage (some getter) ≡ b
unfolding extract_baggage inject_baggage bytes_eq
extract_within b w r getter g = elim (Bool-cases (empty b)) [
  | inl e ↦ ground (arith, empty-none b w e)
  | inr e ↦ ground arith
]

-- Whatever header a baggage is parsed from and whatever mutations follow, whose values are strings
-- of bytes: it comes back from a carrier that both propagators wrote to, with any span context.
pub extract_baggage-inject_baggage :
    (c : SpanContext) (header : Bytes) (ms : List Mutation)
    → AllOctets ms
    → extract_baggage (some (read (inject c ++ inject_baggage (mutates ms (from_header header)))))
      ≡ mutates ms (from_header header)
extract_baggage-inject_baggage c header ms o =
    let b = mutates ms (from_header header) in
    extract_within b (mutates-IsWithinLimits header ms) (from_header-to_header_mutated header ms o)
      (read (inject c ++ inject_baggage b)) (read-inject c (inject_baggage b))
