-- ===== src/Api/Trace.antt =====
-- src/api/trace.cpp and include/microtel/trace.hpp: identifiers, their hexadecimal form, and the
-- span context. A byte array is a list of bytes, whose width `IsBytes` states.
pub mod Hex
use microtel.Prelude.{
  ℕ, suc, ◌+◌, ◌-◌, ◌/◌, ◌%◌, ◌<◌, ◌≡◌, Bool, true, false, ◌&&◌, ◌||◌, ◌==◌, if◌then◌else◌, not,
  ltb, List, [], ◌∷◌, length,
}
use microtel.Prelude.Bytes.{Bytes}
use microtel.Api.TraceState.{TraceState}

-- `TraceId::IsValid` and `SpanId::IsValid`: some byte is not zero.
unfoldable pub id_is_valid : Bytes → Bool
id_is_valid [] = false
id_is_valid (b ∷ bs) = not (b == 0) || id_is_valid bs

unfoldable pub nibble_to_hex : ℕ → ℕ
nibble_to_hex nibble = if ltb nibble 10 then b'0' + nibble else b'a' + (nibble - 10)

-- `byte >> 4` and `byte & 0x0f`.
unfoldable pub bytes_to_lower_hex : Bytes → Bytes
unfolding nibble_to_hex
bytes_to_lower_hex [] = []
bytes_to_lower_hex (byte ∷ bytes) =
    nibble_to_hex (byte / 16) ∷ nibble_to_hex (byte % 16) ∷ bytes_to_lower_hex bytes

pub record SpanContext : Type 0 where
  pub trace_id : Bytes
  pub span_id : Bytes
  pub trace_flags : ℕ
  pub trace_state : TraceState
  pub remote : Bool

-- `SpanContext::IsValid`.
unfoldable pub is_valid : SpanContext → Bool
is_valid c = id_is_valid c.trace_id && id_is_valid c.span_id

unfoldable pub is_sampled : ℕ → Bool
is_sampled flags = not (flags % 2 == 0)

abbrev pub AllBytes : Bytes → Type 0
AllBytes [] = Unit
AllBytes (b ∷ bs) = (b < 256) × AllBytes bs

-- A `std::array<std::uint8_t, n>`.
abbrev pub IsBytes : ℕ → Bytes → Type 0
IsBytes n bs = (length bs ≡ n) × AllBytes bs
