-- ===== src/Wire/GrpcStatus.antt =====
-- src/wire/grpc/grpc_status.cpp: the table of gRPC statuses, the decoding of `grpc-message` and the
-- text of an error. A character is a byte; an `int` is an integer.
pub mod Decode
pub mod Format
mod Tests
use Prim.Native.String.{String}
use microtel.Prelude.{
  ℕ, zero, suc, ◌+◌, ◌-◌, ◌*◌, ◌/◌, ◌%◌, Bool, true, false, ◌&&◌, ◌||◌, ◌==◌, if◌then◌else◌, not,
  ltb, leb, List, [], ◌∷◌, ◌++◌, Option, none, some, length, take, get_elem?,
}
use microtel.Prelude.Int.{ℤ, pos, negsuc}
use microtel.Prelude.Bytes.{Bytes, codes}

pub record GrpcStatusInfo : Type 0 where
  pub name : Bytes
  pub retryable : Bool

abbrev status : String → Bool → GrpcStatusInfo
status name retryable = record { name = codes name; retryable = retryable }

abbrev status_table : List GrpcStatusInfo
status_table =
    status "OK" false
    ∷ status "CANCELLED" true
    ∷ status "UNKNOWN" false
    ∷ status "INVALID_ARGUMENT" false
    ∷ status "DEADLINE_EXCEEDED" true
    ∷ status "NOT_FOUND" false
    ∷ status "ALREADY_EXISTS" false
    ∷ status "PERMISSION_DENIED" false
    ∷ status "RESOURCE_EXHAUSTED" false
    ∷ status "FAILED_PRECONDITION" false
    ∷ status "ABORTED" true
    ∷ status "OUT_OF_RANGE" true
    ∷ status "UNIMPLEMENTED" false
    ∷ status "INTERNAL" false
    ∷ status "UNAVAILABLE" true
    ∷ status "DATA_LOSS" true
    ∷ status "UNAUTHENTICATED" false
    ∷ []

abbrev unrecognized_name : Bytes
unrecognized_name = codes "UNRECOGNIZED"

abbrev grpc_status_count : ℕ
grpc_status_count = 17

abbrev pub max_grpc_message_chars : ℕ
max_grpc_message_chars = 256

pub hex_value : ℕ → Option ℕ
hex_value c =
    if leb b'0' c && leb c b'9'
    then some (c - b'0')
    else if leb b'a' c && leb c b'f'
    then some (c - b'a' + 10)
    else if leb b'A' c && leb c b'F'
    then some (c - b'A' + 10)
    else none

-- `DecodeEscapeAt` at a `%` with two characters behind it.
decode_digits : Option ℕ → Option ℕ → Option ℕ
decode_digits none _ = none
decode_digits (some high) none = none
decode_digits (some high) (some low) = some (high * 16 + low)

-- A turn of the loop: the decoded octet in front of the rest behind the escape, or the character in
-- front of the rest behind it.
decode_turn : Option ℕ → ℕ → Bytes → Bytes → Bytes
decode_turn none c next behind = c ∷ next
decode_turn (some octet) c next behind = octet ∷ behind

pub percent_decode : Bytes → Bytes
percent_decode [] = []
percent_decode (c ∷ []) = c ∷ []
percent_decode (c ∷ d ∷ []) = c ∷ d ∷ []
percent_decode (c ∷ high ∷ low ∷ rest) =
    decode_turn (if not (c == b'%') then none else decode_digits (hex_value high) (hex_value low)) c
      (percent_decode (high ∷ low ∷ rest)) (percent_decode rest)

-- `code` outside 0 to 16 is `nullopt`.
pub lookup_grpc_status : ℤ → Option GrpcStatusInfo
lookup_grpc_status (negsuc n) = none
lookup_grpc_status (pos n) = if leb grpc_status_count n then none else get_elem? status_table n

-- `std::to_string` of an `int`; a digit for each division by ten, at most as many as the fuel.
pub digits : ℕ → ℕ → Bytes
digits zero n = []
digits (suc fuel) n =
    if ltb n 10 then (n + b'0') ∷ [] else digits fuel (n / 10) ++ (n % 10 + b'0') ∷ []

pub to_string : ℤ → Bytes
to_string (pos n) = digits (suc n) n
to_string (negsuc n) = b'-' ∷ digits (suc (suc n)) (suc n)

name_of : Option GrpcStatusInfo → Bytes
name_of none = unrecognized_name
name_of (some info) = info.name

-- What is appended behind the code: nothing for an empty message.
message_part : Bytes → Bytes
message_part [] = []
message_part (c ∷ cs) = b':' ∷ b' ' ∷ c ∷ cs

pub format_grpc_error : ℤ → Bytes → Bytes
format_grpc_error c decoded_message =
    name_of (lookup_grpc_status c)
    ++ (b' '
        ∷ b'('
        ∷ (to_string c ++ (b')' ∷ message_part (take max_grpc_message_chars decoded_message))))
