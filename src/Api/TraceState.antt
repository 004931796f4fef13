-- ===== src/Api/TraceState.antt =====
-- src/api/trace_state.cpp: the W3C `tracestate` list, its grammar and its copy-on-write mutators.
-- A character is a byte. `none` is the null pointer, the empty state.
pub mod Grammar
pub mod Lists
pub mod Mutators
pub mod History
pub mod RoundTrip
mod Tests
use microtel.Prelude.{
  ℕ, zero, suc, ◌+◌, Bool, true, false, ◌&&◌, ◌||◌, ◌==◌, if◌then◌else◌, not, ltb, leb, List, [],
  ◌∷◌, ◌++◌, Option, none, some, length,
}
use microtel.Prelude.Bytes.{Bytes, bytes_eq, all, split_at, trim, front, back}

pub record Entry : Type 0 where
  pub key : Bytes
  pub value : Bytes

abbrev pub TraceState : Type 0
TraceState = Option (List Entry)

abbrev pub max_entries : ℕ
max_entries = 32

abbrev max_simple_key_chars : ℕ
max_simple_key_chars = 256

abbrev max_tenant_id_chars : ℕ
max_tenant_id_chars = 241

abbrev max_system_id_chars : ℕ
max_system_id_chars = 14

abbrev max_value_chars : ℕ
max_value_chars = 256

is_lower_alpha : ℕ → Bool
is_lower_alpha c = leb b'a' c && leb c b'z'

is_digit : ℕ → Bool
is_digit c = leb b'0' c && leb c b'9'

pub is_key_tail_char : ℕ → Bool
is_key_tail_char c =
    is_lower_alpha c || is_digit c || c == b'_' || c == b'-' || c == b'*' || c == b'/'

has_valid_key_tail : Bytes → Bool
has_valid_key_tail [] = true
has_valid_key_tail (c ∷ cs) = all is_key_tail_char cs

is_lower_alpha_led_component : Bytes → ℕ → Bool
is_lower_alpha_led_component [] max_chars = false
is_lower_alpha_led_component (c ∷ cs) max_chars =
    if ltb max_chars (length (c ∷ cs))
    then false
    else is_lower_alpha c && has_valid_key_tail (c ∷ cs)

is_tenant_id : Bytes → Bool
is_tenant_id [] = false
is_tenant_id (c ∷ cs) =
    if ltb max_tenant_id_chars (length (c ∷ cs))
    then false
    else (is_lower_alpha c || is_digit c) && has_valid_key_tail (c ∷ cs)

pub is_valid_key : Bytes → Bool
is_valid_key key = elim (split_at b'@' key) [
  | none ↦ is_lower_alpha_led_component key max_simple_key_chars
  | some (tenant, system) ↦
      is_tenant_id tenant && is_lower_alpha_led_component system max_system_id_chars
]

is_value_char : ℕ → Bool
is_value_char c = leb b' ' c && leb c b'~' && not (c == b',') && not (c == b'=')

pub is_valid_value : Bytes → Bool
is_valid_value [] = false
is_valid_value (c ∷ cs) =
    if ltb max_value_chars (length (c ∷ cs))
    then false
    else if back (c ∷ cs) == b' '
    then false
    else all is_value_char (c ∷ cs)

-- `Contains`.
pub contains : List Entry → Bytes → Bool
contains [] key = false
contains (e ∷ es) key = bytes_eq e.key key || contains es key

-- `AppendExcept`, from the null pointer too.
pub entries_of : TraceState → List Entry
entries_of none = []
entries_of (some es) = es

pub except : Bytes → List Entry → List Entry
except key [] = []
except key (e ∷ es) = if bytes_eq e.key key then except key es else e ∷ except key es

pub parse_member : Bytes → Option Entry
parse_member member = elim (split_at b'=' member) [
  | none ↦ none
  | some (key, value) ↦
      if not (is_valid_key key) || not (is_valid_value value)
      then none
      else some (record { key = key; value = value })
]

-- The text up to the next separator and the text behind it: `header.find` and the two `substr`.
abbrev pub next_member : Bytes → Bytes × Bytes
next_member header = elim (split_at b',' header) [
  | none ↦ (header, [])
  | some (member, rest) ↦ (member, rest)
]

-- The body of the loop behind the trimming, for a member of the header; `go` runs the rest of the
-- loop, and `none` is `return false`.
take_member : (List Entry → Option (List Entry)) → List Entry → Bytes → Option (List Entry)
take_member go entries [] = go entries
take_member go entries (m ∷ ms) =
    if length entries == max_entries then none else elim (parse_member (m ∷ ms)) [
      | none ↦ none
      | some e ↦ if contains entries e.key then none else go (entries ++ e ∷ [])
    ]

-- The `while` loop on fuel. Each round takes a character at least, so the header's length is fuel
-- enough.
parse_members : ℕ → Bytes → List Entry → Option (List Entry)
parse_members zero header entries = some entries
parse_members (suc fuel) [] entries = some entries
parse_members (suc fuel) (c ∷ cs) entries =
    take_member (parse_members fuel (next_member (c ∷ cs)).1) entries
      (trim (next_member (c ∷ cs)).0)

pub from_header : Bytes → TraceState
from_header header = elim (parse_members (length header) header []) [
  | none ↦ none
  | some [] ↦ none
  | some (e ∷ es) ↦ some (e ∷ es)
]

-- The loop of `ToHeader` from the text that is written so far.
to_header_from : Bytes → List Entry → Bytes
to_header_from header [] = header
to_header_from header (e ∷ es) =
    to_header_from
      ((elim header [ [] ↦ [] | c ∷ cs ↦ (c ∷ cs) ++ b',' ∷ [] ]) ++ (e.key ++ b'=' ∷ e.value)) es

pub to_header : TraceState → Bytes
to_header none = []
to_header (some es) = to_header_from [] es

pub size : TraceState → ℕ
size none = 0
size (some es) = length es

pub empty : TraceState → Bool
empty ts = size ts == 0

pub find : Bytes → List Entry → Option Bytes
find key [] = none
find key (e ∷ es) = if bytes_eq e.key key then some e.value else find key es

pub get : TraceState → Bytes → Option Bytes
get none key = none
get (some es) key = find key es

abbrev pub has_value {ℓ} : {A : Type ℓ} → Option A → Bool
has_value none = false
has_value (some a) = true

-- Whether `Set` takes the pair, or returns the state as it is.
pub admits : TraceState → Bytes → Bytes → Bool
admits ts key value =
    let would_overflow = not (has_value (get ts key)) && leb max_entries (size ts) in
    not (not (is_valid_key key) || not (is_valid_value value) || would_overflow)

pub set : TraceState → Bytes → Bytes → TraceState
set ts key value =
    if admits ts key value
    then some (record { key = key; value = value } ∷ except key (entries_of ts))
    else ts

pub erase : TraceState → Bytes → TraceState
erase ts key =
    if not (has_value (get ts key))
    then ts
    else if size ts == 1
    then none
    else some (except key (entries_of ts))
