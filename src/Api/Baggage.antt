-- ===== src/Api/Baggage.antt =====
-- src/api/baggage.cpp: the W3C `baggage` list, its limits and its copy-on-write mutators.
-- A character is a byte. `none` is the null pointer, the empty baggage.
pub mod Octets
pub mod Limits
pub mod RoundTrip
mod Tests
use microtel.Prelude.{
  ℕ, zero, suc, ◌+◌, ◌-◌, ◌*◌, ◌/◌, ◌%◌, Bool, true, false, ◌&&◌, ◌||◌, ◌==◌, if◌then◌else◌, not,
  ltb, leb, List, [], ◌∷◌, ◌++◌, Option, none, some, ◌>>=◌, length, get_or,
}
use microtel.Prelude.Bytes.{Bytes, bytes_eq, all, split_at, trim}
use microtel.Api.Baggage.Octets.{
  is_digit, is_alpha, token_specials, holds, is_token_char, is_token, is_baggage_octet,
  is_wire_value, is_hex_digit, hex_digit_value, upper_hex_digits, push_back, decode_octet,
  decode_escape, decode_value, needs_escape, encoded_size, append_encoded,
}

pub record Entry : Type 0 where
  pub key : Bytes
  pub value : Bytes
  pub properties : Bytes
  pub member_bytes : ℕ

abbrev pub Baggage : Type 0
Baggage = Option (List Entry)

abbrev pub max_entries : ℕ
max_entries = 180

abbrev pub max_entry_bytes : ℕ
max_entry_bytes = 4096

abbrev pub max_total_bytes : ℕ
max_total_bytes = 8192

-- The `;` goes before every property but the first.
pub append_to : Bytes → Bytes → Bytes
append_to [] property = property
append_to (c ∷ out) property = (c ∷ out) ++ b';' ∷ property

pub append_property : Bytes → Bytes → Option Bytes
append_property property out = elim (split_at b'=' property) [
  | none ↦
      let name = trim property in if not (is_token name) then none else some (append_to out name)
  | some (before, after) ↦
      let name = trim before in
      let value = trim after in
      if not (is_token name)
      then none
      else if not (is_wire_value value)
      then none
      else some (append_to out (name ++ b'=' ∷ value))
]

-- `none` is `return false`. A turn of the loop leaves a shorter tail, so the fuel is its length
-- and one for the last turn.
pub parse_properties : ℕ → Bytes → Bytes → Option Bytes
parse_properties zero tail out = none
parse_properties (suc fuel) tail out = elim (split_at b';' tail) [
  | none ↦ append_property (trim tail) out
  | some (property, rest) ↦ elim (append_property (trim property) out) [
    | none ↦ none
    | some out' ↦ parse_properties fuel rest out'
  ]
]

-- The properties with their `;`, when there are any.
abbrev property_bytes : Bytes → ℕ
property_bytes [] = 0
property_bytes (c ∷ cs) = 1 + length (c ∷ cs)

pub make_entry : Bytes → Bytes → Bytes → Entry
make_entry key value properties = record {
  key = key;
  value = value;
  properties = properties;
  member_bytes = length key + 1 + encoded_size value + property_bytes properties;
}

-- The properties of a member, from the text behind its first `;`.
member_properties : Option Bytes → Option Bytes
member_properties none = some []
member_properties (some tail) = parse_properties (suc (length tail)) tail []

-- The text before the first `;` and, when there is one, the text behind it.
abbrev head_and_tail : Bytes → Bytes × Option Bytes
head_and_tail member = elim (split_at b';' member) [
  | none ↦ (member, none)
  | some (head, tail) ↦ (head, some tail)
]

-- The member behind the two searches, for the `;` and then for the `=` in front of it.
parse_parts : Option (Bytes × Bytes) → Option Bytes → Option Entry
parse_parts none tail = none
parse_parts (some (before, after)) tail = if not (is_token (trim before)) then none else do
  value ← decode_value (trim after)
  properties ← member_properties tail
  some (make_entry (trim before) value properties)

pub parse_member : Bytes → Option Entry
parse_member member =
    let (head, tail) = head_and_tail member in parse_parts (split_at b'=' head) tail

pub contains : List Entry → Bytes → Bool
contains [] key = false
contains (e ∷ es) key = bytes_eq e.key key || contains es key

pub total_with : ℕ → ℕ → ℕ → ℕ
total_with total count member_bytes = total + (if count == 0 then 0 else 1) + member_bytes

-- The loop of `SerialisedSize`, from a count and a total.
pub sizes : ℕ → ℕ → List Entry → ℕ
sizes total count [] = total
sizes total count (e ∷ es) = sizes (total_with total count e.member_bytes) (suc count) es

abbrev pub serialised_size : List Entry → ℕ
serialised_size es = sizes 0 0 es

pub data Admission : Type 0 where
  accepted : Admission
  skipped : Admission
  stopped : Admission

pub admit : Entry → List Entry → ℕ → Admission
admit candidate entries total =
    if ltb max_entry_bytes candidate.member_bytes
    then Admission.skipped
    else if contains entries candidate.key
    then Admission.skipped
    else if leb max_entries (length entries)
    then Admission.stopped
    else if ltb max_total_bytes (total_with total (length entries) candidate.member_bytes)
    then Admission.stopped
    else Admission.accepted

-- The member up to the next `,` and the header behind it.
abbrev pub next_member : Bytes → Bytes × Bytes
next_member header = elim (split_at b',' header) [
  | none ↦ (header, [])
  | some (member, rest) ↦ (member, rest)
]

abbrev pub parse_nonempty : Bytes → Option Entry
parse_nonempty [] = none
parse_nonempty (c ∷ cs) = parse_member (c ∷ cs)

-- The body of the loop for a parsed member; `go` runs the rest of the loop.
pub take_member : (List Entry → ℕ → List Entry) → List Entry → ℕ → Option Entry → List Entry
take_member go entries total none = go entries total
take_member go entries total (some e) = elim (admit e entries total) [
  | stopped ↦ entries
  | skipped ↦ go entries total
  | accepted ↦ go (entries ++ e ∷ []) (total_with total (length entries) e.member_bytes)
]

-- A turn of the loop leaves a shorter header, so the header's length is fuel enough.
pub parse_members : ℕ → Bytes → List Entry → ℕ → List Entry
parse_members zero header entries total = entries
parse_members (suc fuel) [] entries total = entries
parse_members (suc fuel) (c ∷ cs) entries total =
    let (member, rest) = next_member (c ∷ cs) in
    take_member (parse_members fuel rest) entries total (parse_nonempty (trim member))

pub seal : List Entry → Baggage
seal [] = none
seal (e ∷ es) = some (e ∷ es)

pub from_header : Bytes → Baggage
from_header header = seal (parse_members (length header) header [] 0)

property_text : Bytes → Bytes
property_text [] = []
property_text (c ∷ cs) = b';' ∷ c ∷ cs

-- A list-member as `ToHeader` appends it.
pub member_text : Entry → Bytes
member_text e = e.key ++ (b'=' ∷ (append_encoded e.value ++ property_text e.properties))

pub append_member : Bytes → Entry → Bytes
append_member [] e = member_text e
append_member (c ∷ cs) e = (c ∷ cs) ++ b',' ∷ member_text e

pub append_members : Bytes → List Entry → Bytes
append_members header [] = header
append_members header (e ∷ es) = append_members (append_member header e) es

pub entries_of : Baggage → List Entry
entries_of none = []
entries_of (some es) = es

pub to_header : Baggage → Bytes
to_header none = []
to_header (some es) = append_members [] es

find : List Entry → Bytes → Option Bytes
find [] key = none
find (e ∷ es) key = if bytes_eq e.key key then some e.value else find es key

pub get : Baggage → Bytes → Option Bytes
get none key = none
get (some es) key = find es key

pub size : Baggage → ℕ
size none = 0
size (some es) = length es

pub empty : Baggage → Bool
empty b = size b == 0

-- `*existing = candidate`, or `push_back` when no entry has its key.
pub replace_or_push : Entry → List Entry → List Entry
replace_or_push candidate [] = candidate ∷ []
replace_or_push candidate (e ∷ es) =
    if bytes_eq e.key candidate.key then candidate ∷ es else e ∷ replace_or_push candidate es

pub is_some : Option Bytes → Bool
is_some none = false
is_some (some v) = true

pub set : Baggage → Bytes → Bytes → Baggage
set b key value =
    let replaces_existing = is_some (get b key) in
    let candidate = make_entry key value [] in
    let entries = replace_or_push candidate (entries_of b) in
    if not (is_token key) || (not replaces_existing && leb max_entries (size b))
    then b
    else if ltb max_entry_bytes candidate.member_bytes
    then b
    else if ltb max_total_bytes (serialised_size entries)
    then b
    else seal entries

pub except : Bytes → List Entry → List Entry
except key [] = []
except key (e ∷ es) = if not (bytes_eq e.key key) then e ∷ except key es else except key es

pub erase : Baggage → Bytes → Baggage
erase b key = if not (is_some (get b key)) then b else seal (except key (entries_of b))
