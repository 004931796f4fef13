-- ===== src/Sdk/LeafWire.antt =====
-- src/sdk/leaf_resource.cpp, the reserved attributes: what `ReadWireInfo`, `CheckWireInfo`,
-- `TimeModeAllowed` and `HashDeclaredResource` make of a Resource as a payload carried it. The
-- bytes that the hash takes from memory are little-endian; a `double` is its bit pattern.
pub mod Laws
mod Tests
use Prim.Native.Nat.{bit_xor}
use microtel.Prelude.{
  ℕ, zero, suc, ◌+◌, ◌-◌, ◌*◌, ◌/◌, ◌%◌, ◌^◌, Bool, true, false, ◌&&◌, ◌||◌, ◌==◌, if◌then◌else◌,
  not, List, [], ◌∷◌, ◌++◌, Option, none, some, length,
}
use microtel.Prelude.Bytes.{Bytes, bytes_eq, codes}
use microtel.Prelude.Int.{ℤ, pos, negsuc}
use microtel.Sdk.LeafTime.{eq_ℤ}
use microtel.Sdk.Record.{AttributeValue, KeyValue}

pub data LeafTimeMode : Type 0 where
  concentrator_stamped sync_relative boot_relative unix : LeafTimeMode

abbrev pub mode_eq : LeafTimeMode → LeafTimeMode → Bool
mode_eq concentrator_stamped concentrator_stamped = true
mode_eq sync_relative sync_relative = true
mode_eq boot_relative boot_relative = true
mode_eq unix unix = true
mode_eq _ _ = false

pub record LeafWireInfo : Type 0 where
  pub proto : Option ℤ
  pub time_mode : Option ℤ
  pub encode_time : Option ℤ
  pub sync_age : Option ℤ
  pub boot_id : Option ℤ
  pub dropped_spans : Option ℤ
  pub dropped_items : Option ℤ
  pub wrong_type : Bool
  pub declared : Bool

abbrev reserved_prefix : Bytes
reserved_prefix = codes "microtel.leaf."

-- `starts_with`.
unfoldable pub starts_with : Bytes → Bytes → Bool
starts_with s [] = true
starts_with [] (c ∷ cs) = false
starts_with (d ∷ ds) (c ∷ cs) = d == c && starts_with ds cs

unfoldable pub is_reserved : Bytes → Bool
is_reserved key = starts_with key reserved_prefix

data Slot : Type 0 where
  proto time_mode encode_time sync_age boot_id dropped_spans dropped_items : Slot

unfoldable slot_for : Bytes → Option Slot
slot_for key =
    if bytes_eq (codes "microtel.leaf.proto") key
    then some Slot.proto
    else if bytes_eq (codes "microtel.leaf.time_mode") key
    then some Slot.time_mode
    else if bytes_eq (codes "microtel.leaf.encode_time") key
    then some Slot.encode_time
    else if bytes_eq (codes "microtel.leaf.sync_age") key
    then some Slot.sync_age
    else if bytes_eq (codes "microtel.leaf.boot_id") key
    then some Slot.boot_id
    else if bytes_eq (codes "microtel.leaf.dropped_spans") key
    then some Slot.dropped_spans
    else if bytes_eq (codes "microtel.leaf.dropped_items") key
    then some Slot.dropped_items
    else none

-- `*slot = *v`.
unfoldable store : Slot → ℤ → LeafWireInfo → LeafWireInfo
store Slot.proto v info = record info { proto = some v }
store Slot.time_mode v info = record info { time_mode = some v }
store Slot.encode_time v info = record info { encode_time = some v }
store Slot.sync_age v info = record info { sync_age = some v }
store Slot.boot_id v info = record info { boot_id = some v }
store Slot.dropped_spans v info = record info { dropped_spans = some v }
store Slot.dropped_items v info = record info { dropped_items = some v }

unfoldable fill : Option Slot → AttributeValue → LeafWireInfo → LeafWireInfo
fill none v info = info
fill (some slot) (AttributeValue.int64 v) info = store slot v info
fill (some slot) v info = record info { wrong_type = true }

unfoldable read_entry : KeyValue → LeafWireInfo → LeafWireInfo
read_entry kv info =
    if not (is_reserved kv.key)
    then info
    else fill (slot_for kv.key) kv.value (record info { declared = true })

unfoldable read_entries : List KeyValue → LeafWireInfo → LeafWireInfo
read_entries [] info = info
read_entries (kv ∷ kvs) info = read_entries kvs (read_entry kv info)

abbrev empty_info : LeafWireInfo
empty_info = record {
  proto = none;
  time_mode = none;
  encode_time = none;
  sync_age = none;
  boot_id = none;
  dropped_spans = none;
  dropped_items = none;
  wrong_type = false;
  declared = false;
}

pub read_wire_info : List KeyValue → LeafWireInfo
read_wire_info resource = read_entries resource empty_info

abbrev pub is_some : {V : Type 0} → Option V → Bool
is_some none = false
is_some (some v) = true

-- `==` of an optional integer and an integer.
abbrev is_value : Option ℤ → ℤ → Bool
is_value none v = false
is_value (some w) v = eq_ℤ w v

-- The `switch`.
unfoldable check_mode : LeafWireInfo → ℤ → Option LeafTimeMode
check_mode info m =
    if eq_ℤ m (pos 0)
    then some LeafTimeMode.concentrator_stamped
    else if eq_ℤ m (pos 1)
    then if not (is_some info.encode_time) || not (is_some info.sync_age)
      then none
      else some LeafTimeMode.sync_relative
    else if eq_ℤ m (pos 2)
    then if not (is_some info.encode_time) || not (is_some info.boot_id)
      then none
      else some LeafTimeMode.boot_relative
    else none

pub check_wire_info : LeafWireInfo → Option LeafTimeMode
check_wire_info info =
    if not info.declared
    then some LeafTimeMode.unix
    else if info.wrong_type || not (is_value info.proto (pos 1))
    then none
    else elim info.time_mode [ none ↦ none | some m ↦ check_mode info m ]

-- `==` of two optional modes, the first one set.
abbrev is_mode : LeafTimeMode → Option LeafTimeMode → Bool
is_mode m none = false
is_mode m (some configured) = mode_eq m configured

unfoldable pub time_mode_allowed : LeafTimeMode → Option LeafTimeMode → Bool
time_mode_allowed LeafTimeMode.unix configured = is_mode LeafTimeMode.unix configured
time_mode_allowed declared configured =
    not (is_some configured)
    || is_mode declared configured
    || mode_eq declared LeafTimeMode.concentrator_stamped

-- `Fnv::Add` of bytes in memory.
unfoldable add_bytes : Bytes → ℕ → ℕ
add_bytes [] hash = hash
add_bytes (byte ∷ bytes) hash = add_bytes bytes (bit_xor hash byte * 1099511628211 % 2 ^ 64)

-- The bytes of a number of this many bytes.
unfoldable little_endian : ℕ → ℕ → Bytes
little_endian zero v = []
little_endian (suc n) v = v % 256 ∷ little_endian n (v / 256)

abbrev add_word : ℕ → ℕ → ℕ
add_word v hash = add_bytes (little_endian 8 v) hash

-- A negative `int64_t` is kept in two's complement.
abbrev word_of : ℤ → ℕ
word_of (pos n) = n
word_of (negsuc n) = 2 ^ 64 - 1 - n

abbrev byte_of : Bool → Bytes
byte_of true = 1 ∷ []
byte_of false = 0 ∷ []

unfoldable add_text : Bytes → ℕ → ℕ
add_text s hash = add_bytes s (add_word (length s) hash)

-- `HashElements`, behind the size.
unfoldable add_each : {A : Type 0} → (A → ℕ → ℕ) → List A → ℕ → ℕ
add_each add [] hash = hash
add_each add (v ∷ vs) hash = add_each add vs (add v hash)

abbrev hash_elements : {A : Type 0} → (A → ℕ → ℕ) → List A → ℕ → ℕ
hash_elements add vs hash = add_each add vs (add_word (length vs) hash)

abbrev add_bool : Bool → ℕ → ℕ
add_bool b hash = add_bytes (byte_of b) hash

abbrev add_int : ℤ → ℕ → ℕ
add_int i hash = add_word (word_of i) hash

unfoldable hash_value : AttributeValue → ℕ → ℕ
hash_value (AttributeValue.boolean b) hash = add_bool b (add_word 0 hash)
hash_value (AttributeValue.int64 i) hash = add_int i (add_word 1 hash)
hash_value (AttributeValue.double d) hash = add_word d (add_word 2 hash)
hash_value (AttributeValue.string s) hash = add_text s (add_word 3 hash)
hash_value (AttributeValue.booleans bs) hash = hash_elements add_bool bs (add_word 4 hash)
hash_value (AttributeValue.int64s is) hash = hash_elements add_int is (add_word 5 hash)
hash_value (AttributeValue.doubles ds) hash = hash_elements add_word ds (add_word 6 hash)
hash_value (AttributeValue.strings ss) hash = hash_elements add_text ss (add_word 7 hash)

unfoldable hash_entries : List KeyValue → ℕ → ℕ
hash_entries [] hash = hash
hash_entries (kv ∷ kvs) hash =
    hash_entries kvs
      (if is_reserved kv.key then hash else hash_value kv.value (add_text kv.key hash))

pub hash_declared_resource : List KeyValue → ℕ
hash_declared_resource resource = hash_entries resource 14695981039346656037
