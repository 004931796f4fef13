-- ===== src/Sdk/LeafWire/Laws.antt =====
-- src/sdk/leaf_resource.cpp, `ReadWireInfo` and `CheckWireInfo`: what the receiver relies on once a payload's header has passed its checks.
use microtel.Prelude.{
  ℕ, Bool, true, false, ◌||◌, List, [], ◌∷◌, Option, none, some, ◌≡◌, ◌↔◌, refl, sym, ◌∙◌, inl, inr,
  arith, if◌then◌else◌, Bool-cases, Option-cases,
}
use microtel.Prelude.Int.{ℤ}
use microtel.Sdk.Record.{AttributeValue, KeyValue}
use microtel.Sdk.LeafWire.{
  LeafTimeMode, LeafWireInfo, Slot, is_reserved, slot_for, store, fill, read_entry, read_entries,
  read_wire_info, is_some, check_mode, check_wire_info, hash_entries, hash_declared_resource,
  hash_value, add_text, empty_info,
}

unfoldable pub any_reserved : List KeyValue → Bool
any_reserved [] = false
any_reserved (kv ∷ kvs) = is_reserved kv.key || any_reserved kvs

declared-fill :
    (o : Option Slot) (v : AttributeValue) (info : LeafWireInfo)
    → (fill o v info).declared ≡ info.declared
unfolding fill store
declared-fill o v info = ground arith

declared-read_entries :
    (kvs : List KeyValue) (info : LeafWireInfo)
    → (read_entries kvs info).declared ≡ (info.declared || any_reserved kvs)
unfolding read_entries read_entry any_reserved
declared-read_entries [] info = ground arith
declared-read_entries (kv ∷ kvs) info =
    let step = declared-read_entries kvs (read_entry kv info) in
    let filled = declared-fill (slot_for kv.key) kv.value (record info { declared = true }) in
    ground (arith, step, filled)

check_mode-declared :
    (info : LeafWireInfo) (m : ℤ) → check_mode info m ≡ some LeafTimeMode.unix → false ≡ true
unfolding check_mode
check_mode-declared info m h = ground arith

unix-declared :
    (info : LeafWireInfo) → check_wire_info info ≡ some LeafTimeMode.unix → info.declared ≡ false
unfolding check_wire_info
unix-declared info h = elim (Option-cases info.time_mode) [
  | inl e ↦ ground arith
  | inr (m, e) ↦ ground (arith, check_mode-declared info m)
]

-- A ResourceSpans is taken for a full node's exactly when no key of its Resource is reserved: that
-- mode is never read from the wire.
check_wire_info-read_wire_info :
    (resource : List KeyValue)
    → (check_wire_info (read_wire_info resource) ≡ some LeafTimeMode.unix)
      ↔ (any_reserved resource ≡ false)
unfolding check_wire_info read_wire_info
check_wire_info-read_wire_info resource =
    let info = read_wire_info resource in
    let header = declared-read_entries resource empty_info in
    (λ h. sym header ∙ unix-declared info h, λ none_reserved. rw (header, none_reserved) refl)

-- What a mode needs of a header.
abbrev pub HasTimes : LeafWireInfo → Option LeafTimeMode → Type 0
HasTimes info none = Unit
HasTimes info (some LeafTimeMode.unix) = info.declared ≡ false
HasTimes info (some LeafTimeMode.concentrator_stamped) = is_some info.proto ≡ true
HasTimes info (some LeafTimeMode.sync_relative) =
    (is_some info.encode_time ≡ true) × (is_some info.sync_age ≡ true)
HasTimes info (some LeafTimeMode.boot_relative) =
    (is_some info.encode_time ≡ true) × (is_some info.boot_id ≡ true)

pub check_wire_info-HasTimes : (info : LeafWireInfo) → HasTimes info (check_wire_info info)
unfolding check_wire_info check_mode
check_wire_info-HasTimes info = ground arith

-- The Resource without its reserved keys.
unfoldable pub strip : List KeyValue → List KeyValue
strip [] = []
strip (kv ∷ kvs) = let rest = strip kvs in if is_reserved kv.key then rest else kv ∷ rest

hash_entries-strip :
    (kvs : List KeyValue) (hash : ℕ) → hash_entries (strip kvs) hash ≡ hash_entries kvs hash
unfolding hash_entries strip
hash_entries-strip [] hash = refl
hash_entries-strip (kv ∷ kvs) hash = elim (Bool-cases (is_reserved kv.key)) [
  | inl e ↦ rw e (hash_entries-strip kvs hash)
  | inr e ↦
      rw (e, hash_entries, e) (hash_entries-strip kvs (hash_value kv.value (add_text kv.key hash)))
]

-- The reserved keys, which change with every payload, do not count.
pub hash_declared_resource-strip :
    (kvs : List KeyValue) → hash_declared_resource (strip kvs) ≡ hash_declared_resource kvs
unfolding hash_declared_resource
hash_declared_resource-strip kvs = hash_entries-strip kvs 14695981039346656037
