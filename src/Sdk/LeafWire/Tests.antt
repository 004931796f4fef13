-- ===== src/Sdk/LeafWire/Tests.antt =====
-- Concrete headers.
use microtel.Prelude.{◌≡◌, refl, List, [], ◌∷◌, none, some}
use microtel.Prelude.Int.{pos}
use microtel.Prelude.Bytes.{Bytes, codes, bytes_eq}
use microtel.Sdk.Record.{AttributeValue, KeyValue}
use microtel.Sdk.LeafWire.{
  LeafTimeMode, starts_with, is_reserved, slot_for, store, fill, read_entry, read_entries,
  read_wire_info, check_mode, check_wire_info,
}

abbrev number : Bytes → AttributeValue → KeyValue
number key v = record { key = key; value = v }

abbrev synced : List KeyValue
synced =
    number (codes "microtel.leaf.proto") (AttributeValue.int64 (pos 1))
    ∷ number (codes "microtel.leaf.time_mode") (AttributeValue.int64 (pos 1))
    ∷ number (codes "microtel.leaf.encode_time") (AttributeValue.int64 (pos 50))
    ∷ number (codes "os") (AttributeValue.string (codes "rtos"))
    ∷ number (codes "microtel.leaf.sync_age") (AttributeValue.int64 (pos 3))
    ∷ []

admitted : check_wire_info (read_wire_info synced) ≡ some LeafTimeMode.sync_relative
unfolding check_wire_info check_mode read_wire_info read_entries read_entry fill store slot_for
    is_reserved starts_with bytes_eq
admitted = refl

-- The wire cannot declare a full node's mode.
abbrev declared_unix : List KeyValue
declared_unix =
    number (codes "microtel.leaf.proto") (AttributeValue.int64 (pos 1))
    ∷ number (codes "microtel.leaf.time_mode") (AttributeValue.int64 (pos 3))
    ∷ []

refused : check_wire_info (read_wire_info declared_unix) ≡ none
unfolding check_wire_info check_mode read_wire_info read_entries read_entry fill store slot_for
    is_reserved starts_with bytes_eq
refused = refl
