-- ===== src/Sdk/LeafReceiver/Corrections.antt =====
-- src/sdk/leaf_receiver.cpp, `ResourceFor` and `CorrectionFor`: the Resource and the time correction of
-- each ResourceSpans.
use Prim.Native.Nat.{min}
use microtel.Prelude.{
  ℕ, suc, ◌-◌, ◌*◌, ◌/◌, ◌^◌, Bool, true, false, List, [], ◌∷◌, ◌++◌, Option, none, some, length,
}
use microtel.Prelude.Int.{ℤ, pos, negsuc, ◌-ℤ◌}
use microtel.Sdk.Record.{KeyValue}
use microtel.Sdk.LeafTime.{
  TimeCorrection, BootSample, saturating_sub, concentrator_stamped, sync_relative,
}
use microtel.Sdk.LeafTable.{find, insert, update_boot_anchor}
use microtel.Sdk.LeafWire.{LeafTimeMode, LeafWireInfo, hash_declared_resource}
use microtel.Sdk.LeafResource.{resolve_leaf_resource}
use microtel.Sdk.LeafReceiver.{Receiver, Surroundings}
use microtel.Sdk.LeafReceiver.Identity.{Identified, budget_for, count_dropped_attributes}

-- The seconds, clamped, in nanoseconds.
unfoldable pub saturating_ns : ℤ → ℤ
saturating_ns (pos n) = pos (min n ((2 ^ 63 - 1) / 1000000000) * 1000000000)
saturating_ns (negsuc n) = pos 0 -ℤ pos (min (suc n) ((2 ^ 63 - 1) / 1000000000) * 1000000000)

abbrev or_value : ℤ → Option ℤ → ℤ
or_value d none = d
or_value d (some v) = v

-- The Resource of a leaf that the table has none for, if its allocation does not fail; none for the
-- table does.
unfoldable pub resolve_missing :
    Bool → Identified → List KeyValue → ℕ → ℤ → Receiver → Receiver × Option (Option ℕ)
resolve_missing true payload declared hash now r = (r, none)
resolve_missing false payload declared hash now r =
    let resolved = resolve_leaf_resource (record {
      defaults = r.options.leaf_defaults_resource;
      declared = declared;
      configured = payload.settings.resource;
      id_key = r.options.leaf_id_attribute;
      leaf_id = payload.leaf_id;
      budget = budget_for r.options payload.settings;
    }) in
    let (t, kept) = insert payload.leaf_id hash (some (length r.resources)) now false r.table in
    (
      record (count_dropped_attributes resolved.attributes_dropped r) {
        table = t;
        resources = r.resources ++ resolved.resource ∷ [];
      },
      kept,
    )

unfoldable pub resource_or :
    Option ℕ
    → Surroundings
    → Identified
    → List KeyValue
    → ℕ
    → Receiver
    → Receiver × Option (Option ℕ)
resource_or (some resource) around payload declared hash r = (r, some (some resource))
resource_or none around payload declared hash r =
    resolve_missing (around.resource_fails declared) payload declared hash around.steady_now r

-- `ResourceFor`: the receiver, and the Resource; `none` when its allocation fails.
unfoldable pub resource_for :
    Surroundings → Identified → List KeyValue → Receiver → Receiver × Option (Option ℕ)
resource_for around payload declared r =
    let hash = hash_declared_resource declared in
    let (t, cached) = find payload.leaf_id hash around.steady_now r.table in
    resource_or cached around payload declared hash (record r { table = t })

pub record Corrected : Type 0 where
  pub correction : TimeCorrection
  pub fell_back : Bool

abbrev anchored : ℤ → Option ℤ → TimeCorrection
anchored received none = record { offset = pos 0; fixed = none }
anchored received (some offset) = record { offset = offset; fixed = none }

unfoldable pub synced : ℤ → LeafWireInfo → Option TimeCorrection → Corrected
synced received info none = record {
  correction = concentrator_stamped received info.encode_time;
  fell_back = true;
}
synced received info (some trusted) = record { correction = trusted; fell_back = false }

-- `CorrectionFor`; `received` is the payload's R. No allocation for the table fails here.
unfoldable pub correction_for :
    Surroundings → Identified → ℤ → LeafTimeMode → LeafWireInfo → Receiver → Receiver × Corrected
correction_for around payload received LeafTimeMode.unix info r =
    (r, record { correction = record { offset = pos 0; fixed = none }; fell_back = false })
correction_for around payload received LeafTimeMode.sync_relative info r = (
  r,
  synced received info (
      sync_relative received (or_value (pos 0) info.encode_time) (or_value (pos 0) info.sync_age)
        (record {
          max_sync_age = saturating_ns r.options.max_sync_age;
          max_clock_skew = saturating_ns r.options.max_clock_skew;
        })),
)
correction_for around payload received LeafTimeMode.boot_relative info r =
    let sample : BootSample = record {
      boot_id = or_value (pos 0) info.boot_id;
      offset = saturating_sub received (or_value (pos 0) info.encode_time);
      at = received;
    } in
    let (t, offset) =
      update_boot_anchor payload.leaf_id sample (saturating_ns r.options.boot_anchor_window)
        around.steady_now false r.table in
    (record r { table = t }, record { correction = anchored received offset; fell_back = false })
correction_for around payload received LeafTimeMode.concentrator_stamped info r =
    (r, record { correction = concentrator_stamped received info.encode_time; fell_back = false })
