-- ===== src/Sdk/LeafReceiver/Identity.antt =====
-- src/sdk/leaf_receiver.cpp, `Identify` and what it calls: the leaf's id, its settings and the rule
-- on time modes.
use microtel.Prelude.{
  ℕ, Bool, true, false, ◌||◌, ◌&&◌, if◌then◌else◌, ltb, not, List, [], ◌∷◌, ◌++◌, Option, none,
  some, length, get_or,
}
use microtel.Prelude.Bytes.{Bytes, bytes_eq}
use microtel.Prelude.Int.{ℤ}
use microtel.Sdk.Diagnostics.{DropReason, fetch_add}
use microtel.Sdk.Record.{AttributeValue, KeyValue}
use microtel.Sdk.LeafTable.{settings, adopt_settings}
use microtel.Sdk.UnknownLeaf.{contains, insert}
use microtel.Sdk.LeafWire.{LeafTimeMode, time_mode_allowed}
use microtel.Sdk.LeafResource.{merge_resolver_resource}
use microtel.Sdk.LeafReceiver.{
  IngestRequest, IngestStatus, Resolution, LeafConfig, LeafReceiverOptions, DecodedResourceSpans,
  LeafSettings, Receiver, max_leaf_id_bytes, is_reject, is_nil, find_leaf, Outcome, rejects,
  Decodeds,
}

-- `StringValue`: the attribute that `find` meets first, if it is text.
unfoldable pub string_value : List KeyValue → Bytes → Option Bytes
string_value [] key = none
string_value (kv ∷ kvs) key =
    if bytes_eq kv.key key
    then elim kv.value [ AttributeValue.string s ↦ some s | _ ↦ none ]
    else string_value kvs key

unfoldable pub declares : List KeyValue → Bytes → Bool
declares [] key = false
declares (kv ∷ kvs) key = bytes_eq kv.key key || declares kvs key

unfoldable pub first_declared : List DecodedResourceSpans → Bytes → Bytes
first_declared [] key = []
first_declared (rs ∷ rss) key = elim (string_value rs.resource key) [
  | none ↦ first_declared rss key
  | some id ↦ id
]

unfoldable pub settle_leaf_id : IngestRequest → List DecodedResourceSpans → Receiver → Bytes
settle_leaf_id request decoded r =
    if not (is_nil request.leaf_id)
    then request.leaf_id
    else if is_nil r.options.leaf_id_attribute
    then []
    else first_declared decoded r.options.leaf_id_attribute

unfoldable pub effective_mode : LeafReceiverOptions → LeafSettings → Option LeafTimeMode
effective_mode options s = elim s.time_mode [
  | none ↦ options.default_time_mode
  | some mode ↦ some mode
]

abbrev pub budget_of_mode : LeafReceiverOptions → Option LeafTimeMode → ℕ
budget_of_mode options (some LeafTimeMode.unix) = options.max_node_resource_bytes
budget_of_mode options _ = options.max_leaf_resource_bytes

unfoldable pub budget_for : LeafReceiverOptions → LeafSettings → ℕ
budget_for options s = budget_of_mode options (effective_mode options s)

abbrev pub count_dropped_attributes : ℕ → Receiver → Receiver
count_dropped_attributes n r = record r {
  counters = record r.counters {
    resource_attributes_dropped = fetch_add r.counters.resource_attributes_dropped n;
  };
}

abbrev pub no_settings : LeafSettings
no_settings = record { configured = false; time_mode = none; resource = [] }

abbrev pub static_settings : Option LeafConfig → LeafSettings
static_settings none = no_settings
static_settings (some c) = record {
  configured = true;
  time_mode = c.time_mode;
  resource = c.resource;
}

-- `AskResolver`; an exception but `std::bad_alloc` is no answer.
abbrev pub ask_resolver : Option (Bytes → Resolution) → Bytes → Resolution
ask_resolver none leaf_id = Resolution.declines
ask_resolver (some f) leaf_id = f leaf_id

abbrev answered_mode : Option LeafTimeMode → Option LeafTimeMode → Option LeafTimeMode
answered_mode none static = static
answered_mode (some mode) static = some mode

-- The resolver's answer above the static entry, and how many of its attributes went.
unfoldable pub answered : Bytes → LeafReceiverOptions → LeafSettings → LeafConfig → LeafSettings × ℕ
answered leaf_id options static answer =
    let moded = record static {
      configured = true;
      time_mode = answered_mode answer.time_mode static.time_mode;
    } in
    let merged = merge_resolver_resource moded.resource answer.resource (record {
      defaults = options.leaf_defaults_resource;
      declared = [];
      configured = [];
      id_key = options.leaf_id_attribute;
      leaf_id = leaf_id;
      budget = budget_for options moded;
    }) in
    (record moded { resource = merged.configured }, merged.dropped)

unfoldable pub settings_above :
    Resolution → Bytes → LeafSettings → Receiver → Receiver × Option LeafSettings
settings_above (Resolution.configures answer) leaf_id static r =
    let (s, dropped) = answered leaf_id r.options static answer in
    (count_dropped_attributes dropped r, some s)
settings_above Resolution.declines leaf_id static r = (r, some static)
settings_above Resolution.fails leaf_id static r = (r, some static)
settings_above Resolution.exhausts leaf_id static r = (r, none)

unfoldable pub resolve_settings : Bytes → Receiver → Receiver × Option LeafSettings
resolve_settings leaf_id r =
    settings_above (ask_resolver r.options.resolver leaf_id) leaf_id
      (static_settings (find_leaf leaf_id r.leaves)) r

-- What `SettingsFor` returns: settings, or null.
pub data Settled : Type 0 where
  finds : ℕ → Settled
  refuses exhausted : Settled

abbrev pub kept_settings : Option (Option ℕ) → Settled
kept_settings none = Settled.exhausted
kept_settings (some none) = Settled.refuses
kept_settings (some (some s)) = Settled.finds s

-- `make_shared`, and the table's answer; no allocation for the table fails here.
unfoldable pub adopt_fresh : Bytes → ℤ → LeafSettings → Receiver → Receiver × Settled
adopt_fresh leaf_id now fresh r =
    let (t, kept) = adopt_settings leaf_id (some (length r.settings)) now false r.table in
    (record r { table = t; settings = r.settings ++ fresh ∷ [] }, kept_settings kept)

-- A refusal is cached; the allocation for the cache does not fail here.
unfoldable pub settle_fresh : Bytes → ℤ → Receiver × Option LeafSettings → Receiver × Settled
settle_fresh leaf_id now (r, none) = (r, Settled.exhausted)
settle_fresh leaf_id now (r, some fresh) =
    if is_reject r.options.unknown_leaf && not fresh.configured
    then (record r { unknown = insert leaf_id now false r.unknown }, Settled.refuses)
    else adopt_fresh leaf_id now fresh r

-- Whether a refusal is cached; asked only under the policy that caches them.
unfoldable pub ask_unknown : Bytes → ℤ → Receiver → Receiver × Bool
ask_unknown leaf_id now r =
    let (cache, known) = contains leaf_id now r.unknown in
    if is_reject r.options.unknown_leaf then (record r { unknown = cache }, known) else (r, false)

unfoldable pub settle : Option ℕ → Bytes → ℤ → Receiver → Receiver × Settled
settle (some s) leaf_id now r = (r, Settled.finds s)
settle none leaf_id now r =
    let (asked, known) = ask_unknown leaf_id now r in
    if known
    then (asked, Settled.refuses)
    else settle_fresh leaf_id now (resolve_settings leaf_id asked)

unfoldable pub settings_for : Bytes → ℤ → Receiver → Receiver × Settled
settings_for leaf_id now r =
    let (t, cached) = settings leaf_id now r.table in
    settle cached leaf_id now (record r { table = t })

unfoldable pub modes_allowed : List LeafTimeMode → Option LeafTimeMode → Bool
modes_allowed [] allowed = true
modes_allowed (m ∷ ms) allowed = time_mode_allowed m allowed && modes_allowed ms allowed

abbrev differs_from : Option Bytes → Bytes → Bool
differs_from none leaf_id = true
differs_from (some id) leaf_id = not (bytes_eq id leaf_id)

unfoldable pub any_conflict : Bytes → Bytes → List DecodedResourceSpans → Bool
any_conflict key leaf_id [] = false
any_conflict key leaf_id (rs ∷ rss) =
    declares rs.resource key && differs_from (string_value rs.resource key) leaf_id
    || any_conflict key leaf_id rss

unfoldable pub count_id_conflict :
    IngestRequest → Bytes → List DecodedResourceSpans → Receiver → Receiver
count_id_conflict request leaf_id decoded r =
    if is_nil request.leaf_id || is_nil r.options.leaf_id_attribute
    then r
    else if any_conflict r.options.leaf_id_attribute leaf_id decoded
    then record r {
      counters = record r.counters { leaf_id_conflicts = fetch_add r.counters.leaf_id_conflicts 1 };
    }
    else r

-- What `Identify` adds to a payload.
pub record Identified : Type 0 where
  pub leaf_id : Bytes
  pub settings : LeafSettings

unfoldable pub identify_settled :
    IngestRequest → Decodeds → Bytes → Receiver × Settled → Receiver × Outcome Identified
identify_settled request p leaf_id (r, Settled.exhausted) = (r, Outcome.throws)
identify_settled request p leaf_id (r, Settled.refuses) =
    rejects IngestStatus.unknown_leaf DropReason.leaf_unknown r
identify_settled request p leaf_id (r, Settled.finds a) =
    let s = get_or r.settings a no_settings in
    if not (modes_allowed p.1 (effective_mode r.options s))
    then rejects IngestStatus.malformed DropReason.leaf_payload_malformed r
    else (
      count_id_conflict request leaf_id p.0 r,
      Outcome.goes_on (record { leaf_id = leaf_id; settings = s }),
    )

unfoldable pub identify : IngestRequest → Decodeds → ℤ → Receiver → Receiver × Outcome Identified
identify request p now r =
    let leaf_id = settle_leaf_id request p.0 r in
    if is_nil leaf_id || ltb max_leaf_id_bytes (length leaf_id)
    then rejects IngestStatus.malformed DropReason.leaf_payload_malformed r
    else identify_settled request p leaf_id (settings_for leaf_id now r)
