-- ===== src/Sdk/SpanLimits.antt =====
-- src/sdk/span_limits.cpp: the Provider's limits on a span. The diagnostics sink, which may be null,
-- is an option; a count of strings in memory does not reach 2^64. An allocation that fails is a
-- Boolean argument.
pub mod Utf8
pub mod Apply
pub mod Append
pub mod Added
mod Tests
use microtel.Prelude.{
  ℕ, zero, suc, ◌+◌, ◌-◌, ◌/◌, ◌%◌, ◌≤◌, Bool, true, false, ◌==◌, leb, if◌then◌else◌, List, [], ◌∷◌,
  ◌++◌, Option, none, some, length, take, get_or,
}
use microtel.Prelude.Bytes.{Bytes}
use microtel.Sdk.Diagnostics.{Diagnostics, DropReason, record_drop}
use microtel.Sdk.Record.{AttributeValue, KeyValue, SpanEvent, SpanLink, SpanRecord}

pub record SpanLimitOptions : Type 0 where
  pub attribute_count_limit : ℕ
  pub event_count_limit : ℕ
  pub link_count_limit : ℕ
  pub attribute_value_length_limit : ℕ
  pub event_attribute_count_limit : ℕ
  pub link_attribute_count_limit : ℕ

abbrev pub Sink : Type 0
Sink = Option Diagnostics

-- `(c & 0xC0) == 0x80`: the two high bits are 10.
unfoldable pub is_continuation : ℕ → Bool
is_continuation c = c / 64 % 4 == 2

-- The loop of `Utf8SafePrefix`, from a cut down.
unfoldable pub utf8_safe_prefix : Bytes → ℕ → ℕ
utf8_safe_prefix s zero = zero
utf8_safe_prefix s (suc cut) =
    let lower = utf8_safe_prefix s cut in
    if is_continuation (get_or s (suc cut) 0) then lower else suc cut

unfoldable pub count : DropReason → ℕ → Sink → Sink
count reason n none = none
count reason n (some d) = if n == 0 then some d else some (record_drop reason n d)

-- A string cut to the limit, and how many strings lost bytes.
unfoldable pub truncate_text : Bytes → ℕ → Bytes × ℕ
truncate_text s limit =
    if leb (length s) limit then (s, 0) else (take (utf8_safe_prefix s limit) s, 1)

unfoldable pub truncate_each : List Bytes → ℕ → List Bytes × ℕ
truncate_each [] limit = ([], 0)
truncate_each (s ∷ ss) limit =
    let rest = truncate_each ss limit in
    let cut = truncate_text s limit in (cut.0 ∷ rest.0, cut.1 + rest.1)

unfoldable pub truncate_strings : AttributeValue → ℕ → AttributeValue × ℕ
truncate_strings (AttributeValue.string s) limit =
    let cut = truncate_text s limit in (AttributeValue.string cut.0, cut.1)
truncate_strings (AttributeValue.strings ss) limit =
    let cut = truncate_each ss limit in (AttributeValue.strings cut.0, cut.1)
truncate_strings v limit = (v, 0)

-- The kept elements, and how many went.
unfoldable pub keep_first : {A : Type 0} → List A → ℕ → List A × ℕ
keep_first items limit =
    if leb (length items) limit then (items, 0) else (take limit items, length items - limit)

unfoldable pub truncate_all : List KeyValue → ℕ → List KeyValue × ℕ
truncate_all [] limit = ([], 0)
truncate_all (kv ∷ kvs) limit =
    let rest = truncate_all kvs limit in
    let cut = truncate_strings kv.value limit in
    (record kv { value = cut.0 } ∷ rest.0, cut.1 + rest.1)

-- The loops of `ApplySpanLimits` over the events and the links: what is left of them, how many
-- attributes went, and how many strings were cut.
unfoldable pub limit_events : SpanLimitOptions → List SpanEvent → List SpanEvent × ℕ × ℕ
limit_events limits [] = ([], 0, 0)
limit_events limits (e ∷ es) =
    let rest = limit_events limits es in
    let kept = keep_first e.attributes limits.event_attribute_count_limit in
    let cut = truncate_all kept.0 limits.attribute_value_length_limit in
    (record e { attributes = cut.0 } ∷ rest.0, kept.1 + rest.1, cut.1 + rest.2)

unfoldable pub limit_links : SpanLimitOptions → List SpanLink → List SpanLink × ℕ × ℕ
limit_links limits [] = ([], 0, 0)
limit_links limits (l ∷ ls) =
    let rest = limit_links limits ls in
    let kept = keep_first l.attributes limits.link_attribute_count_limit in
    let cut = truncate_all kept.0 limits.attribute_value_length_limit in
    (record l { attributes = cut.0 } ∷ rest.0, kept.1 + rest.1, cut.1 + rest.2)

unfoldable pub apply_span_limits : SpanRecord → SpanLimitOptions → Sink → SpanRecord × Sink
apply_span_limits r limits diag =
    let attributes = keep_first r.attributes limits.attribute_count_limit in
    let values = truncate_all attributes.0 limits.attribute_value_length_limit in
    let events = keep_first r.events limits.event_count_limit in
    let event_attrs = limit_events limits events.0 in
    let links = keep_first r.links limits.link_count_limit in
    let link_attrs = limit_links limits links.0 in
    (
      record r { attributes = values.0; events = event_attrs.0; links = link_attrs.0 },
      count DropReason.attribute_value_truncated (values.1 + event_attrs.2 + link_attrs.2) (
          count DropReason.link_attribute_limit link_attrs.1 (
            count DropReason.span_link_limit links.1 (
              count DropReason.event_attribute_limit event_attrs.1 (
                count DropReason.span_event_limit events.1
                  (count DropReason.span_attribute_limit attributes.1 diag))))),
    )

-- `fails` is whether an allocation fails, which drops the attribute.
unfoldable pub append_one : List KeyValue → KeyValue → ℕ → Bool → List KeyValue × ℕ
append_one attributes kv limit fails =
    let cut = truncate_strings kv.value limit in
    if fails then (attributes, 0) else (attributes ++ record kv { value = cut.0 } ∷ [], cut.1)

-- The loop of `AppendAttributes`: the attributes, how many were over the limit, and how many
-- strings were cut. `fails i` is whether the allocation for the i-th attribute fails.
unfoldable pub append_from :
    List KeyValue → List KeyValue → SpanLimitOptions → (ℕ → Bool) → ℕ → ℕ → List KeyValue × ℕ × ℕ
append_from attributes [] limits fails over truncated = (attributes, over, truncated)
append_from attributes (kv ∷ extra) limits fails over truncated =
    let one = append_one attributes kv limits.attribute_value_length_limit (fails 0) in
    let skipped = append_from attributes extra limits (λ i. fails (suc i)) (suc over) truncated in
    let taken = append_from one.0 extra limits (λ i. fails (suc i)) over (truncated + one.1) in
    if leb limits.attribute_count_limit (length attributes) then skipped else taken

unfoldable pub append_attributes :
    List KeyValue → List KeyValue → SpanLimitOptions → (ℕ → Bool) → Sink → List KeyValue × Sink
append_attributes attributes extra limits fails diag =
    let r = append_from attributes extra limits fails 0 0 in
    (
      r.0,
      count DropReason.attribute_value_truncated r.2
          (count DropReason.span_attribute_limit r.1 diag),
    )
