-- ===== src/Sdk/SpanLimits/Apply.antt =====
-- A record within the limits, and what `ApplySpanLimits` and `AppendAttributes` make of any record.
use microtel.Prelude.{ℕ, suc, ◌≤◌, ◌≡◌, refl, ap, List, [], ◌∷◌, length, arith, length-take}
use microtel.Prelude.Bytes.{Bytes}
use microtel.Sdk.Record.{AttributeValue, KeyValue, SpanEvent, SpanLink, SpanRecord}
use microtel.Sdk.SpanLimits.{
  SpanLimitOptions, Sink, truncate_each, truncate_strings, keep_first, truncate_all, limit_events,
  limit_links, apply_span_limits,
}
use microtel.Sdk.SpanLimits.Utf8.{length-truncate_text}

unfoldable pub AreWithin : ℕ → List Bytes → Type 0
AreWithin n [] = Unit
AreWithin n (s ∷ ss) = (length s ≤ n) × AreWithin n ss

-- Every string of a value has at most `n` bytes.
unfoldable pub ValueFits : ℕ → AttributeValue → Type 0
ValueFits n (AttributeValue.string s) = length s ≤ n
ValueFits n (AttributeValue.strings ss) = AreWithin n ss
ValueFits n v = Unit

unfoldable pub ValuesFit : ℕ → List KeyValue → Type 0
ValuesFit n [] = Unit
ValuesFit n (kv ∷ kvs) = ValueFits n kv.value × ValuesFit n kvs

-- At most `room` attributes, with values that fit.
pub record AttributesFit (room n : ℕ) (kvs : List KeyValue) : Type 0 where
  pub number : length kvs ≤ room
  pub values : ValuesFit n kvs

unfoldable pub EventsFit : SpanLimitOptions → List SpanEvent → Type 0
EventsFit limits [] = Unit
EventsFit limits (e ∷ es) =
    AttributesFit limits.event_attribute_count_limit limits.attribute_value_length_limit
      e.attributes
    × EventsFit limits es

unfoldable pub LinksFit : SpanLimitOptions → List SpanLink → Type 0
LinksFit limits [] = Unit
LinksFit limits (l ∷ ls) =
    AttributesFit limits.link_attribute_count_limit limits.attribute_value_length_limit l.attributes
    × LinksFit limits ls

pub record IsWithinLimits (limits : SpanLimitOptions) (r : SpanRecord) : Type 0 where
  pub own :
      AttributesFit limits.attribute_count_limit limits.attribute_value_length_limit r.attributes
  pub few_events : length r.events ≤ limits.event_count_limit
  pub events_fit : EventsFit limits r.events
  pub few_links : length r.links ≤ limits.link_count_limit
  pub links_fit : LinksFit limits r.links

truncate_each-AreWithin : (ss : List Bytes) (n : ℕ) → AreWithin n (truncate_each ss n).0
unfolding AreWithin truncate_each
truncate_each-AreWithin [] n = tt
truncate_each-AreWithin (s ∷ ss) n = (length-truncate_text s n, truncate_each-AreWithin ss n)

pub truncate_strings-ValueFits : (v : AttributeValue) (n : ℕ) → ValueFits n (truncate_strings v n).0
unfolding ValueFits truncate_strings
truncate_strings-ValueFits (AttributeValue.string s) n = length-truncate_text s n
truncate_strings-ValueFits (AttributeValue.strings ss) n = truncate_each-AreWithin ss n
truncate_strings-ValueFits (AttributeValue.boolean b) n = tt
truncate_strings-ValueFits (AttributeValue.int64 b) n = tt
truncate_strings-ValueFits (AttributeValue.double b) n = tt
truncate_strings-ValueFits (AttributeValue.booleans b) n = tt
truncate_strings-ValueFits (AttributeValue.int64s b) n = tt
truncate_strings-ValueFits (AttributeValue.doubles b) n = tt

truncate_all-ValuesFit : (kvs : List KeyValue) (n : ℕ) → ValuesFit n (truncate_all kvs n).0
unfolding ValuesFit truncate_all
truncate_all-ValuesFit [] n = tt
truncate_all-ValuesFit (kv ∷ kvs) n =
    (truncate_strings-ValueFits kv.value n, truncate_all-ValuesFit kvs n)

length-truncate_all : (kvs : List KeyValue) (n : ℕ) → length (truncate_all kvs n).0 ≡ length kvs
unfolding truncate_all
length-truncate_all [] n = refl
length-truncate_all (kv ∷ kvs) n = ap suc (length-truncate_all kvs n)

length-keep_first : {A : Type 0} (xs : List A) (n : ℕ) → length (keep_first xs n).0 ≤ n
unfolding keep_first
length-keep_first xs n = ground (arith, length-take n xs)

truncate_all-AttributesFit :
    (kvs : List KeyValue) (room n : ℕ)
    → AttributesFit room n (truncate_all (keep_first kvs room).0 n).0
truncate_all-AttributesFit kvs room n = record {
  number = omega (arith, length-truncate_all (keep_first kvs room).0 n, length-keep_first kvs room);
  values = truncate_all-ValuesFit (keep_first kvs room).0 n;
}

limit_events-EventsFit :
    (limits : SpanLimitOptions) (es : List SpanEvent)
    → EventsFit limits (limit_events limits es).0 × (length (limit_events limits es).0 ≡ length es)
unfolding limit_events EventsFit
limit_events-EventsFit limits [] = (tt, refl)
limit_events-EventsFit limits (e ∷ es) =
    let rest = limit_events-EventsFit limits es in
    (
      (
        truncate_all-AttributesFit e.attributes limits.event_attribute_count_limit
            limits.attribute_value_length_limit,
        rest.0,
      ),
      ap suc rest.1,
    )

limit_links-LinksFit :
    (limits : SpanLimitOptions) (ls : List SpanLink)
    → LinksFit limits (limit_links limits ls).0 × (length (limit_links limits ls).0 ≡ length ls)
unfolding limit_links LinksFit
limit_links-LinksFit limits [] = (tt, refl)
limit_links-LinksFit limits (l ∷ ls) =
    let rest = limit_links-LinksFit limits ls in
    (
      (
        truncate_all-AttributesFit l.attributes limits.link_attribute_count_limit
            limits.attribute_value_length_limit,
        rest.0,
      ),
      ap suc rest.1,
    )

-- Whatever span was built elsewhere, `ApplySpanLimits` leaves it within every limit.
pub apply_span_limits-IsWithinLimits :
    (r : SpanRecord) (limits : SpanLimitOptions) (diag : Sink)
    → IsWithinLimits limits (apply_span_limits r limits diag).0
unfolding apply_span_limits
apply_span_limits-IsWithinLimits r limits diag =
    let events = limit_events-EventsFit limits (keep_first r.events limits.event_count_limit).0 in
    let links = limit_links-LinksFit limits (keep_first r.links limits.link_count_limit).0 in
    record {
      own =
          truncate_all-AttributesFit r.attributes limits.attribute_count_limit
            limits.attribute_value_length_limit;
      few_events = omega (arith, events.1, length-keep_first r.events limits.event_count_limit);
      events_fit = events.0;
      few_links = omega (arith, links.1, length-keep_first r.links limits.link_count_limit);
      links_fit = links.0;
    }
