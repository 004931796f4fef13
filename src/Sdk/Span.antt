-- ===== src/Sdk/Span.antt =====
-- src/sdk/sdk_span.cpp: a recording span. `finished` is the list of the records that `End` has
-- handed to the processor; `End` moves the record, and no later operation here reads it. The clock
-- is an argument, and so is what an allocation that fails does: `fails` says whether it does.
pub mod Bound
pub mod Limits
pub mod Lifecycle
mod Tests
use microtel.Prelude.{
  ℕ, zero, suc, ◌+◌, ◌*◌, ◌-◌, Bool, true, false, not, ◌&&◌, ◌==◌, leb, ltb, if◌then◌else◌, List,
  [], ◌∷◌, ◌++◌, Option, none, some, length,
}
use microtel.Prelude.Int.{ℤ, pos, pos_part, neg_part}
use microtel.Prelude.Bytes.{Bytes}
use microtel.Api.Trace.{SpanContext}
use microtel.Sdk.Diagnostics.{DropReason, record_drop}
use microtel.Sdk.Record.{
  AttributeValue, KeyValue, SpanEvent, SpanLink, SpanRecord, SpanKind, StatusCode,
}
use microtel.Sdk.SpanLimits.{SpanLimitOptions, Sink, count, truncate_strings}

pub record SdkSpan : Type 0 where
  pub span_record : SpanRecord
  pub limits : SpanLimitOptions
  pub diagnostics : Sink
  pub ended : Bool
  pub finished : List SpanRecord

-- The value-initialised time point stands for the clock's time.
abbrev time_or_now : ℤ → ℤ → ℤ
time_or_now time now = if (pos_part time == 0) && (neg_part time == 0) then now else time

-- The constructor; a name that cannot be allocated stays empty.
unfoldable pub make_span :
    SpanContext → SpanContext → Bytes → SpanKind → ℤ → SpanLimitOptions → Sink → ℤ → Bool → SdkSpan
make_span context parent_context name kind start_time limits diagnostics now fails = record {
  span_record = record {
    context = context;
    parent_context = parent_context;
    name = if fails then [] else name;
    kind = kind;
    status_code = StatusCode.unset;
    status_description = [];
    start_time = time_or_now start_time now;
    end_time = pos 0;
    attributes = [];
    events = [];
    links = [];
    resource = none;
  };
  limits = limits;
  diagnostics = diagnostics;
  ended = false;
  finished = [];
}

-- `RecordDropped`, which does not look at the number.
unfoldable pub record_dropped : DropReason → ℕ → Sink → Sink
record_dropped reason n none = none
record_dropped reason n (some d) = some (record_drop reason n d)

unfoldable pub clip_attribute : KeyValue → ℕ → Sink → KeyValue × Sink
clip_attribute kv limit diag =
    let cut = truncate_strings kv.value limit in
    (record kv { value = cut.0 }, count DropReason.attribute_value_truncated cut.1 diag)

-- The loop of `BuildEvent` and `BuildLink`: `room` is what the count limit still admits, and an
-- allocation may fail as an attribute is copied (`fails 0`) or stored (`fails 1`). `none` is the
-- exception.
unfoldable pub copy_attributes :
    ℕ → ℕ → List KeyValue → (ℕ → Bool) → Sink → Option (List KeyValue) × Sink
copy_attributes room limit [] fails diag = (some [], diag)
copy_attributes zero limit (kv ∷ kvs) fails diag = (some [], diag)
copy_attributes (suc room) limit (kv ∷ kvs) fails diag =
    let clipped = clip_attribute kv limit diag in
    let rest = copy_attributes room limit kvs (λ i. fails (suc (suc i))) clipped.1 in
    if fails 0
    then (none, diag)
    else if fails 1
    then (none, clipped.1)
    else (elim rest.0 [ none ↦ none | some out ↦ some (clipped.0 ∷ out) ], rest.1)

-- The attributes of a built event or link, and the surplus counted.
unfoldable pub build_attributes :
    DropReason → ℕ → ℕ → List KeyValue → (ℕ → Bool) → Sink → Option (List KeyValue) × Sink
build_attributes reason room limit kvs fails diag =
    let built = copy_attributes room limit kvs fails diag in
    (
      built.0,
      elim built.0 [
        | none ↦ built.1
        | some out ↦
            if ltb (length out) (length kvs)
            then record_dropped reason (length kvs - length out) built.1
            else built.1
      ],
    )

unfoldable pub build_event :
    Bytes → List KeyValue → ℤ → SpanLimitOptions → ℤ → (ℕ → Bool) → Sink → Option SpanEvent × Sink
build_event name attributes timestamp limits now fails diag =
    let built =
      build_attributes DropReason.event_attribute_limit limits.event_attribute_count_limit
        limits.attribute_value_length_limit attributes (λ i. fails (suc i)) diag in
    if fails 0 then (none, diag) else (
      elim built.0 [
        | none ↦ none
        | some out ↦
            some (record { name = name; timestamp = time_or_now timestamp now; attributes = out })
      ],
      built.1,
    )

unfoldable pub build_link :
    SpanContext → List KeyValue → SpanLimitOptions → (ℕ → Bool) → Sink → Option SpanLink × Sink
build_link linked_context attributes limits fails diag =
    let built =
      build_attributes DropReason.link_attribute_limit limits.link_attribute_count_limit
        limits.attribute_value_length_limit attributes fails diag in
    (
      elim built.0 [
        | none ↦ none
        | some out ↦ some (record { linked_context = linked_context; attributes = out })
      ],
      built.1,
    )

-- The `push_back` of what was built, unless an exception drops it.
abbrev pub push_built : {A : Type 0} → List A → Option A → Bool → List A
push_built xs none fails = xs
push_built xs (some x) fails = if fails then xs else xs ++ x ∷ []

unfoldable pub set_attribute : Bytes → AttributeValue → Bool → SdkSpan → SdkSpan
set_attribute key value fails s =
    let r = s.span_record in
    let cut = truncate_strings value s.limits.attribute_value_length_limit in
    if s.ended
    then s
    else if leb s.limits.attribute_count_limit (length r.attributes)
    then record s { diagnostics = record_dropped DropReason.span_attribute_limit 1 s.diagnostics }
    else record s {
      diagnostics =
          if ltb 0 cut.1
          then record_dropped DropReason.attribute_value_truncated cut.1 s.diagnostics
          else s.diagnostics;
      span_record = record r {
        attributes =
            if fails
            then r.attributes
            else r.attributes ++ record { key = key; value = cut.0 } ∷ [];
      };
    }

-- After the attributes, storing the event may fail too.
unfoldable pub add_event : Bytes → List KeyValue → ℤ → ℤ → (ℕ → Bool) → SdkSpan → SdkSpan
add_event name attributes timestamp now fails s =
    let r = s.span_record in
    let built = build_event name attributes timestamp s.limits now fails s.diagnostics in
    if s.ended
    then s
    else if leb s.limits.event_count_limit (length r.events)
    then record s { diagnostics = record_dropped DropReason.span_event_limit 1 s.diagnostics }
    else record s {
      diagnostics = built.1;
      span_record = record r {
        events = push_built r.events built.0 (fails (1 + 2 * length attributes));
      };
    }

unfoldable pub add_link : SpanContext → List KeyValue → (ℕ → Bool) → SdkSpan → SdkSpan
add_link linked_context attributes fails s =
    let r = s.span_record in
    let built = build_link linked_context attributes s.limits fails s.diagnostics in
    if s.ended
    then s
    else if leb s.limits.link_count_limit (length r.links)
    then record s { diagnostics = record_dropped DropReason.span_link_limit 1 s.diagnostics }
    else record s {
      diagnostics = built.1;
      span_record = record r { links = push_built r.links built.0 (fails (2 * length attributes)) };
    }

abbrev pub is_ok : StatusCode → Bool
is_ok StatusCode.ok = true
is_ok _ = false

abbrev pub is_error : StatusCode → Bool
is_error StatusCode.error = true
is_error _ = false

unfoldable pub set_status : StatusCode → Bytes → Bool → SdkSpan → SdkSpan
set_status code description fails s =
    let r = s.span_record in
    if s.ended
    then s
    else if is_ok code
    then record s {
      span_record = record r { status_code = StatusCode.ok; status_description = [] };
    }
    else if is_error code && not (is_ok r.status_code)
    then record s {
      span_record = record r {
        status_code = StatusCode.error;
        status_description = if fails then r.status_description else description;
      };
    }
    else s

unfoldable pub update_name : Bytes → Bool → SdkSpan → SdkSpan
update_name name fails s = if s.ended then s else record s {
  span_record = record s.span_record { name = if fails then s.span_record.name else name };
}

-- `End`, which is also what the destructor calls.
unfoldable pub end : ℤ → ℤ → SdkSpan → SdkSpan
end end_time now s =
    let final = record s.span_record { end_time = time_or_now end_time now } in
    if s.ended
    then s
    else record s { ended = true; span_record = final; finished = s.finished ++ final ∷ [] }

-- One call on a span.
pub data Call : Type 0 where
  sets : Bytes → AttributeValue → Bool → Call
  events : Bytes → List KeyValue → ℤ → ℤ → (ℕ → Bool) → Call
  links : SpanContext → List KeyValue → (ℕ → Bool) → Call
  statuses : StatusCode → Bytes → Bool → Call
  renames : Bytes → Bool → Call
  ends : ℤ → ℤ → Call

unfoldable pub call : Call → SdkSpan → SdkSpan
call (Call.sets k v f) s = set_attribute k v f s
call (Call.events n kvs t now f) s = add_event n kvs t now f s
call (Call.links c kvs f) s = add_link c kvs f s
call (Call.statuses c d f) s = set_status c d f s
call (Call.renames n f) s = update_name n f s
call (Call.ends t now) s = end t now s

-- The calls, the first one first.
unfoldable pub calls : List Call → SdkSpan → SdkSpan
calls [] s = s
calls (c ∷ cs) s = calls cs (call c s)
