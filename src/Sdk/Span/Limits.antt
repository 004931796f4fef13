-- ===== src/Sdk/Span/Limits.antt =====
-- The calls keep a span within the Provider's limits.
use microtel.Prelude.{
  ℕ, ◌+◌, ◌*◌, ◌≡◌, refl, ◌∙◌, inl, inr, Bool, true, false, if◌then◌else◌, leb, List, [], ◌∷◌, ◌++◌,
  some, length, arith, Bool-cases,
}
use microtel.Prelude.Int.{ℤ}
use microtel.Prelude.Bytes.{Bytes}
use microtel.Api.Trace.{SpanContext}
use microtel.Sdk.Record.{AttributeValue, KeyValue, SpanRecord, StatusCode, SpanKind}
use microtel.Sdk.SpanLimits.{SpanLimitOptions, Sink, truncate_strings}
use microtel.Sdk.SpanLimits.Apply.{
  ValuesFit, AttributesFit, EventsFit, LinksFit, IsWithinLimits, truncate_strings-ValueFits,
}
use microtel.Sdk.Span.{
  SdkSpan, Call, call, calls, make_span, set_attribute, add_event, add_link, set_status,
  update_name, end,
}
use microtel.Sdk.Span.Bound.{
  ValuesFit-push, build_event-Built, build_link-Built, length-push_built, push_built-EventsFit,
  push_built-LinksFit,
}

abbrev Kept : SdkSpan → Type 0
Kept s = IsWithinLimits s.limits s.span_record

push-AttributesFit :
    (room n : ℕ) (kvs : List KeyValue) (key : Bytes) (v : AttributeValue) (fails : Bool)
    → leb room (length kvs) ≡ false
    → AttributesFit room n kvs
    → AttributesFit room n
        (if fails then kvs else kvs ++ record { key = key; value = (truncate_strings v n).0 } ∷ [])
push-AttributesFit room n kvs key v true h f = f
push-AttributesFit room n kvs key v false h f = record {
  number =
      length-push_built kvs (some (record { key = key; value = (truncate_strings v n).0 })) false
        room h;
  values = ValuesFit-push n kvs _ f.values (truncate_strings-ValueFits v n);
}

set_attribute-Kept :
    (key : Bytes) (v : AttributeValue) (fails : Bool) (s : SdkSpan)
    → Kept s
    → Kept (set_attribute key v fails s)
unfolding set_attribute
set_attribute-Kept key v fails s w = elim (Bool-cases s.ended) [
  | inl e ↦ rw e w
  | inr e ↦
      elim (Bool-cases (leb s.limits.attribute_count_limit (length s.span_record.attributes))) [
        | inl f ↦ rw (e, f) w
        | inr f ↦
            rw (e, f)
              (record {
                own =
                    push-AttributesFit s.limits.attribute_count_limit
                      s.limits.attribute_value_length_limit s.span_record.attributes key v fails f
                      w.own;
                few_events = w.few_events;
                events_fit = w.events_fit;
                few_links = w.few_links;
                links_fit = w.links_fit;
              })
      ]
]

add_event-Kept :
    (name : Bytes) (kvs : List KeyValue) (t now : ℤ) (fails : ℕ → Bool) (s : SdkSpan)
    → Kept s
    → Kept (add_event name kvs t now fails s)
unfolding add_event
add_event-Kept name kvs t now fails s w = elim (Bool-cases s.ended) [
  | inl e ↦ rw e w
  | inr e ↦ elim (Bool-cases (leb s.limits.event_count_limit (length s.span_record.events))) [
    | inl f ↦ rw (e, f) w
    | inr f ↦
        let es = s.span_record.events in
        let last = fails (1 + 2 * length kvs) in
        let built = build_event-Built name kvs t s.limits now fails s.diagnostics in
        rw (e, f)
          (record {
            own = w.own;
            few_events = length-push_built es _ last s.limits.event_count_limit f;
            events_fit = push_built-EventsFit s.limits es _ last w.events_fit built;
            few_links = w.few_links;
            links_fit = w.links_fit;
          })
  ]
]

add_link-Kept :
    (c : SpanContext) (kvs : List KeyValue) (fails : ℕ → Bool) (s : SdkSpan)
    → Kept s
    → Kept (add_link c kvs fails s)
unfolding add_link
add_link-Kept c kvs fails s w = elim (Bool-cases s.ended) [
  | inl e ↦ rw e w
  | inr e ↦ elim (Bool-cases (leb s.limits.link_count_limit (length s.span_record.links))) [
    | inl f ↦ rw (e, f) w
    | inr f ↦
        let ls = s.span_record.links in
        let last = fails (2 * length kvs) in
        let built = build_link-Built c kvs s.limits fails s.diagnostics in
        rw (e, f)
          (record {
            own = w.own;
            few_events = w.few_events;
            events_fit = w.events_fit;
            few_links = length-push_built ls _ last s.limits.link_count_limit f;
            links_fit = push_built-LinksFit s.limits ls _ last w.links_fit built;
          })
  ]
]

-- The parts of a record that the limits are about.
abbrev Same : SpanRecord → SpanRecord → Type 0
Same r q = (r.attributes ≡ q.attributes) × (r.events ≡ q.events) × (r.links ≡ q.links)

Same-IsWithinLimits :
    (limits : SpanLimitOptions) (r q : SpanRecord)
    → Same r q
    → IsWithinLimits limits q
    → IsWithinLimits limits r
Same-IsWithinLimits limits r q e w = record {
  own = rw e.0 w.own;
  few_events = rw e.1 w.few_events;
  events_fit = rw e.1 w.events_fit;
  few_links = rw e.2 w.few_links;
  links_fit = rw e.2 w.links_fit;
}

call-limits : (c : Call) (s : SdkSpan) → (call c s).limits ≡ s.limits
unfolding call set_attribute add_event add_link set_status update_name end
call-limits (Call.sets k v f) s = ground arith
call-limits (Call.events n kvs t now f) s = ground arith
call-limits (Call.links c kvs f) s = ground arith
call-limits (Call.statuses c d f) s = ground arith
call-limits (Call.renames n f) s = ground arith
call-limits (Call.ends t now) s = ground arith

set_status-Same :
    (c : StatusCode) (d : Bytes) (f : Bool) (s : SdkSpan)
    → Same (set_status c d f s).span_record s.span_record
unfolding set_status
set_status-Same c d f s = (ground arith, ground arith, ground arith)

update_name-Same :
    (n : Bytes) (f : Bool) (s : SdkSpan) → Same (update_name n f s).span_record s.span_record
unfolding update_name
update_name-Same n f s = (ground arith, ground arith, ground arith)

end-Same : (t now : ℤ) (s : SdkSpan) → Same (end t now s).span_record s.span_record
unfolding end
end-Same t now s = (ground arith, ground arith, ground arith)

call-Kept : (c : Call) (s : SdkSpan) → Kept s → Kept (call c s)
unfolding call
call-Kept (Call.sets k v f) s w = set_attribute-Kept k v f s w
call-Kept (Call.events n kvs t now f) s w = add_event-Kept n kvs t now f s w
call-Kept (Call.links c kvs f) s w = add_link-Kept c kvs f s w
call-Kept (Call.statuses c d f) s w =
    rw (call-limits (Call.statuses c d f) s)
      (Same-IsWithinLimits s.limits _ s.span_record (set_status-Same c d f s) w)
call-Kept (Call.renames n f) s w =
    rw (call-limits (Call.renames n f) s)
      (Same-IsWithinLimits s.limits _ s.span_record (update_name-Same n f s) w)
call-Kept (Call.ends t now) s w =
    rw (call-limits (Call.ends t now) s)
      (Same-IsWithinLimits s.limits _ s.span_record (end-Same t now s) w)

calls-Kept : (cs : List Call) (s : SdkSpan) → Kept s → Kept (calls cs s)
unfolding calls
calls-Kept [] s w = w
calls-Kept (c ∷ cs) s w = calls-Kept cs (call c s) (call-Kept c s w)

calls-limits : (cs : List Call) (s : SdkSpan) → (calls cs s).limits ≡ s.limits
unfolding calls
calls-limits [] s = refl
calls-limits (c ∷ cs) s = calls-limits cs (call c s) ∙ call-limits c s

same_limits :
    (a b : SpanLimitOptions) (r : SpanRecord) → a ≡ b → IsWithinLimits a r → IsWithinLimits b r
same_limits a b r e w = rw (← e) w

new-Kept :
    (context parent_context : SpanContext) (name : Bytes) (kind : SpanKind) (start_time : ℤ)
    (limits : SpanLimitOptions) (diag : Sink) (now : ℤ) (fails : Bool)
    → ((make_span context parent_context name kind start_time limits diag now fails).limits
        ≡ limits)
      × Kept (make_span context parent_context name kind start_time limits diag now fails)
unfolding make_span ValuesFit EventsFit LinksFit
new-Kept c p name kind start limits diag now fails = (
  refl,
  record {
    own = record { number = omega arith; values = tt };
    few_events = omega arith;
    events_fit = tt;
    few_links = omega arith;
    links_fit = tt;
  },
)

-- Whatever is called on a new span, and whatever allocation fails on the way, its record is within
-- the limits it was made with.
pub calls-IsWithinLimits :
    (cs : List Call) (context parent_context : SpanContext) (name : Bytes) (kind : SpanKind)
    (start_time : ℤ) (limits : SpanLimitOptions) (diag : Sink) (now : ℤ) (fails : Bool)
    → IsWithinLimits limits
        (calls cs
          (make_span context parent_context name kind start_time limits diag now fails)).span_record
calls-IsWithinLimits cs c p name kind start limits diag now fails =
    let s = make_span c p name kind start limits diag now fails in
    let fresh = new-Kept c p name kind start limits diag now fails in
    same_limits (calls cs s).limits limits (calls cs s).span_record (calls-limits cs s ∙ fresh.0)
      (calls-Kept cs s fresh.1)
