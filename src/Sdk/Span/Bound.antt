-- ===== src/Sdk/Span/Bound.antt =====
-- A span within the Provider's limits, whatever is called on it.
use microtel.Prelude.{
  ℕ, zero, suc, ◌≤◌, ◌≡◌, inl, inr, Bool, true, false, leb, List, [], ◌∷◌, ◌++◌, Option, none, some,
  length, arith, Bool-cases, length-append,
}
use microtel.Prelude.Int.{ℤ}
use microtel.Prelude.Bytes.{Bytes}
use microtel.Api.Trace.{SpanContext}
use microtel.Sdk.Record.{KeyValue, SpanEvent, SpanLink}
use microtel.Sdk.SpanLimits.{SpanLimitOptions, Sink}
use microtel.Sdk.SpanLimits.Apply.{
  ValueFits, ValuesFit, AttributesFit, EventsFit, LinksFit, truncate_strings-ValueFits,
}
use microtel.Sdk.Span.{
  clip_attribute, copy_attributes, build_attributes, build_event, build_link, push_built,
}

pub ValuesFit-push :
    (n : ℕ) (kvs : List KeyValue) (kv : KeyValue)
    → ValuesFit n kvs
    → ValueFits n kv.value
    → ValuesFit n (kvs ++ kv ∷ [])
unfolding ValuesFit
ValuesFit-push n [] kv h k = (k, tt)
ValuesFit-push n (x ∷ kvs) kv h k = (h.0, ValuesFit-push n kvs kv h.1 k)

abbrev pub EventFits : SpanLimitOptions → SpanEvent → Type 0
EventFits limits e =
    AttributesFit limits.event_attribute_count_limit limits.attribute_value_length_limit
      e.attributes

abbrev pub LinkFits : SpanLimitOptions → SpanLink → Type 0
LinkFits limits l =
    AttributesFit limits.link_attribute_count_limit limits.attribute_value_length_limit l.attributes

EventsFit-push :
    (limits : SpanLimitOptions) (es : List SpanEvent) (e : SpanEvent)
    → EventsFit limits es
    → AttributesFit limits.event_attribute_count_limit limits.attribute_value_length_limit
        e.attributes
    → EventsFit limits (es ++ e ∷ [])
unfolding EventsFit
EventsFit-push limits [] e h k = (k, tt)
EventsFit-push limits (x ∷ es) e h k = (h.0, EventsFit-push limits es e h.1 k)

LinksFit-push :
    (limits : SpanLimitOptions) (ls : List SpanLink) (l : SpanLink)
    → LinksFit limits ls
    → AttributesFit limits.link_attribute_count_limit limits.attribute_value_length_limit
        l.attributes
    → LinksFit limits (ls ++ l ∷ [])
unfolding LinksFit
LinksFit-push limits [] l h k = (k, tt)
LinksFit-push limits (x ∷ ls) l h k = (h.0, LinksFit-push limits ls l h.1 k)

-- What was built, if an exception did not drop it, has a property.
abbrev pub Built : {A : Type 0} → (A → Type 0) → Option A → Type 0
Built P none = Unit
Built P (some a) = P a

cons-Built :
    (room n : ℕ) (kv : KeyValue) (o : Option (List KeyValue))
    → ValueFits n kv.value
    → Built (AttributesFit room n) o
    → Built (AttributesFit (suc room) n) (elim o [ none ↦ none | some out ↦ some (kv ∷ out) ])
unfolding ValuesFit
cons-Built room n kv none v h = tt
cons-Built room n kv (some out) v h = record {
  number = omega (arith, h.number);
  values = (v, h.values);
}

copy_attributes-Built :
    (room n : ℕ) (kvs : List KeyValue) (fails : ℕ → Bool) (diag : Sink)
    → Built (AttributesFit room n) (copy_attributes room n kvs fails diag).0
unfolding copy_attributes clip_attribute ValuesFit
copy_attributes-Built room n [] fails diag = record { number = omega arith; values = tt }
copy_attributes-Built zero n (kv ∷ kvs) fails diag = record { number = omega arith; values = tt }
copy_attributes-Built (suc room) n (kv ∷ kvs) fails diag = elim (Bool-cases (fails 0)) [
  | inl e ↦ rw e tt
  | inr e ↦ elim (Bool-cases (fails 1)) [
    | inl f ↦ rw (e, f) tt
    | inr f ↦
        rw (e, f)
          (cons-Built room n _ _ (truncate_strings-ValueFits kv.value n)
            (copy_attributes-Built room n kvs _ _))
  ]
]

event_of-Built :
    (limits : SpanLimitOptions) (name : Bytes) (t : ℤ) (o : Option (List KeyValue))
    → Built (AttributesFit limits.event_attribute_count_limit limits.attribute_value_length_limit) o
    → Built (EventFits limits) (elim o [
      | none ↦ none
      | some out ↦ some (record { name = name; timestamp = t; attributes = out })
    ])
event_of-Built limits name t none h = tt
event_of-Built limits name t (some out) h = h

link_of-Built :
    (limits : SpanLimitOptions) (c : SpanContext) (o : Option (List KeyValue))
    → Built (AttributesFit limits.link_attribute_count_limit limits.attribute_value_length_limit) o
    → Built
        (LinkFits limits)
        (elim o [ none ↦ none | some out ↦ some (record { linked_context = c; attributes = out }) ])
link_of-Built limits c none h = tt
link_of-Built limits c (some out) h = h

pub build_event-Built :
    (name : Bytes) (kvs : List KeyValue) (t : ℤ) (limits : SpanLimitOptions) (now : ℤ)
    (fails : ℕ → Bool) (diag : Sink)
    → Built (EventFits limits) (build_event name kvs t limits now fails diag).0
unfolding build_event build_attributes
build_event-Built name kvs t limits now fails diag = elim (Bool-cases (fails 0)) [
  | inl e ↦ rw e tt
  | inr e ↦ rw e (
      event_of-Built limits name _ _ (
        copy_attributes-Built limits.event_attribute_count_limit limits.attribute_value_length_limit
          kvs _ diag))
]

pub build_link-Built :
    (c : SpanContext) (kvs : List KeyValue) (limits : SpanLimitOptions) (fails : ℕ → Bool)
    (diag : Sink)
    → Built (LinkFits limits) (build_link c kvs limits fails diag).0
unfolding build_link build_attributes
build_link-Built c kvs limits fails diag = link_of-Built limits c _ (
    copy_attributes-Built limits.link_attribute_count_limit limits.attribute_value_length_limit kvs
      fails diag)

pub length-push_built :
    {A : Type 0} (xs : List A) (o : Option A) (fails : Bool) (n : ℕ)
    → leb n (length xs) ≡ false
    → length (push_built xs o fails) ≤ n
length-push_built xs none fails n h = ground arith
length-push_built xs (some x) true n h = ground arith
length-push_built xs (some x) false n h = ground (arith, length-append xs (x ∷ []))

pub push_built-EventsFit :
    (limits : SpanLimitOptions) (es : List SpanEvent) (o : Option SpanEvent) (fails : Bool)
    → EventsFit limits es
    → Built (EventFits limits) o
    → EventsFit limits (push_built es o fails)
push_built-EventsFit limits es none fails h k = h
push_built-EventsFit limits es (some e) true h k = h
push_built-EventsFit limits es (some e) false h k = EventsFit-push limits es e h k

pub push_built-LinksFit :
    (limits : SpanLimitOptions) (ls : List SpanLink) (o : Option SpanLink) (fails : Bool)
    → LinksFit limits ls
    → Built (LinkFits limits) o
    → LinksFit limits (push_built ls o fails)
push_built-LinksFit limits ls none fails h k = h
push_built-LinksFit limits ls (some l) true h k = h
push_built-LinksFit limits ls (some l) false h k = LinksFit-push limits ls l h k
