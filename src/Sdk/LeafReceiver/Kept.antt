-- ===== src/Sdk/LeafReceiver/Kept.antt =====
-- src/sdk/leaf_receiver.cpp, `Ingest`: what the spans that wait in the processor have in common.
use microtel.Prelude.{
  ℕ, Bool, true, false, ◌≡◌, ◌∙◌, inl, inr, if◌then◌else◌, ltb, List, [], ◌∷◌, Option, none, some,
  Bool-cases,
}
use microtel.Prelude.Int.{ℤ}
use microtel.Sdk.Diagnostics.{fetch_add}
use microtel.Sdk.Record.{KeyValue}
use microtel.Sdk.SpanLimits.{SpanLimitOptions}
use microtel.Sdk.LeafTable.{find}
use microtel.Sdk.LeafWire.{LeafTimeMode, LeafWireInfo, read_wire_info, hash_declared_resource}
use microtel.Sdk.LeafReceiver.{
  IngestRequest, IngestStatus, IngestResult, DecodedScopeSpans, DecodedResourceSpans, Receiver,
  Surroundings, Outcome, Decodeds, admit, count_drop, plain_result,
}
use microtel.Sdk.LeafReceiver.Identity.{Identified, identify}
use microtel.Sdk.LeafReceiver.Enqueue.{
  Route, route_of, enqueue_with, count_losses, Progress, enqueue_one, enqueue_all, count_fallback,
}
use microtel.Sdk.LeafReceiver.Corrections.{
  correction_for, resource_or, resolve_missing, resource_for,
}
use microtel.Sdk.LeafReceiver.Ingest.{
  catch, finish, record_accepted, record_out_of_memory, ingest_identified, ingest_admitted, ingest,
  received_ns,
}
use microtel.Sdk.LeafReceiver.Counted.{
  IsQuiet, IsRefused, IsStaged, admit-IsStaged, identify-IsStaged,
}
use microtel.Sdk.LeafReceiver.Outgoing.{IsKept, enqueue_resource_spans-IsKept}

-- A receiver with these limits, and what is kept by them.
abbrev pub Holds : SpanLimitOptions → Receiver → Type 0
Holds limits r = (r.span_limits ≡ limits) × IsKept limits r.pipeline

quiet-Holds :
    (limits : SpanLimitOptions) (r r' : Receiver) → IsQuiet r r' → Holds limits r → Holds limits r'
quiet-Holds limits r r' q h = (q.same_limits ∙ h.0, rw q.same_pipeline h.1)

refused-Holds :
    (limits : SpanLimitOptions) (r r' : Receiver) (result : IngestResult)
    → IsRefused r r' result
    → Holds limits r
    → Holds limits r'
refused-Holds limits r r' result q h = (q.limits_stay ∙ h.0, rw q.one_drop h.1)

count_losses-Holds :
    (limits : SpanLimitOptions) (info : LeafWireInfo) (rs : DecodedResourceSpans) (r : Receiver)
    → Holds limits r
    → Holds limits (count_losses info rs r)
unfolding count_losses count_drop
count_losses-Holds limits info rs r h = elim (Bool-cases (ltb 0 rs.dropped_span_attributes)) [
  | inl e ↦ rw e h
  | inr e ↦ rw e h
]

correction_for-Holds :
    (limits : SpanLimitOptions) (around : Surroundings) (payload : Identified) (received : ℤ)
    (mode : LeafTimeMode) (info : LeafWireInfo) (r : Receiver)
    → Holds limits r
    → Holds limits (correction_for around payload received mode info r).0
unfolding correction_for
correction_for-Holds limits around payload received LeafTimeMode.unix info r h = h
correction_for-Holds limits around payload received LeafTimeMode.sync_relative info r h = h
correction_for-Holds limits around payload received LeafTimeMode.boot_relative info r h = h
correction_for-Holds limits around payload received LeafTimeMode.concentrator_stamped info r h = h

resource_or-Holds :
    (limits : SpanLimitOptions) (cached : Option ℕ) (around : Surroundings) (payload : Identified)
    (declared : List KeyValue) (hash : ℕ) (r : Receiver)
    → Holds limits r
    → Holds limits (resource_or cached around payload declared hash r).0
unfolding resource_or resolve_missing
resource_or-Holds limits (some resource) around payload declared hash r h = h
resource_or-Holds limits none around payload declared hash r h =
    elim (Bool-cases (around.resource_fails declared)) [ inl e ↦ rw e h | inr e ↦ rw e h ]

resource_for-Holds :
    (limits : SpanLimitOptions) (around : Surroundings) (payload : Identified)
    (declared : List KeyValue) (r : Receiver)
    → Holds limits r
    → Holds limits (resource_for around payload declared r).0
unfolding resource_for
resource_for-Holds limits around payload declared r h =
    let hash = hash_declared_resource declared in
    let (t, cached) = find payload.leaf_id hash around.steady_now r.table in
    resource_or-Holds limits cached around payload declared hash (record r { table = t }) h

enqueue_with-Holds :
    (limits : SpanLimitOptions) (o : Option (Option ℕ)) (route : Option ℕ → Route)
    (scopes : List DecodedScopeSpans) (fell_back : Bool) (r : Receiver) (result : IngestResult)
    → ((resource : Option ℕ) → (route resource).span_limits ≡ limits)
    → Holds limits r
    → Holds limits (enqueue_with o route scopes fell_back r result).receiver
unfolding enqueue_with
enqueue_with-Holds limits none route scopes fell_back r result e h = h
enqueue_with-Holds limits (some resource) route scopes fell_back r result e h =
    let same = e resource in
    (
      h.0,
      rw (← same)
          (enqueue_resource_spans-IsKept (route resource) scopes r.pipeline result (rw same h.1)),
    )

module _ (limits : SpanLimitOptions) (around : Surroundings) where
  enqueue_one-Holds :
      (payload : Identified) (received : ℤ) (rs : DecodedResourceSpans) (mode : LeafTimeMode)
      (r : Receiver) (result : IngestResult)
      → Holds limits r
      → Holds limits (enqueue_one around payload received rs mode r result).receiver
  unfolding enqueue_one
  enqueue_one-Holds payload received rs mode r result h =
      let info = read_wire_info rs.resource in
      let counted = count_losses info rs r in
      let corrected = correction_for around payload received mode info counted in
      let ready = resource_for around payload rs.resource corrected.0 in
      enqueue_with-Holds limits ready.1 (route_of around corrected.1.correction r) rs.scopes
        corrected.1.fell_back ready.0 result (λ resource. h.0)
        (resource_for-Holds limits around payload rs.resource corrected.0 (
          correction_for-Holds limits around payload received mode info counted
            (count_losses-Holds limits info rs r h)))

  if_Holds :
      (b : Bool) (x y : Progress)
      → Holds limits x.receiver
      → Holds limits y.receiver
      → Holds limits (if b then x else y).receiver
  if_Holds true x y p q = p
  if_Holds false x y p q = q

  enqueue_all-Holds :
      (payload : Identified) (received : ℤ) (rss : List DecodedResourceSpans)
      (modes : List LeafTimeMode) (fell_back : Bool) (r : Receiver) (result : IngestResult)
      → Holds limits r
      → Holds limits (enqueue_all around payload received rss modes fell_back r result).receiver
  unfolding enqueue_all
  enqueue_all-Holds payload received [] modes fell_back r result h = h
  enqueue_all-Holds payload received (rs ∷ rss) [] fell_back r result h = h
  enqueue_all-Holds payload received (rs ∷ rss) (mode ∷ modes) fell_back r result h =
      let one = enqueue_one around payload received rs mode r result in
      let back = if one.fell_back then true else fell_back in
      let step = enqueue_one-Holds payload received rs mode r result h in
      if_Holds one.threw (record one { fell_back = back })
        (enqueue_all around payload received rss modes back one.receiver one.result) step
        (enqueue_all-Holds payload received rss modes back one.receiver one.result step)

  count_fallback-Holds :
      (p : Progress) → Holds limits p.receiver → Holds limits (count_fallback p).receiver
  unfolding count_fallback
  count_fallback-Holds p h = elim (Bool-cases p.threw) [
    | inl e ↦ rw e h
    | inr e ↦ elim (Bool-cases p.fell_back) [ inl f ↦ rw (e, f) h | inr f ↦ rw (e, f) h ]
  ]

  finish-Holds : (p : Progress) → Holds limits p.receiver → Holds limits (finish p).0
  unfolding finish catch record_accepted record_out_of_memory
  finish-Holds p h = elim (Bool-cases p.threw) [ inl e ↦ rw e h | inr e ↦ rw e h ]

  identified-Holds :
      (request : IngestRequest) (p : Decodeds) (r r' : Receiver) (o : Outcome Identified)
      → IsStaged r (r', o)
      → Holds limits r
      → Holds limits (ingest_identified request around p (r', o)).0
  unfolding ingest_identified catch record_out_of_memory
  identified-Holds request p r r' Outcome.throws s h = quiet-Holds limits r r' s h
  identified-Holds request p r r' (Outcome.ends result) s h = refused-Holds limits r r' result s h
  identified-Holds request p r r' (Outcome.goes_on payload) s h =
      let received = received_ns request around in
      let start = plain_result IngestStatus.accepted in
      let all = enqueue_all around payload received p.0 p.1 false r' start in
      finish-Holds (count_fallback all) (
        count_fallback-Holds all
          (enqueue_all-Holds payload received p.0 p.1 false r' start (quiet-Holds limits r r' s h)))

  admitted-Holds :
      (request : IngestRequest) (r r' : Receiver) (o : Outcome Decodeds)
      → IsStaged r (r', o)
      → Holds limits r
      → Holds limits (ingest_admitted request around (r', o)).0
  unfolding ingest_admitted catch record_out_of_memory
  admitted-Holds request r r' Outcome.throws s h = quiet-Holds limits r r' s h
  admitted-Holds request r r' (Outcome.ends result) s h = refused-Holds limits r r' result s h
  admitted-Holds request r r' (Outcome.goes_on p) s h =
      let next = identify request p around.steady_now r' in
      identified-Holds request p r' next.0 next.1 (identify-IsStaged request p around.steady_now r')
        (quiet-Holds limits r r' s h)

  if_ingest :
      (b : Bool) (x y : Receiver × IngestResult)
      → Holds limits x.0
      → Holds limits y.0
      → Holds limits (if b then x else y).0
  if_ingest true x y p q = p
  if_ingest false x y p q = q

-- If every span that waits in the processor is within the receiver's limits and flagged as sampled,
-- then so is every one after a call, whatever the payload, the sampler and the allocations do.
pub ingest-Holds :
    (limits : SpanLimitOptions) (around : Surroundings) (request : IngestRequest) (r : Receiver)
    → Holds limits r
    → Holds limits (ingest request around r).0
unfolding ingest
ingest-Holds limits around request r h =
    let stage = admit request around.steady_now r in
    let late : Receiver = record r {
      counters = record r.counters {
        payloads_post_shutdown = fetch_add r.counters.payloads_post_shutdown 1;
      };
    } in
    if_ingest limits around r.shut_down (late, plain_result IngestStatus.shut_down)
      (ingest_admitted request around stage) h
      (admitted-Holds limits around request r stage.0 stage.1
        (admit-IsStaged request around.steady_now r) h)
