-- ===== src/Sdk/LeafReceiver/Outcomes.antt =====
-- src/sdk/leaf_receiver.cpp: what one call of `Ingest` does to the counters and to the way to the processor, whichever way it
-- ends.
use microtel.Prelude.{
  ℕ, ◌≡◌, refl, ap, ◌∙◌, inl, inr, Bool, true, false, if◌then◌else◌, ltb, List, [], ◌∷◌, Option,
  none, some, arith, Bool-cases,
}
use microtel.Prelude.Int.{ℤ}
use microtel.Sdk.Diagnostics.{fetch_add}
use microtel.Sdk.Record.{KeyValue}
use microtel.Sdk.LeafTable.{find}
use microtel.Sdk.LeafWire.{LeafTimeMode, LeafWireInfo, read_wire_info, hash_declared_resource}
use microtel.Sdk.LeafReceiver.{
  IngestRequest, IngestStatus, IngestResult, DecodedScopeSpans, DecodedResourceSpans, Receiver,
  Surroundings, Outcome, Decodeds, admit, count_drop, plain_result,
}
use microtel.Sdk.LeafReceiver.Identity.{Identified, identify}
use microtel.Sdk.LeafReceiver.Enqueue.{
  Route, route_of, enqueue_with, count_losses, Progress, enqueue_one, enqueue_all, count_fallback,
}
use microtel.Sdk.LeafReceiver.Corrections.{
  resource_or, resolve_missing, resource_for, correction_for,
}
use microtel.Sdk.LeafReceiver.Ingest.{
  catch, finish, record_accepted, record_out_of_memory, accepted_status, ingest_identified,
  ingest_admitted, ingest, received_ns,
}
use microtel.Sdk.LeafReceiver.Counted.{
  Tally, tally, IsQuiet, is_refusal, reason_of, with_drop, IsRefused, IsStaged, IsQuiet-self,
  admit-IsStaged, identify-IsStaged,
}

tally-count_losses :
    (info : LeafWireInfo) (rs : DecodedResourceSpans) (r : Receiver)
    → tally (count_losses info rs r) ≡ tally r
unfolding count_losses count_drop
tally-count_losses info rs r = elim (Bool-cases (ltb 0 rs.dropped_span_attributes)) [
  | inl e ↦ rw e refl
  | inr e ↦ rw e refl
]

tally-correction_for :
    (around : Surroundings) (payload : Identified) (received : ℤ) (mode : LeafTimeMode)
    (info : LeafWireInfo) (r : Receiver)
    → tally (correction_for around payload received mode info r).0 ≡ tally r
unfolding correction_for
tally-correction_for around payload received LeafTimeMode.unix info r = refl
tally-correction_for around payload received LeafTimeMode.sync_relative info r = refl
tally-correction_for around payload received LeafTimeMode.boot_relative info r = refl
tally-correction_for around payload received LeafTimeMode.concentrator_stamped info r = refl

tally-resource_or :
    (cached : Option ℕ) (around : Surroundings) (payload : Identified) (declared : List KeyValue)
    (hash : ℕ) (r : Receiver)
    → tally (resource_or cached around payload declared hash r).0 ≡ tally r
unfolding resource_or resolve_missing
tally-resource_or (some resource) around payload declared hash r = refl
tally-resource_or none around payload declared hash r =
    elim (Bool-cases (around.resource_fails declared)) [ inl e ↦ rw e refl | inr e ↦ rw e refl ]

tally-resource_for :
    (around : Surroundings) (payload : Identified) (declared : List KeyValue) (r : Receiver)
    → tally (resource_for around payload declared r).0 ≡ tally r
unfolding resource_for
tally-resource_for around payload declared r =
    let hash = hash_declared_resource declared in
    let (t, cached) = find payload.leaf_id hash around.steady_now r.table in
    tally-resource_or cached around payload declared hash (record r { table = t })

tally-enqueue_with :
    (o : Option (Option ℕ)) (route : Option ℕ → Route) (scopes : List DecodedScopeSpans)
    (fell_back : Bool) (r : Receiver) (result : IngestResult)
    → tally (enqueue_with o route scopes fell_back r result).receiver ≡ tally r
unfolding enqueue_with
tally-enqueue_with none route scopes fell_back r result = refl
tally-enqueue_with (some resource) route scopes fell_back r result = refl

tally-enqueue_one :
    (around : Surroundings) (payload : Identified) (received : ℤ) (rs : DecodedResourceSpans)
    (mode : LeafTimeMode) (r : Receiver) (result : IngestResult)
    → tally (enqueue_one around payload received rs mode r result).receiver ≡ tally r
unfolding enqueue_one
tally-enqueue_one around payload received rs mode r result =
    let info = read_wire_info rs.resource in
    let counted = count_losses info rs r in
    let corrected = correction_for around payload received mode info counted in
    let ready = resource_for around payload rs.resource corrected.0 in
    tally-enqueue_with ready.1 (route_of around corrected.1.correction r) rs.scopes
      corrected.1.fell_back ready.0 result
    ∙ tally-resource_for around payload rs.resource corrected.0
    ∙ tally-correction_for around payload received mode info counted
    ∙ tally-count_losses info rs r

tally-enqueue_all :
    (around : Surroundings) (payload : Identified) (received : ℤ) (rss : List DecodedResourceSpans)
    (modes : List LeafTimeMode) (fell_back : Bool) (r : Receiver) (result : IngestResult)
    → tally (enqueue_all around payload received rss modes fell_back r result).receiver ≡ tally r
unfolding enqueue_all
tally-enqueue_all around payload received [] modes fell_back r result = refl
tally-enqueue_all around payload received (rs ∷ rss) [] fell_back r result = refl
tally-enqueue_all around payload received (rs ∷ rss) (mode ∷ modes) fell_back r result =
    let one = enqueue_one around payload received rs mode r result in
    let back = if one.fell_back then true else fell_back in
    let step = tally-enqueue_one around payload received rs mode r result in
    let rest = tally-enqueue_all around payload received rss modes back one.receiver one.result in
    elim (Bool-cases one.threw) [ inl e ↦ rw e step | inr e ↦ rw e (rest ∙ step) ]

tally-count_fallback : (p : Progress) → tally (count_fallback p).receiver ≡ tally p.receiver
unfolding count_fallback
tally-count_fallback p = elim (Bool-cases p.threw) [
  | inl e ↦ rw e refl
  | inr e ↦ elim (Bool-cases p.fell_back) [ inl f ↦ rw (e, f) refl | inr f ↦ rw (e, f) refl ]
]

-- The counter that a status stands for, one up.
abbrev pub bump : IngestStatus → Tally → Tally
bump IngestStatus.accepted t = record t { accepted = fetch_add t.accepted 1 }
bump IngestStatus.partially_accepted t = record t { accepted = fetch_add t.accepted 1 }
bump IngestStatus.malformed t = record t { rejected = fetch_add t.rejected 1 }
bump IngestStatus.too_large t = record t { rejected = fetch_add t.rejected 1 }
bump IngestStatus.unknown_leaf t = record t { rejected = fetch_add t.rejected 1 }
bump IngestStatus.out_of_memory t = record t { out_of_memory = fetch_add t.out_of_memory 1 }
bump IngestStatus.shut_down t = record t { post_shutdown = fetch_add t.post_shutdown 1 }
bump IngestStatus.disabled t = t

abbrev pub is_disabled : IngestStatus → Bool
is_disabled IngestStatus.disabled = true
is_disabled _ = false

-- One payload, counted by its status.
abbrev pub IsCountedOnce : Receiver → Receiver × IngestResult → Type 0
IsCountedOnce r (r', result) =
    (tally r' ≡ bump result.status (tally r)) × (is_disabled result.status ≡ false)

refusal_bumps :
    (status : IngestStatus) (t : Tally)
    → is_refusal status ≡ true
    → ◌≡◌ {A = Tally} (record t { rejected = fetch_add t.rejected 1 }) (bump status t)
      × (is_disabled status ≡ false)
refusal_bumps IngestStatus.malformed t h = (refl, refl)
refusal_bumps IngestStatus.too_large t h = (refl, refl)
refusal_bumps IngestStatus.unknown_leaf t h = (refl, refl)
refusal_bumps _ t h = absurd (ground arith)

refused_once :
    (r r' : Receiver) (result : IngestResult) → IsRefused r r' result → IsCountedOnce r (r', result)
refused_once r r' result h =
    let bumps = refusal_bumps result.status (tally r) h.refusal in (h.counted ∙ bumps.0, bumps.1)

catch_once :
    (r r' : Receiver) (result : IngestResult)
    → tally r' ≡ tally r
    → IsCountedOnce r (catch r' result)
unfolding catch record_out_of_memory
catch_once r r' result e = (ap (bump IngestStatus.out_of_memory) e, refl)

accepted_once :
    (r r' : Receiver) (result : IngestResult)
    → tally r' ≡ tally r
    → IsCountedOnce r (record_accepted r', record result { status = accepted_status result })
unfolding record_accepted
accepted_once r r' result e = elim (Bool-cases (ltb 0 result.spans_dropped)) [
  | inl d ↦ rw d (ap (bump IngestStatus.accepted) e, refl)
  | inr d ↦ rw d (ap (bump IngestStatus.accepted) e, refl)
]

finish_once :
    (r : Receiver) (p : Progress) → tally p.receiver ≡ tally r → IsCountedOnce r (finish p)
unfolding finish
finish_once r p e = elim (Bool-cases p.threw) [
  | inl t ↦ rw t (catch_once r p.receiver p.result e)
  | inr t ↦ rw t (accepted_once r p.receiver p.result e)
]

-- What a refused payload leaves behind.
abbrev IsClean : Receiver → Receiver × IngestResult → Type 0
IsClean r (r', result) =
    is_refusal result.status ≡ true
    → (result ≡ plain_result result.status)
      × (r'.pipeline ≡ with_drop (reason_of result.status) r.pipeline)

finish-IsClean : (r : Receiver) (p : Progress) → IsClean r (finish p)
unfolding finish catch
finish-IsClean r p = elim (Bool-cases p.threw) [
  | inl t ↦ rw t (λ refusal. absurd (ground arith))
  | inr t ↦ rw t (λ refusal. absurd (ground arith))
]

-- Both hold of a stage's end, when nothing was counted before it.
abbrev IsSound : Receiver → Receiver × IngestResult → Type 0
IsSound r end = IsCountedOnce r end × IsClean r end

refused-IsSound :
    (q r r' : Receiver) (result : IngestResult)
    → IsQuiet q r
    → IsRefused r r' result
    → IsSound q (r', result)
refused-IsSound q r r' result quiet h =
    let once = refused_once r r' result h in
    (
      (once.0 ∙ ap (bump result.status) quiet.same_tally, once.1),
      λ refusal.
          (h.no_spans, h.one_drop ∙ ap (with_drop (reason_of result.status)) quiet.same_pipeline),
    )

if_IsSound :
    (r : Receiver) (b : Bool) (x y : Receiver × IngestResult)
    → IsSound r x
    → IsSound r y
    → IsSound r (if b then x else y)
if_IsSound r true x y p q = p
if_IsSound r false x y p q = q

module _ (request : IngestRequest) (around : Surroundings) where
  identified-IsSound :
      (p : Decodeds) (q r r' : Receiver) (o : Outcome Identified)
      → IsQuiet q r
      → IsStaged r (r', o)
      → IsSound q (ingest_identified request around p (r', o))
  unfolding ingest_identified catch
  identified-IsSound p q r r' Outcome.throws quiet h = (
    catch_once q r' (plain_result IngestStatus.accepted) (h.same_tally ∙ quiet.same_tally),
    λ refusal. absurd (ground arith),
  )
  identified-IsSound p q r r' (Outcome.ends result) quiet h = refused-IsSound q r r' result quiet h
  identified-IsSound p q r r' (Outcome.goes_on payload) quiet h =
      let received = received_ns request around in
      let start = plain_result IngestStatus.accepted in
      let all = enqueue_all around payload received p.0 p.1 false r' start in
      (
        finish_once q (count_fallback all) (
            tally-count_fallback all
            ∙ tally-enqueue_all around payload received p.0 p.1 false r' start
            ∙ h.same_tally
            ∙ quiet.same_tally),
        finish-IsClean q (count_fallback all),
      )

  admitted-IsSound :
      (r r' : Receiver) (o : Outcome Decodeds)
      → IsStaged r (r', o)
      → IsSound r (ingest_admitted request around (r', o))
  unfolding ingest_admitted catch
  admitted-IsSound r r' Outcome.throws h = (
    catch_once r r' (plain_result IngestStatus.accepted) h.same_tally,
    λ refusal. absurd (ground arith),
  )
  admitted-IsSound r r' (Outcome.ends result) h = refused-IsSound r r r' result (IsQuiet-self r) h
  admitted-IsSound r r' (Outcome.goes_on p) h =
      let next = identify request p around.steady_now r' in
      identified-IsSound p r r' next.0 next.1 h (identify-IsStaged request p around.steady_now r')

  ingest-IsSound : (r : Receiver) → IsSound r (ingest request around r)
  unfolding ingest
  ingest-IsSound r =
      let stage = admit request around.steady_now r in
      let late : Receiver = record r {
        counters = record r.counters {
          payloads_post_shutdown = fetch_add r.counters.payloads_post_shutdown 1;
        };
      } in
      if_IsSound r r.shut_down (late, plain_result IngestStatus.shut_down)
        (ingest_admitted request around stage) ((refl, refl), λ refusal. absurd (ground arith))
        (admitted-IsSound r stage.0 stage.1 (admit-IsStaged request around.steady_now r))

-- Whatever a payload and its surroundings are, the decoder's and the resolver's exceptions
-- included, one call moves exactly one of the four counters of payloads, the one of the status it
-- returns, by one; and it never says that the receiver is disabled.
pub ingest-IsCountedOnce :
    (request : IngestRequest) (around : Surroundings) (r : Receiver)
    → IsCountedOnce r (ingest request around r)
ingest-IsCountedOnce request around r = (ingest-IsSound request around r).0

-- A payload that is refused as malformed, too large or from an unknown leaf reports no span, hands
-- none to the processor and changes nothing there but one drop, of the status's own reason.
pub ingest_refused :
    (request : IngestRequest) (around : Surroundings) (r : Receiver)
    → is_refusal (ingest request around r).1.status ≡ true
    → ((ingest request around r).1 ≡ plain_result (ingest request around r).1.status)
      × ((ingest request around r).0.pipeline
          ≡ with_drop (reason_of (ingest request around r).1.status) r.pipeline)
ingest_refused request around r h = (ingest-IsSound request around r).1 h
