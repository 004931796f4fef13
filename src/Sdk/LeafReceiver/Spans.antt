-- ===== src/Sdk/LeafReceiver/Spans.antt =====
-- src/sdk/leaf_receiver.cpp, `Ingest`: the spans of a payload against the counts of its result.
use microtel.Prelude.{
  ℕ, ◌+◌, ◌≤◌, ◌<◌, ◌^◌, ◌≡◌, refl, sym, ap, ◌∙◌, inl, inr, Bool, true, false, ◌||◌, ◌==◌,
  if◌then◌else◌, ltb, not, List, [], length, arith, Bool-cases,
}
use microtel.Prelude.Int.{ℤ}
use microtel.Sdk.Diagnostics.{fetch_add}
use microtel.Sdk.LeafReceiver.{
  IngestRequest, IngestStatus, IngestResult, DecodedResourceSpans, Decoding, Receiver, Surroundings,
  Outcome, Decodeds, admit_decoded, admit, decode_limits, plain_result, read_modes,
  carries_spans_or_drops, is_nil, refused_before_decode, max_leaf_id_bytes,
}
use microtel.Sdk.LeafReceiver.Identity.{Identified, identify}
use microtel.Sdk.LeafReceiver.Enqueue.{Progress, enqueue_all, count_fallback}
use microtel.Sdk.LeafReceiver.Ingest.{
  catch, finish, record_accepted, accepted_status, ingest_identified, ingest_admitted, ingest,
  received_ns,
}
use microtel.Sdk.LeafReceiver.Counted.{
  is_refusal, IsRefused, IsStaged, admit-IsStaged, identify-IsStaged,
}
use microtel.Sdk.LeafReceiver.Reported.{
  reported, decoded_length, reported-enqueue_all, reported-enqueue_all_le,
}

-- What `Admit` passes on: the decoder's own answer, with a mode for each ResourceSpans.
abbrev Carries : Decoding → Receiver × Outcome Decodeds → Type 0
Carries d (r, Outcome.goes_on p) = (d ≡ Decoding.decodes p.0) × (length p.1 ≡ length p.0)
Carries d (r, _) = Unit

admit_decoded-Carries : (d : Decoding) (r : Receiver) → Carries d (admit_decoded d r)
unfolding admit_decoded
admit_decoded-Carries Decoding.exhausts r = tt
admit_decoded-Carries Decoding.over_limit r = tt
admit_decoded-Carries Decoding.undecodable r = tt
admit_decoded-Carries (Decoding.decodes decoded) r =
    let modes = read_modes decoded in
    elim (Bool-cases (
      is_nil decoded
      || not (length modes == length decoded)
      || not (carries_spans_or_drops decoded))) [
        | inl e ↦ rw e tt
        | inr e ↦ rw e (refl, ground arith)
      ]

admit-Carries :
    (request : IngestRequest) (now : ℤ) (r : Receiver)
    → Carries (r.decoder request.payload (decode_limits r.options)) (admit request now r)
unfolding admit
admit-Carries request now r =
    let d = r.decoder request.payload (decode_limits r.options) in
    elim (Bool-cases (ltb r.options.max_payload_bytes (length request.payload))) [
      | inl e ↦ rw e tt
      | inr e ↦ elim (Bool-cases (ltb max_leaf_id_bytes (length request.leaf_id))) [
        | inl f ↦ rw (e, f) tt
        | inr f ↦ elim (Bool-cases (refused_before_decode request now r).1) [
          | inl g ↦ rw (e, f, g) tt
          | inr g ↦ rw (e, f, g) (admit_decoded-Carries d (refused_before_decode request now r).0)
        ]
      ]
    ]

-- What each status says of the spans of a payload that decodes to this many.
abbrev pub Accounts : IngestStatus → ℕ → IngestResult → Type 0
Accounts IngestStatus.accepted n result = (reported result ≡ n) × (result.spans_dropped ≡ 0)
Accounts IngestStatus.partially_accepted n result =
    (reported result ≡ n) × (0 < result.spans_dropped)
Accounts IngestStatus.out_of_memory n result = reported result ≤ n
Accounts _ n result = reported result ≡ 0

abbrev pub IsAccounted : ℕ → Receiver × IngestResult → Type 0
IsAccounted n (r, result) = Accounts result.status n result

accepted-IsAccounted :
    (n : ℕ) (r : Receiver) (result : IngestResult)
    → reported result ≡ n
    → IsAccounted n (r, record result { status = accepted_status result })
unfolding reported
accepted-IsAccounted n r result h = elim (Bool-cases (ltb 0 result.spans_dropped)) [
  | inl e ↦ rw e (h, ground arith)
  | inr e ↦ rw e (h, ground arith)
]

catch-IsAccounted :
    (n : ℕ) (r : Receiver) (result : IngestResult)
    → reported result ≤ n
    → IsAccounted n (catch r result)
unfolding catch reported
catch-IsAccounted n r result h = h

finish-IsAccounted :
    (n : ℕ) (p : Progress)
    → (p.threw ≡ false → reported p.result ≡ n)
    → reported p.result ≤ n
    → IsAccounted n (finish p)
unfolding finish
finish-IsAccounted n p h le = elim (Bool-cases p.threw) [
  | inl e ↦ rw e (catch-IsAccounted n p.receiver p.result le)
  | inr e ↦ rw e (accepted-IsAccounted n (record_accepted p.receiver) p.result (h e))
]

result-count_fallback :
    (p : Progress) → ((count_fallback p).result ≡ p.result) × ((count_fallback p).threw ≡ p.threw)
unfolding count_fallback
result-count_fallback p = elim (Bool-cases p.threw) [
  | inl e ↦ rw e (refl, refl)
  | inr e ↦ elim (Bool-cases p.fell_back) [
    | inl f ↦ rw (e, f) (refl, refl)
    | inr f ↦ rw (e, f) (refl, refl)
  ]
]

reported_start : (n : ℕ) → reported (plain_result IngestStatus.accepted) + n ≡ n
unfolding reported
reported_start n = omega arith

reported_plain : (status : IngestStatus) → reported (plain_result status) ≡ 0
unfolding reported
reported_plain status = refl

refusal-Accounts :
    (s : IngestStatus) (n : ℕ) (result : IngestResult)
    → is_refusal s ≡ true
    → reported result ≡ 0
    → Accounts s n result
refusal-Accounts IngestStatus.malformed n result h e = e
refusal-Accounts IngestStatus.too_large n result h e = e
refusal-Accounts IngestStatus.unknown_leaf n result h e = e
refusal-Accounts _ n result h e = absurd (ground arith)

refused-IsAccounted :
    (n : ℕ) (r r' : Receiver) (result : IngestResult)
    → IsRefused r r' result
    → IsAccounted n (r', result)
refused-IsAccounted n r r' result h =
    refusal-Accounts result.status n result h.refusal
      (ap reported h.no_spans ∙ reported_plain result.status)

decoded_of : Decoding → List DecodedResourceSpans
decoded_of (Decoding.decodes decoded) = decoded
decoded_of _ = []

same_decoded : (a b : List DecodedResourceSpans) → Decoding.decodes a ≡ Decoding.decodes b → a ≡ b
unfolding decoded_of
same_decoded a b h = ap decoded_of h

module _ (request : IngestRequest) (around : Surroundings) where
  identified-IsAccounted :
      (p : Decodeds) (r r' : Receiver) (o : Outcome Identified)
      → length p.1 ≡ length p.0
      → decoded_length p.0 < 2 ^ 32
      → IsStaged r (r', o)
      → IsAccounted (decoded_length p.0) (ingest_identified request around p (r', o))
  unfolding ingest_identified
  identified-IsAccounted p r r' Outcome.throws l h s =
      catch-IsAccounted (decoded_length p.0) r' (plain_result IngestStatus.accepted)
        (omega (arith, reported_plain IngestStatus.accepted))
  identified-IsAccounted p r r' (Outcome.ends result) l h s =
      refused-IsAccounted (decoded_length p.0) r r' result s
  identified-IsAccounted p r r' (Outcome.goes_on payload) l h s =
      let received = received_ns request around in
      let start = plain_result IngestStatus.accepted in
      let all = enqueue_all around payload received p.0 p.1 false r' start in
      let same = result-count_fallback all in
      finish-IsAccounted (decoded_length p.0) (count_fallback all)
        (λ t.
          ap reported same.0
          ∙ reported-enqueue_all around payload received p.0 p.1 false r' start l
              (omega (arith, reported_start (decoded_length p.0))) (sym same.1 ∙ t)
          ∙ reported_start (decoded_length p.0))
        (omega (
          arith,
          ap reported same.0,
          reported_start (decoded_length p.0),
          reported-enqueue_all_le around payload received p.0 p.1 false r' start
              (omega (arith, reported_start (decoded_length p.0))),
        ))

  admitted-IsAccounted :
      (decoded : List DecodedResourceSpans) (d : Decoding) (r r' : Receiver) (o : Outcome Decodeds)
      → d ≡ Decoding.decodes decoded
      → Carries d (r', o)
      → decoded_length decoded < 2 ^ 32
      → IsStaged r (r', o)
      → IsAccounted (decoded_length decoded) (ingest_admitted request around (r', o))
  unfolding ingest_admitted
  admitted-IsAccounted decoded d r r' Outcome.throws e c h s =
      catch-IsAccounted (decoded_length decoded) r' (plain_result IngestStatus.accepted)
        (omega (arith, reported_plain IngestStatus.accepted))
  admitted-IsAccounted decoded d r r' (Outcome.ends result) e c h s =
      refused-IsAccounted (decoded_length decoded) r r' result s
  admitted-IsAccounted decoded d r r' (Outcome.goes_on p) e c h s =
      let same : decoded ≡ p.0 = same_decoded decoded p.0 (sym e ∙ c.0) in
      let next = identify request p around.steady_now r' in
      rw same (
        identified-IsAccounted p r' next.0 next.1 c.1 (rw same at h)
          (identify-IsStaged request p around.steady_now r'))

  if_IsAccounted :
      (n : ℕ) (b : Bool) (x y : Receiver × IngestResult)
      → IsAccounted n x
      → IsAccounted n y
      → IsAccounted n (if b then x else y)
  if_IsAccounted n true x y p q = p
  if_IsAccounted n false x y p q = q

-- Where the payload's decoding, if it comes to it, has fewer than 2^32 spans (a decoder keeps to
-- `max_spans_per_payload`, a `uint32_t`), the three counts of an accepted payload's result add up to
-- the spans that it decoded to, some of them dropped exactly if the status is partial; out of memory
-- they are at most that many, and any other status reports none.
pub ingest-IsAccounted :
    (request : IngestRequest) (around : Surroundings) (r : Receiver)
    (decoded : List DecodedResourceSpans)
    → r.decoder request.payload (decode_limits r.options) ≡ Decoding.decodes decoded
    → decoded_length decoded < 2 ^ 32
    → IsAccounted (decoded_length decoded) (ingest request around r)
unfolding ingest
ingest-IsAccounted request around r decoded e h =
    let stage = admit request around.steady_now r in
    let late : Receiver = record r {
      counters = record r.counters {
        payloads_post_shutdown = fetch_add r.counters.payloads_post_shutdown 1;
      };
    } in
    if_IsAccounted request around (decoded_length decoded) r.shut_down
      (late, plain_result IngestStatus.shut_down) (ingest_admitted request around stage)
      (reported_plain IngestStatus.shut_down)
      (admitted-IsAccounted request around decoded
        (r.decoder request.payload (decode_limits r.options)) r stage.0 stage.1 e
        (admit-Carries request around.steady_now r) h (admit-IsStaged request around.steady_now r))
