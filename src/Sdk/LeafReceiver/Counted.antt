-- ===== src/Sdk/LeafReceiver/Counted.antt =====
-- src/sdk/leaf_receiver.cpp: what each stage of `Ingest` may change: the payload counters, and the way to the processor.
use microtel.Prelude.{
  ℕ, ◌≡◌, refl, ap, ◌∙◌, inl, inr, Bool, true, false, ◌||◌, ◌&&◌, ◌==◌, ltb, not, List, Option,
  none, some, length, get_or, Bool-cases,
}
use microtel.Prelude.Bytes.{Bytes}
use microtel.Prelude.Int.{ℤ}
use microtel.Sdk.Diagnostics.{DropReason, record_drop, fetch_add}
use microtel.Sdk.LeafTable.{settings}
use microtel.Sdk.LeafReceiver.{
  IngestRequest, IngestStatus, IngestResult, Resolution, DecodedResourceSpans, Decoding,
  LeafSettings, Pipeline, Receiver, is_reject, is_nil, find_leaf, plain_result, count_drop,
  count_rejected, reject_payload, ask_cache, refused_before_decode, Outcome, rejects, Decodeds,
  admit_decoded, admit, is_some, read_modes, carries_spans_or_drops, max_leaf_id_bytes,
  decode_limits,
}
use microtel.Sdk.LeafReceiver.Identity.{
  ask_resolver, static_settings, settings_above, resolve_settings, Settled, adopt_fresh,
  settle_fresh, ask_unknown, settle, settings_for, modes_allowed, effective_mode, any_conflict,
  count_id_conflict, Identified, identify_settled, identify, settle_leaf_id, no_settings,
}

-- The four counters of payloads.
pub record Tally : Type 0 where
  pub accepted : ℕ
  pub rejected : ℕ
  pub out_of_memory : ℕ
  pub post_shutdown : ℕ

abbrev pub tally : Receiver → Tally
tally r = record {
  accepted = r.counters.payloads_accepted;
  rejected = r.counters.payloads_rejected;
  out_of_memory = r.counters.payloads_out_of_memory;
  post_shutdown = r.counters.payloads_post_shutdown;
}

pub record IsQuiet (r r' : Receiver) : Type 0 where
  pub same_tally : tally r' ≡ tally r
  pub same_pipeline : r'.pipeline ≡ r.pipeline
  pub same_limits : r'.span_limits ≡ r.span_limits

abbrev pub is_refusal : IngestStatus → Bool
is_refusal IngestStatus.malformed = true
is_refusal IngestStatus.too_large = true
is_refusal IngestStatus.unknown_leaf = true
is_refusal _ = false

-- The reason that a refusal counts.
abbrev pub reason_of : IngestStatus → DropReason
reason_of IngestStatus.too_large = DropReason.leaf_payload_too_large
reason_of IngestStatus.unknown_leaf = DropReason.leaf_unknown
reason_of _ = DropReason.leaf_payload_malformed

abbrev pub with_drop : DropReason → Pipeline → Pipeline
with_drop reason p = record p { diag = record_drop reason 1 p.diag }

pub record IsRefused (r r' : Receiver) (result : IngestResult) : Type 0 where
  pub refusal : is_refusal result.status ≡ true
  pub no_spans : result ≡ plain_result result.status
  pub counted : tally r' ≡ record (tally r) { rejected = fetch_add (tally r).rejected 1 }
  pub one_drop : r'.pipeline ≡ with_drop (reason_of result.status) r.pipeline
  pub limits_stay : r'.span_limits ≡ r.span_limits

-- A stage that goes on has counted nothing yet; one that ends has counted one refusal.
abbrev pub IsStaged : {A : Type 0} → Receiver → Receiver × Outcome A → Type 0
IsStaged r (r', Outcome.goes_on a) = IsQuiet r r'
IsStaged r (r', Outcome.throws) = IsQuiet r r'
IsStaged r (r', Outcome.ends result) = IsRefused r r' result

pub IsQuiet-self : (r : Receiver) → IsQuiet r r
IsQuiet-self r = record { same_tally = refl; same_pipeline = refl; same_limits = refl }

pub IsQuiet-trans : (r r' r'' : Receiver) → IsQuiet r r' → IsQuiet r' r'' → IsQuiet r r''
IsQuiet-trans r r' r'' p q = record {
  same_tally = q.same_tally ∙ p.same_tally;
  same_pipeline = q.same_pipeline ∙ p.same_pipeline;
  same_limits = q.same_limits ∙ p.same_limits;
}

rejects-IsStaged :
    (A : Type 0) (status : IngestStatus) (r r' : Receiver)
    → is_refusal status ≡ true
    → IsQuiet r r'
    → IsStaged {A = A} r (rejects status (reason_of status) r')
unfolding reject_payload count_rejected count_drop
rejects-IsStaged A status r r' s q = record {
  refusal = s;
  no_spans = refl;
  counted = ap (λ (t : Tally). record t { rejected = fetch_add t.rejected 1 }) q.same_tally;
  one_drop = ap (with_drop (reason_of status)) q.same_pipeline;
  limits_stay = q.same_limits;
}

ask_cache-IsQuiet :
    (o : Option (Bytes → Resolution)) (leaf_id : Bytes) (now : ℤ) (r : Receiver)
    → IsQuiet r (ask_cache o leaf_id now r).0
unfolding ask_cache
ask_cache-IsQuiet none leaf_id now r = IsQuiet-self r
ask_cache-IsQuiet (some f) leaf_id now r = record {
  same_tally = refl;
  same_pipeline = refl;
  same_limits = refl;
}

refused_before_decode-IsQuiet :
    (request : IngestRequest) (now : ℤ) (r : Receiver)
    → IsQuiet r (refused_before_decode request now r).0
unfolding refused_before_decode
refused_before_decode-IsQuiet request now r =
    elim (Bool-cases (
      is_nil request.leaf_id
      || not (is_reject r.options.unknown_leaf)
      || is_some (find_leaf request.leaf_id r.leaves))) [
        | inl e ↦ rw e (IsQuiet-self r)
        | inr e ↦ rw e (ask_cache-IsQuiet r.options.resolver request.leaf_id now r)
      ]

admit_decoded-IsStaged :
    (d : Decoding) (r r' : Receiver) → IsQuiet r r' → IsStaged r (admit_decoded d r')
unfolding admit_decoded
admit_decoded-IsStaged Decoding.exhausts r r' q = q
admit_decoded-IsStaged Decoding.over_limit r r' q =
    rejects-IsStaged Decodeds IngestStatus.too_large r r' refl q
admit_decoded-IsStaged Decoding.undecodable r r' q =
    rejects-IsStaged Decodeds IngestStatus.malformed r r' refl q
admit_decoded-IsStaged (Decoding.decodes decoded) r r' q =
    elim (Bool-cases (
      is_nil decoded
      || not (length (read_modes decoded) == length decoded)
      || not (carries_spans_or_drops decoded))) [
        | inl e ↦ rw e (rejects-IsStaged Decodeds IngestStatus.malformed r r' refl q)
        | inr e ↦ rw e q
      ]

pub admit-IsStaged :
    (request : IngestRequest) (now : ℤ) (r : Receiver) → IsStaged r (admit request now r)
unfolding admit
admit-IsStaged request now r =
    let asked = refused_before_decode-IsQuiet request now r in
    elim (Bool-cases (ltb r.options.max_payload_bytes (length request.payload))) [
      | inl e ↦ rw e (rejects-IsStaged Decodeds IngestStatus.too_large r r refl (IsQuiet-self r))
      | inr e ↦ elim (Bool-cases (ltb max_leaf_id_bytes (length request.leaf_id))) [
        | inl f ↦
            rw (e, f) (rejects-IsStaged Decodeds IngestStatus.malformed r r refl (IsQuiet-self r))
        | inr f ↦ elim (Bool-cases (refused_before_decode request now r).1) [
          | inl g ↦
              rw (e, f, g)
                (rejects-IsStaged Decodeds IngestStatus.unknown_leaf r
                  (refused_before_decode request now r).0 refl asked)
          | inr g ↦
              rw (e, f, g)
                (admit_decoded-IsStaged (r.decoder request.payload (decode_limits r.options)) r
                  (refused_before_decode request now r).0 asked)
        ]
      ]
    ]

settings_above-IsQuiet :
    (a : Resolution) (leaf_id : Bytes) (static : LeafSettings) (r : Receiver)
    → IsQuiet r (settings_above a leaf_id static r).0
unfolding settings_above
settings_above-IsQuiet (Resolution.configures c) leaf_id static r = record {
  same_tally = refl;
  same_pipeline = refl;
  same_limits = refl;
}
settings_above-IsQuiet Resolution.declines leaf_id static r = IsQuiet-self r
settings_above-IsQuiet Resolution.fails leaf_id static r = IsQuiet-self r
settings_above-IsQuiet Resolution.exhausts leaf_id static r = IsQuiet-self r

resolve_settings-IsQuiet :
    (leaf_id : Bytes) (r : Receiver) → IsQuiet r (resolve_settings leaf_id r).0
unfolding resolve_settings
resolve_settings-IsQuiet leaf_id r =
    settings_above-IsQuiet (ask_resolver r.options.resolver leaf_id) leaf_id
      (static_settings (find_leaf leaf_id r.leaves)) r

settle_fresh-IsQuiet :
    (leaf_id : Bytes) (now : ℤ) (r : Receiver) (o : Option LeafSettings)
    → IsQuiet r (settle_fresh leaf_id now (r, o)).0
unfolding settle_fresh adopt_fresh
settle_fresh-IsQuiet leaf_id now r none = IsQuiet-self r
settle_fresh-IsQuiet leaf_id now r (some fresh) =
    elim (Bool-cases (is_reject r.options.unknown_leaf && not fresh.configured)) [
      | inl e ↦ rw e (record { same_tally = refl; same_pipeline = refl; same_limits = refl })
      | inr e ↦ rw e (record { same_tally = refl; same_pipeline = refl; same_limits = refl })
    ]

ask_unknown-IsQuiet :
    (leaf_id : Bytes) (now : ℤ) (r : Receiver) → IsQuiet r (ask_unknown leaf_id now r).0
unfolding ask_unknown
ask_unknown-IsQuiet leaf_id now r = elim (Bool-cases (is_reject r.options.unknown_leaf)) [
  | inl e ↦ rw e (record { same_tally = refl; same_pipeline = refl; same_limits = refl })
  | inr e ↦ rw e (IsQuiet-self r)
]

settle-IsQuiet :
    (o : Option ℕ) (leaf_id : Bytes) (now : ℤ) (r : Receiver) → IsQuiet r (settle o leaf_id now r).0
unfolding settle
settle-IsQuiet (some s) leaf_id now r = IsQuiet-self r
settle-IsQuiet none leaf_id now r =
    let asked = ask_unknown leaf_id now r in
    let quiet = ask_unknown-IsQuiet leaf_id now r in
    let resolved = resolve_settings leaf_id asked.0 in
    elim (Bool-cases asked.1) [
      | inl e ↦ rw e quiet
      | inr e ↦ rw e (
          IsQuiet-trans r resolved.0 (settle_fresh leaf_id now resolved).0
            (IsQuiet-trans r asked.0 resolved.0 quiet (resolve_settings-IsQuiet leaf_id asked.0))
            (settle_fresh-IsQuiet leaf_id now resolved.0 resolved.1))
    ]

settings_for-IsQuiet :
    (leaf_id : Bytes) (now : ℤ) (r : Receiver) → IsQuiet r (settings_for leaf_id now r).0
unfolding settings_for
settings_for-IsQuiet leaf_id now r =
    let (t, cached) = settings leaf_id now r.table in
    let q = settle-IsQuiet cached leaf_id now (record r { table = t }) in
    record {
      same_tally = q.same_tally;
      same_pipeline = q.same_pipeline;
      same_limits = q.same_limits;
    }

count_id_conflict-IsQuiet :
    (request : IngestRequest) (leaf_id : Bytes) (decoded : List DecodedResourceSpans) (r : Receiver)
    → IsQuiet r (count_id_conflict request leaf_id decoded r)
unfolding count_id_conflict
count_id_conflict-IsQuiet request leaf_id decoded r =
    elim (Bool-cases (is_nil request.leaf_id || is_nil r.options.leaf_id_attribute)) [
      | inl e ↦ rw e (IsQuiet-self r)
      | inr e ↦ elim (Bool-cases (any_conflict r.options.leaf_id_attribute leaf_id decoded)) [
        | inl f ↦ rw (e, f) (record { same_tally = refl; same_pipeline = refl; same_limits = refl })
        | inr f ↦ rw (e, f) (IsQuiet-self r)
      ]
    ]

identify_settled-IsStaged :
    (request : IngestRequest) (p : Decodeds) (leaf_id : Bytes) (r r' : Receiver) (s : Settled)
    → IsQuiet r r'
    → IsStaged r (identify_settled request p leaf_id (r', s))
unfolding identify_settled
identify_settled-IsStaged request p leaf_id r r' Settled.exhausted q = q
identify_settled-IsStaged request p leaf_id r r' Settled.refuses q =
    rejects-IsStaged Identified IngestStatus.unknown_leaf r r' refl q
identify_settled-IsStaged request p leaf_id r r' (Settled.finds a) q =
    let s = get_or r'.settings a no_settings in
    elim (Bool-cases (modes_allowed p.1 (effective_mode r'.options s))) [
      | inl e ↦ rw e (
          IsQuiet-trans r r' (count_id_conflict request leaf_id p.0 r') q
            (count_id_conflict-IsQuiet request leaf_id p.0 r'))
      | inr e ↦ rw e (rejects-IsStaged Identified IngestStatus.malformed r r' refl q)
    ]

pub identify-IsStaged :
    (request : IngestRequest) (p : Decodeds) (now : ℤ) (r : Receiver)
    → IsStaged r (identify request p now r)
unfolding identify
identify-IsStaged request p now r =
    let leaf_id = settle_leaf_id request p.0 r in
    let settled = settings_for leaf_id now r in
    elim (Bool-cases (is_nil leaf_id || ltb max_leaf_id_bytes (length leaf_id))) [
      | inl e ↦ rw e (rejects-IsStaged Identified IngestStatus.malformed r r refl (IsQuiet-self r))
      | inr e ↦ rw e (
          identify_settled-IsStaged request p leaf_id r settled.0 settled.1
            (settings_for-IsQuiet leaf_id now r))
    ]
