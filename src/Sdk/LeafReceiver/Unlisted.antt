-- ===== src/Sdk/LeafReceiver/Unlisted.antt =====
-- src/sdk/leaf_receiver.cpp, `SettingsFor`: a refused leaf and the leaf table.
use microtel.Prelude.{
  ℕ, ◌≡◌, refl, ◌∙◌, inl, inr, Bool, true, false, ◌&&◌, ◌||◌, ◌==◌, if◌then◌else◌, ltb, not, [],
  ◌∷◌, ◌++◌, Option, none, some, length, get_or, Bool-cases, arith,
}
use microtel.Prelude.Bytes.{Bytes}
use microtel.Prelude.Int.{ℤ}
use microtel.Sdk.Diagnostics.{DropReason, fetch_add}
use microtel.Sdk.LeafTable.{LeafTable, settings, adopt_settings}
use microtel.Sdk.LeafTable.Listed.{
  IsSameListing, settings-IsSameListing, IsThere, adopt_settings-IsThere,
}
use microtel.Sdk.LeafReceiver.{
  IngestRequest, IngestStatus, IngestResult, Resolution, Decoding, LeafSettings, Receiver,
  Surroundings, Outcome, Decodeds, is_reject, is_some, is_nil, find_leaf, count_drop,
  count_rejected, reject_payload, ask_cache, refused_before_decode, admit_decoded, admit,
  decode_limits, max_leaf_id_bytes, read_modes, carries_spans_or_drops, plain_result,
}
use microtel.Sdk.LeafReceiver.Identity.{
  settings_above, ask_resolver, static_settings, resolve_settings, Settled, kept_settings,
  adopt_fresh, settle_fresh, ask_unknown, settle, settings_for, modes_allowed, effective_mode,
  no_settings, settle_leaf_id, Identified, identify_settled, identify,
}
use microtel.Sdk.LeafReceiver.Enqueue.{Progress, enqueue_all, count_fallback}
use microtel.Sdk.LeafReceiver.Ingest.{
  catch, finish, ingest_identified, ingest_admitted, ingest, received_ns,
}

abbrev pub is_unknown : IngestStatus → Bool
is_unknown IngestStatus.unknown_leaf = true
is_unknown _ = false

table-reject_payload :
    (status : IngestStatus) (reason : DropReason) (r : Receiver)
    → (reject_payload status reason r).0.table ≡ r.table
unfolding reject_payload count_rejected count_drop
table-reject_payload status reason r = refl

table-ask_cache :
    (o : Option (Bytes → Resolution)) (leaf_id : Bytes) (now : ℤ) (r : Receiver)
    → (ask_cache o leaf_id now r).0.table ≡ r.table
unfolding ask_cache
table-ask_cache none leaf_id now r = refl
table-ask_cache (some f) leaf_id now r = refl

table-refused_before_decode :
    (request : IngestRequest) (now : ℤ) (r : Receiver)
    → (refused_before_decode request now r).0.table ≡ r.table
unfolding refused_before_decode
table-refused_before_decode request now r =
    elim (Bool-cases (
      is_nil request.leaf_id
      || not (is_reject r.options.unknown_leaf)
      || is_some (find_leaf request.leaf_id r.leaves))) [
        | inl e ↦ rw e refl
        | inr e ↦ rw e (table-ask_cache r.options.resolver request.leaf_id now r)
      ]

table-admit_decoded : (d : Decoding) (r : Receiver) → (admit_decoded d r).0.table ≡ r.table
unfolding admit_decoded
table-admit_decoded Decoding.exhausts r = refl
table-admit_decoded Decoding.over_limit r =
    table-reject_payload IngestStatus.too_large DropReason.leaf_payload_too_large r
table-admit_decoded Decoding.undecodable r =
    table-reject_payload IngestStatus.malformed DropReason.leaf_payload_malformed r
table-admit_decoded (Decoding.decodes decoded) r =
    elim (Bool-cases (
      is_nil decoded
      || not (length (read_modes decoded) == length decoded)
      || not (carries_spans_or_drops decoded))) [
        | inl e ↦
            rw e (table-reject_payload IngestStatus.malformed DropReason.leaf_payload_malformed r)
        | inr e ↦ rw e refl
      ]

table-admit :
    (request : IngestRequest) (now : ℤ) (r : Receiver) → (admit request now r).0.table ≡ r.table
unfolding admit
table-admit request now r =
    let asked = refused_before_decode request now r in
    let same = table-refused_before_decode request now r in
    elim (Bool-cases (ltb r.options.max_payload_bytes (length request.payload))) [
      | inl e ↦
          rw e (table-reject_payload IngestStatus.too_large DropReason.leaf_payload_too_large r)
      | inr e ↦ elim (Bool-cases (ltb max_leaf_id_bytes (length request.leaf_id))) [
        | inl f ↦
            rw (e, f)
              (table-reject_payload IngestStatus.malformed DropReason.leaf_payload_malformed r)
        | inr f ↦ elim (Bool-cases asked.1) [
          | inl g ↦
              rw (e, f, g)
                (table-reject_payload IngestStatus.unknown_leaf DropReason.leaf_unknown asked.0
                  ∙ same)
          | inr g ↦
              rw (e, f, g)
                (table-admit_decoded (r.decoder request.payload (decode_limits r.options)) asked.0
                  ∙ same)
        ]
      ]
    ]

-- A refusal leaves the table as it was.
abbrev IsUnlisted : LeafTable → Receiver × Settled → Type 0
IsUnlisted t (r, Settled.refuses) = r.table ≡ t
IsUnlisted t (r, _) = Unit

kept-IsUnlisted :
    (t : LeafTable) (r : Receiver) (o : Option (Option ℕ))
    → IsThere o
    → IsUnlisted t (r, kept_settings o)
kept-IsUnlisted t r none h = absurd h
kept-IsUnlisted t r (some none) h = absurd h
kept-IsUnlisted t r (some (some s)) h = tt

settle_fresh-IsUnlisted :
    (leaf_id : Bytes) (now : ℤ) (r : Receiver) (o : Option LeafSettings)
    → IsUnlisted r.table (settle_fresh leaf_id now (r, o))
unfolding settle_fresh adopt_fresh
settle_fresh-IsUnlisted leaf_id now r none = tt
settle_fresh-IsUnlisted leaf_id now r (some fresh) =
    elim (Bool-cases (is_reject r.options.unknown_leaf && not fresh.configured)) [
      | inl e ↦ rw e refl
      | inr e ↦
          let (t, kept) = adopt_settings leaf_id (some (length r.settings)) now false r.table in
          rw e (
            kept-IsUnlisted r.table (record r { table = t; settings = r.settings ++ fresh ∷ [] })
              kept (adopt_settings-IsThere leaf_id (length r.settings) now r.table))
    ]

table-settings_above :
    (a : Resolution) (leaf_id : Bytes) (static : LeafSettings) (r : Receiver)
    → (settings_above a leaf_id static r).0.table ≡ r.table
unfolding settings_above
table-settings_above (Resolution.configures c) leaf_id static r = refl
table-settings_above Resolution.declines leaf_id static r = refl
table-settings_above Resolution.fails leaf_id static r = refl
table-settings_above Resolution.exhausts leaf_id static r = refl

table-resolve_settings :
    (leaf_id : Bytes) (r : Receiver) → (resolve_settings leaf_id r).0.table ≡ r.table
unfolding resolve_settings
table-resolve_settings leaf_id r =
    table-settings_above (ask_resolver r.options.resolver leaf_id) leaf_id
      (static_settings (find_leaf leaf_id r.leaves)) r

table-ask_unknown :
    (leaf_id : Bytes) (now : ℤ) (r : Receiver) → (ask_unknown leaf_id now r).0.table ≡ r.table
unfolding ask_unknown
table-ask_unknown leaf_id now r = elim (Bool-cases (is_reject r.options.unknown_leaf)) [
  | inl e ↦ rw e refl
  | inr e ↦ rw e refl
]

IsUnlisted-at : (t u : LeafTable) (x : Receiver × Settled) → t ≡ u → IsUnlisted t x → IsUnlisted u x
IsUnlisted-at t u x e h = rw (← e) h

settle-IsUnlisted :
    (o : Option ℕ) (leaf_id : Bytes) (now : ℤ) (r : Receiver)
    → IsUnlisted r.table (settle o leaf_id now r)
unfolding settle
settle-IsUnlisted (some s) leaf_id now r = tt
settle-IsUnlisted none leaf_id now r =
    let asked = ask_unknown leaf_id now r in
    let same = table-ask_unknown leaf_id now r in
    let resolved = resolve_settings leaf_id asked.0 in
    elim (Bool-cases asked.1) [
      | inl e ↦ rw e same
      | inr e ↦ rw e (
          IsUnlisted-at resolved.0.table r.table (settle_fresh leaf_id now resolved)
            (table-resolve_settings leaf_id asked.0 ∙ same)
            (settle_fresh-IsUnlisted leaf_id now resolved.0 resolved.1))
    ]

-- A payload that is refused for its leaf leaves the listing as it was.
abbrev IsUnlistedEnd : LeafTable → Receiver × IngestResult → Type 0
IsUnlistedEnd t (r, result) = is_unknown result.status ≡ true → IsSameListing t r.table

abbrev IsUnlistedStage : {A : Type 0} → LeafTable → Receiver × Outcome A → Type 0
IsUnlistedStage t (r, Outcome.ends result) = IsUnlistedEnd t (r, result)
IsUnlistedStage t (r, _) = Unit

same_listing : (t t' u : LeafTable) → t' ≡ u → IsSameListing t u → IsSameListing t t'
same_listing t t' u e h = rw e h

identify_settled-IsUnlisted :
    (request : IngestRequest) (p : Decodeds) (leaf_id : Bytes) (t u : LeafTable) (r : Receiver)
    (s : Settled)
    → IsUnlisted u (r, s)
    → IsSameListing t u
    → IsUnlistedStage t (identify_settled request p leaf_id (r, s))
unfolding identify_settled reject_payload count_rejected count_drop
identify_settled-IsUnlisted request p leaf_id t u r Settled.exhausted h l = tt
identify_settled-IsUnlisted request p leaf_id t u r Settled.refuses h l =
    λ e. same_listing t r.table u h l
identify_settled-IsUnlisted request p leaf_id t u r (Settled.finds a) h l =
    let s = get_or r.settings a no_settings in
    elim (Bool-cases (modes_allowed p.1 (effective_mode r.options s))) [
      | inl e ↦ rw e tt
      | inr e ↦ rw e (λ k. absurd (ground arith))
    ]

identify-IsUnlisted :
    (request : IngestRequest) (p : Decodeds) (now : ℤ) (r : Receiver)
    → IsUnlistedStage r.table (identify request p now r)
unfolding identify settings_for reject_payload
identify-IsUnlisted request p now r =
    let leaf_id = settle_leaf_id request p.0 r in
    let (t, cached) = settings leaf_id now r.table in
    let touched = record r { table = t } in
    let settled = settle cached leaf_id now touched in
    elim (Bool-cases (is_nil leaf_id || ltb max_leaf_id_bytes (length leaf_id))) [
      | inl e ↦ rw e (λ k. absurd (ground arith))
      | inr e ↦ rw e (
          identify_settled-IsUnlisted request p leaf_id r.table t settled.0 settled.1
            (settle-IsUnlisted cached leaf_id now touched)
            (settings-IsSameListing leaf_id now r.table))
    ]

finish-IsUnlisted : (t : LeafTable) (p : Progress) → IsUnlistedEnd t (finish p)
unfolding finish catch
finish-IsUnlisted t p = elim (Bool-cases p.threw) [
  | inl e ↦ rw e (λ k. absurd (ground arith))
  | inr e ↦ elim (Bool-cases (ltb 0 p.result.spans_dropped)) [
    | inl f ↦ rw (e, f) (λ k. absurd (ground arith))
    | inr f ↦ rw (e, f) (λ k. absurd (ground arith))
  ]
]

identified-IsUnlisted :
    (request : IngestRequest) (around : Surroundings) (p : Decodeds) (t : LeafTable) (r : Receiver)
    (o : Outcome Identified)
    → IsUnlistedStage t (r, o)
    → IsUnlistedEnd t (ingest_identified request around p (r, o))
unfolding ingest_identified catch
identified-IsUnlisted request around p t r Outcome.throws h = λ k. absurd (ground arith)
identified-IsUnlisted request around p t r (Outcome.ends result) h = h
identified-IsUnlisted request around p t r (Outcome.goes_on payload) h =
    let received = received_ns request around in
    let start = plain_result IngestStatus.accepted in
    finish-IsUnlisted t (count_fallback (enqueue_all around payload received p.0 p.1 false r start))

admitted-IsUnlisted :
    (request : IngestRequest) (around : Surroundings) (t : LeafTable) (r : Receiver)
    (o : Outcome Decodeds)
    → r.table ≡ t
    → IsUnlistedEnd t (ingest_admitted request around (r, o))
unfolding ingest_admitted catch
admitted-IsUnlisted request around t r Outcome.throws e = λ k. absurd (ground arith)
admitted-IsUnlisted request around t r (Outcome.ends result) e =
    λ k. same_listing t r.table t e (refl, refl)
admitted-IsUnlisted request around t r (Outcome.goes_on p) e =
    let next = identify request p around.steady_now r in
    rw (← e) (
      identified-IsUnlisted request around p r.table next.0 next.1
        (identify-IsUnlisted request p around.steady_now r))

if_unlisted :
    (t : LeafTable) (b : Bool) (x y : Receiver × IngestResult)
    → IsUnlistedEnd t x
    → IsUnlistedEnd t y
    → IsUnlistedEnd t (if b then x else y)
if_unlisted t true x y p q = p
if_unlisted t false x y p q = q

ingest-IsUnlistedEnd :
    (request : IngestRequest) (around : Surroundings) (r : Receiver)
    → IsUnlistedEnd r.table (ingest request around r)
unfolding ingest
ingest-IsUnlistedEnd request around r =
    let stage = admit request around.steady_now r in
    let late : Receiver = record r {
      counters = record r.counters {
        payloads_post_shutdown = fetch_add r.counters.payloads_post_shutdown 1;
      };
    } in
    if_unlisted r.table r.shut_down (late, plain_result IngestStatus.shut_down)
      (ingest_admitted request around stage) (λ k. absurd (ground arith))
      (admitted-IsUnlisted request around r.table stage.0 stage.1
        (table-admit request around.steady_now r))

-- A payload refused as from an unknown leaf, before its decoding or after it, adds no leaf to the
-- leaf table and evicts none.
pub ingest_unlisted :
    (request : IngestRequest) (around : Surroundings) (r : Receiver)
    → is_unknown (ingest request around r).1.status ≡ true
    → IsSameListing r.table (ingest request around r).0.table
ingest_unlisted request around r h = ingest-IsUnlistedEnd request around r h
