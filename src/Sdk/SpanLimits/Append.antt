-- ===== src/Sdk/SpanLimits/Append.antt =====
-- `AppendAttributes` against `ApplySpanLimits`: the two treat a list of attributes alike.
use microtel.Prelude.{
  ℕ, zero, suc, ◌+◌, ◌-◌, ◌≤◌, ◌≡◌, refl, sym, ap, ◌∙◌, inl, inr, true, false, leb, List, [], ◌∷◌,
  ◌++◌, none, some, length, take, arith, Bool-cases, length-append,
}
use microtel.Sdk.Diagnostics.{DropReason}
use microtel.Sdk.Record.{KeyValue, SpanEvent, SpanLink, SpanRecord}
use microtel.Sdk.SpanLimits.{
  SpanLimitOptions, Sink, count, truncate_strings, keep_first, truncate_all, limit_events,
  limit_links, apply_span_limits, append_one, append_from, append_attributes,
}

abbrev Loop : Type 0
Loop = List KeyValue × ℕ × ℕ

same_triple :
    {x x' : List KeyValue} {m m' n n' : ℕ}
    → x ≡ x'
    → m ≡ m'
    → n ≡ n'
    → ◌≡◌ {A = Loop} (x, m, n) (x', m', n')
same_triple p q r = rw (p, q, r) refl

append-nil : (xs : List KeyValue) → xs ++ [] ≡ xs
append-nil [] = refl
append-nil (x ∷ xs) = ap (λ (ys : List KeyValue). x ∷ ys) (append-nil xs)

append_one_more :
    (xs : List KeyValue) (y : KeyValue) (zs : List KeyValue) → (xs ++ y ∷ []) ++ zs ≡ xs ++ y ∷ zs
append_one_more [] y zs = refl
append_one_more (x ∷ xs) y zs = ap (λ (ys : List KeyValue). x ∷ ys) (append_one_more xs y zs)

-- The loop, when no allocation fails and the limit leaves room for some attributes.
append_from-truncate_all :
    (attributes extra : List KeyValue) (limits : SpanLimitOptions) (room over truncated : ℕ)
    → room ≡ limits.attribute_count_limit - length attributes
    → append_from attributes extra limits (λ i. false) over truncated ≡ (
      attributes ++ (truncate_all (take room extra) limits.attribute_value_length_limit).0,
      over + (length extra - room),
      truncated + (truncate_all (take room extra) limits.attribute_value_length_limit).1,
    )
unfolding append_from append_one truncate_all
append_from-truncate_all attributes [] limits zero over truncated h =
    same_triple (sym (append-nil attributes)) (omega arith) (omega arith)
append_from-truncate_all attributes [] limits (suc room) over truncated h =
    same_triple (sym (append-nil attributes)) (omega arith) (omega arith)
append_from-truncate_all attributes (kv ∷ extra) limits zero over truncated h =
    let full : leb limits.attribute_count_limit (length attributes) ≡ true = ground arith in
    rw full (
      append_from-truncate_all attributes extra limits zero (suc over) truncated h
      ∙ same_triple refl (omega arith) refl)
append_from-truncate_all attributes (kv ∷ extra) limits (suc room) over truncated h =
    let open_still : leb limits.attribute_count_limit (length attributes) ≡ false = ground arith in
    let n = limits.attribute_value_length_limit in
    let cut = truncate_strings kv.value n in
    let one : KeyValue = record kv { value = cut.0 } in
    let longer = length-append attributes (one ∷ []) in
    rw open_still (
      append_from-truncate_all (attributes ++ one ∷ []) extra limits room over (truncated + cut.1)
        (omega arith)
      ∙ same_triple (append_one_more attributes one (truncate_all (take room extra) n).0)
          (omega arith) (omega arith))

count-zero : (reason : DropReason) (diag : Sink) → count reason 0 diag ≡ diag
unfolding count
count-zero reason none = refl
count-zero reason (some d) = refl

take_all : (xs : List KeyValue) (n : ℕ) → length xs ≤ n → take n xs ≡ xs
take_all [] zero h = refl
take_all [] (suc n) h = refl
take_all (x ∷ xs) zero h = absurd (omega arith)
take_all (x ∷ xs) (suc n) h = ap (λ (ys : List KeyValue). x ∷ ys) (take_all xs n (omega arith))

keep_first-take :
    (xs : List KeyValue) (n : ℕ)
    → ((keep_first xs n).0 ≡ take n xs) × ((keep_first xs n).1 ≡ length xs - n)
unfolding keep_first
keep_first-take xs n = elim (Bool-cases (leb (length xs) n)) [
  | inl e ↦ rw e (sym (take_all xs n (ground arith)), ground arith)
  | inr e ↦ rw e (refl, refl)
]

keep_first_nil : {A : Type 0} (n : ℕ) → ◌≡◌ {A = List A × ℕ} (keep_first [] n) ([], 0)
unfolding keep_first
keep_first_nil n = let e : leb 0 n ≡ true = ground arith in rw e refl

zero_plus : (n : ℕ) → 0 + n ≡ n
zero_plus n = omega arith

plus_zeros : (n : ℕ) → n + 0 + 0 ≡ n
plus_zeros n = omega arith

-- With every allocation taken, appending a span's attributes to an empty list keeps the ones and
-- makes the counts that `ApplySpanLimits` does for a span that has no events and links.
append_attributes-apply_span_limits :
    (r : SpanRecord) (limits : SpanLimitOptions) (diag : Sink)
    → r.events ≡ []
    → r.links ≡ []
    → append_attributes [] r.attributes limits (λ i. false) diag
      ≡ ((apply_span_limits r limits diag).0.attributes, (apply_span_limits r limits diag).1)
unfolding append_attributes apply_span_limits limit_events limit_links
append_attributes-apply_span_limits r limits diag e l =
    let n = limits.attribute_count_limit in
    let k = keep_first-take r.attributes n in
    let loop = append_from-truncate_all [] r.attributes limits n 0 0 (omega arith) in
    rw
      (
        loop,
        e,
        l,
        keep_first_nil {A = SpanEvent} limits.event_count_limit,
        keep_first_nil {A = SpanLink} limits.link_count_limit,
        k.0,
        k.1,
        count-zero,
        count-zero,
        count-zero,
        count-zero,
        plus_zeros,
        zero_plus,
        zero_plus,
      )
      refl
