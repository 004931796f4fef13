-- ===== src/Sdk/SpanLimits/Added.antt =====
-- src/sdk/span_limits.cpp, `AppendAttributes` on attributes that fit already.
use microtel.Prelude.{
  ℕ, suc, ◌+◌, ◌≡◌, inl, inr, Bool, true, false, leb, List, [], ◌∷◌, ◌++◌, length, arith,
  Bool-cases, length-append,
}
use microtel.Sdk.Record.{KeyValue}
use microtel.Sdk.SpanLimits.{
  SpanLimitOptions, Sink, truncate_strings, append_one, append_from, append_attributes,
}
use microtel.Sdk.SpanLimits.Apply.{ValueFits, ValuesFit, AttributesFit, truncate_strings-ValueFits}

append-ValuesFit :
    (n : ℕ) (xs : List KeyValue) (kv : KeyValue)
    → ValuesFit n xs
    → ValueFits n kv.value
    → ValuesFit n (xs ++ kv ∷ [])
unfolding ValuesFit
append-ValuesFit n [] kv h k = (k, tt)
append-ValuesFit n (x ∷ xs) kv h k = (h.0, append-ValuesFit n xs kv h.1 k)

append_one-AttributesFit :
    (room n : ℕ) (attributes : List KeyValue) (kv : KeyValue) (fails : Bool)
    → AttributesFit room n attributes
    → leb room (length attributes) ≡ false
    → AttributesFit room n (append_one attributes kv n fails).0
unfolding append_one
append_one-AttributesFit room n attributes kv true h open_still = h
append_one-AttributesFit room n attributes kv false h open_still =
    let one : KeyValue = record kv { value = (truncate_strings kv.value n).0 } in
    record {
      number = ground (arith, length-append attributes (one ∷ []));
      values = append-ValuesFit n attributes one h.values (truncate_strings-ValueFits kv.value n);
    }

append_from-AttributesFit :
    (attributes extra : List KeyValue) (limits : SpanLimitOptions) (fails : ℕ → Bool)
    (over truncated : ℕ)
    → AttributesFit limits.attribute_count_limit limits.attribute_value_length_limit attributes
    → AttributesFit limits.attribute_count_limit limits.attribute_value_length_limit
        (append_from attributes extra limits fails over truncated).0
unfolding append_from
append_from-AttributesFit attributes [] limits fails over truncated h = h
append_from-AttributesFit attributes (kv ∷ extra) limits fails over truncated h =
    let n = limits.attribute_value_length_limit in
    let one = append_one attributes kv n (fails 0) in
    elim (Bool-cases (leb limits.attribute_count_limit (length attributes))) [
      | inl e ↦ rw e (
          append_from-AttributesFit attributes extra limits (λ i. fails (suc i)) (suc over)
            truncated h)
      | inr e ↦ rw e (
          append_from-AttributesFit one.0 extra limits (λ i. fails (suc i)) over (truncated + one.1)
            (append_one-AttributesFit limits.attribute_count_limit n attributes kv (fails 0) h e))
    ]

-- Whatever is appended, and whatever allocations fail, attributes within the limits stay there.
pub append_attributes-AttributesFit :
    (attributes extra : List KeyValue) (limits : SpanLimitOptions) (fails : ℕ → Bool) (diag : Sink)
    → AttributesFit limits.attribute_count_limit limits.attribute_value_length_limit attributes
    → AttributesFit limits.attribute_count_limit limits.attribute_value_length_limit
        (append_attributes attributes extra limits fails diag).0
unfolding append_attributes
append_attributes-AttributesFit attributes extra limits fails diag h =
    append_from-AttributesFit attributes extra limits fails 0 0 h
