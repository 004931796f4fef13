-- ===== src/Sdk/Diagnostics/Laws.antt =====
-- Laws of the counters that their clients use.
use native.Mathlib.Nat.{zero-add}
use microtel.Prelude.{
  ℕ, zero, suc, ◌+◌, ◌<◌, ◌≡◌, refl, ap, ◌∙◌, ◌==◌, if◌then◌else◌, some, arith, get_elem?,
}
use microtel.Sdk.Diagnostics.{
  DropReason, to_index, Diagnostics, record_drop, fetch_add, snapshot, counters_from,
  drop_reason_count,
}

get_elem?-counters_from :
    (n i j : ℕ) (f : ℕ → ℕ) → j < n → get_elem? (counters_from n i f) j ≡ some (f (i + j))
unfolding counters_from
get_elem?-counters_from zero i j f h = elim h [ ]
get_elem?-counters_from (suc n) i zero f h = ap (λ k. some (f k)) (omega arith)
get_elem?-counters_from (suc n) i (suc j) f h =
    get_elem?-counters_from n (i + 1) j f (omega arith) ∙ ap (λ k. some (f k)) (omega arith)

to_index-lt : (r : DropReason) → to_index r < drop_reason_count
to_index-lt DropReason.queue_full = omega arith
to_index-lt _ = omega arith

-- A drop shows in the snapshot at its own reason's place, with the count added, and at no other
-- place; nothing else in the snapshot moves.
snapshot-record_drop :
    (r s : DropReason) (n : ℕ) (d : Diagnostics)
    → (get_elem? (snapshot (record_drop r n d)).drop_counters (to_index s)
        ≡ some (
            if to_index s == to_index r
            then fetch_add (d.drops (to_index s)) n
            else d.drops (to_index s)))
      × ((snapshot (record_drop r n d)).batches_sent ≡ d.batches_sent)
      × ((snapshot (record_drop r n d)).batches_failed ≡ d.batches_failed)
      × ((snapshot (record_drop r n d)).last_error_message ≡ d.last_error_message)
unfolding snapshot record_drop
snapshot-record_drop r s n d = (
  get_elem?-counters_from drop_reason_count 0 (to_index s) (record_drop r n d).drops (to_index-lt s)
      ∙ ap (λ k. some (if k == to_index r then fetch_add (d.drops k) n else d.drops k))
          (zero-add _),
  refl,
  refl,
  refl,
)
