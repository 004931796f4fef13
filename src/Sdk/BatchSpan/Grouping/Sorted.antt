-- ===== src/Sdk/BatchSpan/Grouping/Sorted.antt =====
-- The handles hold the batch, sorted by key and otherwise in order.
use mathlib.Core.List.{append_assoc, append-nil}
use microtel.Prelude.{
  ℕ, zero, suc, ◌≡◌, refl, sym, ap, ◌∙◌, ◌↔◌, inl, inr, Bool, true, false, if◌then◌else◌, List, [],
  ◌∷◌, ◌++◌, none, some, length, arith, Option-cases,
}
use microtel.Prelude.Bytes.{bytes_eq_iff}
use microtel.Sdk.Record.{SpanRecord}
use microtel.Sdk.BatchSpan.{QueuedSpan}
use microtel.Sdk.BatchSpan.Grouping.{
  Key, key_of, same_key, index_of, Pass, first_pass, BatchHandle, push_at, second_pass,
  empty_groups, export_batch,
}

pub same_key_iff : (a b : Key) → (same_key a b ≡ true) ↔ (a ≡ b)
unfolding same_key
same_key_iff a b = ground (arith, bytes_eq_iff a.name b.name, bytes_eq_iff a.version b.version)

-- What the handles hold for a key, and what the batch holds for it.
abbrev pub records_for : Key → List BatchHandle → List SpanRecord
records_for k [] = []
records_for k (h ∷ hs) = if same_key h.key k then h.records else records_for k hs

abbrev pub selected : ℕ → Key → List QueuedSpan → List SpanRecord
selected own k [] = []
selected own k (q ∷ qs) =
    if same_key (key_of own q) k then q.span ∷ selected own k qs else selected own k qs

abbrev pub keys : List BatchHandle → List Key
keys [] = []
keys (h ∷ hs) = h.key ∷ keys hs

abbrev pub DistinctKeys : List Key → Type 0
DistinctKeys [] = Unit
DistinctKeys (k ∷ ks) = (index_of k ks ≡ none) × DistinctKeys ks

keys-push_at : (i : ℕ) (r : SpanRecord) (hs : List BatchHandle) → keys (push_at i r hs) ≡ keys hs
unfolding push_at
keys-push_at i r [] = refl
keys-push_at zero r (h ∷ hs) = refl
keys-push_at (suc i) r (h ∷ hs) = ap (◌∷◌ h.key) (keys-push_at i r hs)

records_for-push_at :
    (i : ℕ) (r : SpanRecord) (hs : List BatchHandle) (j k : Key)
    → index_of j (keys hs) ≡ some i
    → records_for k (push_at i r hs)
      ≡ (if same_key j k then records_for k hs ++ r ∷ [] else records_for k hs)
unfolding push_at index_of
records_for-push_at i r [] j k e = cc
records_for-push_at zero r (h ∷ hs) j k e =
    ground (arith, same_key_iff h.key j, same_key_iff h.key k, same_key_iff j k)
records_for-push_at (suc i) r (h ∷ hs) j k e = ground (
  arith,
  same_key_iff h.key j,
  same_key_iff h.key k,
  same_key_iff j k,
  records_for-push_at i r hs j k,
)

-- Each record's index is that of its key.
abbrev Indexed : ℕ → List Key → List ℕ → List QueuedSpan → Type 0
Indexed own ks [] [] = Unit
Indexed own ks (i ∷ is) (q ∷ qs) = (index_of (key_of own q) ks ≡ some i) × Indexed own ks is qs
Indexed own ks _ _ = ⊥

records_for-second_pass :
    (own : ℕ) (k : Key) (ks : List Key) (is : List ℕ) (qs : List QueuedSpan) (hs : List BatchHandle)
    → keys hs ≡ ks
    → Indexed own ks is qs
    → records_for k (second_pass is qs hs) ≡ records_for k hs ++ selected own k qs
unfolding second_pass
records_for-second_pass own k ks [] [] hs e x = sym (append-nil (records_for k hs))
records_for-second_pass own k ks [] (q ∷ qs) hs e x = elim x [ ]
records_for-second_pass own k ks (i ∷ is) [] hs e x = elim x [ ]
records_for-second_pass own k ks (i ∷ is) (q ∷ qs) hs e x =
    records_for-second_pass own k ks is qs (push_at i q.span hs) (keys-push_at i q.span hs ∙ e) x.1
    ∙ ap (λ (rs : List SpanRecord). rs ++ selected own k qs)
        (records_for-push_at i q.span hs (key_of own q) k (rw e x.0))
    ∙ regroup (same_key (key_of own q) k)
  where
    regroup :
        (b : Bool)
        → (if b then records_for k hs ++ q.span ∷ [] else records_for k hs) ++ selected own k qs
          ≡ records_for k hs ++ (if b then q.span ∷ selected own k qs else selected own k qs)
    regroup true = append_assoc (records_for k hs) (q.span ∷ []) (selected own k qs)
    regroup false = refl

keys-second_pass :
    (is : List ℕ) (qs : List QueuedSpan) (hs : List BatchHandle)
    → keys (second_pass is qs hs) ≡ keys hs
unfolding second_pass
keys-second_pass [] qs hs = refl
keys-second_pass (i ∷ is) [] hs = refl
keys-second_pass (i ∷ is) (q ∷ qs) hs =
    keys-second_pass is qs (push_at i q.span hs) ∙ keys-push_at i q.span hs

index_of-append :
    (k : Key) (js more : List Key) {i : ℕ}
    → index_of k js ≡ some i
    → index_of k (js ++ more) ≡ some i
unfolding index_of
index_of-append k [] more e = cc
index_of-append k (j ∷ js) more {i} e = elim (Option-cases (index_of k js)) [
  | inl absent ↦ ground arith
  | inr (n, found) ↦ ground (arith, index_of-append k js more {i = n})
]

index_of-concat :
    (k : Key) (js : List Key) → index_of k js ≡ none → index_of k (js ++ k ∷ []) ≡ some (length js)
unfolding index_of
index_of-concat k [] e = ground (arith, same_key_iff k k)
index_of-concat k (j ∷ js) e = elim (Option-cases (index_of k js)) [
  | inl absent ↦ ground (arith, index_of-concat k js)
  | inr (n, found) ↦ ground arith
]

-- What the first pass adds to what it starts from.
record Passed (own : ℕ) (qs : List QueuedSpan) (p r : Pass) : Type 0 where
  indices : List ℕ
  more : List Key
  indices_are : r.group_of ≡ p.group_of ++ indices
  groups_are : r.groups ≡ p.groups ++ more
  indexed : Indexed own r.groups indices qs
  distinct : DistinctKeys p.groups → DistinctKeys r.groups

index_of-concat_none :
    (j k : Key) (js : List Key)
    → index_of j js ≡ none
    → same_key k j ≡ false
    → index_of j (js ++ k ∷ []) ≡ none
unfolding index_of
index_of-concat_none j k [] e n = ground arith
index_of-concat_none j k (x ∷ js) e n = elim (Option-cases (index_of j js)) [
  | inl absent ↦ ground (arith, index_of-concat_none j k js)
  | inr (i, found) ↦ ground arith
]

DistinctKeys-concat :
    (js : List Key) (k : Key) → DistinctKeys js → index_of k js ≡ none → DistinctKeys (js ++ k ∷ [])
unfolding index_of
DistinctKeys-concat [] k d e = (refl, tt)
DistinctKeys-concat (j ∷ js) k d e = elim (Option-cases (index_of k js)) [
  | inl absent ↦ (
    index_of-concat_none j k js d.0 (ground (arith, same_key_iff j k, same_key_iff k j)),
    DistinctKeys-concat js k d.1 absent,
  )
  | inr (i, found) ↦ absurd (ground arith)
]

-- One more record in front, whose key has the index `i`.
Passed-cons :
    {own i : ℕ} {q : QueuedSpan} {qs : List QueuedSpan} {p p' r : Pass}
    → p'.group_of ≡ p.group_of ++ i ∷ []
    → (extra : List Key) → p'.groups ≡ p.groups ++ extra
    → index_of (key_of own q) p'.groups ≡ some i
    → (DistinctKeys p.groups → DistinctKeys p'.groups)
    → Passed own qs p' r
    → Passed own (q ∷ qs) p r
Passed-cons {own} {i} {q} {qs} {p} {p'} {r} g extra e x d m = record {
  indices = i ∷ m.indices;
  more = extra ++ m.more;
  indices_are = m.indices_are ∙ rw g (append_assoc p.group_of (i ∷ []) m.indices);
  groups_are = m.groups_are ∙ rw e (append_assoc p.groups extra m.more);
  indexed = (rw m.groups_are (index_of-append (key_of own q) p'.groups m.more x), m.indexed);
  distinct = λ h. m.distinct (d h);
}

first_pass-Passed :
    (own : ℕ) (qs : List QueuedSpan) (p : Pass) → Passed own qs p (first_pass own qs p)
unfolding first_pass
first_pass-Passed own [] p = record {
  indices = [];
  more = [];
  indices_are = sym (append-nil p.group_of);
  groups_are = sym (append-nil p.groups);
  indexed = tt;
  distinct = λ h. h;
}
first_pass-Passed own (q ∷ qs) p = elim (Option-cases (index_of (key_of own q) p.groups)) [
  | inr (i, seen) ↦ rw seen (
      Passed-cons refl [] (sym (append-nil p.groups)) seen (λ h. h)
        (first_pass-Passed own qs (record p { group_of = p.group_of ++ i ∷ [] })))
  | inl first ↦ rw first (
      Passed-cons refl (key_of own q ∷ []) refl (index_of-concat (key_of own q) p.groups first)
        (λ h. DistinctKeys-concat p.groups (key_of own q) h first)
        (first_pass-Passed own qs (record {
          groups = p.groups ++ key_of own q ∷ [];
          group_of = p.group_of ++ length p.groups ∷ [];
        })))
]

keys-empty_groups : (ks : List Key) → keys (empty_groups ks) ≡ ks
unfolding empty_groups
keys-empty_groups [] = refl
keys-empty_groups (k ∷ ks) = ap (◌∷◌ k) (keys-empty_groups ks)

records_for-empty_groups : (k : Key) (ks : List Key) → records_for k (empty_groups ks) ≡ []
unfolding empty_groups
records_for-empty_groups k [] = refl
records_for-empty_groups k (j ∷ ks) = ground (arith, records_for-empty_groups k ks)

-- For every Resource and scope the handles hold exactly the batch's records of it, in their order,
-- and no two handles are for the same Resource and scope.
pub export_batch-selected :
    (own : ℕ) (batch : List QueuedSpan)
    → ((k : Key) → records_for k (export_batch own batch) ≡ selected own k batch)
      × DistinctKeys (keys (export_batch own batch))
unfolding export_batch
export_batch-selected own batch =
    let start : Pass = record { groups = []; group_of = [] } in
    let pass = first_pass own batch start in
    let m = first_pass-Passed own batch start in
    (
      λ k.
          records_for-second_pass own k pass.groups pass.group_of batch (empty_groups pass.groups)
            (keys-empty_groups pass.groups) (rw m.indices_are m.indexed)
          ∙ ap (λ (rs : List SpanRecord). rs ++ selected own k batch)
              (records_for-empty_groups k pass.groups),
      rw (keys-second_pass, keys-empty_groups) (m.distinct tt),
    )
