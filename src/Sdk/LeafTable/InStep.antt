-- ===== src/Sdk/LeafTable/InStep.antt =====
-- The recency list and the index stay in step, and within `max_leaves`.
pub mod Evictions
pub mod Calls
pub mod Answers
use microtel.Prelude.{
  ℕ, zero, suc, ◌+◌, ◌≤◌, ◌≡◌, refl, inl, inr, Bool, true, false, ◌||◌, ◌==◌, if◌then◌else◌, not,
  List, [], ◌∷◌, Option, none, some, length, arith, Bool-cases, leb, ltb,
}
use microtel.Prelude.Int.{ℤ, pos, ltb_ℤ}
use microtel.Prelude.Bytes.{Bytes, bytes_eq, bytes_eq_iff, bytes_eq_refl}
use microtel.Sdk.LeafTable.{Leaf, LeafTable, has_key, erase_key, unlink, pop_back}

unfoldable pub has_leaf : List Leaf → Bytes → Bool
has_leaf [] id = false
has_leaf (e ∷ es) id = bytes_eq e.id id || has_leaf es id

abbrev pub DistinctLeaves : List Leaf → Type 0
DistinctLeaves [] = Unit
DistinctLeaves (e ∷ es) = (has_leaf es e.id ≡ false) × DistinctLeaves es

abbrev pub DistinctKeys : List Bytes → Type 0
DistinctKeys [] = Unit
DistinctKeys (k ∷ ks) = (has_key ks k ≡ false) × DistinctKeys ks

-- The index finds exactly the listed leaves, each leaf is listed once, and there are at most
-- `max_leaves`, which is not 0.
pub record IsInStep (t : LeafTable) : Type 0 where
  pub same : (id : Bytes) → has_key t.index id ≡ has_leaf t.recency id
  pub same_length : length t.index ≡ length t.recency
  pub leaves : DistinctLeaves t.recency
  pub keys : DistinctKeys t.index
  pub bounded : length t.recency ≤ t.max_leaves
  pub positive : 1 ≤ t.max_leaves

-- `rest` is `es` without its node `e`.
record Removed (es : List Leaf) (e : Leaf) (rest : List Leaf) : Type 0 where
  had : (j : Bytes) → has_leaf es j ≡ (has_leaf rest j || bytes_eq e.id j)
  gone : has_leaf rest e.id ≡ false
  shorter : length es ≡ suc (length rest)
  distinct : DistinctLeaves rest

Removed-cons :
    (x : Leaf) (es : List Leaf) (e : Leaf) (rest : List Leaf)
    → has_leaf es x.id ≡ false
    → Removed es e rest
    → Removed (x ∷ es) e (x ∷ rest)
unfolding has_leaf
Removed-cons x es e rest n r = record {
  had = λ j. ground (arith, r.had j);
  gone = ground (arith, r.gone, r.had x.id, bytes_eq_iff x.id e.id, bytes_eq_iff e.id x.id);
  shorter = omega (arith, r.shorter);
  distinct = (ground (arith, r.had x.id), r.distinct);
}

Removed-head : (e : Leaf) (es : List Leaf) → DistinctLeaves (e ∷ es) → Removed (e ∷ es) e es
unfolding has_leaf
Removed-head e es d = record { had = λ j. ground arith; gone = d.0; shorter = refl; distinct = d.1 }

abbrev Unlinked : Bytes → List Leaf → Option (Leaf × List Leaf) → Type 0
Unlinked id es none = has_leaf es id ≡ false
Unlinked id es (some (e, rest)) = (e.id ≡ id) × Removed es e rest

unlink-Unlinked : (id : Bytes) (es : List Leaf) → DistinctLeaves es → Unlinked id es (unlink id es)
unfolding unlink has_leaf
unlink-Unlinked id [] d = refl
unlink-Unlinked id (e ∷ es) d = elim (Bool-cases (bytes_eq e.id id)) [
  | inl h ↦ rw h ((bytes_eq_iff e.id id).0 h, Removed-head e es d)
  | inr h ↦ rw h (go (unlink id es) h (unlink-Unlinked id es d.1))
]
  where
    go :
        (o : Option (Leaf × List Leaf))
        → bytes_eq e.id id ≡ false
        → Unlinked id es o
        → Unlinked id
            (e ∷ es)
            (elim o [ none ↦ none | some (found, rest) ↦ some (found, e ∷ rest) ])
    go none h u = ground arith
    go (some (found, rest)) h u = (u.0, Removed-cons e es found rest d.0 u.1)

abbrev Popped : List Leaf → Option (List Leaf × Leaf) → Type 0
Popped es none = es ≡ []
Popped es (some (front, b)) = Removed es b front

pop_back-Popped : (es : List Leaf) → DistinctLeaves es → Popped es (pop_back es)
unfolding pop_back has_leaf
pop_back-Popped [] d = refl
pop_back-Popped (e ∷ es) d = go (pop_back es) (pop_back-Popped es d.1)
  where
    go :
        (o : Option (List Leaf × Leaf))
        → Popped es o
        → Popped (e ∷ es) (elim o [ none ↦ some ([], e) | some (front, b) ↦ some (e ∷ front, b) ])
    go none p = rw p (Removed-head e [] (refl, tt))
    go (some (front, b)) p = Removed-cons e es b front d.0 p

-- The same for the index.
has_key-erase_key :
    (k j : Bytes) (ks : List Bytes)
    → DistinctKeys ks
    → has_key (erase_key k ks) j ≡ (if bytes_eq k j then false else has_key ks j)
unfolding has_key erase_key
has_key-erase_key k j [] d = ground arith
has_key-erase_key k j (x ∷ ks) d =
    ground
      (arith, has_key-erase_key k j ks d.1, bytes_eq_iff x k, bytes_eq_iff x j, bytes_eq_iff k j)

length-erase_key :
    (k : Bytes) (ks : List Bytes) → has_key ks k ≡ true → length ks ≡ suc (length (erase_key k ks))
unfolding has_key erase_key
length-erase_key k [] h = absurd (ground arith)
length-erase_key k (x ∷ ks) h = ground (arith, length-erase_key k ks)

DistinctKeys-erase_key :
    (k : Bytes) (ks : List Bytes) → DistinctKeys ks → DistinctKeys (erase_key k ks)
unfolding has_key erase_key
DistinctKeys-erase_key k [] d = tt
DistinctKeys-erase_key k (x ∷ ks) d =
    ground (arith, DistinctKeys-erase_key k ks d.1, has_key-erase_key k x ks d.1)
