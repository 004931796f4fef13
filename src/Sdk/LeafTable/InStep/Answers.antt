-- ===== src/Sdk/LeafTable/InStep/Answers.antt =====
-- What `Find` and `Settings` answer after `Insert` and `AdoptSettings`.
use microtel.Prelude.{
  ℕ, ◌≡◌, refl, ap, ◌∙◌, inl, inr, true, false, List, [], ◌∷◌, Option, none, some, arith,
  Bool-cases,
}
use microtel.Prelude.Int.{ℤ}
use microtel.Prelude.Bytes.{Bytes, bytes_eq_iff, bytes_eq_refl}
use microtel.Sdk.LeafTable.{
  Leaf, LeafTable, has_key, unlink, relink, touch, push_front, touch_or_insert, at_front, at_seen,
  push_node, front_of, declared, find, declare, insert,
}
use microtel.Sdk.LeafTable.InStep.{has_leaf, IsInStep, Unlinked, unlink-Unlinked}
use microtel.Sdk.LeafTable.InStep.Calls.{touch_or_insert-IsInStep}

abbrev FrontIs : Bytes → List Leaf → Type 0
FrontIs id [] = ⊥
FrontIs id (e ∷ es) = e.id ≡ id

relink-FrontIs :
    (id : Bytes) (now : ℤ) (t : LeafTable) (o : Option (Leaf × List Leaf))
    → Unlinked id t.recency o
    → (relink now t o).1 ≡ true
    → FrontIs id ((relink now t o).0).recency
unfolding relink
relink-FrontIs id now t none u h = absurd (ground arith)
relink-FrontIs id now t (some (e, rest)) u h = u.0

touch-FrontIs :
    (id : Bytes) (now : ℤ) (t : LeafTable)
    → IsInStep t
    → (touch id now t).1 ≡ true
    → FrontIs id ((touch id now t).0).recency
unfolding touch
touch-FrontIs id now t v h = elim (Bool-cases (has_key t.index id)) [
  | inl k ↦ rw k (
      relink-FrontIs id now t (unlink id t.recency) (unlink-Unlinked id t.recency v.leaves)
        (rw k at h))
  | inr k ↦ absurd (ground arith)
]

touch_or_insert-FrontIs :
    (id : Bytes) (now : ℤ) (t : LeafTable)
    → IsInStep t
    → FrontIs id (touch_or_insert id now false t).0.recency
unfolding touch_or_insert push_front push_node
touch_or_insert-FrontIs id now t v = elim (Bool-cases (touch id now t).1) [
  | inl h ↦ rw h (touch-FrontIs id now t v h)
  | inr h ↦ rw h refl
]

-- Nothing is thrown if no allocation fails.
touch_or_insert_kept :
    (id : Bytes) (now : ℤ) (t : LeafTable) → (touch_or_insert id now false t).1 ≡ false
unfolding touch_or_insert push_front
touch_or_insert_kept id now t = ground arith

-- A sighting of the front leaf finds it.
touch_front :
    (id : Bytes) (now : ℤ) (t : LeafTable) (e : Leaf) (es : List Leaf)
    → e.id ≡ id
    → has_key t.index id ≡ true
    → touch id now (record t { recency = e ∷ es })
      ≡ (record t { recency = record e { last_seen = now } ∷ es }, true)
unfolding touch unlink relink
touch_front id now t e es h k = rw (k, (bytes_eq_iff e.id id).1 h) refl

front_key :
    (id : Bytes) (t : LeafTable) → IsInStep t → FrontIs id t.recency → has_key t.index id ≡ true
front_key id t v f = v.same id ∙ go t.recency f
  where
    go : (es : List Leaf) → FrontIs id es → has_leaf es id ≡ true
    go [] f = absurd f
    go (e ∷ es) f = unfold has_leaf in rw f (rw (bytes_eq_refl id) refl)

declare_hash :
    (declared_hash : ℕ) (resource : Option ℕ) (e : Leaf)
    → (declare declared_hash resource e).declared_hash ≡ declared_hash
unfolding declare
declare_hash declared_hash resource e = ground arith

-- On a table in step, `Find` with the hash that was inserted answers what `Insert` answered, whether the call stored its own Resource or found one declared under the same hash.
find-insert :
    (id : Bytes) (declared_hash : ℕ) (resource : Option ℕ) (now later : ℤ) (t : LeafTable)
    → IsInStep t
    → some (find id declared_hash later (insert id declared_hash resource now false t).0).1
      ≡ (insert id declared_hash resource now false t).1
unfolding find insert at_seen at_front
find-insert id declared_hash resource now later t v =
    let u = (touch_or_insert id now false t).0 in
    let w = touch_or_insert-IsInStep id now false t v in
    let f = touch_or_insert-FrontIs id now t v in
    rw (touch_or_insert_kept id now t) (ap some (go u (front_key id u w f) u.recency f))
  where
    go :
        (u : LeafTable)
        → has_key u.index id ≡ true
        → (es : List Leaf) → FrontIs id es
        → (find id declared_hash later (record u {
          recency = elim es [
            | [] ↦ []
            | e ∷ es ↦ record (declare declared_hash resource e) { id = e.id } ∷ es
          ];
        })).1
          ≡ front_of
              (λ e. e.resource)
              (record u {
                recency = elim es [
                  | [] ↦ []
                  | e ∷ es ↦ record (declare declared_hash resource e) { id = e.id } ∷ es
                ];
              })
    go u k [] f = absurd f
    go u k (e ∷ es) f =
        rw (touch_front id later u (record (declare declared_hash resource e) { id = e.id }) es f k)
          (unfold front_of declared in ground (arith, declare_hash declared_hash resource e))
