-- ===== src/Sdk/LeafTable/Listed.antt =====
-- src/sdk/leaf_table.cpp: lookups and the listing of the leaves.
use microtel.Prelude.{
  ℕ, ◌≡◌, refl, inl, inr, true, false, List, [], ◌∷◌, Option, none, some, Bool-cases, arith,
}
use microtel.Prelude.Int.{ℤ}
use microtel.Prelude.Bytes.{Bytes}
use microtel.Sdk.LeafTable.{
  Leaf, LeafTable, has_key, unlink, relink, touch, push_front, touch_or_insert, at_front, at_seen,
  push_node, front_of, settings, adopt, adopt_settings,
}

-- The same leaves are listed, and none was evicted.
abbrev pub IsSameListing : LeafTable → LeafTable → Type 0
IsSameListing t t' = (t'.index ≡ t.index) × (t'.evicted ≡ t.evicted)

relink-IsSameListing :
    (now : ℤ) (t : LeafTable) (o : Option (Leaf × List Leaf)) → IsSameListing t (relink now t o).0
unfolding relink
relink-IsSameListing now t none = (refl, refl)
relink-IsSameListing now t (some (e, rest)) = (refl, refl)

pub settings-IsSameListing :
    (id : Bytes) (now : ℤ) (t : LeafTable) → IsSameListing t (settings id now t).0
unfolding settings touch
settings-IsSameListing id now t = elim (Bool-cases (has_key t.index id)) [
  | inl e ↦ rw e (relink-IsSameListing now t (unlink id t.recency))
  | inr e ↦ rw e (refl, refl)
]

abbrev HasFront : List Leaf → Type 0
HasFront [] = ⊥
HasFront (e ∷ es) = Unit

relink-HasFront :
    (now : ℤ) (t : LeafTable) (o : Option (Leaf × List Leaf))
    → (relink now t o).1 ≡ true
    → HasFront ((relink now t o).0).recency
unfolding relink
relink-HasFront now t none h = absurd (ground arith)
relink-HasFront now t (some (e, rest)) h = tt

touch-HasFront :
    (id : Bytes) (now : ℤ) (t : LeafTable)
    → (touch id now t).1 ≡ true
    → HasFront ((touch id now t).0).recency
unfolding touch
touch-HasFront id now t h = elim (Bool-cases (has_key t.index id)) [
  | inl k ↦ rw k (relink-HasFront now t (unlink id t.recency) (rw k at h))
  | inr k ↦ let h' = rw k at h in absurd (ground arith)
]

touch_or_insert-HasFront :
    (id : Bytes) (now : ℤ) (t : LeafTable) → HasFront (touch_or_insert id now false t).0.recency
unfolding touch_or_insert push_front push_node
touch_or_insert-HasFront id now t = elim (Bool-cases (touch id now t).1) [
  | inl e ↦ rw e (touch-HasFront id now t e)
  | inr e ↦ rw e tt
]

touch_or_insert_kept :
    (id : Bytes) (now : ℤ) (t : LeafTable) → (touch_or_insert id now false t).1 ≡ false
unfolding touch_or_insert push_front
touch_or_insert_kept id now t = ground arith

-- A call that does not throw answers with something.
abbrev pub IsThere : {A : Type 0} → Option (Option A) → Type 0
IsThere none = ⊥
IsThere (some none) = ⊥
IsThere (some (some a)) = Unit

adopt-IsThere : (s : ℕ) (e : Leaf) → IsThere (some (adopt (some s) e).settings)
unfolding adopt
adopt-IsThere s e = go e.settings
  where
    go : (o : Option ℕ) → IsThere (some (elim o [ none ↦ some s | some old ↦ some old ]))
    go none = tt
    go (some old) = tt

front-IsThere :
    (s : ℕ) (t : LeafTable) (es : List Leaf)
    → HasFront es
    → IsThere
        (some (front_of (λ e. e.settings) (at_front (adopt (some s)) (record t { recency = es }))))
unfolding at_front front_of
front-IsThere s t [] h = absurd h
front-IsThere s t (e ∷ es) h = adopt-IsThere s e

pub adopt_settings-IsThere :
    (id : Bytes) (s : ℕ) (now : ℤ) (t : LeafTable)
    → IsThere (adopt_settings id (some s) now false t).1
unfolding adopt_settings at_seen
adopt_settings-IsThere id s now t =
    let u = (touch_or_insert id now false t).0 in
    rw (touch_or_insert_kept id now t)
      (front-IsThere s u u.recency (touch_or_insert-HasFront id now t))
