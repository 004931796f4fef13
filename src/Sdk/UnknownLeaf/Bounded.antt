-- ===== src/Sdk/UnknownLeaf/Bounded.antt =====
-- src/sdk/leaf_table.cpp, `UnknownLeafCache`: its list, its index and its capacity under calls.
use microtel.Prelude.{
  ℕ, zero, suc, ◌-◌, ◌≤◌, ◌<◌, ◌≡◌, refl, ap, ◌∙◌, inl, inr, Bool, true, false, ◌||◌, leb, List, [],
  ◌∷◌, ◌++◌, length, arith, Bool-cases, length-append,
}
use microtel.Prelude.Int.{ℤ}
use microtel.Prelude.Bytes.{Bytes, bytes_eq, bytes_eq_iff, bytes_eq_refl}
use microtel.Sdk.UnknownLeaf.{
  Answer, UnknownLeafCache, make_cache, has_key, erase_key, erase_node, node, erase, is_expired,
  contains, erase_front, erase_oldest, front, expire, make_room, push_node, without_last, pop_back,
  emplace, push, insert,
}

unfoldable pub ids : List Answer → List Bytes
ids [] = []
ids (a ∷ more) = a.id ∷ ids more

abbrev pub Distinct : List Bytes → Type 0
Distinct [] = Unit
Distinct (k ∷ ks) = (has_key ks k ≡ false) × Distinct ks

-- The index names the nodes of the list in their order, no two alike, and within the capacity.
abbrev pub IsBounded : UnknownLeafCache → Type 0
IsBounded c =
    (c.index ≡ ids c.age) × (length c.index ≤ c.capacity) × (1 ≤ c.capacity) × Distinct c.index

-- No key comes in by an eviction.
abbrev IsFewer : List Bytes → List Bytes → Type 0
IsFewer ks js = (k : Bytes) → has_key ks k ≡ false → has_key js k ≡ false

has_key-erase_key : (id : Bytes) (ks : List Bytes) → IsFewer ks (erase_key id ks)
unfolding has_key erase_key
has_key-erase_key id [] k h = h
has_key-erase_key id (x ∷ ks) k h = ground (arith, has_key-erase_key id ks k)

Distinct-erase_key : (id : Bytes) (ks : List Bytes) → Distinct ks → Distinct (erase_key id ks)
unfolding has_key erase_key
Distinct-erase_key id [] d = tt
Distinct-erase_key id (x ∷ ks) d =
    ground (arith, Distinct-erase_key id ks d.1, has_key-erase_key id ks x d.0)

has_key-concat :
    (ks : List Bytes) (id k : Bytes) → has_key (ks ++ id ∷ []) k ≡ (has_key ks k || bytes_eq id k)
unfolding has_key
has_key-concat [] id k = ground arith
has_key-concat (x ∷ ks) id k = ground (arith, has_key-concat ks id k)

Distinct-concat :
    (ks : List Bytes) (id : Bytes) → Distinct ks → has_key ks id ≡ false → Distinct (ks ++ id ∷ [])
unfolding has_key
Distinct-concat [] id d h = (refl, tt)
Distinct-concat (x ∷ ks) id d h = (
  ground (arith, has_key-concat ks id x, bytes_eq_iff id x, bytes_eq_iff x id),
  Distinct-concat ks id d.1 (ground arith),
)

ids-erase_node :
    (id : Bytes) (more : List Answer) → ids (erase_node id more) ≡ erase_key id (ids more)
unfolding ids erase_node erase_key
ids-erase_node id [] = refl
ids-erase_node id (a ∷ more) = ground (arith, ids-erase_node id more)

ids-append : (more bs : List Answer) → ids (more ++ bs) ≡ ids more ++ ids bs
unfolding ids
ids-append [] bs = refl
ids-append (a ∷ more) bs = ap (λ (r : List Bytes). a.id ∷ r) (ids-append more bs)

erase_key-le : (id : Bytes) (ks : List Bytes) → length (erase_key id ks) ≤ length ks
unfolding erase_key
erase_key-le id [] = omega arith
erase_key-le id (k ∷ ks) = ground (arith, erase_key-le id ks)

erase-IsBounded : (id : Bytes) (c : UnknownLeafCache) → IsBounded c → IsBounded (erase id c)
unfolding erase
erase-IsBounded id c h = (
  rw (h.0, ids-erase_node id c.age) refl,
  omega (arith, erase_key-le id c.index, h.1),
  h.2,
  Distinct-erase_key id c.index h.3,
)

erase_front-IsBounded :
    (more : List Answer) (c : UnknownLeafCache) → IsBounded c → IsBounded (erase_front more c)
unfolding erase_front
erase_front-IsBounded [] c h = h
erase_front-IsBounded (a ∷ more) c h = erase-IsBounded a.id c h

expire-IsBounded :
    (fuel : ℕ) (now : ℤ) (c : UnknownLeafCache) → IsBounded c → IsBounded (expire fuel now c)
unfolding expire
expire-IsBounded zero now c h = h
expire-IsBounded (suc fuel) now c h =
    let rest = expire-IsBounded fuel now (erase_oldest c) (erase_front-IsBounded c.age c h) in
    elim (Bool-cases (is_expired now c (front c.age))) [ inl e ↦ rw e rest | inr e ↦ rw e h ]

has_key-erase_front :
    (more : List Answer) (c : UnknownLeafCache) → IsFewer c.index (erase_front more c).index
unfolding erase_front erase
has_key-erase_front [] c k h = h
has_key-erase_front (a ∷ more) c k h = has_key-erase_key a.id c.index k h

has_key-expire :
    (fuel : ℕ) (now : ℤ) (c : UnknownLeafCache) → IsFewer c.index (expire fuel now c).index
unfolding expire
has_key-expire zero now c k h = h
has_key-expire (suc fuel) now c k h = elim (Bool-cases (is_expired now c (front c.age))) [
  | inl e ↦ rw e (has_key-expire fuel now (erase_oldest c) k (has_key-erase_front c.age c k h))
  | inr e ↦ rw e h
]

has_key-make_room : (c : UnknownLeafCache) → IsFewer c.index (make_room c).index
unfolding make_room
has_key-make_room c k h = elim (Bool-cases (leb c.capacity (length c.index))) [
  | inl e ↦ rw e (has_key-erase_front c.age c k h)
  | inr e ↦ rw e h
]

length-erase_key : (id : Bytes) (ks : List Bytes) → length (erase_key id (id ∷ ks)) ≡ length ks
unfolding erase_key
length-erase_key id ks = rw (bytes_eq_refl id) refl

length-erase_front :
    (more : List Answer) (c : UnknownLeafCache)
    → c.index ≡ ids more
    → length (erase_front more c).index ≡ length c.index - 1
unfolding erase_front erase ids
length-erase_front [] c e = rw e refl
length-erase_front (a ∷ more) c e = rw (e, length-erase_key a.id (ids more)) (omega arith)

capacity-erase_front :
    (more : List Answer) (c : UnknownLeafCache) → (erase_front more c).capacity ≡ c.capacity
unfolding erase_front erase
capacity-erase_front [] c = refl
capacity-erase_front (a ∷ more) c = refl

capacity-expire :
    (fuel : ℕ) (now : ℤ) (c : UnknownLeafCache) → (expire fuel now c).capacity ≡ c.capacity
unfolding expire
capacity-expire zero now c = refl
capacity-expire (suc fuel) now c = elim (Bool-cases (is_expired now c (front c.age))) [
  | inl e ↦ rw e (capacity-expire fuel now (erase_oldest c) ∙ capacity-erase_front c.age c)
  | inr e ↦ rw e refl
]

make_room-IsBounded :
    (c : UnknownLeafCache)
    → IsBounded c
    → IsBounded (make_room c) × (length (make_room c).index < (make_room c).capacity)
unfolding make_room
make_room-IsBounded c h =
    let fewer = length-erase_front c.age c h.0 in
    let same = capacity-erase_front c.age c in
    elim (Bool-cases (leb c.capacity (length c.index))) [
      | inl e ↦ rw e (erase_front-IsBounded c.age c h, omega (arith, fewer, same, h.1, h.2))
      | inr e ↦ rw e (h, ground arith)
    ]

without_last-concat : (more : List Answer) (a : Answer) → without_last (more ++ a ∷ []) ≡ more
without_last-concat [] a = refl
without_last-concat (b ∷ []) a = refl
without_last-concat (b ∷ c ∷ more) a =
    ap (λ (r : List Answer). b ∷ r) (without_last-concat (c ∷ more) a)

push-IsBounded :
    (id : Bytes) (now : ℤ) (fails : Bool) (c : UnknownLeafCache)
    → IsBounded c
    → length c.index < c.capacity
    → has_key c.index id ≡ false
    → IsBounded (push id now fails c)
unfolding push push_node pop_back emplace ids
push-IsBounded id now true c h room absent =
    let new : Answer = record { id = id; at = now } in rw (without_last-concat c.age new) h
push-IsBounded id now false c h room absent =
    let new : Answer = record { id = id; at = now } in
    rw absent (
      rw (h.0, ids-append c.age (new ∷ [])) refl,
      omega (arith, length-append c.index (id ∷ []), room),
      h.2,
      Distinct-concat c.index id h.3 absent,
    )

insert-IsBounded :
    (id : Bytes) (now : ℤ) (fails : Bool) (c : UnknownLeafCache)
    → IsBounded c
    → IsBounded (insert id now fails c)
unfolding insert
insert-IsBounded id now fails c h =
    let expired = expire (length c.age) now c in
    let ready = make_room-IsBounded expired (expire-IsBounded (length c.age) now c h) in
    elim (Bool-cases (has_key c.index id)) [
      | inl e ↦ rw e h
      | inr e ↦
          let absent = has_key-make_room expired id (has_key-expire (length c.age) now c id e) in
          rw e (push-IsBounded id now fails (make_room expired) ready.0 ready.1 absent)
    ]

contains-IsBounded :
    (id : Bytes) (now : ℤ) (c : UnknownLeafCache) → IsBounded c → IsBounded (contains id now c).0
unfolding contains
contains-IsBounded id now c h = elim (Bool-cases (has_key c.index id)) [
  | inl e ↦ elim (Bool-cases (is_expired now c (node id c.age))) [
    | inl o ↦ rw (e, o) (erase-IsBounded id c h)
    | inr o ↦ rw (e, o) h
  ]
  | inr e ↦ rw e h
]

-- One call, at the time the caller passes.
pub data Call : Type 0 where
  asks : Bytes → ℤ → Call
  refuses : Bytes → ℤ → Bool → Call

unfoldable pub run : List Call → UnknownLeafCache → UnknownLeafCache
run [] c = c
run (asks id now ∷ calls) c = run calls (contains id now c).0
run (refuses id now fails ∷ calls) c = run calls (insert id now fails c)

run-IsBounded : (calls : List Call) (c : UnknownLeafCache) → IsBounded c → IsBounded (run calls c)
unfolding run
run-IsBounded [] c h = h
run-IsBounded (asks id now ∷ calls) c h =
    run-IsBounded calls (contains id now c).0 (contains-IsBounded id now c h)
run-IsBounded (refuses id now fails ∷ calls) c h =
    run-IsBounded calls (insert id now fails c) (insert-IsBounded id now fails c h)

-- Whatever calls come to a new cache, at whatever times and with whatever failed allocations, its
-- index names the nodes of its list in their order, each id once, and the answers are no more than its
-- capacity.
pub run-make_cache :
    (capacity : ℕ) (ttl : ℤ) (calls : List Call) → IsBounded (run calls (make_cache capacity ttl))
unfolding make_cache ids
run-make_cache capacity ttl calls =
    run-IsBounded calls (make_cache capacity ttl) (refl, ground arith, ground arith, tt)
