-- ===== src/Sdk/LeafTable.antt =====
-- src/sdk/leaf_table.cpp: the receiver's table of leaves, a list in order of the last sighting with
-- an index by id. Each method that takes `m_mu` is one function. An iterator of `m_index` is named
-- by the id of its node; a shared pointer is the address of its object, or `none`.
pub mod InStep
pub mod Listed
mod Tests
use microtel.Prelude.{
  ℕ, zero, suc, ◌+◌, ◌%◌, ◌^◌, Bool, true, false, ◌||◌, ◌==◌, if◌then◌else◌, not, ltb, leb, List,
  [], ◌∷◌, Option, none, some, length,
}
use microtel.Prelude.Int.{ℤ, pos, ◌-ℤ◌, ltb_ℤ}
use microtel.Prelude.Bytes.{Bytes, bytes_eq}
use microtel.Sdk.LeafTime.{BootAnchor, BootSample, update}

pub record Leaf : Type 0 where
  pub id : Bytes
  pub settings : Option ℕ
  pub declared_hash : ℕ
  pub resource : Option ℕ
  pub boot_anchor : BootAnchor
  pub last_seen : ℤ

-- `recency` has the most recently seen leaf first; `index` holds the keys of `m_index`.
pub record LeafTable : Type 0 where
  pub max_leaves : ℕ
  pub idle_timeout : ℤ
  pub recency : List Leaf
  pub index : List Bytes
  pub evicted : ℕ

pub make_table : ℕ → ℤ → LeafTable
make_table max_leaves idle_timeout = record {
  max_leaves = if ltb max_leaves 1 then 1 else max_leaves;
  idle_timeout = idle_timeout;
  recency = [];
  index = [];
  evicted = 0;
}

pub has_key : List Bytes → Bytes → Bool
has_key [] id = false
has_key (k ∷ ks) id = bytes_eq k id || has_key ks id

erase_key : Bytes → List Bytes → List Bytes
erase_key id [] = []
erase_key id (k ∷ ks) = if bytes_eq k id then ks else k ∷ erase_key id ks

-- The node that an iterator points to, and the list without it.
unlink : Bytes → List Leaf → Option (Leaf × List Leaf)
unlink id [] = none
unlink id (e ∷ es) =
    if bytes_eq e.id id
    then some (e, es)
    else elim (unlink id es) [ none ↦ none | some (found, rest) ↦ some (found, e ∷ rest) ]

-- `splice` to the front, and `last_seen`.
relink : ℤ → LeafTable → Option (Leaf × List Leaf) → LeafTable × Bool
relink now t none = (t, false)
relink now t (some (e, rest)) = (record t { recency = record e { last_seen = now } ∷ rest }, true)

-- True if the leaf is there; it is then at the front.
pub touch : Bytes → ℤ → LeafTable → LeafTable × Bool
touch id now t = if not (has_key t.index id) then (t, false) else relink now t (unlink id t.recency)

-- The list in front of its last node, and that node; `none` for the empty list.
pop_back : List Leaf → Option (List Leaf × Leaf)
pop_back [] = none
pop_back (e ∷ es) = elim (pop_back es) [
  | none ↦ some ([], e)
  | some (front, b) ↦ some (e ∷ front, b)
]

evict_back : LeafTable → Option (List Leaf × Leaf) → LeafTable
evict_back t none = t
evict_back t (some (front, b)) = record t {
  recency = front;
  index = erase_key b.id t.index;
  evicted = (t.evicted + 1) % 2 ^ 64;
}

pub evict_oldest : LeafTable → LeafTable
evict_oldest t = evict_back t (pop_back t.recency)

is_idle : ℤ → ℤ → Option (List Leaf × Leaf) → Bool
is_idle now idle_timeout none = false
is_idle now idle_timeout (some (front, b)) = ltb_ℤ idle_timeout (now -ℤ b.last_seen)

-- The loop; a turn makes the list shorter, so its length is fuel enough.
evict_while_idle : ℕ → ℤ → LeafTable → LeafTable
evict_while_idle zero now t = t
evict_while_idle (suc fuel) now t =
    let rest = evict_while_idle fuel now (evict_oldest t) in
    if is_idle now t.idle_timeout (pop_back t.recency) then rest else t

pub evict_idle : ℤ → LeafTable → LeafTable
evict_idle now t =
    if not (ltb_ℤ (pos 0) t.idle_timeout) then t else evict_while_idle (length t.recency) now t

push_node : Bytes → ℤ → LeafTable → LeafTable
push_node id now t = record t {
  recency =
      record {
        id = id;
        settings = none;
        declared_hash = 0;
        resource = none;
        boot_anchor = record { boot_id = none; samples = [] };
        last_seen = now;
      }
      ∷ t.recency;
}

pop_front : LeafTable → LeafTable
pop_front t = record t { recency = elim t.recency [ [] ↦ [] | e ∷ es ↦ es ] }

-- `m_index.emplace`, which leaves a key that is there.
emplace : Bytes → List Bytes → List Bytes
emplace id index = if has_key index id then index else id ∷ index

-- `fails` is whether the index's allocation fails; that of the node, if it fails, throws with the
-- same table. With the table, whether `bad_alloc` is thrown.
push_front : Bytes → ℤ → Bool → LeafTable → LeafTable × Bool
push_front id now fails t =
    let pushed = push_node id now t in
    if fails
    then (pop_front pushed, true)
    else (record pushed { index = emplace id pushed.index }, false)

make_space : LeafTable → LeafTable
make_space t = if leb t.max_leaves (length t.index) then evict_oldest t else t

-- The leaf that the source returns is the front one, unless `bad_alloc` is thrown.
pub touch_or_insert : Bytes → ℤ → Bool → LeafTable → LeafTable × Bool
touch_or_insert id now fails t =
    let (touched, found) = touch id now t in
    if found then (touched, false) else push_front id now fails (make_space (evict_idle now t))

-- A change of the front leaf, which keeps its id.
at_front : (Leaf → Leaf) → LeafTable → LeafTable
at_front f t = record t {
  recency = elim t.recency [ [] ↦ [] | e ∷ es ↦ record (f e) { id = e.id } ∷ es ];
}

front_of : {A : Type 0} → (Leaf → Option A) → LeafTable → Option A
front_of f t = elim t.recency [ [] ↦ none | e ∷ es ↦ f e ]

pub settings : Bytes → ℤ → LeafTable → LeafTable × Option ℕ
settings id now t =
    let (touched, found) = touch id now t in
    (touched, if found then front_of (λ e. e.settings) touched else none)

adopt : Option ℕ → Leaf → Leaf
adopt s e = record e { settings = elim e.settings [ none ↦ s | some old ↦ some old ] }

-- The change and the answer of a call that has made its leaf the front one; `none` when it throws.
at_seen : {A : Type 0} → (Leaf → Leaf) → (LeafTable → A) → LeafTable × Bool → LeafTable × Option A
at_seen f answer (t, thrown) =
    if thrown then (t, none) else (at_front f t, some (answer (at_front f t)))

pub adopt_settings : Bytes → Option ℕ → ℤ → Bool → LeafTable → LeafTable × Option (Option ℕ)
adopt_settings id s now fails t =
    at_seen (adopt s) (front_of (λ e. e.settings)) (touch_or_insert id now fails t)

declared : ℕ → Leaf → Option ℕ
declared declared_hash e = if e.declared_hash == declared_hash then e.resource else none

pub find : Bytes → ℕ → ℤ → LeafTable → LeafTable × Option ℕ
find id declared_hash now t =
    let (touched, found) = touch id now t in
    (touched, if found then front_of (declared declared_hash) touched else none)

is_null : Option ℕ → Bool
is_null none = true
is_null (some r) = false

declare : ℕ → Option ℕ → Leaf → Leaf
declare declared_hash resource e =
    if is_null e.resource || not (e.declared_hash == declared_hash)
    then record e { declared_hash = declared_hash; resource = resource }
    else e

pub insert : Bytes → ℕ → Option ℕ → ℤ → Bool → LeafTable → LeafTable × Option (Option ℕ)
insert id declared_hash resource now fails t =
    at_seen (declare declared_hash resource) (front_of (λ e. e.resource))
      (touch_or_insert id now fails t)

-- The offset is `none` when the call throws.
pub update_boot_anchor : Bytes → BootSample → ℤ → ℤ → Bool → LeafTable → LeafTable × Option ℤ
update_boot_anchor id sample window now fails t =
    let (seen, thrown) = touch_or_insert id now fails t in
    if thrown then (seen, none) else (
      at_front (λ e. record e { boot_anchor = (update e.boot_anchor sample window).0 }) seen,
      front_of (λ e. some (update e.boot_anchor sample window).1) seen,
    )

pub size : LeafTable → ℕ
size t = length t.index
