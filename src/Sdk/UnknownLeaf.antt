-- ===== src/Sdk/UnknownLeaf.antt =====
-- src/sdk/leaf_table.cpp, `UnknownLeafCache`: the leaves lately refused. Each method that takes
-- `m_mu` is one function. An iterator of `m_index` is named by the id of its node, and the keys of
-- `m_index` are kept in the order they came in.
pub mod Bounded
mod Tests
use microtel.Prelude.{
  ℕ, zero, suc, Bool, true, false, ◌||◌, if◌then◌else◌, not, ltb, leb, List, [], ◌∷◌, ◌++◌, Option,
  none, some, length,
}
use microtel.Prelude.Int.{ℤ, ◌-ℤ◌, ltb_ℤ}
use microtel.Prelude.Bytes.{Bytes, bytes_eq}

pub record Answer : Type 0 where
  pub id : Bytes
  pub at : ℤ

-- `age` has the oldest answer first.
pub record UnknownLeafCache : Type 0 where
  pub capacity : ℕ
  pub ttl : ℤ
  pub age : List Answer
  pub index : List Bytes

pub make_cache : ℕ → ℤ → UnknownLeafCache
make_cache capacity ttl = record {
  capacity = if ltb capacity 1 then 1 else capacity;
  ttl = ttl;
  age = [];
  index = [];
}

unfoldable has_key : List Bytes → Bytes → Bool
has_key [] id = false
has_key (k ∷ ks) id = bytes_eq k id || has_key ks id

unfoldable erase_key : Bytes → List Bytes → List Bytes
erase_key id [] = []
erase_key id (k ∷ ks) = if bytes_eq k id then ks else k ∷ erase_key id ks

unfoldable erase_node : Bytes → List Answer → List Answer
erase_node id [] = []
erase_node id (a ∷ more) = if bytes_eq a.id id then more else a ∷ erase_node id more

-- The node that an iterator points to.
unfoldable node : Bytes → List Answer → Option Answer
node id [] = none
node id (a ∷ more) = if bytes_eq a.id id then some a else node id more

unfoldable erase : Bytes → UnknownLeafCache → UnknownLeafCache
erase id c = record c { age = erase_node id c.age; index = erase_key id c.index }

abbrev is_old : ℤ → UnknownLeafCache → Answer → Bool
is_old now c a = ltb_ℤ c.ttl (now -ℤ a.at)

abbrev is_expired : ℤ → UnknownLeafCache → Option Answer → Bool
is_expired now c none = false
is_expired now c (some a) = is_old now c a

unfoldable pub contains : Bytes → ℤ → UnknownLeafCache → UnknownLeafCache × Bool
unfolding has_key node erase erase_node erase_key ◌-ℤ◌
contains id now c =
    if not (has_key c.index id)
    then (c, false)
    else if is_expired now c (node id c.age)
    then (erase id c, false)
    else (c, true)

-- `Erase` of the node that begins a list.
unfoldable erase_front : List Answer → UnknownLeafCache → UnknownLeafCache
erase_front [] c = c
erase_front (a ∷ more) c = erase a.id c

abbrev erase_oldest : UnknownLeafCache → UnknownLeafCache
erase_oldest c = erase_front c.age c

abbrev front : List Answer → Option Answer
front [] = none
front (a ∷ more) = some a

-- The loop; a turn makes the list shorter, so its length is fuel enough.
unfoldable expire : ℕ → ℤ → UnknownLeafCache → UnknownLeafCache
expire zero now c = c
expire (suc fuel) now c =
    let rest = expire fuel now (erase_oldest c) in
    if is_expired now c (front c.age) then rest else c

unfoldable make_room : UnknownLeafCache → UnknownLeafCache
make_room c = if leb c.capacity (length c.index) then erase_oldest c else c

unfoldable push_node : Bytes → ℤ → UnknownLeafCache → UnknownLeafCache
push_node id now c = record c { age = c.age ++ record { id = id; at = now } ∷ [] }

abbrev without_last : List Answer → List Answer
without_last [] = []
without_last (a ∷ []) = []
without_last (a ∷ b ∷ more) = a ∷ without_last (b ∷ more)

unfoldable pop_back : UnknownLeafCache → UnknownLeafCache
pop_back c = record c { age = without_last c.age }

-- `m_index.emplace`, which leaves a key that is there.
unfoldable emplace : Bytes → List Bytes → List Bytes
emplace id index = if has_key index id then index else index ++ id ∷ []

-- `fails` is whether the allocation for the index fails; `bad_alloc` then goes to the caller.
unfoldable push : Bytes → ℤ → Bool → UnknownLeafCache → UnknownLeafCache
push id now fails c =
    let pushed = push_node id now c in
    if fails then pop_back pushed else record pushed { index = emplace id pushed.index }

unfoldable pub insert : Bytes → ℤ → Bool → UnknownLeafCache → UnknownLeafCache
unfolding has_key expire make_room push push_node pop_back emplace erase_front erase erase_node
    erase_key ◌-ℤ◌
insert id now fails c =
    if has_key c.index id then c else push id now fails (make_room (expire (length c.age) now c))

pub size : UnknownLeafCache → ℕ
size c = length c.index
