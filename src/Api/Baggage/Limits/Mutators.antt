-- ===== src/Api/Baggage/Limits/Mutators.antt =====
-- `Set` and `Erase` keep the limits, and what `Get` returns after them.
use microtel.Prelude.{
  ◌+◌, ◌≤◌, ◌≡◌, refl, inl, inr, Bool, true, false, ◌&&◌, ◌||◌, if◌then◌else◌, ltb, leb, List, [],
  ◌∷◌, none, some, length, arith, Bool-cases,
}
use microtel.Prelude.Bytes.{Bytes, bytes_eq, bytes_eq_iff}
use microtel.Api.Baggage.{
  Entry, Baggage, max_entries, max_entry_bytes, max_total_bytes, make_entry, contains,
  serialised_size, sizes, seal, entries_of, find, get, size, replace_or_push, is_some, set, except,
  erase,
}
use microtel.Api.Baggage.Octets.{is_token}
use microtel.Api.Baggage.Limits.{
  IsMember, AllMembers, Distinct, IsLimited, IsWithinLimits, weight, serialised_size-weight,
  seal-IsWithinLimits, length-member_text,
}

contains-replace :
    (c : Entry) (es : List Entry) (k : Bytes)
    → contains (replace_or_push c es) k ≡ (contains es k || bytes_eq c.key k)
unfolding contains replace_or_push
contains-replace c [] k = ground arith
contains-replace c (e ∷ es) k = ground (arith, contains-replace c es k, bytes_eq_iff e.key c.key)

AllMembers-replace :
    (c : Entry) (es : List Entry) → IsMember c → AllMembers es → AllMembers (replace_or_push c es)
unfolding replace_or_push
AllMembers-replace c [] h a = (h, tt)
AllMembers-replace c (e ∷ es) h a = elim (Bool-cases (bytes_eq e.key c.key)) [
  | inl k ↦ rw k (h, a.1)
  | inr k ↦ rw k (a.0, AllMembers-replace c es h a.1)
]

Distinct-replace : (c : Entry) (es : List Entry) → Distinct es → Distinct (replace_or_push c es)
unfolding replace_or_push contains
Distinct-replace c [] d = (refl, tt)
Distinct-replace c (e ∷ es) d = elim (Bool-cases (bytes_eq e.key c.key)) [
  | inl k ↦ rw k (ground (arith, bytes_eq_iff e.key c.key), d.1)
  | inr k ↦ rw k (
    ground (arith, contains-replace c es e.key, bytes_eq_iff e.key c.key, bytes_eq_iff c.key e.key),
    Distinct-replace c es d.1,
  )
]

-- A list that holds the key keeps its length, another one grows by one.
length-replace :
    (c : Entry) (es : List Entry)
    → length (replace_or_push c es) ≡ length es + (if is_some (find es c.key) then 0 else 1)
unfolding replace_or_push find is_some
length-replace c [] = refl
length-replace c (e ∷ es) = ground (arith, length-replace c es)

weight-except : (k : Bytes) (es : List Entry) → weight (except k es) ≤ weight es
unfolding weight except
weight-except k [] = omega arith
weight-except k (e ∷ es) = ground (arith, weight-except k es)

length-except : (k : Bytes) (es : List Entry) → length (except k es) ≤ length es
unfolding except
length-except k [] = omega arith
length-except k (e ∷ es) = ground (arith, length-except k es)

contains-except :
    (k j : Bytes) (es : List Entry) → contains es j ≡ false → contains (except k es) j ≡ false
unfolding contains except
contains-except k j [] h = refl
contains-except k j (e ∷ es) h = ground (arith, contains-except k j es)

AllMembers-except : (k : Bytes) (es : List Entry) → AllMembers es → AllMembers (except k es)
unfolding except
AllMembers-except k [] a = tt
AllMembers-except k (e ∷ es) a = ground (arith, AllMembers-except k es a.1)

Distinct-except : (k : Bytes) (es : List Entry) → Distinct es → Distinct (except k es)
unfolding except
Distinct-except k [] d = tt
Distinct-except k (e ∷ es) d = ground (arith, Distinct-except k es d.1, contains-except k e.key es)

IsWithinLimits-IsLimited : (b : Baggage) → IsWithinLimits b → IsLimited (entries_of b)
unfolding entries_of sizes
IsWithinLimits-IsLimited none w = record {
  members = tt;
  distinct = tt;
  entries = omega arith;
  total = omega arith;
}
IsWithinLimits-IsLimited (some es) w = w.1

size-entries_of : (b : Baggage) → size b ≡ length (entries_of b)
unfolding size entries_of
size-entries_of none = refl
size-entries_of (some es) = refl

get-entries_of : (b : Baggage) (k : Bytes) → get b k ≡ find (entries_of b) k
unfolding get find entries_of
get-entries_of none k = refl
get-entries_of (some es) k = refl

-- When `Set` takes the pair.
unfoldable pub takes : Baggage → Bytes → Bytes → Bool
takes b key value =
    is_token key
    && (is_some (get b key) || ltb (size b) max_entries)
    && leb (make_entry key value []).member_bytes max_entry_bytes
    && leb (serialised_size (replace_or_push (make_entry key value []) (entries_of b)))
        max_total_bytes

set-takes :
    (b : Baggage) (key value : Bytes)
    → set b key value ≡ (
        if takes b key value
        then seal (replace_or_push (make_entry key value []) (entries_of b))
        else b)
unfolding set takes
set-takes b key value = ground arith

replace-IsLimited :
    (b : Baggage) (key value : Bytes)
    → IsLimited (entries_of b)
    → takes b key value ≡ true
    → IsLimited (replace_or_push (make_entry key value []) (entries_of b))
unfolding takes
replace-IsLimited b key value l t =
    let c = make_entry key value [] in
    record {
      members =
          AllMembers-replace c (entries_of b)
            (unfold IsMember in
              (unfold make_entry in ground arith, length-member_text key value [], ground arith))
            l.members;
      distinct = Distinct-replace c (entries_of b) l.distinct;
      entries =
          unfold make_entry in
          ground (
            arith,
            length-replace (make_entry key value []) (entries_of b),
            l.entries,
            size-entries_of b,
            get-entries_of b key,
          );
      total = ground arith;
    }

-- `Set` keeps the invariant, also when it refuses the pair.
pub set-IsWithinLimits :
    (b : Baggage) (key value : Bytes) → IsWithinLimits b → IsWithinLimits (set b key value)
set-IsWithinLimits b key value w =
    rw (set-takes b key value) (elim (Bool-cases (takes b key value)) [
      | inl t ↦
          rw t
            (seal-IsWithinLimits _ (replace-IsLimited b key value (IsWithinLimits-IsLimited b w) t))
      | inr f ↦ rw f w
    ])

-- `Erase` keeps the invariant.
pub erase-IsWithinLimits :
    (b : Baggage) (key : Bytes) → IsWithinLimits b → IsWithinLimits (erase b key)
unfolding erase
erase-IsWithinLimits b key w =
    let l = IsWithinLimits-IsLimited b w in
    elim (Bool-cases (is_some (get b key))) [
      | inr f ↦ rw f w
      | inl t ↦ rw t (
          seal-IsWithinLimits _ (record {
            members = AllMembers-except key (entries_of b) l.members;
            distinct = Distinct-except key (entries_of b) l.distinct;
            entries = omega (arith, length-except key (entries_of b), l.entries);
            total = omega (
              arith,
              serialised_size-weight (entries_of b),
              serialised_size-weight (except key (entries_of b)),
              weight-except key (entries_of b),
              l.total,
            );
          }))
    ]

find-replace :
    (c : Entry) (j : Bytes) (es : List Entry)
    → find (replace_or_push c es) j ≡ (if bytes_eq c.key j then some c.value else find es j)
unfolding find replace_or_push
find-replace c j [] = ground arith
find-replace c j (e ∷ es) = ground (
  arith,
  bytes_eq_iff e.key c.key,
  bytes_eq_iff e.key j,
  bytes_eq_iff c.key j,
  find-replace c j es,
)

get-seal : (es : List Entry) (j : Bytes) → get (seal es) j ≡ find es j
unfolding get seal find
get-seal [] j = refl
get-seal (e ∷ es) j = refl

-- After `Set` the key reads the new value and every other key what it read before; a pair that is refused, for a key that is no token or for a limit, changes nothing.
pub get-set_member :
    (b : Baggage) (key value j : Bytes)
    → get (set b key value) j
      ≡ (if takes b key value && bytes_eq key j then some value else get b j)
unfolding make_entry
get-set_member b key value j = ground (
  arith,
  set-takes b key value,
  get-seal (replace_or_push (make_entry key value []) (entries_of b)) j,
  find-replace (make_entry key value []) j (entries_of b),
  get-entries_of b j,
)

find-except :
    (k j : Bytes) (es : List Entry)
    → find (except k es) j ≡ (if bytes_eq k j then none else find es j)
unfolding find except
find-except k j [] = ground arith
find-except k j (e ∷ es) =
    ground (arith, bytes_eq_iff e.key k, bytes_eq_iff e.key j, bytes_eq_iff k j, find-except k j es)

-- After `Erase` the key reads nothing and every other key what it read before.
pub get-erase_member :
    (b : Baggage) (key j : Bytes) → get (erase b key) j ≡ (if bytes_eq key j then none else get b j)
unfolding erase is_some
get-erase_member b key j = ground (
  arith,
  get-seal (except key (entries_of b)) j,
  find-except key j (entries_of b),
  get-entries_of b j,
  bytes_eq_iff key j,
)
