-- ===== src/Api/TraceState/Mutators.antt =====
-- `Set` and `Erase`: they keep the invariant, and what `Get` returns after them.
use microtel.Prelude.{
  ◌+◌, ◌≡◌, ◌≢◌, refl, ap, inl, inr, true, false, ◌&&◌, ◌==◌, if◌then◌else◌, List, [], ◌∷◌, Option,
  none, some, length, arith, Bool-cases,
}
use microtel.Prelude.Bytes.{Bytes, bytes_eq, bytes_eq_iff}
use microtel.Api.TraceState.{
  Entry, TraceState, contains, entries_of, except, size, find, get, has_value, admits, set, erase,
}
use microtel.Api.TraceState.Lists.{AllValid, Distinct, IsList, IsWellFormed}

contains-except_other :
    (k j : Bytes) (es : List Entry) → contains es j ≡ false → contains (except k es) j ≡ false
unfolding contains except
contains-except_other k j [] h = refl
contains-except_other k j (e ∷ es) h = ground (arith, contains-except_other k j es)

contains-except_self : (k : Bytes) (es : List Entry) → contains (except k es) k ≡ false
unfolding contains except
contains-except_self k [] = refl
contains-except_self k (e ∷ es) = ground (arith, contains-except_self k es)

AllValid-except : (k : Bytes) (es : List Entry) → AllValid es → AllValid (except k es)
unfolding except
AllValid-except k [] a = tt
AllValid-except k (e ∷ es) a = ground (arith, AllValid-except k es a.1)

Distinct-except : (k : Bytes) (es : List Entry) → Distinct es → Distinct (except k es)
unfolding except
Distinct-except k [] d = tt
Distinct-except k (e ∷ es) d =
    ground (arith, Distinct-except k es d.1, contains-except_other k e.key es)

find_absent : (k : Bytes) (es : List Entry) → contains es k ≡ false → has_value (find k es) ≡ false
unfolding contains find
find_absent k [] h = refl
find_absent k (e ∷ es) h = ground (arith, find_absent k es)

-- Without its key a list is one shorter if it held the key, and else the same length.
length-except :
    (k : Bytes) (es : List Entry)
    → Distinct es
    → length es ≡ length (except k es) + (if has_value (find k es) then 1 else 0)
unfolding except find
length-except k [] d = refl
length-except k (e ∷ es) d =
    ground (arith, length-except k es d.1, find_absent k es, bytes_eq_iff e.key k)

IsWellFormed-IsList : (ts : TraceState) → IsWellFormed ts → IsList (entries_of ts)
unfolding entries_of
IsWellFormed-IsList none w = record { members = tt; distinct = tt; bounded = omega arith }
IsWellFormed-IsList (some es) w = w.1

size-entries_of : (ts : TraceState) → size ts ≡ length (entries_of ts)
unfolding size entries_of
size-entries_of none = refl
size-entries_of (some es) = refl

get-entries_of : (ts : TraceState) (k : Bytes) → get ts k ≡ find k (entries_of ts)
unfolding get find entries_of
get-entries_of none k = refl
get-entries_of (some es) k = refl

set-IsList :
    (ts : TraceState) (k v : Bytes)
    → IsList (entries_of ts)
    → admits ts k v ≡ true
    → IsList (record { key = k; value = v } ∷ except k (entries_of ts))
unfolding admits
set-IsList ts k v l a = record {
  members = (ground arith, AllValid-except k (entries_of ts) l.members);
  distinct = (contains-except_self k (entries_of ts), Distinct-except k (entries_of ts) l.distinct);
  bounded = ground (
    arith,
    length-except k (entries_of ts) l.distinct,
    l.bounded,
    size-entries_of ts,
    get-entries_of ts k,
  );
}

except-ne-nil :
    (k : Bytes) (es : List Entry)
    → Distinct es
    → (length es == 1) ≡ false
    → has_value (find k es) ≡ true
    → except k es ≢ []
except-ne-nil k [] d n h e = unfold find in cc
except-ne-nil k (x ∷ es) d n h e =
    absurd (ground (arith, length-except k (x ∷ es) d, ap (length {A = Entry}) e))

except-IsList : (k : Bytes) (es : List Entry) → IsList es → IsList (except k es)
except-IsList k es l = record {
  members = AllValid-except k es l.members;
  distinct = Distinct-except k es l.distinct;
  bounded = omega (arith, length-except k es l.distinct, l.bounded);
}

-- `Set` keeps the invariant, also when it refuses the pair.
pub set-IsWellFormed : (ts : TraceState) (k v : Bytes) → IsWellFormed ts → IsWellFormed (set ts k v)
unfolding set
set-IsWellFormed ts k v w = elim (Bool-cases (admits ts k v)) [
  | inl taken ↦ rw taken (λ e. cc, set-IsList ts k v (IsWellFormed-IsList ts w) taken)
  | inr refused ↦ rw refused w
]

-- `Erase` keeps the invariant: the empty state is always the null pointer.
pub erase-IsWellFormed : (ts : TraceState) (k : Bytes) → IsWellFormed ts → IsWellFormed (erase ts k)
unfolding erase get size entries_of
erase-IsWellFormed none k w = ground arith
erase-IsWellFormed (some es) k w = elim (Bool-cases (has_value (find k es))) [
  | inl held ↦ elim (Bool-cases (length es == 1)) [
    | inl single ↦ rw (held, single) tt
    | inr more ↦ rw (held, more) (except-ne-nil k es w.1.distinct more held, except-IsList k es w.1)
  ]
  | inr missing ↦ rw missing w
]

find-except :
    (k j : Bytes) (es : List Entry)
    → find j (except k es) ≡ (if bytes_eq k j then none else find j es)
unfolding find except
find-except k j [] = ground arith
find-except k j (e ∷ es) =
    ground (arith, bytes_eq_iff e.key k, bytes_eq_iff e.key j, bytes_eq_iff k j, find-except k j es)

-- After `Set` the key reads the new value and every other key what it read before; a pair that is
-- refused changes nothing.
pub get-set :
    (ts : TraceState) (k v j : Bytes)
    → get (set ts k v) j ≡ (if admits ts k v && bytes_eq k j then some v else get ts j)
unfolding set get find entries_of
get-set none k v j = ground (arith, find-except k j [])
get-set (some es) k v j = ground (arith, find-except k j es)

find-none :
    (k j : Bytes) (es : List Entry)
    → has_value (find k es) ≡ false
    → bytes_eq k j ≡ true
    → find j es ≡ none
find-none k j es h e = rw (← (bytes_eq_iff k j).0 e) (absent (find k es) h)
  where
    absent : (o : Option Bytes) → has_value o ≡ false → o ≡ none
    absent none h = refl
    absent (some v) h = cc

-- After `Erase` on a well-formed state the key reads nothing and every other key what it read before.
pub get-erase :
    (ts : TraceState) (k j : Bytes)
    → IsWellFormed ts
    → get (erase ts k) j ≡ (if bytes_eq k j then none else get ts j)
unfolding erase get entries_of size find
get-erase none k j w = ground arith
get-erase (some []) k j w = ground arith
get-erase (some (e ∷ [])) k j w =
    ground (arith, bytes_eq_iff e.key k, bytes_eq_iff e.key j, bytes_eq_iff k j)
get-erase (some (e ∷ d ∷ es)) k j w =
    ground (arith, find-except k j (e ∷ d ∷ es), find-none k j (e ∷ d ∷ es))
