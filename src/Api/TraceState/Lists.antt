-- ===== src/Api/TraceState/Lists.antt =====
-- The invariant of an entry list, that every operation keeps it, and the laws of `Get`.
use microtel.Prelude.{
  ℕ, zero, suc, ◌≤◌, ◌≡◌, ◌≢◌, refl, inl, inr, true, false, ◌||◌, ◌==◌, List, [], ◌∷◌, ◌++◌, Option,
  none, some, length, length-append, arith, Bool-cases, Option-cases,
}
use microtel.Prelude.Bytes.{Bytes, bytes_eq, bytes_eq_iff}
use microtel.Api.TraceState.{
  Entry, TraceState, max_entries, is_valid_key, is_valid_value, contains, parse_member, take_member,
  parse_members, next_member, from_header,
}

abbrev pub IsValid : Entry → Type 0
IsValid e = (is_valid_key e.key ≡ true) × (is_valid_value e.value ≡ true)

abbrev pub AllValid : List Entry → Type 0
AllValid [] = Unit
AllValid (e ∷ es) = IsValid e × AllValid es

abbrev pub Distinct : List Entry → Type 0
Distinct [] = Unit
Distinct (e ∷ es) = (contains es e.key ≡ false) × Distinct es

pub record IsList (es : List Entry) : Type 0 where
  pub members : AllValid es
  pub distinct : Distinct es
  pub bounded : length es ≤ max_entries

-- A state is the null pointer, or a list that is not empty, of at most 32 valid entries with
-- distinct keys.
abbrev pub IsWellFormed : TraceState → Type 0
IsWellFormed none = Unit
IsWellFormed (some es) = (es ≢ []) × IsList es

pub contains-concat :
    (es : List Entry) (e : Entry) (k : Bytes)
    → contains (es ++ e ∷ []) k ≡ (contains es k || bytes_eq e.key k)
unfolding contains
contains-concat [] e k = ground arith
contains-concat (x ∷ es) e k = ground (arith, contains-concat es e k)

AllValid-concat : (es : List Entry) (e : Entry) → AllValid es → IsValid e → AllValid (es ++ e ∷ [])
AllValid-concat [] e a h = (h, tt)
AllValid-concat (x ∷ es) e a h = (a.0, AllValid-concat es e a.1 h)

Distinct-concat :
    (es : List Entry) (e : Entry)
    → Distinct es
    → contains es e.key ≡ false
    → Distinct (es ++ e ∷ [])
unfolding contains
Distinct-concat [] e d h = (refl, tt)
Distinct-concat (x ∷ es) e d h = (
  ground (arith, contains-concat es e x.key, bytes_eq_iff x.key e.key, bytes_eq_iff e.key x.key),
  Distinct-concat es e d.1 (ground arith),
)

IsList-concat :
    (es : List Entry) (e : Entry)
    → IsList es
    → IsValid e
    → contains es e.key ≡ false
    → (length es == max_entries) ≡ false
    → IsList (es ++ e ∷ [])
IsList-concat es e l v c n = record {
  members = AllValid-concat es e l.members v;
  distinct = Distinct-concat es e l.distinct c;
  bounded = ground (arith, length-append es (e ∷ []), l.bounded);
}

parse_member-IsValid : (m : Bytes) {e : Entry} → parse_member m ≡ some e → IsValid e
unfolding parse_member
parse_member-IsValid m h = ground arith

abbrev ListIf : Option (List Entry) → Type 0
ListIf none = Unit
ListIf (some es) = IsList es

take_member-IsList :
    (go : List Entry → Option (List Entry)) (es : List Entry) (m : Bytes)
    → ((l : List Entry) → IsList l → ListIf (go l))
    → IsList es
    → ListIf (take_member go es m)
unfolding take_member
take_member-IsList go es [] k l = k es l
take_member-IsList go es (c ∷ m) k l = elim (Bool-cases (length es == max_entries)) [
  | inl full ↦ rw full tt
  | inr room ↦ elim (Option-cases (parse_member (c ∷ m))) [
    | inl bad ↦ rw (room, bad) tt
    | inr (e, good) ↦ elim (Bool-cases (contains es e.key)) [
      | inl old ↦ rw (room, good, old) tt
      | inr new ↦
          rw (room, good, new)
            (k _ (IsList-concat es e l (parse_member-IsValid (c ∷ m) good) new room))
    ]
  ]
]

parse_members-IsList :
    (fuel : ℕ) (header : Bytes) (es : List Entry)
    → IsList es
    → ListIf (parse_members fuel header es)
unfolding parse_members
parse_members-IsList zero header es l = l
parse_members-IsList (suc fuel) [] es l = l
parse_members-IsList (suc fuel) (c ∷ cs) es l =
    take_member-IsList (parse_members fuel (next_member (c ∷ cs)).1) es _
      (parse_members-IsList fuel (next_member (c ∷ cs)).1) l

-- Whatever the header holds, the parsed state is well formed.
pub from_header-IsWellFormed : (header : Bytes) → IsWellFormed (from_header header)
unfolding from_header
from_header-IsWellFormed header = go _ (parse_members-IsList (length header) header [] nil)
  where
    nil : IsList []
    nil = record { members = tt; distinct = tt; bounded = omega arith }

    go :
        (o : Option (List Entry))
        → ListIf o
        → IsWellFormed (elim o [ none ↦ none | some [] ↦ none | some (e ∷ es) ↦ some (e ∷ es) ])
    go none l = tt
    go (some []) l = tt
    go (some (e ∷ es)) l = (λ h. cc, l)
