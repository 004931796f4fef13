-- ===== src/Api/Baggage/Limits.antt =====
-- The limits of src/api/baggage.cpp: the invariant of an entry list, that parsing and the mutators
-- keep it, and the length of the header it is written to.
pub mod Parse
pub mod Mutators
pub mod History
use microtel.Prelude.{
  ℕ, zero, suc, ◌+◌, ◌-◌, ◌≤◌, ◌≡◌, ◌≢◌, refl, ap, inl, inr, true, false, ◌||◌, ◌==◌, if◌then◌else◌,
  not, ltb, leb, List, [], ◌∷◌, ◌++◌, Option, none, some, ◌>>=◌, length, length-append, arith,
  Bool-cases, Option-cases,
}
use microtel.Prelude.Bytes.{Bytes, bytes_eq, bytes_eq_iff, trim, split_at}
use microtel.Api.Baggage.{
  Entry, Baggage, max_entries, max_entry_bytes, max_total_bytes, property_bytes, property_text,
  make_entry, head_and_tail, member_properties, parse_member, parse_parts, contains, total_with,
  sizes, serialised_size, Admission, admit, next_member, parse_nonempty, take_member, parse_members,
  seal, from_header, member_text, append_member, append_members, to_header,
}
use microtel.Api.Baggage.Octets.{is_token, encoded_size, append_encoded, decode_value}
use microtel.Api.Baggage.Octets.Encoding.{length-append_encoded}

-- The key is a token, and `member_bytes` is the serialised length, at most 4096.
unfoldable pub IsMember : Entry → Type 0
IsMember e =
    (is_token e.key ≡ true)
    × (length (member_text e) ≡ e.member_bytes)
    × (e.member_bytes ≤ max_entry_bytes)

abbrev pub AllMembers : List Entry → Type 0
AllMembers [] = Unit
AllMembers (e ∷ es) = IsMember e × AllMembers es

abbrev pub Distinct : List Entry → Type 0
Distinct [] = Unit
Distinct (e ∷ es) = (contains es e.key ≡ false) × Distinct es

pub record IsLimited (es : List Entry) : Type 0 where
  pub members : AllMembers es
  pub distinct : Distinct es
  pub entries : length es ≤ max_entries
  pub total : serialised_size es ≤ max_total_bytes

-- A baggage is the null pointer, or a list within the limits that is not empty.
abbrev pub IsWithinLimits : Baggage → Type 0
IsWithinLimits none = Unit
IsWithinLimits (some es) = (es ≢ []) × IsLimited es

pub seal-IsWithinLimits : (es : List Entry) → IsLimited es → IsWithinLimits (seal es)
unfolding seal
seal-IsWithinLimits [] l = tt
seal-IsWithinLimits (e ∷ es) l = (λ h. cc, l)

-- The bytes of a list with one for the `,` of each member, one more than the serialised length.
unfoldable pub weight : List Entry → ℕ
weight [] = 0
weight (e ∷ es) = e.member_bytes + 1 + weight es

pub sizes-suc : (total n : ℕ) (es : List Entry) → sizes total (suc n) es ≡ total + weight es
unfolding sizes weight total_with
sizes-suc total n [] = omega arith
sizes-suc total n (e ∷ es) =
    ground (arith, sizes-suc (total_with total (suc n) e.member_bytes) (suc n) es)

pub serialised_size-weight : (es : List Entry) → serialised_size es ≡ weight es - 1
unfolding sizes weight total_with
serialised_size-weight [] = refl
serialised_size-weight (e ∷ es) = ground (arith, sizes-suc (total_with 0 0 e.member_bytes) 0 es)

pub weight-concat :
    (es : List Entry) (e : Entry) → weight (es ++ e ∷ []) ≡ weight es + e.member_bytes + 1
unfolding weight
weight-concat [] e = omega arith
weight-concat (x ∷ es) e = omega (arith, weight-concat es e)

weight_pos : (e : Entry) (es : List Entry) → 1 ≤ weight (e ∷ es)
unfolding weight
weight_pos e es = omega arith

-- The running total of the parse is the serialised length.
pub size-concat :
    (es : List Entry) (e : Entry)
    → serialised_size (es ++ e ∷ []) ≡ total_with (serialised_size es) (length es) e.member_bytes
unfolding total_with
size-concat [] e = unfold sizes in refl
size-concat (x ∷ es) e = ground (
  arith,
  serialised_size-weight ((x ∷ es) ++ e ∷ []),
  serialised_size-weight (x ∷ es),
  weight-concat (x ∷ es) e,
  weight_pos x es,
)

pub length-member_text :
    (key value properties : Bytes)
    → length (member_text (make_entry key value properties))
      ≡ (make_entry key value properties).member_bytes
unfolding member_text make_entry property_text
length-member_text key value [] = ground (
  arith,
  length-append key (b'=' ∷ (append_encoded value ++ [])),
  length-append (append_encoded value) [],
  length-append_encoded value,
)
length-member_text key value (c ∷ cs) = ground (
  arith,
  length-append key (b'=' ∷ (append_encoded value ++ (b';' ∷ c ∷ cs))),
  length-append (append_encoded value) (b';' ∷ c ∷ cs),
  length-append_encoded value,
)

length-append_members :
    (header : Bytes) (es : List Entry)
    → AllMembers es
    → 1 ≤ length header
    → length (append_members header es) ≡ length header + weight es
unfolding append_members append_member weight IsMember
length-append_members [] es a h = absurd (omega arith)
length-append_members (c ∷ cs) [] a h = omega arith
length-append_members (c ∷ cs) (e ∷ es) a h = ground (
  arith,
  length-append (c ∷ cs) (b',' ∷ member_text e),
  length-append_members ((c ∷ cs) ++ b',' ∷ member_text e) es a.1,
)

member_text_pos : (e : Entry) → 1 ≤ length (member_text e)
unfolding member_text
member_text_pos e =
    omega
      (arith, length-append e.key (b'=' ∷ (append_encoded e.value ++ property_text e.properties)))

-- The header that a well-formed baggage is written to has exactly the length that `SerialisedSize` counts.
pub length-to_header :
    (es : List Entry) → AllMembers es → length (to_header (some es)) ≡ serialised_size es
unfolding to_header append_members append_member
length-to_header [] a = unfold sizes in refl
length-to_header (e ∷ es) a =
    unfold weight IsMember in
    omega (
      arith,
      length-append_members (member_text e) es a.1 (member_text_pos e),
      serialised_size-weight (e ∷ es),
      a.0.1,
    )
