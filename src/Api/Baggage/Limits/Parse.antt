-- ===== src/Api/Baggage/Limits/Parse.antt =====
-- `ParseMembers` keeps the limits, whatever the header holds.
use microtel.Prelude.{
  ℕ, zero, suc, ◌≤◌, ◌≡◌, refl, inl, inr, true, false, ◌||◌, List, [], ◌∷◌, ◌++◌, Option, none,
  some, length, length-append, arith, Bool-cases, Option-cases,
}
use microtel.Prelude.Bytes.{Bytes, bytes_eq, bytes_eq_iff, trim}
use microtel.Api.Baggage.{
  Entry, Baggage, max_total_bytes, make_entry, member_properties, parse_member, parse_parts,
  contains, total_with, sizes, serialised_size, Admission, admit, next_member, parse_nonempty,
  take_member, parse_members, from_header, member_text, to_header,
}
use microtel.Api.Baggage.Octets.{is_token, decode_value}
use microtel.Api.Baggage.Limits.{
  IsMember, AllMembers, Distinct, IsLimited, IsWithinLimits, seal-IsWithinLimits, size-concat,
  length-member_text, length-to_header,
}

contains-concat :
    (es : List Entry) (e : Entry) (k : Bytes)
    → contains (es ++ e ∷ []) k ≡ (contains es k || bytes_eq e.key k)
unfolding contains
contains-concat [] e k = ground arith
contains-concat (x ∷ es) e k = ground (arith, contains-concat es e k)

AllMembers-concat :
    (es : List Entry) (e : Entry) → AllMembers es → IsMember e → AllMembers (es ++ e ∷ [])
AllMembers-concat [] e a h = (h, tt)
AllMembers-concat (x ∷ es) e a h = (a.0, AllMembers-concat es e a.1 h)

Distinct-concat :
    (es : List Entry) (e : Entry)
    → Distinct es
    → contains es e.key ≡ false
    → Distinct (es ++ e ∷ [])
unfolding contains
Distinct-concat [] e d h = (refl, tt)
Distinct-concat (x ∷ es) e d h = (
  ground (arith, contains-concat es e x.key, bytes_eq_iff x.key e.key, bytes_eq_iff e.key x.key),
  Distinct-concat es e d.1 (ground arith),
)

-- A member that is a token and measured but not yet tested against the limits.
abbrev Measured : Entry → Type 0
Measured e = (is_token e.key ≡ true) × (length (member_text e) ≡ e.member_bytes)

-- `Admit` accepts what the limits leave room for.
admit-IsLimited :
    (es : List Entry) (e : Entry)
    → IsLimited es
    → Measured e
    → admit e es (serialised_size es) ≡ Admission.accepted
    → IsLimited (es ++ e ∷ [])
unfolding admit
admit-IsLimited es e l m h = record {
  members = AllMembers-concat es e l.members (unfold IsMember in (m.0, m.1, ground arith));
  distinct = Distinct-concat es e l.distinct (ground arith);
  entries = ground (arith, length-append es (e ∷ []));
  total = ground (arith, size-concat es e);
}

parse_parts-Measured :
    (o : Option (Bytes × Bytes)) (tail : Option Bytes) {e : Entry}
    → parse_parts o tail ≡ some e
    → Measured e
unfolding parse_parts
parse_parts-Measured none tail h = cc
parse_parts-Measured (some (before, after)) tail {e} h =
    elim (Bool-cases (is_token (trim before))) [
      | inr t ↦ absurd (ground arith)
      | inl t ↦ elim (Option-cases (decode_value (trim after))) [
        | inl v ↦ absurd (ground arith)
        | inr (value, v) ↦ elim (Option-cases (member_properties tail)) [
          | inl p ↦ absurd (ground arith)
          | inr (properties, p) ↦ built (trim before) value properties t (ground arith)
        ]
      ]
    ]
  where
    built :
        (key value properties : Bytes)
        → is_token key ≡ true
        → make_entry key value properties ≡ e
        → Measured e
    built key value properties t q =
        rw (← q) ((unfold make_entry in t), length-member_text key value properties)

parse_member-Measured : (m : Bytes) {e : Entry} → parse_member m ≡ some e → Measured e
unfolding parse_member
parse_member-Measured m h = parse_parts-Measured _ _ h

take_member-IsLimited :
    (go : List Entry → ℕ → List Entry) (es : List Entry) (o : Option Entry)
    → ((l : List Entry) → IsLimited l → IsLimited (go l (serialised_size l)))
    → IsLimited es
    → ((e : Entry) → o ≡ some e → Measured e)
    → IsLimited (take_member go es (serialised_size es) o)
unfolding take_member
take_member-IsLimited go es none k l m = k es l
take_member-IsLimited go es (some e) k l m = decide (admit e es (serialised_size es)) refl
  where
    decide :
        (a : Admission)
        → admit e es (serialised_size es) ≡ a
        → IsLimited (elim a [
          | Admission.stopped ↦ es
          | Admission.skipped ↦ go es (serialised_size es)
          | Admission.accepted ↦
              go (es ++ e ∷ []) (total_with (serialised_size es) (length es) e.member_bytes)
        ])
    decide Admission.stopped h = l
    decide Admission.skipped h = k es l
    decide Admission.accepted h =
        rw (← size-concat es e) (k (es ++ e ∷ []) (admit-IsLimited es e l (m e refl) h))

parse_members-IsLimited :
    (fuel : ℕ) (header : Bytes) (es : List Entry)
    → IsLimited es
    → IsLimited (parse_members fuel header es (serialised_size es))
unfolding parse_members
parse_members-IsLimited zero header es l = l
parse_members-IsLimited (suc fuel) [] es l = l
parse_members-IsLimited (suc fuel) (c ∷ cs) es l =
    let (member, rest) = next_member (c ∷ cs) in
    take_member-IsLimited (parse_members fuel rest) es (parse_nonempty (trim member))
      (parse_members-IsLimited fuel rest) l (parsed (trim member))
  where
    parsed : (m : Bytes) (e : Entry) → parse_nonempty m ≡ some e → Measured e
    parsed [] e h = cc
    parsed (c ∷ m) e h = parse_member-Measured (c ∷ m) h

-- Whatever the header holds, the parsed baggage is empty or a list of at most 180 members with distinct token keys, each of at most 4096 serialised bytes and all of at most 8192 with their separators.
pub from_header-IsWithinLimits : (header : Bytes) → IsWithinLimits (from_header header)
unfolding from_header sizes
from_header-IsWithinLimits header =
    seal-IsWithinLimits _ (parse_members-IsLimited (length header) header [] nil)
  where
    nil : IsLimited []
    nil = record {
      members = tt;
      distinct = tt;
      entries = omega arith;
      total = unfold sizes in omega arith;
    }

-- Forwarding a header never grows it past the limit: whatever came in, the parsed baggage is written to at most 8192 bytes.
length-to_header-from_header :
    (header : Bytes) → length (to_header (from_header header)) ≤ max_total_bytes
length-to_header-from_header header = go (from_header header) (from_header-IsWithinLimits header)
  where
    go : (b : Baggage) → IsWithinLimits b → length (to_header b) ≤ max_total_bytes
    go none w = unfold to_header in omega arith
    go (some es) w = omega (arith, length-to_header es w.1.members, w.1.total)
