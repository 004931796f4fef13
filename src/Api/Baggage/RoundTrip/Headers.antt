-- ===== src/Api/Baggage/RoundTrip/Headers.antt =====
-- src/api/baggage.cpp: `FromHeader` on what `ToHeader` wrote.
use microtel.Prelude.{
  ℕ, zero, suc, ◌+◌, ◌≤◌, ◌≡◌, ◌≢◌, refl, sym, ap, ◌∙◌, true, false, ◌||◌, List, [], ◌∷◌, ◌++◌,
  none, some, length, length-append, arith,
}
use mathlib.Core.Path.{subst}
use mathlib.Core.List.{append_assoc, append-nil}
use microtel.Prelude.Bytes.{
  Bytes, bytes_eq_iff, all, all_mono, differs, split_at-append, split_at-none, trim,
}
use microtel.Api.Baggage.{
  Entry, Baggage, contains, sizes, serialised_size, Admission, admit, next_member, parse_nonempty,
  parse_member, take_member, parse_members, seal, from_header, member_text, append_member,
  append_members, to_header,
}
use microtel.Api.Baggage.Limits.{
  IsMember, AllMembers, Distinct, IsLimited, IsWithinLimits, weight, serialised_size-weight,
  size-concat,
}
use microtel.Api.Baggage.RoundTrip.Properties.{is_dense, dense-comma, trim_dense}
use microtel.Api.Baggage.RoundTrip.Members.{
  IsReadable, member_text_dense, member_text_nonempty, parse_member-member_text,
}

abbrev pub AllReadable : List Entry → Type 0
AllReadable [] = Unit
AllReadable (e ∷ es) = IsReadable e × AllReadable es

-- The members behind the first one, each after its `,`, and the whole header.
abbrev commas : List Entry → Bytes
commas [] = []
commas (e ∷ es) = b',' ∷ (member_text e ++ commas es)

abbrev header_of : List Entry → Bytes
header_of [] = []
header_of (e ∷ es) = member_text e ++ commas es

append_members-commas :
    (h : Bytes) (es : List Entry) → h ≢ [] → append_members h es ≡ h ++ commas es
unfolding append_members append_member
append_members-commas h [] n = sym (append-nil h)
append_members-commas [] (e ∷ es) n = absurd (n refl)
append_members-commas (c ∷ h) (e ∷ es) n =
    append_members-commas ((c ∷ h) ++ b',' ∷ member_text e) es (λ e. cc) ∙ simp append_assoc

to_header-header_of : (es : List Entry) → AllReadable es → to_header (some es) ≡ header_of es
unfolding to_header append_members append_member
to_header-header_of [] r = refl
to_header-header_of (e ∷ es) r =
    append_members-commas (member_text e) es (member_text_nonempty e r.0)

member_text-comma : (e : Entry) → IsReadable e → all (differs b',') (member_text e) ≡ true
member_text-comma e r =
    all_mono is_dense (differs b',') (member_text e) dense-comma (member_text_dense e r)

next_member-header_of :
    (e : Entry) (es : List Entry)
    → IsReadable e
    → next_member (header_of (e ∷ es)) ≡ (member_text e, header_of es)
next_member-header_of e [] r =
    rw append-nil
      (rw (split_at-none b',' (member_text e) (member_text-comma e r), next_member) refl)
next_member-header_of e (d ∷ es) r =
    rw
      (
        split_at-append b',' (member_text e) (member_text d ++ commas es) (member_text-comma e r),
        next_member,
      )
      refl

-- What the limits of a whole list say of one of its members.
contains-append :
    (a b : List Entry) (k : Bytes) → contains (a ++ b) k ≡ (contains a k || contains b k)
unfolding contains
contains-append [] b k = refl
contains-append (x ∷ a) b k = ground (arith, contains-append a b k)

Distinct-at :
    (done : List Entry) (e : Entry) (es : List Entry)
    → Distinct (done ++ e ∷ es)
    → contains done e.key ≡ false
unfolding contains
Distinct-at [] e es d = refl
Distinct-at (x ∷ done) e es d = ground (
  arith,
  contains-append done (e ∷ es) x.key,
  bytes_eq_iff x.key e.key,
  bytes_eq_iff e.key x.key,
  Distinct-at done e es d.1,
)

AllMembers-at :
    (done : List Entry) (e : Entry) (es : List Entry) → AllMembers (done ++ e ∷ es) → IsMember e
AllMembers-at [] e es a = a.0
AllMembers-at (x ∷ done) e es a = AllMembers-at done e es a.1

weight-append : (a b : List Entry) → weight (a ++ b) ≡ weight a + weight b
unfolding weight
weight-append [] b = omega arith
weight-append (x ∷ a) b = omega (arith, weight-append a b)

total_fits :
    (done : List Entry) (e : Entry) (es : List Entry)
    → serialised_size (done ++ e ∷ []) ≤ serialised_size (done ++ e ∷ es)
unfolding weight
total_fits done e es = omega (
  arith,
  serialised_size-weight (done ++ e ∷ []),
  serialised_size-weight (done ++ e ∷ es),
  weight-append done (e ∷ []),
  weight-append done (e ∷ es),
)

admit-accepted :
    (done : List Entry) (e : Entry) (es : List Entry)
    → IsLimited (done ++ e ∷ es)
    → admit e done (serialised_size done) ≡ Admission.accepted
unfolding admit IsMember
admit-accepted done e es l = ground (
  arith,
  AllMembers-at done e es l.members,
  Distinct-at done e es l.distinct,
  l.entries,
  length-append done (e ∷ es),
  l.total,
  total_fits done e es,
  size-concat done e,
)

take_readable :
    (go : List Entry → ℕ → List Entry) (done : List Entry) (e : Entry) (es : List Entry)
    → IsReadable e
    → IsLimited (done ++ e ∷ es)
    → take_member go done (serialised_size done) (parse_nonempty (trim (member_text e)))
      ≡ go (done ++ e ∷ []) (serialised_size (done ++ e ∷ []))
unfolding take_member sizes
take_readable go done e es r l =
    rw (trim_dense (member_text e) (member_text_dense e r))
      (taken (member_text e) (member_text_nonempty e r) (parse_member-member_text e r))
  where
    taken :
        (m : Bytes)
        → m ≢ []
        → parse_member m ≡ some e
        → take_member go done (serialised_size done) (parse_nonempty m)
          ≡ go (done ++ e ∷ []) (serialised_size (done ++ e ∷ []))
    taken [] n p = absurd (n refl)
    taken (c ∷ m) n p = rw (p, take_member, admit-accepted done e es l, size-concat done e) refl

unroll :
    (fuel : ℕ) (text : Bytes) (done : List Entry) (total : ℕ)
    → text ≢ []
    → parse_members (suc fuel) text done total
      ≡ take_member
          (parse_members fuel (next_member text).1)
          done
          total
          (parse_nonempty (trim (next_member text).0))
unfolding parse_members
unroll fuel [] done total n = absurd (n refl)
unroll fuel (c ∷ cs) done total n = refl

header_nonempty : (e : Entry) (es : List Entry) → IsReadable e → header_of (e ∷ es) ≢ []
header_nonempty e es r = appended_nonempty (member_text e) (member_text_nonempty e r)
  where
    appended_nonempty : (m : Bytes) → m ≢ [] → (m ++ commas es) ≢ []
    appended_nonempty [] n q = n refl
    appended_nonempty (c ∷ m) n q = cc

parse_header :
    (fuel : ℕ) (es done : List Entry)
    → length es ≤ fuel
    → AllReadable es
    → IsLimited (done ++ es)
    → parse_members fuel (header_of es) done (serialised_size done) ≡ done ++ es
parse_header zero [] done h r l = unfold parse_members in rw append-nil
parse_header (suc fuel) [] done h r l = unfold parse_members in rw append-nil
parse_header zero (e ∷ es) done h r l = absurd (omega arith)
parse_header (suc fuel) (e ∷ es) done h r l =
    let shape : (done ++ e ∷ []) ++ es ≡ done ++ e ∷ es = append_assoc done (e ∷ []) es in
    unroll fuel (header_of (e ∷ es)) done (serialised_size done) (header_nonempty e es r.0)
    ∙ ap
        (λ (p : Bytes × Bytes).
          take_member (parse_members fuel p.1) done (serialised_size done)
            (parse_nonempty (trim p.0)))
        (next_member-header_of e es r.0)
    ∙ take_readable (parse_members fuel (header_of es)) done e es r.0 l
    ∙ parse_header fuel es (done ++ e ∷ []) (omega arith) r.1 (subst IsLimited (sym shape) l)
    ∙ shape

length-commas : (es : List Entry) → length es ≤ length (commas es)
length-commas [] = omega arith
length-commas (e ∷ es) = omega (arith, length-append (member_text e) (commas es), length-commas es)

length-header_of : (es : List Entry) → AllReadable es → length es ≤ length (header_of es)
length-header_of [] r = omega arith
length-header_of (e ∷ es) r = omega (
  arith,
  length-append (member_text e) (commas es),
  length-commas es,
  nonempty (member_text e) (member_text_nonempty e r.0),
)
  where
    nonempty : (m : Bytes) → m ≢ [] → 1 ≤ length m
    nonempty [] n = absurd (n refl)
    nonempty (c ∷ m) n = omega arith

-- A baggage of readable members.
abbrev pub IsReadableBaggage : Baggage → Type 0
IsReadableBaggage none = Unit
IsReadableBaggage (some es) = AllReadable es

seal_nonempty : (es : List Entry) → es ≢ [] → seal es ≡ some es
unfolding seal
seal_nonempty [] n = absurd (n refl)
seal_nonempty (e ∷ es) n = refl

-- A baggage within the limits whose members are readable is read back from its header.
pub from_header-to_header_readable :
    (b : Baggage) → IsWithinLimits b → IsReadableBaggage b → from_header (to_header b) ≡ b
unfolding from_header sizes
from_header-to_header_readable none w r = unfold to_header parse_members seal in refl
from_header-to_header_readable (some es) w r =
    ap from_header (to_header-header_of es r)
    ∙ ap seal (parse_header (length (header_of es)) es [] (length-header_of es r) r w.1)
    ∙ seal_nonempty es w.0
