-- ===== src/Api/Baggage/RoundTrip/Mutated.antt =====
-- src/api/baggage.cpp: the round trip of a baggage that was parsed and mutated.
use microtel.Prelude.{
  ℕ, zero, suc, ◌≡◌, refl, inl, inr, Bool, true, false, ◌&&◌, ◌||◌, if◌then◌else◌, not, ltb, leb,
  List, [], ◌∷◌, ◌++◌, Option, none, some, length, arith, Bool-cases,
}
use microtel.Prelude.Bytes.{Bytes, bytes_eq, trim}
use microtel.Api.Trace.{AllBytes}
use microtel.Api.Baggage.{
  Entry, Baggage, max_entries, max_entry_bytes, max_total_bytes, make_entry, serialised_size,
  total_with, Admission, admit, next_member, parse_nonempty, take_member, parse_members, seal,
  from_header, to_header, entries_of, get, size, empty, is_some, replace_or_push, set, except,
  erase,
}
use microtel.Api.Baggage.Octets.{is_token}
use microtel.Api.Baggage.Limits.{IsWithinLimits}
use microtel.Api.Baggage.Limits.History.{Mutation, mutate, mutates, mutates-IsWithinLimits}
use microtel.Api.Baggage.RoundTrip.Canonical.{nil-IsCanonical}
use microtel.Api.Baggage.RoundTrip.Members.{
  IsReadable, make_entry-IsReadable, parse_member-IsReadable,
}
use microtel.Api.Baggage.RoundTrip.Headers.{
  AllReadable, IsReadableBaggage, from_header-to_header_readable,
}

AllReadable-concat :
    (es : List Entry) (e : Entry) → AllReadable es → IsReadable e → AllReadable (es ++ e ∷ [])
AllReadable-concat [] e a h = (h, tt)
AllReadable-concat (x ∷ es) e a h = (a.0, AllReadable-concat es e a.1 h)

take_member-AllReadable :
    (go : List Entry → ℕ → List Entry) (es : List Entry) (total : ℕ) (o : Option Entry)
    → ((l : List Entry) (t : ℕ) → AllReadable l → AllReadable (go l t))
    → AllReadable es
    → ((e : Entry) → o ≡ some e → IsReadable e)
    → AllReadable (take_member go es total o)
unfolding take_member
take_member-AllReadable go es total none k a r = k es total a
take_member-AllReadable go es total (some e) k a r = decide (admit e es total)
  where
    decide :
        (admission : Admission)
        → AllReadable (elim admission [
          | Admission.stopped ↦ es
          | Admission.skipped ↦ go es total
          | Admission.accepted ↦ go (es ++ e ∷ []) (total_with total (length es) e.member_bytes)
        ])
    decide Admission.stopped = a
    decide Admission.skipped = k es total a
    decide Admission.accepted = k _ _ (AllReadable-concat es e a (r e refl))

parse_members-AllReadable :
    (fuel : ℕ) (header : Bytes) (es : List Entry) (total : ℕ)
    → AllReadable es
    → AllReadable (parse_members fuel header es total)
unfolding parse_members
parse_members-AllReadable zero header es total a = a
parse_members-AllReadable (suc fuel) [] es total a = a
parse_members-AllReadable (suc fuel) (c ∷ cs) es total a =
    let (member, rest) = next_member (c ∷ cs) in
    take_member-AllReadable (parse_members fuel rest) es total (parse_nonempty (trim member))
      (parse_members-AllReadable fuel rest) a (parsed (trim member))
  where
    parsed : (m : Bytes) (e : Entry) → parse_nonempty m ≡ some e → IsReadable e
    parsed [] e h = absurd (ground arith)
    parsed (c ∷ m) e h = parse_member-IsReadable (c ∷ m) h

seal-IsReadableBaggage : (es : List Entry) → AllReadable es → IsReadableBaggage (seal es)
unfolding seal
seal-IsReadableBaggage [] a = tt
seal-IsReadableBaggage (e ∷ es) a = a

entries_of-AllReadable : (b : Baggage) → IsReadableBaggage b → AllReadable (entries_of b)
unfolding entries_of
entries_of-AllReadable none r = tt
entries_of-AllReadable (some es) r = r

AllReadable-replace :
    (c : Entry) (es : List Entry)
    → IsReadable c
    → AllReadable es
    → AllReadable (replace_or_push c es)
unfolding replace_or_push
AllReadable-replace c [] h a = (h, tt)
AllReadable-replace c (e ∷ es) h a = elim (Bool-cases (bytes_eq e.key c.key)) [
  | inl k ↦ rw k (h, a.1)
  | inr k ↦ rw k (a.0, AllReadable-replace c es h a.1)
]

AllReadable-except : (k : Bytes) (es : List Entry) → AllReadable es → AllReadable (except k es)
unfolding except
AllReadable-except k [] a = tt
AllReadable-except k (e ∷ es) a = elim (Bool-cases (bytes_eq e.key k)) [
  | inl q ↦ rw q (AllReadable-except k es a.1)
  | inr q ↦ rw q (a.0, AllReadable-except k es a.1)
]

if_readable :
    (t : Bool) (x y : Baggage)
    → (t ≡ true → IsReadableBaggage x)
    → (t ≡ false → IsReadableBaggage y)
    → IsReadableBaggage (if t then x else y)
if_readable true x y p q = p refl
if_readable false x y p q = q refl

token_of : {t : Bool} (full : Bool) → (not t || full) ≡ false → t ≡ true
token_of full h = ground arith

set-IsReadableBaggage :
    (b : Baggage) (key value : Bytes)
    → AllBytes value
    → IsReadableBaggage b
    → IsReadableBaggage (set b key value)
unfolding set
set-IsReadableBaggage b key value v r =
    let candidate = make_entry key value [] in
    let entries = replace_or_push candidate (entries_of b) in
    let full = not (is_some (get b key)) && leb max_entries (size b) in
    let fitting = if ltb max_total_bytes (serialised_size entries) then b else seal entries in
    if_readable (not (is_token key) || full) b
      (if ltb max_entry_bytes candidate.member_bytes then b else fitting) (λ h. r)
      (λ h.
        if_readable (ltb max_entry_bytes candidate.member_bytes) b fitting (λ _. r)
          (λ _.
            if_readable (ltb max_total_bytes (serialised_size entries)) b (seal entries) (λ _. r)
              (λ _. seal-IsReadableBaggage entries (
                AllReadable-replace candidate (entries_of b)
                  (make_entry-IsReadable key value [] (token_of full h) v nil-IsCanonical)
                  (entries_of-AllReadable b r)))))

erase-IsReadableBaggage :
    (b : Baggage) (key : Bytes) → IsReadableBaggage b → IsReadableBaggage (erase b key)
unfolding erase
erase-IsReadableBaggage b key r =
    if_readable _ _ _ (λ _. r)
      (λ _.
        seal-IsReadableBaggage _
          (AllReadable-except key (entries_of b) (entries_of-AllReadable b r)))

-- The values that are set are strings of bytes.
abbrev pub AllOctets : List Mutation → Type 0
AllOctets [] = Unit
AllOctets (Mutation.sets key value ∷ ms) = AllBytes value × AllOctets ms
AllOctets (Mutation.erases key ∷ ms) = AllOctets ms

mutates-IsReadableBaggage :
    (ms : List Mutation) (b : Baggage)
    → AllOctets ms
    → IsReadableBaggage b
    → IsReadableBaggage (mutates ms b)
unfolding mutates mutate
mutates-IsReadableBaggage [] b o r = r
mutates-IsReadableBaggage (Mutation.sets key value ∷ ms) b o r =
    mutates-IsReadableBaggage ms (set b key value) o.1 (set-IsReadableBaggage b key value o.0 r)
mutates-IsReadableBaggage (Mutation.erases key ∷ ms) b o r =
    mutates-IsReadableBaggage ms (erase b key) o (erase-IsReadableBaggage b key r)

from_header-IsReadableBaggage : (header : Bytes) → IsReadableBaggage (from_header header)
unfolding from_header
from_header-IsReadableBaggage header =
    seal-IsReadableBaggage _ (parse_members-AllReadable (length header) header [] 0 tt)

-- Whatever header is parsed and whatever mutations follow, whose values are strings of bytes, the
-- baggage is read back from the header it is written to: members in their order, values that need
-- escapes, and the properties that came with the header.
pub from_header-to_header_mutated :
    (header : Bytes) (ms : List Mutation)
    → AllOctets ms
    → from_header (to_header (mutates ms (from_header header))) ≡ mutates ms (from_header header)
from_header-to_header_mutated header ms o =
    from_header-to_header_readable (mutates ms (from_header header))
      (mutates-IsWithinLimits header ms)
      (mutates-IsReadableBaggage ms (from_header header) o (from_header-IsReadableBaggage header))

-- A baggage within the limits is empty only as the null pointer.
pub empty-none : (b : Baggage) → IsWithinLimits b → empty b ≡ true → b ≡ none
unfolding empty size
empty-none none w h = refl
empty-none (some []) w h = absurd (w.0 refl)
empty-none (some (e ∷ es)) w h = absurd (ground arith)
