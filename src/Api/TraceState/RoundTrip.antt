-- ===== src/Api/TraceState/RoundTrip.antt =====
-- `FromHeader` reads back what `ToHeader` wrote.
use mathlib.Core.List.{append_assoc, append-nil}
use microtel.Prelude.{
  ℕ, zero, suc, ◌+◌, ◌≤◌, ◌≡◌, ◌≢◌, refl, sym, ap, ◌∙◌, true, false, ◌==◌, List, [], ◌∷◌, ◌++◌,
  Option, none, some, length, length-append, arith,
}
use microtel.Prelude.Bytes.{
  Bytes, bytes_eq_iff, bytes_eq_refl, split_at-append, split_at-none, trim,
}
use microtel.Api.TraceState.{
  Entry, TraceState, max_entries, contains, parse_member, take_member, parse_members, next_member,
  from_header, to_header_from, to_header,
}
use microtel.Api.TraceState.Grammar.{member_separators, member-trim, member_parse}
use microtel.Api.TraceState.Lists.{contains-concat, IsValid, AllValid, Distinct, IsWellFormed}

-- The rest of a header behind its first member.
abbrev tail_text : List Entry → Bytes
tail_text [] = []
tail_text (e ∷ es) = b',' ∷ ((e.key ++ b'=' ∷ e.value) ++ tail_text es)

member_ne_nil : (k v : Bytes) → ((k ++ b'=' ∷ v) ≢ [])
member_ne_nil [] v e = cc
member_ne_nil (c ∷ k) v e = cc

to_header_from-tail :
    (h : Bytes) (es : List Entry) → h ≢ [] → to_header_from h es ≡ h ++ tail_text es
unfolding to_header_from
to_header_from-tail h [] n = sym (append-nil h)
to_header_from-tail [] (e ∷ es) n = absurd (n refl)
to_header_from-tail (c ∷ h) (e ∷ es) n =
    to_header_from-tail (((c ∷ h) ++ b',' ∷ []) ++ (e.key ++ b'=' ∷ e.value)) es (λ e. cc)
    ∙ simp append_assoc

-- Reading one member and the separator behind it.
abbrev Fresh : List Entry → List Entry → Type 0
Fresh acc [] = Unit
Fresh acc (e ∷ es) = (contains acc e.key ≡ false) × Fresh (acc ++ e ∷ []) es

take_member_step :
    (go : List Entry → Option (List Entry)) (acc : List Entry) (e : Entry)
    → IsValid e
    → contains acc e.key ≡ false
    → (length acc == max_entries) ≡ false
    → take_member go acc (e.key ++ b'=' ∷ e.value) ≡ go (acc ++ e ∷ [])
take_member_step go acc e v c n =
    step (e.key ++ b'=' ∷ e.value) (member_ne_nil e.key e.value) (member_parse e v.0 v.1)
  where
    step :
        (m : Bytes) → m ≢ [] → parse_member m ≡ some e → take_member go acc m ≡ go (acc ++ e ∷ [])
    step [] ne p = absurd (ne refl)
    step (x ∷ m) ne p = unfold take_member in rw (n, p, c)

-- The text of some entries, and the loop on it.
abbrev text_of : List Entry → Bytes
text_of [] = []
text_of (e ∷ es) = (e.key ++ b'=' ∷ e.value) ++ tail_text es

next_member-text_of :
    (e : Entry) (es : List Entry)
    → IsValid e
    → next_member (text_of (e ∷ es)) ≡ (e.key ++ b'=' ∷ e.value, text_of es)
next_member-text_of e [] v =
    rw append-nil
      (rw (split_at-none b',' (e.key ++ b'=' ∷ e.value) (member_separators e v.0 v.1), next_member))
next_member-text_of e (d ∷ es) v = rw (
  split_at-append b',' (e.key ++ b'=' ∷ e.value) ((d.key ++ b'=' ∷ d.value) ++ tail_text es)
      (member_separators e v.0 v.1),
  next_member,
)

unroll :
    (fuel : ℕ) (text : Bytes) (acc : List Entry)
    → text ≢ []
    → parse_members (suc fuel) text acc
      ≡ take_member (parse_members fuel (next_member text).1) acc (trim (next_member text).0)
unfolding parse_members
unroll fuel [] acc n = absurd (n refl)
unroll fuel (c ∷ cs) acc n = refl

text_ne_nil : (e : Entry) (es : List Entry) → text_of (e ∷ es) ≢ []
text_ne_nil e es h =
    member_ne_nil e.key (e.value ++ tail_text es) (sym (append_assoc e.key _ _) ∙ h)

parse_text :
    (fuel : ℕ) (es acc : List Entry)
    → length es ≤ fuel
    → AllValid es
    → Fresh acc es
    → length acc + length es ≤ max_entries
    → parse_members fuel (text_of es) acc ≡ some (acc ++ es)
parse_text zero [] acc h v d n = unfold parse_members in rw append-nil
parse_text (suc fuel) [] acc h v d n = unfold parse_members in rw append-nil
parse_text zero (e ∷ es) acc h v d n = absurd (omega arith)
parse_text (suc fuel) (e ∷ es) acc h v d n =
    unroll fuel (text_of (e ∷ es)) acc (text_ne_nil e es)
    ∙ ap (λ (p : Bytes × Bytes). take_member (parse_members fuel p.1) acc (trim p.0))
        (next_member-text_of e es v.0)
    ∙ ap (take_member (parse_members fuel (text_of es)) acc) (member-trim e v.0.0 v.0.1)
    ∙ take_member_step (parse_members fuel (text_of es)) acc e v.0 d.0 (ground arith)
    ∙ parse_text fuel es (acc ++ e ∷ []) (omega arith) v.1 d.1
        (omega (arith, length-append acc (e ∷ [])))
    ∙ ap some (append_assoc acc (e ∷ []) es)

-- Distinct keys are fresh, one after the other.
Fresh-of :
    (es acc : List Entry)
    → Distinct es
    → ((k : Bytes) → contains es k ≡ true → contains acc k ≡ false)
    → Fresh acc es
unfolding contains
Fresh-of [] acc d h = tt
Fresh-of (e ∷ es) acc d h = (
  h e.key (ground (arith, bytes_eq_refl e.key)),
  Fresh-of es (acc ++ e ∷ []) d.1
      (λ k m. ground (arith, contains-concat acc e k, h k, bytes_eq_iff e.key k, d.0)),
)

length-tail_text : (es : List Entry) → length es ≤ length (tail_text es)
length-tail_text [] = omega arith
length-tail_text (e ∷ es) =
    omega (arith, length-append (e.key ++ b'=' ∷ e.value) (tail_text es), length-tail_text es)

length-text_of : (es : List Entry) → length es ≤ length (text_of es)
length-text_of [] = omega arith
length-text_of (e ∷ es) = omega (
  arith,
  length-append (e.key ++ b'=' ∷ e.value) (tail_text es),
  length-append e.key (b'=' ∷ e.value),
  length-tail_text es,
)

to_header-text_of : (e : Entry) (es : List Entry) → to_header (some (e ∷ es)) ≡ text_of (e ∷ es)
unfolding to_header to_header_from
to_header-text_of e es =
    to_header_from-tail (e.key ++ b'=' ∷ e.value) es (member_ne_nil e.key e.value)

-- A well-formed state is read back from its header, entry by entry and in order.
pub from_header-to_header : (ts : TraceState) → IsWellFormed ts → from_header (to_header ts) ≡ ts
unfolding from_header
from_header-to_header none w = unfold to_header parse_members in refl
from_header-to_header (some []) w = absurd (w.0 refl)
from_header-to_header (some (e ∷ es)) w =
    ap from_header (to_header-text_of e es)
    ∙ rw (
      parse_text (length (text_of (e ∷ es))) (e ∷ es) [] (length-text_of (e ∷ es)) w.1.members
          (Fresh-of (e ∷ es) [] w.1.distinct (λ k h. unfold contains in refl))
          (omega (arith, w.1.bounded)),
      from_header,
    )

pub from_header_empty : from_header [] ≡ none
unfolding from_header parse_members
from_header_empty = refl
