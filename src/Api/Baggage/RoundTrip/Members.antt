-- ===== src/Api/Baggage/RoundTrip/Members.antt =====
-- src/api/baggage.cpp, `ParseMember`: a member as it is kept, and its text.
use microtel.Prelude.{
  ℕ, ◌+◌, ◌*◌, ◌<◌, ◌≡◌, ◌≢◌, refl, sym, ap, ◌∙◌, inl, inr, true, ◌==◌, [], ◌∷◌, ◌++◌, Option, none,
  some, arith, Bool-cases, Option-cases,
}
use mathlib.Core.List.{append_assoc, append-nil}
use microtel.Prelude.Bytes.{
  Bytes, all, all-append, all_mono, differs, split_at-append, split_at-none, trim,
  is_optional_whitespace,
}
use microtel.Api.Trace.{AllBytes}
use microtel.Api.Baggage.{
  Entry, make_entry, member_properties, head_and_tail, parse_parts, parse_member, property_text,
  member_text,
}
use microtel.Api.Baggage.Octets.{
  is_digit, is_baggage_octet, is_hex_digit, hex_digit_value, push_back, decode_octet, decode_escape,
  decode_value, is_token, append_encoded,
}
use microtel.Api.Baggage.Octets.Encoding.{decode_value-append_encoded, all-append_encoded}
use microtel.Api.Baggage.RoundTrip.Properties.{
  is_plain, is_dense, octet-plain, plain-dense, plain-semicolon, trim_plain, token_plain,
  named_plain, split_name,
}
use microtel.Api.Baggage.RoundTrip.Canonical.{
  IsCanonical, nil-IsCanonical, parse_properties-IsCanonical, parse_properties_canonical,
  canonical_dense,
}

-- A member that its own text is read as.
pub record IsReadable (e : Entry) : Type 0 where
  pub token : is_token e.key ≡ true
  pub octets : AllBytes e.value
  pub canonical : IsCanonical e.properties
  pub measured : e ≡ make_entry e.key e.value e.properties

pub make_entry-IsReadable :
    (key value properties : Bytes)
    → is_token key ≡ true
    → AllBytes value
    → IsCanonical properties
    → IsReadable (make_entry key value properties)
unfolding make_entry
make_entry-IsReadable key value properties t v p = record {
  token = t;
  octets = v;
  canonical = p;
  measured = refl;
}

hex_digit_bound : (c : ℕ) → is_hex_digit c ≡ true → hex_digit_value c < 16
unfolding is_hex_digit hex_digit_value is_digit
hex_digit_bound c h = ground arith

push_back-AllBytes :
    (c : ℕ) (o : Option Bytes) {v : Bytes}
    → c < 256
    → ((w : Bytes) → o ≡ some w → AllBytes w)
    → push_back c o ≡ some v
    → AllBytes v
unfolding push_back
push_back-AllBytes c none b k h = absurd (ground arith)
push_back-AllBytes c (some out) {v} b k h =
    let e : c ∷ out ≡ v = ground arith in rw (← e) (b, k out refl)

decode_octet-AllBytes :
    (c : ℕ) (next escaped : Option Bytes) {v : Bytes}
    → ((w : Bytes) → next ≡ some w → AllBytes w)
    → ((w : Bytes) → escaped ≡ some w → AllBytes w)
    → decode_octet c next escaped ≡ some v
    → AllBytes v
unfolding decode_octet is_baggage_octet
decode_octet-AllBytes c next escaped n s h = elim (Bool-cases (is_baggage_octet c)) [
  | inr o ↦ absurd (ground arith)
  | inl o ↦ elim (Bool-cases (c == b'%')) [
    | inl p ↦ s _ (ground arith)
    | inr p ↦ push_back-AllBytes c next (ground arith) n (ground arith)
  ]
]

decode_escape-AllBytes :
    (high low : ℕ) (rest : Option Bytes) {v : Bytes}
    → ((w : Bytes) → rest ≡ some w → AllBytes w)
    → decode_escape high low rest ≡ some v
    → AllBytes v
unfolding decode_escape
decode_escape-AllBytes high low rest k h = elim (Bool-cases (is_hex_digit high)) [
  | inr a ↦ absurd (ground arith)
  | inl a ↦ elim (Bool-cases (is_hex_digit low)) [
    | inr b ↦ absurd (ground arith)
    | inl b ↦
        push_back-AllBytes (hex_digit_value high * 16 + hex_digit_value low) rest
          (omega (arith, hex_digit_bound high a, hex_digit_bound low b)) k (ground arith)
  ]
]

decode_value-AllBytes : (raw v : Bytes) → decode_value raw ≡ some v → AllBytes v
unfolding decode_value
decode_value-AllBytes [] v h = let e : [] ≡ v = ground arith in rw (← e) tt
decode_value-AllBytes (c ∷ []) v h =
    decode_octet-AllBytes c (some []) none (λ w e. let q : [] ≡ w = ground arith in rw (← q) tt)
      (λ w e. absurd (ground arith)) h
decode_value-AllBytes (c ∷ high ∷ []) v h =
    decode_octet-AllBytes c (decode_value (high ∷ [])) none (decode_value-AllBytes (high ∷ []))
      (λ w e. absurd (ground arith)) h
decode_value-AllBytes (c ∷ high ∷ low ∷ rest) v h =
    decode_octet-AllBytes c (decode_value (high ∷ low ∷ rest))
      (decode_escape high low (decode_value rest)) (decode_value-AllBytes (high ∷ low ∷ rest))
      (λ w. decode_escape-AllBytes high low (decode_value rest) (decode_value-AllBytes rest)) h

member_properties-IsCanonical :
    (tail : Option Bytes) {p : Bytes} → member_properties tail ≡ some p → IsCanonical p
unfolding member_properties
member_properties-IsCanonical none {p} h = let e : [] ≡ p = ground arith in rw (← e) nil-IsCanonical
member_properties-IsCanonical (some tail) h =
    parse_properties-IsCanonical _ tail [] nil-IsCanonical h

parse_parts-IsReadable :
    (o : Option (Bytes × Bytes)) (tail : Option Bytes) {e : Entry}
    → parse_parts o tail ≡ some e
    → IsReadable e
unfolding parse_parts
parse_parts-IsReadable none tail h = absurd (ground arith)
parse_parts-IsReadable (some (before, after)) tail {e} h =
    elim (Bool-cases (is_token (trim before))) [
      | inr t ↦ absurd (ground arith)
      | inl t ↦ elim (Option-cases (decode_value (trim after))) [
        | inl v ↦ absurd (ground arith)
        | inr (value, v) ↦ elim (Option-cases (member_properties tail)) [
          | inl p ↦ absurd (ground arith)
          | inr (properties, p) ↦
              let q : make_entry (trim before) value properties ≡ e = ground arith in
              rw (← q) (
                make_entry-IsReadable (trim before) value properties t
                  (decode_value-AllBytes (trim after) value v)
                  (member_properties-IsCanonical tail p))
        ]
      ]
    ]

-- What is read from a header can be written and read again.
pub parse_member-IsReadable : (m : Bytes) {e : Entry} → parse_member m ≡ some e → IsReadable e
unfolding parse_member
parse_member-IsReadable m h = parse_parts-IsReadable _ _ h

encoded_plain : (value : Bytes) → AllBytes value → all is_plain (append_encoded value) ≡ true
encoded_plain value v =
    all_mono is_baggage_octet is_plain (append_encoded value) octet-plain
      (all-append_encoded value v)

property_text-dense : (p : Bytes) → IsCanonical p → all is_dense (property_text p) ≡ true
unfolding property_text all is_dense is_optional_whitespace
property_text-dense [] c = refl
property_text-dense (x ∷ xs) c = ground (arith, canonical_dense (x ∷ xs) c)

pub member_text_dense : (e : Entry) → IsReadable e → all is_dense (member_text e) ≡ true
unfolding member_text
member_text_dense e r =
    let head = e.key ++ b'=' ∷ append_encoded e.value in
    let plain : all is_plain head ≡ true =
      named_plain e.key (append_encoded e.value) r.token (encoded_plain e.value r.octets) in
    let shape : head ++ property_text e.properties
        ≡ e.key ++ (b'=' ∷ (append_encoded e.value ++ property_text e.properties)) =
      append_assoc e.key (b'=' ∷ append_encoded e.value) (property_text e.properties) in
    ap (all is_dense) (sym shape)
    ∙ all-append is_dense head (property_text e.properties)
    ∙ rw
        (
          all_mono is_plain is_dense head plain-dense plain,
          property_text-dense e.properties r.canonical,
        )
        refl

head_alone : (head : Bytes) → all is_plain head ≡ true → head_and_tail head ≡ (head, none)
head_alone head h =
    rw
      (
        split_at-none b';' head (all_mono is_plain (differs b';') head plain-semicolon h),
        head_and_tail,
      )
      refl

head_before_tail :
    (head tail : Bytes)
    → all is_plain head ≡ true
    → head_and_tail (head ++ b';' ∷ tail) ≡ (head, some tail)
head_before_tail head tail h =
    rw
      (
        split_at-append b';' head tail (all_mono is_plain (differs b';') head plain-semicolon h),
        head_and_tail,
      )
      refl

-- Reading a member whose parts are separated as the writer does.
parse_member_parts :
    (key value properties : Bytes)
    → is_token key ≡ true
    → AllBytes value
    → IsCanonical properties
    → parse_member (key ++ (b'=' ∷ (append_encoded value ++ property_text properties)))
      ≡ some (make_entry key value properties)
unfolding parse_member parse_parts property_text member_properties
parse_member_parts key value [] t v c =
    let head = key ++ b'=' ∷ append_encoded value in
    let plain = named_plain key (append_encoded value) t (encoded_plain value v) in
    rw
      (
        append-nil,
        head_alone head plain,
        split_name key (append_encoded value) t,
        parse_parts,
        trim_plain key (token_plain key t),
        t,
        trim_plain (append_encoded value) (encoded_plain value v),
        decode_value-append_encoded value v,
      )
      refl
parse_member_parts key value (x ∷ xs) t v c =
    let head = key ++ b'=' ∷ append_encoded value in
    let plain = named_plain key (append_encoded value) t (encoded_plain value v) in
    rw
      (
        ← append_assoc key (b'=' ∷ append_encoded value) (b';' ∷ x ∷ xs),
        head_before_tail head (x ∷ xs) plain,
        split_name key (append_encoded value) t,
        parse_parts,
        trim_plain key (token_plain key t),
        t,
        trim_plain (append_encoded value) (encoded_plain value v),
        decode_value-append_encoded value v,
        parse_properties_canonical x xs c,
      )
      refl

-- A readable member is read back from its own text.
pub parse_member-member_text : (e : Entry) → IsReadable e → parse_member (member_text e) ≡ some e
unfolding member_text
parse_member-member_text e r =
    parse_member_parts e.key e.value e.properties r.token r.octets r.canonical
    ∙ ap some (sym r.measured)

pub member_text_nonempty : (e : Entry) → IsReadable e → member_text e ≢ []
unfolding member_text is_token
member_text_nonempty e r h = named_nonempty e.key _ h
  where
    named_nonempty : (key text : Bytes) → (key ++ b'=' ∷ text) ≢ []
    named_nonempty [] text q = cc
    named_nonempty (c ∷ key) text q = cc
