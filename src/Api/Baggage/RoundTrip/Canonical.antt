-- ===== src/Api/Baggage/RoundTrip/Canonical.antt =====
-- src/api/baggage.cpp, `ParseProperties`: the texts that it returns.
use microtel.Prelude.{
  ℕ, zero, suc, ◌≤◌, ◌≡◌, ◌≢◌, refl, sym, ap, ◌∙◌, inl, inr, true, List, [], ◌∷◌, ◌++◌, some,
  length, length-append, arith, Bool-cases, Option-cases,
}
use mathlib.Core.List.{append_assoc, append-nil}
use microtel.Prelude.Bytes.{
  Bytes, all, all-append, all_mono, differs, split_at, split_at-append, split_at-none, trim,
  is_optional_whitespace,
}
use microtel.Api.Baggage.{append_to, append_property, parse_properties}
use microtel.Api.Baggage.Octets.{is_token, is_wire_value}
use microtel.Api.Baggage.RoundTrip.Properties.{
  is_plain, is_dense, plain-dense, plain-semicolon, trim_plain, Property, IsProperty, text_of,
  text_of-plain, text_of_nonempty, append_property-text_of,
}

abbrev AllProperties : List Property → Type 0
AllProperties [] = Unit
AllProperties (p ∷ ps) = IsProperty p × AllProperties ps

-- The text after appending the properties to `out`, one after the other.
unfoldable pub appended : Bytes → List Property → Bytes
appended out [] = out
appended out (p ∷ ps) = appended (append_to out (text_of p)) ps

-- A text that some properties are written to.
pub record IsCanonical (text : Bytes) : Type 0 where
  pub properties : List Property
  pub valid : AllProperties properties
  pub written : text ≡ appended [] properties

appended-concat :
    (ps : List Property) (p : Property) (out : Bytes)
    → appended out (ps ++ p ∷ []) ≡ append_to (appended out ps) (text_of p)
unfolding appended
appended-concat [] p out = refl
appended-concat (q ∷ ps) p out = appended-concat ps p (append_to out (text_of q))

AllProperties-concat :
    (ps : List Property) (p : Property)
    → AllProperties ps
    → IsProperty p
    → AllProperties (ps ++ p ∷ [])
AllProperties-concat [] p a h = (h, tt)
AllProperties-concat (q ∷ ps) p a h = (a.0, AllProperties-concat ps p a.1 h)

pub nil-IsCanonical : IsCanonical []
nil-IsCanonical = record { properties = []; valid = tt; written = unfold appended in refl }

append_to-IsCanonical :
    (out : Bytes) (p : Property)
    → IsCanonical out
    → IsProperty p
    → IsCanonical (append_to out (text_of p))
append_to-IsCanonical out p c h = record {
  properties = c.properties ++ p ∷ [];
  valid = AllProperties-concat c.properties p c.valid h;
  written =
      ap (λ (t : Bytes). append_to t (text_of p)) c.written
      ∙ sym (appended-concat c.properties p []);
}

append_property-IsCanonical :
    (property out : Bytes) {r : Bytes}
    → IsCanonical out
    → append_property property out ≡ some r
    → IsCanonical r
unfolding append_property
append_property-IsCanonical property out {r} c h = elim (Option-cases (split_at b'=' property)) [
  | inl e ↦ elim (Bool-cases (is_token (trim property))) [
    | inr t ↦ absurd (ground arith)
    | inl t ↦
        let q : append_to out (trim property) ≡ r = ground arith in
        rw (← q) (unfold text_of in append_to-IsCanonical out (Property.flag (trim property)) c t)
  ]
  | inr ((before, after), e) ↦ elim (Bool-cases (is_token (trim before))) [
    | inr t ↦ absurd (ground arith)
    | inl t ↦ elim (Bool-cases (is_wire_value (trim after))) [
      | inr v ↦ absurd (ground arith)
      | inl v ↦
          let q : append_to out (trim before ++ b'=' ∷ trim after) ≡ r = ground arith in
          rw (← q) (
            unfold text_of in
            append_to-IsCanonical out (Property.pair (trim before) (trim after)) c (t, v))
    ]
  ]
]

pub parse_properties-IsCanonical :
    (fuel : ℕ) (tail out : Bytes) {r : Bytes}
    → IsCanonical out
    → parse_properties fuel tail out ≡ some r
    → IsCanonical r
unfolding parse_properties
parse_properties-IsCanonical zero tail out c h = absurd (ground arith)
parse_properties-IsCanonical (suc fuel) tail out {r} c h =
    elim (Option-cases (split_at b';' tail)) [
      | inl e ↦ append_property-IsCanonical (trim tail) out c (ground arith)
      | inr ((property, rest), e) ↦ elim (Option-cases (append_property (trim property) out)) [
        | inl a ↦ absurd (ground arith)
        | inr (next, a) ↦
            parse_properties-IsCanonical fuel rest next
              (append_property-IsCanonical (trim property) out c a) (ground arith)
      ]
    ]

-- The properties behind the first one, each after its `;`.
abbrev semicolons : List Property → Bytes
semicolons [] = []
semicolons (p ∷ ps) = b';' ∷ (text_of p ++ semicolons ps)

appended-semicolons : (h : Bytes) (ps : List Property) → h ≢ [] → appended h ps ≡ h ++ semicolons ps
unfolding appended append_to
appended-semicolons h [] n = sym (append-nil h)
appended-semicolons [] (p ∷ ps) n = absurd (n refl)
appended-semicolons (c ∷ h) (p ∷ ps) n =
    appended-semicolons ((c ∷ h) ++ b';' ∷ text_of p) ps (λ e. cc) ∙ simp append_assoc

written-semicolons :
    (text : Bytes) (p : Property) (ps : List Property)
    → IsProperty p
    → text ≡ appended [] (p ∷ ps)
    → text ≡ text_of p ++ semicolons ps
unfolding appended append_to
written-semicolons text p ps h w = w ∙ appended-semicolons (text_of p) ps (text_of_nonempty p h)

text_of-semicolon : (p : Property) → IsProperty p → all (differs b';') (text_of p) ≡ true
text_of-semicolon p h =
    all_mono is_plain (differs b';') (text_of p) plain-semicolon (text_of-plain p h)

parse_properties-semicolons :
    (fuel : ℕ) (p : Property) (ps : List Property) (out : Bytes)
    → length ps ≤ fuel
    → IsProperty p
    → AllProperties ps
    → parse_properties (suc fuel) (text_of p ++ semicolons ps) out ≡ some (appended out (p ∷ ps))
unfolding parse_properties appended
parse_properties-semicolons fuel p [] out f h a =
    rw
      (
        append-nil,
        split_at-none b';' (text_of p) (text_of-semicolon p h),
        parse_properties,
        append-nil,
        trim_plain (text_of p) (text_of-plain p h),
      )
      (append_property-text_of p out h)
parse_properties-semicolons zero p (q ∷ ps) out f h a = absurd (omega arith)
parse_properties-semicolons (suc fuel) p (q ∷ ps) out f h a =
    rw
      (
        split_at-append b';' (text_of p) (text_of q ++ semicolons ps) (text_of-semicolon p h),
        parse_properties,
        trim_plain (text_of p) (text_of-plain p h),
        append_property-text_of p out h,
      )
      (parse_properties-semicolons fuel q ps (append_to out (text_of p)) (omega arith) a.0 a.1)

length-semicolons : (ps : List Property) → length ps ≤ length (semicolons ps)
length-semicolons [] = omega arith
length-semicolons (p ∷ ps) =
    omega (arith, length-append (text_of p) (semicolons ps), length-semicolons ps)

-- A canonical text that is not empty is read as itself.
pub parse_properties_canonical :
    (c : ℕ) (cs : Bytes)
    → IsCanonical (c ∷ cs)
    → parse_properties (suc (length (c ∷ cs))) (c ∷ cs) [] ≡ some (c ∷ cs)
parse_properties_canonical c cs k = written_back k.properties k.valid k.written
  where
    written_back :
        (ps : List Property)
        → AllProperties ps
        → c ∷ cs ≡ appended [] ps
        → parse_properties (suc (length (c ∷ cs))) (c ∷ cs) [] ≡ some (c ∷ cs)
    written_back [] a w = unfold appended in cc
    written_back (p ∷ ps) a w =
        let text : c ∷ cs ≡ text_of p ++ semicolons ps = written-semicolons (c ∷ cs) p ps a.0 w in
        let fits : length ps ≤ length (c ∷ cs) = omega (
          arith,
          ap length text,
          length-append (text_of p) (semicolons ps),
          length-semicolons ps,
        ) in
        ap (λ (t : Bytes). parse_properties (suc (length (c ∷ cs))) t []) text
        ∙ parse_properties-semicolons (length (c ∷ cs)) p ps [] fits a.0 a.1
        ∙ ap some (sym w)

dense_semicolons : (ps : List Property) → AllProperties ps → all is_dense (semicolons ps) ≡ true
unfolding all is_dense is_optional_whitespace
dense_semicolons [] a = refl
dense_semicolons (p ∷ ps) a = ground (
  arith,
  all-append is_dense (text_of p) (semicolons ps),
  all_mono is_plain is_dense (text_of p) plain-dense (text_of-plain p a.0),
  dense_semicolons ps a.1,
)

pub canonical_dense : (text : Bytes) → IsCanonical text → all is_dense text ≡ true
canonical_dense text c = go c.properties c.valid c.written
  where
    go : (ps : List Property) → AllProperties ps → text ≡ appended [] ps → all is_dense text ≡ true
    go [] a w = rw w (unfold appended all in refl)
    go (p ∷ ps) a w = rw (written-semicolons text p ps a.0 w) (
        ground (
          arith,
          all-append is_dense (text_of p) (semicolons ps),
          all_mono is_plain is_dense (text_of p) plain-dense (text_of-plain p a.0),
          dense_semicolons ps a.1,
        ))
