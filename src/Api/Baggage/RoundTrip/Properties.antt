-- ===== src/Api/Baggage/RoundTrip/Properties.antt =====
-- src/api/baggage.cpp, `ParseProperties`: the canonical text of a member's properties.
use microtel.Prelude.{
  ℕ, ◌≡◌, ◌≢◌, refl, Bool, true, false, ◌&&◌, not, ◌==◌, [], ◌∷◌, ◌++◌, some, arith,
}
use microtel.Prelude.Bytes.{
  Bytes, front, back, all, all-append, all_mono, differs, split_at, split_at-append, split_at-none,
  is_optional_whitespace, trim, trim_self,
}
use microtel.Api.Baggage.{append_to, append_property}
use microtel.Api.Baggage.Octets.{
  is_digit, is_alpha, holds, is_token_char, is_token, is_baggage_octet, is_wire_value,
}

-- What can stand in a member, and in its key, its value or one of its properties.
unfoldable pub is_dense : ℕ → Bool
is_dense c = not (is_optional_whitespace c) && not (c == b',')

unfoldable pub is_plain : ℕ → Bool
is_plain c = is_dense c && not (c == b';')

pub token-plain : (c : ℕ) → is_token_char c ≡ true → is_plain c ≡ true
unfolding is_token_char is_alpha is_digit holds is_plain is_dense is_optional_whitespace
token-plain c h = ground arith

pub token-key : (c : ℕ) → is_token_char c ≡ true → differs b'=' c ≡ true
unfolding is_token_char is_alpha is_digit holds
token-key c h = ground arith

pub octet-plain : (c : ℕ) → is_baggage_octet c ≡ true → is_plain c ≡ true
unfolding is_baggage_octet is_plain is_dense is_optional_whitespace
octet-plain c h = ground arith

pub plain-dense : (c : ℕ) → is_plain c ≡ true → is_dense c ≡ true
unfolding is_plain
plain-dense c h = ground arith

pub plain-semicolon : (c : ℕ) → is_plain c ≡ true → differs b';' c ≡ true
unfolding is_plain
plain-semicolon c h = ground arith

pub dense-comma : (c : ℕ) → is_dense c ≡ true → differs b',' c ≡ true
unfolding is_dense
dense-comma c h = ground arith

dense_front : (s : Bytes) → all is_dense s ≡ true → is_optional_whitespace (front s) ≡ false
unfolding all is_dense is_optional_whitespace
dense_front [] h = refl
dense_front (c ∷ s) h = ground arith

dense_back : (s : Bytes) → all is_dense s ≡ true → is_optional_whitespace (back s) ≡ false
unfolding all is_dense is_optional_whitespace
dense_back [] h = refl
dense_back (c ∷ []) h = ground arith
dense_back (c ∷ d ∷ s) h = dense_back (d ∷ s) (ground arith)

pub trim_dense : (s : Bytes) → all is_dense s ≡ true → trim s ≡ s
trim_dense s h = trim_self s (dense_front s h) (dense_back s h)

pub trim_plain : (s : Bytes) → all is_plain s ≡ true → trim s ≡ s
trim_plain s h = trim_dense s (all_mono is_plain is_dense s plain-dense h)

pub token_all : (s : Bytes) → is_token s ≡ true → all is_token_char s ≡ true
unfolding is_token
token_all [] h = cc
token_all (c ∷ s) h = h

pub token_plain : (s : Bytes) → is_token s ≡ true → all is_plain s ≡ true
token_plain s h = all_mono is_token_char is_plain s token-plain (token_all s h)

pub wire_plain : (s : Bytes) → is_wire_value s ≡ true → all is_plain s ≡ true
unfolding is_wire_value
wire_plain s h = all_mono is_baggage_octet is_plain s octet-plain h

-- A name and `=` in front of a text.
pub named_plain :
    (name text : Bytes)
    → is_token name ≡ true
    → all is_plain text ≡ true
    → all is_plain (name ++ b'=' ∷ text) ≡ true
unfolding all is_plain is_dense is_optional_whitespace
named_plain name text n t =
    ground (arith, all-append is_plain name (b'=' ∷ text), token_plain name n)

pub split_name :
    (name text : Bytes)
    → is_token name ≡ true
    → split_at b'=' (name ++ b'=' ∷ text) ≡ some (name, text)
split_name name text n =
    split_at-append b'=' name text
      (all_mono is_token_char (differs b'=') name token-key (token_all name n))

-- A property as it is kept: `name`, or `name=value`.
pub data Property : Type 0 where
  flag : Bytes → Property
  pair : Bytes → Bytes → Property

unfoldable pub text_of : Property → Bytes
text_of (Property.flag name) = name
text_of (Property.pair name value) = name ++ b'=' ∷ value

abbrev pub IsProperty : Property → Type 0
IsProperty (Property.flag name) = is_token name ≡ true
IsProperty (Property.pair name value) = (is_token name ≡ true) × (is_wire_value value ≡ true)

pub text_of-plain : (p : Property) → IsProperty p → all is_plain (text_of p) ≡ true
unfolding text_of
text_of-plain (Property.flag name) h = token_plain name h
text_of-plain (Property.pair name value) (h, v) = named_plain name value h (wire_plain value v)

pub text_of_nonempty : (p : Property) → IsProperty p → text_of p ≢ []
unfolding text_of is_token
text_of_nonempty (Property.flag []) h e = cc
text_of_nonempty (Property.flag (c ∷ name)) h e = cc
text_of_nonempty (Property.pair [] value) h e = cc
text_of_nonempty (Property.pair (c ∷ name) value) h e = cc

-- Reading the text of a property appends that text.
pub append_property-text_of :
    (p : Property) (out : Bytes)
    → IsProperty p
    → append_property (text_of p) out ≡ some (append_to out (text_of p))
unfolding append_property text_of
append_property-text_of (Property.flag name) out h =
    rw
      (
        split_at-none b'=' name
            (all_mono is_token_char (differs b'=') name token-key (token_all name h)),
        append_property,
        trim_plain name (token_plain name h),
        h,
      )
      refl
append_property-text_of (Property.pair name value) out (h, v) =
    rw
      (
        split_name name value h,
        append_property,
        trim_plain name (token_plain name h),
        trim_plain value (wire_plain value v),
        h,
        v,
      )
      refl
