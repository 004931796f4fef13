-- ===== src/Api/TraceState/Grammar.antt =====
-- What the key and value grammars allow: the separators and optional whitespace stay out.
use microtel.Prelude.{
  ℕ, ◌≡◌, ◌≢◌, refl, inl, inr, Bool, true, false, ◌||◌, ◌==◌, [], ◌∷◌, ◌++◌, some, arith,
  Option-cases,
}
use microtel.Prelude.Bytes.{
  Bytes, all, all_mono, all-append, split_at, differs, Splits, split_at-Splits, front, back,
  is_optional_whitespace, back-append, split_at-append, trim, trim_self,
}
use microtel.Api.TraceState.{
  Entry, is_lower_alpha, is_digit, is_key_tail_char, has_valid_key_tail,
  is_lower_alpha_led_component, is_tenant_id, is_valid_key, is_value_char, is_valid_value,
  parse_member,
}

abbrev pub is_key_char : ℕ → Bool
is_key_char c = is_key_tail_char c || c == b'@'

-- A component's characters, and its first one.
led_component_chars :
    (s : Bytes) (n : ℕ)
    → is_lower_alpha_led_component s n ≡ true
    → (all is_key_tail_char s ≡ true) × (is_key_tail_char (front s) ≡ true)
unfolding is_lower_alpha_led_component has_valid_key_tail all is_key_tail_char
led_component_chars [] n h = cc
led_component_chars (c ∷ cs) n h = ground arith

tenant_id_chars :
    (s : Bytes)
    → is_tenant_id s ≡ true
    → (all is_key_tail_char s ≡ true) × (is_key_tail_char (front s) ≡ true)
unfolding is_tenant_id has_valid_key_tail all is_key_tail_char
tenant_id_chars [] h = cc
tenant_id_chars (c ∷ cs) h = ground arith

key_char_widen : (s : Bytes) → all is_key_tail_char s ≡ true → all is_key_char s ≡ true
key_char_widen s h = all_mono is_key_tail_char is_key_char s (λ c e. ground arith) h

key_chars_joined :
    (a b : Bytes)
    → all is_key_tail_char a ≡ true
    → all is_key_tail_char b ≡ true
    → all is_key_char (a ++ b'@' ∷ b) ≡ true
unfolding all
key_chars_joined a b ha hb =
    ground (arith, all-append is_key_char a (b'@' ∷ b), key_char_widen a ha, key_char_widen b hb)

front-append : (a : Bytes) (c : ℕ) (b : Bytes) → a ≢ [] → front (a ++ c ∷ b) ≡ front a
front-append [] c b h = absurd (h refl)
front-append (x ∷ a) c b h = refl

tenant_ne_nil : (t : Bytes) → is_tenant_id t ≡ true → t ≢ []
unfolding is_tenant_id
tenant_ne_nil [] h e = cc
tenant_ne_nil (c ∷ t) h e = cc

pub valid_key_chars :
    (k : Bytes)
    → is_valid_key k ≡ true
    → (all is_key_char k ≡ true) × (is_key_tail_char (front k) ≡ true)
unfolding is_valid_key
valid_key_chars k h = elim (Option-cases (split_at b'@' k)) [
  | inl e ↦
      let simple : is_lower_alpha_led_component k 256 ≡ true = ground arith in
      (key_char_widen k (led_component_chars k 256 simple).0, (led_component_chars k 256 simple).1)
  | inr ((t, s), e) ↦
      let tenant : is_tenant_id t ≡ true = ground arith in
      let system : is_lower_alpha_led_component s 14 ≡ true = ground arith in
      let splits : Splits b'@' k (some (t, s)) = rw e at (split_at-Splits b'@' k) in
      rw splits.0 (
        key_chars_joined t s (tenant_id_chars t tenant).0 (led_component_chars s 14 system).0,
        rw (front-append t b'@' s (tenant_ne_nil t tenant)) ((tenant_id_chars t tenant).1),
      )
]

key_char_separators :
    (c : ℕ) → is_key_char c ≡ true → (differs b'=' c ≡ true) × (differs b',' c ≡ true)
unfolding is_key_tail_char is_lower_alpha is_digit
key_char_separators c h = ground arith

value_char_separators : (c : ℕ) → is_value_char c ≡ true → differs b',' c ≡ true
unfolding is_value_char
value_char_separators c h = ground arith

value_char_solid :
    (c : ℕ) → is_value_char c ≡ true → (c == b' ') ≡ false → is_optional_whitespace c ≡ false
unfolding is_value_char is_optional_whitespace
value_char_solid c h n = ground arith

key_char_solid : (c : ℕ) → is_key_tail_char c ≡ true → is_optional_whitespace c ≡ false
unfolding is_key_tail_char is_lower_alpha is_digit is_optional_whitespace
key_char_solid c h = ground arith

all-back : (p : ℕ → Bool) (c : ℕ) (s : Bytes) → all p (c ∷ s) ≡ true → p (back (c ∷ s)) ≡ true
unfolding all
all-back p c [] h = ground arith
all-back p c (d ∷ s) h = ground (arith, all-back p d s)

pub valid_value_chars :
    (v : Bytes)
    → is_valid_value v ≡ true
    → (all (differs b',') v ≡ true) × (is_optional_whitespace (back v) ≡ false)
unfolding is_valid_value
valid_value_chars [] h = cc
valid_value_chars (c ∷ s) h =
    let chars : all is_value_char (c ∷ s) ≡ true = ground arith in
    let spaceless : (back (c ∷ s) == b' ') ≡ false = ground arith in
    (
      all_mono is_value_char (differs b',') (c ∷ s) value_char_separators chars,
      value_char_solid (back (c ∷ s)) (all-back is_value_char c s chars) spaceless,
    )

pub valid_key_ne_nil : (k : Bytes) → is_valid_key k ≡ true → k ≢ []
unfolding is_valid_key is_lower_alpha_led_component split_at
valid_key_ne_nil [] h e = cc
valid_key_ne_nil (c ∷ k) h e = cc

back_behind :
    (v : Bytes)
    → is_optional_whitespace (back v) ≡ false
    → is_optional_whitespace (back (b'=' ∷ v)) ≡ false
unfolding is_optional_whitespace
back_behind [] h = refl
back_behind (c ∷ v) h = h

-- A valid member is read back: it has no list separator, nothing to trim, and splits into its key
-- and its value.
module _ (e : Entry) (key_valid : is_valid_key e.key ≡ true)
    (value_valid : is_valid_value e.value ≡ true) where
  abbrev pub member : Bytes
  member = e.key ++ b'=' ∷ e.value

  key_separators : (all (differs b'=') e.key ≡ true) × (all (differs b',') e.key ≡ true)
  key_separators =
      let chars = (valid_key_chars e.key key_valid).0 in
      (
        all_mono is_key_char (differs b'=') e.key (λ c h. (key_char_separators c h).0) chars,
        all_mono is_key_char (differs b',') e.key (λ c h. (key_char_separators c h).1) chars,
      )

  pub member_separators : all (differs b',') member ≡ true
  unfolding all
  member_separators = ground (
    arith,
    all-append (differs b',') e.key (b'=' ∷ e.value),
    key_separators,
    valid_value_chars e.value value_valid,
  )

  pub member-trim : trim member ≡ member
  member-trim =
      trim_self member
        (rw (front-append e.key b'=' e.value (valid_key_ne_nil e.key key_valid))
          (key_char_solid (front e.key) (valid_key_chars e.key key_valid).1))
        (rw (back-append e.key b'=' e.value)
          (back_behind e.value (valid_value_chars e.value value_valid).1))

  pub member_parse : parse_member member ≡ some e
  unfolding parse_member
  member_parse = ground (arith, split_at-append b'=' e.key e.value, key_separators)
