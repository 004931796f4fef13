-- ===== src/Api/Propagator/Accepted.antt =====
-- src/api/propagator.cpp, `ParseTraceparent`: the headers that it takes.
use microtel.Prelude.{
  ℕ, zero, suc, ◌+◌, ◌≤◌, ◌<◌, ◌≡◌, ◌↔◌, refl, sym, ap, ◌∙◌, inl, inr, true, ◌==◌, [], ◌∷◌, ◌++◌,
  some, length, drop, take-append-drop, drop-drop, length-drop, arith, Bool-cases, Option-cases,
}
use microtel.Prelude.Bytes.{Bytes, front}
use microtel.Api.Trace.{id_is_valid, bytes_to_lower_hex, IsBytes}
use microtel.Api.Propagator.{
  parse_lower_hex_bytes, substr, char_at, has_fixed_separators, has_parsable_length,
  has_parsable_shape, traceparent_chars, Traceparent, parse_traceparent,
}
use microtel.Api.Propagator.Hex.{parse_sound}
use microtel.Api.Propagator.Text.{text, IsTail}
use microtel.Api.Propagator.Layout.{parse_traceparent-text}

-- A header of the layout, of version 00 to fe, with what is read from it.
pub record IsTraceparent (h : Bytes) (p : Traceparent) : Type 0 where
  pub version : ℕ
  pub rest : Bytes
  pub layout : h ≡ text version p.trace_id p.span_id p.trace_flags rest
  pub allowed : version < 255
  pub tail : IsTail version rest
  pub trace_width : IsBytes 16 p.trace_id
  pub span_width : IsBytes 8 p.span_id
  pub flags_byte : p.trace_flags < 256
  pub valid_trace : id_is_valid p.trace_id ≡ true
  pub valid_span : id_is_valid p.span_id ≡ true

separator : (h : Bytes) (n c : ℕ) → n < length h → char_at h n ≡ c → drop n h ≡ c ∷ drop (suc n) h
separator [] n c l e = absurd (omega arith)
separator (x ∷ h) zero c l e = ap (λ (y : ℕ). y ∷ h) e
separator (x ∷ h) (suc n) c l e = separator h n c (omega arith) e

piece : (h : Bytes) (n k : ℕ) → drop n h ≡ substr h n k ++ drop (n + k) h
piece h n k =
    sym (take-append-drop k (drop n h)) ∙ ap (λ (r : Bytes). substr h n k ++ r) (drop-drop k n h)

-- A header that is long enough and has its separators, cut into its fields.
fields :
    (h : Bytes)
    → 55 ≤ length h
    → has_fixed_separators h ≡ true
    → h
      ≡ substr h 0 2
        ++ (b'-'
            ∷ (substr h 3 32 ++ (b'-' ∷ (substr h 36 16 ++ (b'-' ∷ (substr h 53 2 ++ drop 55 h))))))
unfolding has_fixed_separators
fields h l s =
    let s2 : drop 2 h ≡ b'-' ∷ drop 3 h = separator h 2 b'-' (omega arith) (ground arith) in
    let s35 : drop 35 h ≡ b'-' ∷ drop 36 h = separator h 35 b'-' (omega arith) (ground arith) in
    let s52 : drop 52 h ≡ b'-' ∷ drop 53 h = separator h 52 b'-' (omega arith) (ground arith) in
    piece h 0 2
    ∙ ap (λ (r : Bytes). substr h 0 2 ++ r)
        (s2
          ∙ ap (λ (r : Bytes). b'-' ∷ r)
              (piece h 3 32
                ∙ ap (λ (r : Bytes). substr h 3 32 ++ r)
                    (s35
                      ∙ ap (λ (r : Bytes). b'-' ∷ r)
                          (piece h 36 16
                            ∙ ap (λ (r : Bytes). substr h 36 16 ++ r)
                                (s52 ∙ ap (λ (r : Bytes). b'-' ∷ r) (piece h 53 2))))))

one_byte : (b : Bytes) → IsBytes 1 b → (b ≡ front b ∷ []) × (front b < 256)
one_byte [] w = absurd (omega (arith, w.0))
one_byte (x ∷ []) w = (refl, w.1.0)
one_byte (x ∷ y ∷ b) w = absurd (omega (arith, w.0))

IsTail-of :
    (h : Bytes) (v : ℕ) → 55 ≤ length h → has_parsable_length h v ≡ true → IsTail v (drop 55 h)
unfolding has_parsable_length
IsTail-of h v l p = elim (Bool-cases (length h == traceparent_chars)) [
  | inl e ↦
      let exact : length h ≡ 55 = ground arith in
      inl (nothing (drop 55 h) (omega (arith, length-drop 55 h, exact)))
  | inr e ↦ inr (ground arith, ground arith)
]
  where
    nothing : (r : Bytes) → length r ≡ 0 → r ≡ []
    nothing [] z = refl
    nothing (c ∷ r) z = absurd (omega arith)

-- What the shape test has seen.
record Shape (h : Bytes) : Type 0 where
  long : 55 ≤ length h
  separated : has_fixed_separators h ≡ true
  version : ℕ
  allowed : version < 255
  written : substr h 0 2 ≡ bytes_to_lower_hex (version ∷ [])
  tail : IsTail version (drop 55 h)

Shape-of : (h : Bytes) → has_parsable_shape h ≡ true → Shape h
unfolding has_parsable_shape
Shape-of h e = elim (Option-cases (parse_lower_hex_bytes 1 (substr h 0 2))) [
  | inl n ↦ absurd (ground arith)
  | inr (b, p) ↦
      let long : 55 ≤ length h = ground arith in
      let (hex, width) = parse_sound 1 (substr h 0 2) p in
      let (whole, byte) = one_byte b width in
      record {
        long = long;
        separated = ground arith;
        version = front b;
        allowed = ground arith;
        written = hex ∙ ap bytes_to_lower_hex whole;
        tail = IsTail-of h (front b) long (ground arith);
      }
]

-- A shape with its three fields read is the layout.
layout_of :
    (h : Bytes) (k : Shape h) (t s fl : Bytes)
    → (substr h 3 32 ≡ bytes_to_lower_hex t) × IsBytes 16 t
    → (substr h 36 16 ≡ bytes_to_lower_hex s) × IsBytes 8 s
    → (substr h 53 2 ≡ bytes_to_lower_hex fl) × IsBytes 1 fl
    → id_is_valid t ≡ true
    → id_is_valid s ≡ true
    → IsTraceparent h (record { trace_id = t; span_id = s; trace_flags = front fl })
layout_of h k t s fl ht hs hf it is = record {
  version = k.version;
  rest = drop 55 h;
  layout =
      fields h k.long k.separated ∙ rw (k.written, ht.0, hs.0, hf.0, (one_byte fl hf.1).0) refl;
  allowed = k.allowed;
  tail = k.tail;
  trace_width = ht.1;
  span_width = hs.1;
  flags_byte = (one_byte fl hf.1).1;
  valid_trace = it;
  valid_span = is;
}

parse_traceparent_sound :
    (h : Bytes) (p : Traceparent) → parse_traceparent h ≡ some p → IsTraceparent h p
unfolding parse_traceparent
parse_traceparent_sound h p e = elim (Bool-cases (has_parsable_shape h)) [
  | inr n ↦ absurd (ground arith)
  | inl shape ↦ elim (Option-cases (parse_lower_hex_bytes 16 (substr h 3 32))) [
    | inl n ↦ absurd (ground arith)
    | inr (t, et) ↦ elim (Option-cases (parse_lower_hex_bytes 8 (substr h 36 16))) [
      | inl n ↦ absurd (ground arith)
      | inr (s, es) ↦ elim (Option-cases (parse_lower_hex_bytes 1 (substr h 53 2))) [
        | inl n ↦ absurd (ground arith)
        | inr (fl, ef) ↦
            let found : Traceparent = record {
              trace_id = t;
              span_id = s;
              trace_flags = front fl;
            } in
            let q : found ≡ p = ground arith in
            rw (← q) (
              layout_of h (Shape-of h shape) t s fl (parse_sound 16 (substr h 3 32) et)
                (parse_sound 8 (substr h 36 16) es) (parse_sound 1 (substr h 53 2) ef)
                (ground arith) (ground arith))
      ]
    ]
  ]
]

-- `ParseTraceparent` takes a header exactly if it is of the W3C layout, of version 00 with nothing
-- behind the flags or of a version up to fe with or without further fields, in lower case and with
-- ids that are not all zero; and it reads those ids and flags.
pub parse_traceparent_iff :
    (h : Bytes) (p : Traceparent) → (parse_traceparent h ≡ some p) ↔ IsTraceparent h p
parse_traceparent_iff h p = (
  parse_traceparent_sound h p,
  λ k.
      ap parse_traceparent k.layout
      ∙ parse_traceparent-text k.version p.trace_id p.span_id p.trace_flags k.rest k.trace_width
          k.span_width k.allowed k.flags_byte k.tail k.valid_trace k.valid_span,
)
