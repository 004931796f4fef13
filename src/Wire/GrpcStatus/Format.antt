-- ===== src/Wire/GrpcStatus/Format.antt =====
-- `LookupGrpcStatus` and the length of `FormatGrpcError`.

use native.Mathlib.Numerals.{unary_clauses}
use microtel.Prelude.{
  ℕ, zero, suc, ◌+◌, ◌-◌, ◌/◌, ◌%◌, ◌^◌, ◌≤◌, ◌<◌, ◌≡◌, refl, sym, ap, ◌∙◌, Bool, true, false, ◌&&◌,
  ◌||◌, ◌==◌, not, leb, List, [], ◌∷◌, ◌++◌, Option, none, some, length, length-append, length-take,
  take, get_elem?, arith, Bool-cases, inl, inr,
}
use microtel.Prelude.Int.{ℤ, pos, negsuc, ◌≤ℤ◌, ltb_ℤ}
use microtel.Prelude.Bytes.{Bytes}
use microtel.Wire.GrpcStatus.{
  GrpcStatusInfo, max_grpc_message_chars, grpc_status_count, status_table, lookup_grpc_status,
  digits, to_string, name_of, message_part, format_grpc_error,
}

length-digits : (k fuel n : ℕ) → n < 10 ^ suc k → length (digits fuel n) ≤ suc k
unfolding digits
length-digits k zero n h = omega arith
length-digits zero (suc fuel) n h = ground arith
length-digits (suc k) (suc fuel) n h =
    let h' = simp unary_clauses at h in
    let q : n / 10 < 10 ^ suc k = simp unary_clauses (omega arith) in
    ground (
      arith,
      length-digits k fuel (n / 10) q,
      length-append (digits fuel (n / 10)) ((n % 10 + b'0') ∷ []),
    )

-- Eleven characters are enough for an `int`.
length-to_string :
    (c : ℤ) → negsuc (2 ^ 31 - 1) ≤ℤ c → c ≤ℤ pos (2 ^ 31 - 1) → length (to_string c) ≤ 11
unfolding to_string
length-to_string (pos n) l h = omega (arith, length-digits 9 (suc n) n (omega arith))
length-to_string (negsuc n) l h = omega (arith, length-digits 9 (suc (suc n)) (suc n) (omega arith))

-- No name of a table is longer than 19 characters.
short_names : List GrpcStatusInfo → Bool
short_names [] = true
short_names (s ∷ ss) = leb (length s.name) 19 && short_names ss

length-name :
    (ss : List GrpcStatusInfo) (n : ℕ)
    → short_names ss ≡ true
    → length (name_of (get_elem? ss n)) ≤ 19
unfolding short_names name_of
length-name [] n h = omega arith
length-name (s ∷ ss) zero h = ground arith
length-name (s ∷ ss) (suc n) h = length-name ss n (ground arith)

length-name_of : (c : ℤ) → length (name_of (lookup_grpc_status c)) ≤ 19
unfolding lookup_grpc_status name_of short_names
length-name_of (negsuc n) = omega arith
length-name_of (pos n) = elim (Bool-cases (leb grpc_status_count n)) [
  | inl h ↦ rw h (omega arith)
  | inr h ↦ rw h (length-name status_table n refl)
]

length-message_part : (m : Bytes) → length (message_part m) ≤ length m + 2
unfolding message_part
length-message_part [] = omega arith
length-message_part (c ∷ cs) = omega arith

-- For every `int` code and every message, the text of the error has at most 291 characters: a name of at most 19, the code and at most 256 of the message.
length-format_grpc_error :
    (c : ℤ) (message : Bytes)
    → negsuc (2 ^ 31 - 1) ≤ℤ c
    → c ≤ℤ pos (2 ^ 31 - 1)
    → length (format_grpc_error c message) ≤ 291
unfolding format_grpc_error
length-format_grpc_error c message l h =
    let part = message_part (take max_grpc_message_chars message) in
    omega (
      arith,
      length-append (name_of (lookup_grpc_status c)) (b' ' ∷ b'(' ∷ (to_string c ++ (b')' ∷ part))),
      length-append (to_string c) (b')' ∷ part),
      length-name_of c,
      length-to_string c l h,
      length-message_part (take max_grpc_message_chars message),
      length-take max_grpc_message_chars message,
    )

unfoldable pub has_info : Option GrpcStatusInfo → Bool
has_info none = false
has_info (some info) = true

unfoldable pub is_retried : Option GrpcStatusInfo → Bool
is_retried none = false
is_retried (some info) = info.retryable

-- CANCELLED, DEADLINE_EXCEEDED, ABORTED, OUT_OF_RANGE, UNAVAILABLE and DATA_LOSS.
abbrev pub retried_code : ℕ → Bool
retried_code n = n == 1 || n == 4 || n == 10 || n == 11 || n == 14 || n == 15

same : Bool → Bool → Bool
same true b = b
same false b = not b

-- The table says of each code from `k` on what the specification says.
agrees : ℕ → List GrpcStatusInfo → Bool
agrees k [] = true
agrees k (s ∷ ss) = same s.retryable (retried_code k) && agrees (k + 1) ss

same→≡ : (a b : Bool) → same a b ≡ true → a ≡ b
unfolding same
same→≡ true b h = sym h
same→≡ false true h = absurd (ground arith)
same→≡ false false h = refl

both : (a b : Bool) → (a && b) ≡ true → (a ≡ true) × (b ≡ true)
both a b h = ground arith

retried-agrees :
    (k n : ℕ) (ss : List GrpcStatusInfo)
    → agrees k ss ≡ true
    → n < length ss
    → (has_info (get_elem? ss n) ≡ true) × (is_retried (get_elem? ss n) ≡ retried_code (k + n))
unfolding agrees is_retried has_info
retried-agrees k n [] a h = absurd (omega arith)
retried-agrees k zero (s ∷ ss) a h =
    let e : k + 0 ≡ k = omega arith in
    (refl, rw e (same→≡ s.retryable (retried_code k) (both _ _ a).0))
retried-agrees k (suc n) (s ∷ ss) a h =
    let e : k + suc n ≡ k + 1 + n = omega arith in
    rw e
      (retried-agrees (k + 1) n ss (both (same s.retryable (retried_code k)) _ a).1 (omega arith))

-- `LookupGrpcStatus` answers for the codes 0 to 16 and for no other `int`, and of those exactly CANCELLED (1), DEADLINE_EXCEEDED (4), ABORTED (10), OUT_OF_RANGE (11), UNAVAILABLE (14) and DATA_LOSS (15) are retried.
lookup_grpc_status-retried :
    (c : ℤ)
    → (has_info (lookup_grpc_status c) ≡ (ltb_ℤ (negsuc 0) c && ltb_ℤ c (pos 17)))
      × (is_retried (lookup_grpc_status c) ≡ (elim c [ pos n ↦ retried_code n | negsuc n ↦ false ]))
unfolding lookup_grpc_status is_retried has_info agrees same
lookup_grpc_status-retried (negsuc n) = ground arith
lookup_grpc_status-retried (pos n) = elim (Bool-cases (leb grpc_status_count n)) [
  | inl h ↦ rw h (ground arith)
  | inr h ↦
      let e : 0 + n ≡ n = omega arith in
      let (p, q) = retried-agrees 0 n status_table refl (ground arith) in
      rw h (p ∙ sym (ground arith), q ∙ ap retried_code e)
]
