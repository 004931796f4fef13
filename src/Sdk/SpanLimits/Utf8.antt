-- ===== src/Sdk/SpanLimits/Utf8.antt =====
-- Truncation against the code points of the text.
use microtel.Prelude.{
  ℕ, zero, suc, ◌+◌, ◌-◌, ◌≤◌, ◌<◌, ◌≡◌, refl, sym, ap, ◌∙◌, inl, inr, Bool, true, false,
  if◌then◌else◌, leb, List, [], ◌∷◌, ◌++◌, length, take, get_or, arith, Bool-cases, length-take,
  length-append,
}
use microtel.Prelude.Bytes.{Bytes, all}
use microtel.Sdk.SpanLimits.{is_continuation, utf8_safe_prefix, truncate_text}

-- A lead byte and its continuation bytes.
unfoldable pub IsCodePoint : Bytes → Type 0
IsCodePoint [] = 1 ≤ 0
IsCodePoint (b ∷ bs) = (is_continuation b ≡ false) × (all is_continuation bs ≡ true)

unfoldable pub AreCodePoints : List Bytes → Type 0
AreCodePoints [] = Unit
AreCodePoints (c ∷ cs) = IsCodePoint c × AreCodePoints cs

unfoldable pub joined : List Bytes → Bytes
joined [] = []
joined (c ∷ cs) = c ++ joined cs

-- The longest run of whole code points, from the first on, within the limit.
unfoldable pub whole : List Bytes → ℕ → List Bytes
whole [] limit = []
whole (c ∷ cs) limit =
    let rest = whole cs (limit - length c) in if leb (length c) limit then c ∷ rest else []

pub utf8_safe_prefix-le : (s : Bytes) (limit : ℕ) → utf8_safe_prefix s limit ≤ limit
unfolding utf8_safe_prefix
utf8_safe_prefix-le s zero = omega arith
utf8_safe_prefix-le s (suc limit) = ground (arith, utf8_safe_prefix-le s limit)

pub length-truncate_text : (s : Bytes) (limit : ℕ) → length (truncate_text s limit).0 ≤ limit
unfolding truncate_text
length-truncate_text s limit =
    ground (arith, length-take (utf8_safe_prefix s limit) s, utf8_safe_prefix-le s limit)

-- The loop stops where the bytes above the cut are continuation bytes and the cut's is none.
utf8_safe_prefix_at :
    (s : Bytes) (limit k : ℕ)
    → k ≤ limit
    → is_continuation (get_or s k 0) ≡ false
    → ((j : ℕ) → k < j → j ≤ limit → is_continuation (get_or s j 0) ≡ true)
    → utf8_safe_prefix s limit ≡ k
unfolding utf8_safe_prefix
utf8_safe_prefix_at s zero k l lead tail = omega arith
utf8_safe_prefix_at s (suc limit) k l lead tail = elim (Bool-cases (leb k limit)) [
  | inl e ↦
      rw (tail (suc limit) (ground arith) (omega arith))
        (utf8_safe_prefix_at s limit k (ground arith) lead (λ j a b. tail j a (omega arith)))
  | inr e ↦ let k' : suc limit ≡ k = ground arith in let lead' = rw (← k') at lead in rw lead' k'
]

get_or-append_later : (xs ys : Bytes) (k : ℕ) → get_or (xs ++ ys) (length xs + k) 0 ≡ get_or ys k 0
get_or-append_later [] ys k = let e : 0 + k ≡ k = omega arith in rw e refl
get_or-append_later (x ∷ xs) ys k =
    let e : suc (length xs) + k ≡ suc (length xs + k) = omega arith in
    rw e (get_or-append_later xs ys k)

get_or-append_sooner :
    (xs ys : Bytes) (k : ℕ) → k < length xs → get_or (xs ++ ys) k 0 ≡ get_or xs k 0
get_or-append_sooner [] ys k h = absurd (omega arith)
get_or-append_sooner (x ∷ xs) ys zero h = refl
get_or-append_sooner (x ∷ xs) ys (suc k) h = get_or-append_sooner xs ys k (omega arith)

all-get_or :
    (xs : Bytes) (p : ℕ → Bool) (k : ℕ) → k < length xs → all p xs ≡ true → p (get_or xs k 0) ≡ true
unfolding all
all-get_or [] p k h a = absurd (omega arith)
all-get_or (x ∷ xs) p zero h a = ground arith
all-get_or (x ∷ xs) p (suc k) h a = all-get_or xs p k (omega arith) (ground arith)

-- A code point that does not fit: its lead byte is no continuation, every other one is.
first_lead :
    (c : Bytes) (ys : Bytes) → IsCodePoint c → is_continuation (get_or (c ++ ys) 0 0) ≡ false
unfolding IsCodePoint
first_lead [] ys h = absurd (omega arith)
first_lead (b ∷ bs) ys h = h.0

first_tail :
    (c : Bytes) (ys : Bytes) (j : ℕ)
    → IsCodePoint c
    → 0 < j
    → j < length c
    → is_continuation (get_or (c ++ ys) j 0) ≡ true
unfolding IsCodePoint
first_tail [] ys j h l k = absurd (omega arith)
first_tail (b ∷ bs) ys zero h l k = absurd (omega arith)
first_tail (b ∷ bs) ys (suc j) h l k =
    rw (get_or-append_sooner bs ys j (omega arith))
      (all-get_or bs is_continuation j (omega arith) h.1)

-- Where the run of whole code points ends.
record Ends (cs : List Bytes) (limit : ℕ) (k : ℕ) : Type 0 where
  within : k ≤ limit
  lead : is_continuation (get_or (joined cs) k 0) ≡ false
  tail : (j : ℕ) → k < j → j ≤ limit → is_continuation (get_or (joined cs) j 0) ≡ true
  run : take k (joined cs) ≡ joined (whole cs limit)

take_append : (xs ys : Bytes) (k : ℕ) → take (length xs + k) (xs ++ ys) ≡ xs ++ take k ys
take_append [] ys k = let e : 0 + k ≡ k = omega arith in rw e refl
take_append (x ∷ xs) ys k =
    let e : suc (length xs) + k ≡ suc (length xs + k) = omega arith in
    rw e (ap (λ (zs : Bytes). x ∷ zs) (take_append xs ys k))

longer :
    (c : Bytes) (cs : List Bytes) (limit k : ℕ)
    → length c ≤ limit
    → Ends cs (limit - length c) k
    → (is_continuation (get_or (c ++ joined cs) (length c + k) 0) ≡ false)
      × ((j : ℕ)
          → length c + k < j
          → j ≤ limit
          → is_continuation (get_or (c ++ joined cs) j 0) ≡ true)
longer c cs limit k l e = (
  rw (get_or-append_later c (joined cs) k) e.lead,
  λ j a b.
      let i = j - length c in
      let split : j ≡ length c + i = omega arith in
      rw (split, get_or-append_later c (joined cs) i) (e.tail i (omega arith) (omega arith)),
)

whole-Ends :
    (cs : List Bytes) (limit : ℕ)
    → AreCodePoints cs
    → limit < length (joined cs)
    → Ends cs limit (length (joined (whole cs limit)))
unfolding AreCodePoints joined whole
whole-Ends [] limit h l = absurd (omega arith)
whole-Ends (c ∷ cs) limit h l = elim (Bool-cases (leb (length c) limit)) [
  | inl e ↦ rw e (
      let n = length-append c (joined cs) in
      let fits : length c ≤ limit = ground arith in
      let rest = whole-Ends cs (limit - length c) h.1 (omega arith) in
      let more = longer c cs limit (length (joined (whole cs (limit - length c)))) fits rest in
      let w = rest.within in
      rw (length-append c (joined (whole cs (limit - length c)))) (record {
        within = omega arith;
        lead = more.0;
        tail = more.1;
        run = rw e (
            take_append c (joined cs) (length (joined (whole cs (limit - length c))))
            ∙ ap (λ (zs : Bytes). c ++ zs) rest.run);
      }))
  | inr e ↦ rw e (record {
    within = omega arith;
    lead = first_lead c (joined cs) h.0;
    tail = λ j a b. first_tail c (joined cs) j h.0 a (ground arith);
    run = rw e refl;
  })
]

whole_all : (cs : List Bytes) (limit : ℕ) → length (joined cs) ≤ limit → whole cs limit ≡ cs
unfolding whole joined
whole_all [] limit h = refl
whole_all (c ∷ cs) limit h =
    let n = length-append c (joined cs) in
    let e : leb (length c) limit ≡ true = ground arith in
    rw e (ap (λ (xs : List Bytes). c ∷ xs) (whole_all cs (limit - length c) (omega arith)))

-- A text of whole code points is cut to the longest run of its first code points within the limit,
-- so no code point is split and none that fits is lost.
pub truncate_text-whole :
    (cs : List Bytes) (limit : ℕ)
    → AreCodePoints cs
    → (truncate_text (joined cs) limit).0 ≡ joined (whole cs limit)
unfolding truncate_text
truncate_text-whole cs limit h = elim (Bool-cases (leb (length (joined cs)) limit)) [
  | inl e ↦ rw e (ap joined (sym (whole_all cs limit (ground arith))))
  | inr e ↦
      let ends = whole-Ends cs limit h (ground arith) in
      let cut =
        utf8_safe_prefix_at (joined cs) limit (length (joined (whole cs limit))) ends.within
          ends.lead ends.tail in
      rw (e, cut) ends.run
]
