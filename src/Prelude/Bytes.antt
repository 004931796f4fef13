-- ===== src/Prelude/Bytes.antt =====
-- Text as a list of bytes: equality, searches and the trimming of optional whitespace, as the
-- header parsers of src/api use `std::string_view`.
use Prim.Native.Char.{code}
use Prim.Native.String.{String}
use microtel.Prelude.{
  ℕ, ◌≡◌, ◌↔◌, refl, Bool, true, false, ◌&&◌, ◌||◌, List, [], ◌∷◌, ◌++◌, Option, none, some, arith,
  ◌==◌, if◌then◌else◌,
}

abbrev pub Bytes : Type 0
Bytes = List ℕ

-- The characters of a string literal.
abbrev pub codes : String → Bytes
codes String.[] = []
codes (String.◌∷◌ c s) = code c ∷ codes s

-- `operator==` of two strings.
unfoldable pub bytes_eq : Bytes → Bytes → Bool
bytes_eq [] [] = true
bytes_eq (x ∷ xs) (y ∷ ys) = x == y && bytes_eq xs ys
bytes_eq _ _ = false

pub bytes_eq_iff : (a b : Bytes) → (bytes_eq a b ≡ true) ↔ (a ≡ b)
unfolding bytes_eq
bytes_eq_iff (x ∷ a) (y ∷ b) = ground (arith, bytes_eq_iff a b)
bytes_eq_iff _ _ = ground arith

pub bytes_eq_refl : (a : Bytes) → bytes_eq a a ≡ true
bytes_eq_refl a = (bytes_eq_iff a a).1 refl

-- `std::ranges::all_of`.
unfoldable pub all : (ℕ → Bool) → Bytes → Bool
all p [] = true
all p (c ∷ cs) = p c && all p cs

pub all-append : (p : ℕ → Bool) (xs ys : Bytes) → all p (xs ++ ys) ≡ (all p xs && all p ys)
unfolding all
all-append p [] ys = refl
all-append p (x ∷ xs) ys = ground (arith, all-append p xs ys)

pub all_mono :
    (p q : ℕ → Bool) (xs : Bytes)
    → ((c : ℕ) → p c ≡ true → q c ≡ true)
    → all p xs ≡ true
    → all q xs ≡ true
unfolding all
all_mono p q [] h a = refl
all_mono p q (c ∷ cs) h a = ground (arith, h c, all_mono p q cs h)

-- `find` of one character, with both sides of it: `some (before, after)` splits at the first
-- occurrence, and `none` is `npos`.
unfoldable pub split_at : ℕ → Bytes → Option (Bytes × Bytes)
split_at c [] = none
split_at c (x ∷ xs) =
    if x == c
    then some ([], xs)
    else elim (split_at c xs) [ none ↦ none | some (a, b) ↦ some (x ∷ a, b) ]

abbrev pub differs : ℕ → ℕ → Bool
differs c x = if x == c then false else true

pub split_at-append :
    (c : ℕ) (xs ys : Bytes) → all (differs c) xs ≡ true → split_at c (xs ++ c ∷ ys) ≡ some (xs, ys)
unfolding split_at all
split_at-append c [] ys h = ground arith
split_at-append c (x ∷ xs) ys h = ground (arith, split_at-append c xs ys)

pub split_at-none : (c : ℕ) (xs : Bytes) → all (differs c) xs ≡ true → split_at c xs ≡ none
unfolding split_at all
split_at-none c [] h = refl
split_at-none c (x ∷ xs) h = ground (arith, split_at-none c xs)

-- What a `find` returns splits the text at its first separator.
abbrev pub Splits : ℕ → Bytes → Option (Bytes × Bytes) → Type 0
Splits c xs none = all (differs c) xs ≡ true
Splits c xs (some (a, b)) = (xs ≡ a ++ c ∷ b) × (all (differs c) a ≡ true)

pub split_at-Splits : (c : ℕ) (xs : Bytes) → Splits c xs (split_at c xs)
unfolding split_at all
split_at-Splits c [] = refl
split_at-Splits c (x ∷ xs) = ground (arith, split_at-Splits c xs)

-- `OWS = *( SP / HTAB )`.
unfoldable pub is_optional_whitespace : ℕ → Bool
is_optional_whitespace c = c == b' ' || c == b'\t'

-- `remove_prefix` while the front is OWS.
unfoldable pub trim_front : Bytes → Bytes
trim_front [] = []
trim_front (c ∷ cs) = elim (is_optional_whitespace c) [ true ↦ trim_front cs | false ↦ c ∷ cs ]

-- `remove_suffix` while the back is OWS: a character goes if all behind it goes and it is OWS.
unfoldable pub trim_back : Bytes → Bytes
trim_back [] = []
trim_back (c ∷ cs) = elim (trim_back cs) [
  | [] ↦ if is_optional_whitespace c then [] else c ∷ []
  | d ∷ ds ↦ c ∷ d ∷ ds
]

unfoldable pub trim : Bytes → Bytes
trim s = trim_back (trim_front s)

-- The first and the last character; the callers test for the empty text first.
abbrev pub front : Bytes → ℕ
front [] = 0
front (c ∷ cs) = c

abbrev pub back : Bytes → ℕ
back [] = 0
back (c ∷ []) = c
back (c ∷ d ∷ cs) = back (d ∷ cs)

pub back-append : (xs : Bytes) (c : ℕ) (ys : Bytes) → back (xs ++ c ∷ ys) ≡ back (c ∷ ys)
back-append [] c ys = refl
back-append (x ∷ []) c ys = refl
back-append (x ∷ y ∷ xs) c ys = back-append (y ∷ xs) c ys

trim_back_self : (s : Bytes) → is_optional_whitespace (back s) ≡ false → trim_back s ≡ s
unfolding trim_back
trim_back_self [] h = refl
trim_back_self (c ∷ []) h = ground arith
trim_back_self (c ∷ d ∷ s) h = ground (arith, trim_back_self (d ∷ s) h)

trim_front_self : (s : Bytes) → is_optional_whitespace (front s) ≡ false → trim_front s ≡ s
unfolding trim_front
trim_front_self [] h = refl
trim_front_self (c ∷ s) h = ground arith

-- A text that neither begins nor ends in OWS is left whole.
pub trim_self :
    (s : Bytes)
    → is_optional_whitespace (front s) ≡ false
    → is_optional_whitespace (back s) ≡ false
    → trim s ≡ s
unfolding trim
trim_self s f b = rw (trim_front_self s f) (trim_back_self s b)
