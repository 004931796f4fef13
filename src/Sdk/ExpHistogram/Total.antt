-- ===== src/Sdk/ExpHistogram/Total.antt =====
-- What a bucket array holds: the counts of the buckets whose index has a property.
use microtel.Prelude.{
  ℕ, zero, suc, ◌+◌, ◌%◌, ◌^◌, ◌<◌, ◌≡◌, refl, ap, Bool, if◌then◌else◌, List, [], ◌∷◌, ◌++◌, length,
  replicate, arith,
}
use microtel.Prelude.Int.{ℤ, pos, ◌+ℤ◌, int_laws}
use microtel.Sdk.ExpHistogram.{ExpBuckets, add_at}

unfoldable pub total : (ℤ → Bool) → ℤ → List ℕ → ℕ
total p i [] = 0
total p i (c ∷ cs) = (if p i then c else 0) + total p (i +ℤ pos 1) cs

-- How many of the recorded indices have the property.
unfoldable pub count : (ℤ → Bool) → List ℤ → ℕ
count p [] = 0
count p (x ∷ xs) = (if p x then 1 else 0) + count p xs

-- The buckets hold exactly the recorded indices, each as often as it was recorded, up to the
-- wrap-around of the counters.
abbrev pub Holds : ExpBuckets → List ℤ → Type 0
Holds b xs = (p : ℤ → Bool) → total p b.offset b.counts % 2 ^ 64 ≡ count p xs % 2 ^ 64

+ℤ_suc : (i : ℤ) (n : ℕ) → i +ℤ pos 1 +ℤ pos n ≡ i +ℤ pos (suc n)
+ℤ_suc i n = omega int_laws

pub +ℤ_zero : (i : ℤ) → i +ℤ pos 0 ≡ i
+ℤ_zero i = omega int_laws

pub total-append :
    (p : ℤ → Bool) (i : ℤ) (xs ys : List ℕ)
    → total p i (xs ++ ys) ≡ total p i xs + total p (i +ℤ pos (length xs)) ys
unfolding total
total-append p i [] ys = rw (+ℤ_zero i) (omega arith)
total-append p i (x ∷ xs) ys =
    rw (← +ℤ_suc i (length xs)) (omega (arith, total-append p (i +ℤ pos 1) xs ys))

pub total-replicate : (p : ℤ → Bool) (i : ℤ) (n : ℕ) → total p i (replicate n 0) ≡ 0
unfolding total
total-replicate p i zero = refl
total-replicate p i (suc n) = ground (arith, total-replicate p (i +ℤ pos 1) n)

pub length-add_at : (slot c : ℕ) (ms : List ℕ) → length (add_at slot c ms) ≡ length ms
unfolding add_at
length-add_at slot c [] = refl
length-add_at zero c (m ∷ ms) = refl
length-add_at (suc slot) c (m ∷ ms) = ap suc (length-add_at slot c ms)

pub total-add_at :
    (p : ℤ → Bool) (i : ℤ) (slot c : ℕ) (ms : List ℕ)
    → slot < length ms
    → total p i (add_at slot c ms) % 2 ^ 64
      ≡ (total p i ms + (if p (i +ℤ pos slot) then c else 0)) % 2 ^ 64
unfolding total add_at
total-add_at p i slot c [] h = absurd (omega arith)
total-add_at p i zero c (m ∷ ms) h = rw (+ℤ_zero i) (ground arith)
total-add_at p i (suc slot) c (m ∷ ms) h =
    rw (← +ℤ_suc i slot) (ground (arith, total-add_at p (i +ℤ pos 1) slot c ms))
