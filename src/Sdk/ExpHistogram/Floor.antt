-- ===== src/Sdk/ExpHistogram/Floor.antt =====
-- `FloorDivPow2` is the floor of the quotient.
use native.Mathlib.Nat.{
  mod-lt, div-add-mod, le-div_iff_mul-le, one-le-pow, add-mul-div_left, div-eq_of_lt, div_self,
  mul-suc, zero-div, div-mul-le_self,
}
use microtel.Prelude.{
  ℕ, zero, suc, ◌+◌, ◌*◌, ◌/◌, ◌%◌, ◌^◌, ◌≤◌, ◌<◌, ◌≡◌, ◌⊎◌, inl, inr, ap, ◌∙◌, ◌==◌, arith,
  Bool-cases,
}
use microtel.Prelude.Int.{ℤ, pos, negsuc, ◌+ℤ◌, ◌-ℤ◌, ◌≤ℤ◌}
use microtel.Sdk.ExpHistogram.{floor_div_pow2}

unfoldable pub floor_div : ℤ → ℕ → ℤ
floor_div (pos n) d = pos (n / d)
floor_div (negsuc n) d = negsuc (n / d)

suc-div-mod :
    (n d : ℕ)
    → 0 < d
    → ((suc n % d ≡ 0) × (suc n / d ≡ suc (n / d))) ⊎ ((0 < suc n % d) × (suc n / d ≡ n / d))
suc-div-mod n d h =
    let q = n / d in
    let e = div-add-mod n d in
    let l = mod-lt n {m = d} h in
    let f = div-add-mod (suc n) d in
    let s : suc n ≡ suc (n % d) + d * q = omega arith in
    let u : suc n / d ≡ suc (n % d) / d + q =
      ap (λ (m : ℕ). m / d) s ∙ add-mul-div_left (suc (n % d)) q {y = d} h in
    elim (Bool-cases (suc (n % d) == d)) [
      | inl t ↦
          let t' : suc (n % d) ≡ d = ground arith in
          let k : suc (n % d) / d ≡ 1 = ap (λ (m : ℕ). m / d) t' ∙ div_self {n = d} h in
          let v : suc n / d ≡ suc q = omega arith in
          let w = ap (λ (m : ℕ). d * m) v ∙ mul-suc d q in inl (omega arith, v)
      | inr t ↦
          let t' : suc (n % d) < d = ground arith in
          let v : suc n / d ≡ q = omega (arith, div-eq_of_lt {n = suc (n % d)} {m = d} t') in
          let w = ap (λ (m : ℕ). d * m) v in inr (omega arith, v)
    ]

div_mono : (m n d : ℕ) → 0 < d → m ≤ n → m / d ≤ n / d
div_mono m n d h l =
    (le-div_iff_mul-le {k = d} {x = m / d} {y = n} h).1 (omega (arith, div-mul-le_self m d))

pub floor_div_pow2-floor_div : (v : ℤ) (by : ℕ) → floor_div_pow2 v by ≡ floor_div v (2 ^ by)
unfolding floor_div_pow2 floor_div ◌-ℤ◌
floor_div_pow2-floor_div (pos n) by = ground arith
floor_div_pow2-floor_div (negsuc n) by =
    ground (arith, suc-div-mod n (2 ^ by) (one-le-pow by 2 (omega arith)))

pub floor_div_mono : (a b : ℤ) (d : ℕ) → 0 < d → a ≤ℤ b → floor_div a d ≤ℤ floor_div b d
unfolding floor_div
floor_div_mono (pos m) (pos n) d h l = ground (arith, div_mono m n d h)
floor_div_mono (pos m) (negsuc n) d h l = absurd (omega arith)
floor_div_mono (negsuc m) (pos n) d h l = omega arith
floor_div_mono (negsuc m) (negsuc n) d h l = ground (arith, div_mono n m d h)

-- One step further in the quotient is at most one step.
pub floor_div_step : (a : ℤ) (d : ℕ) → 0 < d → floor_div (a +ℤ pos 1) d ≤ℤ floor_div a d +ℤ pos 1
unfolding floor_div ◌+ℤ◌
floor_div_step (pos n) d h = ground (arith, suc-div-mod n d h)
floor_div_step (negsuc zero) d h = ground (arith, zero-div d)
floor_div_step (negsuc (suc n)) d h = ground (arith, suc-div-mod n d h)

pub floor_div_pow2_mono : (a b : ℤ) (by : ℕ) → a ≤ℤ b → floor_div_pow2 a by ≤ℤ floor_div_pow2 b by
floor_div_pow2_mono a b by h =
    rw (floor_div_pow2-floor_div a by, floor_div_pow2-floor_div b by)
      (floor_div_mono a b (2 ^ by) (one-le-pow by 2 (omega arith)) h)

pub floor_div_pow2_step :
    (a : ℤ) (by : ℕ) → floor_div_pow2 (a +ℤ pos 1) by ≤ℤ floor_div_pow2 a by +ℤ pos 1
floor_div_pow2_step a by =
    rw (floor_div_pow2-floor_div (a +ℤ pos 1) by, floor_div_pow2-floor_div a by)
      (floor_div_step a (2 ^ by) (one-le-pow by 2 (omega arith)))
