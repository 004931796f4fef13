-- ===== src/Sdk/LeafTime/Anchor.antt =====
-- `BootAnchor::Update` of src/sdk/leaf_time.cpp: the window it keeps and the offset it answers.
use Prim.Native.Nat.{min}
use microtel.Prelude.{
  ℕ, suc, ◌+◌, ◌-◌, ◌≤◌, ◌<◌, ◌≡◌, refl, ap, Bool, true, false, if◌then◌else◌, ◌==◌, ltb, List, [],
  ◌∷◌, ◌++◌, length, length-append, arith, Bool-cases, inl, inr,
}
use microtel.Prelude.Int.{ℤ, ◌≤ℤ◌, ltb_ℤ}
use microtel.Sdk.LeafTime.{
  Sample, BootSample, BootAnchor, max_samples, max64, age_out, drop_oldest, Lowest, lowest_step,
  scan, anchor, update, saturating_sub, same_boot,
}

length-age_out : (cutoff : ℤ) (ss : List Sample) → length (age_out cutoff ss) ≤ length ss
unfolding age_out
length-age_out cutoff [] = omega arith
length-age_out cutoff (s ∷ ss) = ground (arith, length-age_out cutoff ss)

room :
    (ss : List Sample)
    → length ss ≤ max_samples
    → length (if length ss == max_samples then drop_oldest ss else ss) < max_samples
unfolding drop_oldest
room [] h = ground arith
room (s ∷ ss) h = ground arith

same_room :
    (b : Bool) (ss : List Sample)
    → length ss ≤ max_samples
    → length (if b then ss else []) ≤ max_samples
same_room true ss h = h
same_room false ss h = omega arith

-- `m_samples` never runs out of its 16 places: from an anchor within them, `Update` leaves an anchor within them, and never an empty one.
update-length :
    (m : BootAnchor) (sample : BootSample) (window : ℤ)
    → length m.samples ≤ max_samples
    → (1 ≤ length ((update m sample window).0).samples)
      × (length ((update m sample window).0).samples ≤ max_samples)
unfolding update
update-length m sample window h =
    let cutoff = saturating_sub sample.at window in
    let same = if same_boot m.boot_id sample.boot_id then m.samples else [] in
    let aged = age_out cutoff same in
    let s1 = same_room (same_boot m.boot_id sample.boot_id) m.samples h in
    let s2 = length-age_out cutoff same in
    let s3 = room aged (omega arith) in
    let kept = if length aged == max_samples then drop_oldest aged else aged in
    let new : Sample = record { offset = sample.offset; at = sample.at } in
    let e = length-append kept (new ∷ []) in (omega (arith, e), omega (arith, e))

-- The number of samples whose offset is below a bound.
unfoldable pub below : ℤ → List Sample → ℕ
below x [] = 0
below x (s ∷ ss) = if ltb_ℤ s.offset x then suc (below x ss) else below x ss

-- The number of samples whose offset is a bound or below it.
unfoldable pub up_to : ℤ → List Sample → ℕ
up_to x [] = 0
up_to x (s ∷ ss) = if ltb_ℤ x s.offset then up_to x ss else suc (up_to x ss)

-- Offsets are `int64_t`: none is above INT64_MAX.
unfoldable pub Bounded : List Sample → Type 0
Bounded [] = Unit
Bounded (s ∷ ss) = (s.offset ≤ℤ max64) × Bounded ss

-- What the scan knows of the samples behind it.
abbrev Ranked : List Sample → Lowest → Type 0
Ranked ss l =
    (below l.lowest ss ≡ 0)
    × (below l.second ss ≤ 1)
    × (l.lowest ≤ℤ l.second)
    × (l.second ≤ℤ max64)
    × (min 1 (length ss) ≤ up_to l.lowest ss)
    × (min 2 (length ss) ≤ up_to l.second ss)
    × (length ss < 1 → max64 ≤ℤ l.lowest)
    × (length ss < 2 → max64 ≤ℤ l.second)

below-last :
    (x : ℤ) (ss : List Sample) (s : Sample)
    → below x (ss ++ s ∷ []) ≡ below x ss + (if ltb_ℤ s.offset x then 1 else 0)
unfolding below
below-last x [] s = ground arith
below-last x (t ∷ ss) s = ground (arith, below-last x ss s)

up_to-last :
    (x : ℤ) (ss : List Sample) (s : Sample)
    → up_to x (ss ++ s ∷ []) ≡ up_to x ss + (if ltb_ℤ x s.offset then 0 else 1)
unfolding up_to
up_to-last x [] s = ground arith
up_to-last x (t ∷ ss) s = ground (arith, up_to-last x ss s)

below_mono : (x y : ℤ) (ss : List Sample) → x ≤ℤ y → below x ss ≤ below y ss
unfolding below
below_mono x y [] h = omega arith
below_mono x y (s ∷ ss) h = ground (arith, below_mono x y ss h)

up_to_mono : (x y : ℤ) (ss : List Sample) → x ≤ℤ y → up_to x ss ≤ up_to y ss
unfolding up_to
up_to_mono x y [] h = omega arith
up_to_mono x y (s ∷ ss) h = ground (arith, up_to_mono x y ss h)

step-Ranked :
    (ss : List Sample) (s : Sample) (l : Lowest)
    → s.offset ≤ℤ max64
    → Ranked ss l
    → Ranked (ss ++ s ∷ []) (lowest_step s.offset l)
unfolding lowest_step
step-Ranked ss s l h (b1, b2, o1, o2, u1, u2, e1, e2) =
    let n = length-append ss (s ∷ []) in
    let bl = λ (x : ℤ). below-last x ss s in
    let ul = λ (x : ℤ). up_to-last x ss s in
    let bm = λ (x y : ℤ). below_mono x y ss in
    let um = λ (x y : ℤ). up_to_mono x y ss in
    elim (Bool-cases (ltb_ℤ s.offset l.lowest)) [
      | inl e ↦ rw e (
          ground
            (arith, n, bl s.offset, bl l.lowest, ul s.offset, ul l.lowest, bm s.offset l.lowest))
      | inr e ↦ elim (Bool-cases (ltb_ℤ s.offset l.second)) [
        | inl f ↦
            rw (e, f)
              (ground (
                arith,
                n,
                bl s.offset,
                bl l.lowest,
                ul s.offset,
                ul l.lowest,
                bm s.offset l.second,
                um l.lowest s.offset,
              ))
        | inr f ↦ rw (e, f) (ground (arith, n, bl l.second, bl l.lowest, ul l.second, ul l.lowest))
      ]
    ]

cons-append :
    (ss : List Sample) (s : Sample) (ts : List Sample) → (ss ++ s ∷ []) ++ ts ≡ ss ++ s ∷ ts
cons-append [] s ts = refl
cons-append (x ∷ ss) s ts = ap (◌∷◌ x) (cons-append ss s ts)

append-nil : (ss : List Sample) → ss ++ [] ≡ ss
append-nil [] = refl
append-nil (s ∷ ss) = ap (◌∷◌ s) (append-nil ss)

scan-Ranked :
    (ss ts : List Sample) (l : Lowest) → Bounded ts → Ranked ss l → Ranked (ss ++ ts) (scan ts l)
unfolding scan Bounded
scan-Ranked ss [] l h r = rw (append-nil ss) r
scan-Ranked ss (t ∷ ts) l h r =
    rw (← cons-append ss t ts)
      (scan-Ranked (ss ++ t ∷ []) ts (lowest_step t.offset l) h.1 (step-Ranked ss t l h.0 r))

anchor-second :
    (ss : List Sample)
    → Bounded ss
    → (below (anchor ss) ss ≤ min 2 (length ss) - 1) × (min 2 (length ss) ≤ up_to (anchor ss) ss)
unfolding anchor below up_to
anchor-second ss h =
    let start : Lowest = record { lowest = max64; second = max64 } in
    let (b1, b2, o1, o2, u1, u2, e1, e2) = scan-Ranked [] ss start h (
      refl,
      omega arith,
      omega arith,
      omega arith,
      omega arith,
      omega arith,
      λ k. omega arith,
      λ k. omega arith,
    ) in
    elim (Bool-cases (ltb (length ss) 2)) [
      | inl e ↦ rw e (ground arith)
      | inr e ↦ rw e (ground arith)
    ]

Bounded-age_out : (cutoff : ℤ) (ss : List Sample) → Bounded ss → Bounded (age_out cutoff ss)
unfolding age_out Bounded
Bounded-age_out cutoff [] h = tt
Bounded-age_out cutoff (s ∷ ss) h = ground (arith, Bounded-age_out cutoff ss h.1)

Bounded-drop_oldest : (ss : List Sample) → Bounded ss → Bounded (drop_oldest ss)
unfolding drop_oldest Bounded
Bounded-drop_oldest [] h = tt
Bounded-drop_oldest (s ∷ ss) h = h.1

Bounded-if :
    (b : Bool) (ss ts : List Sample) → Bounded ss → Bounded ts → Bounded (if b then ss else ts)
Bounded-if true ss ts h k = h
Bounded-if false ss ts h k = k

Bounded-concat :
    (ss : List Sample) (s : Sample) → Bounded ss → s.offset ≤ℤ max64 → Bounded (ss ++ s ∷ [])
unfolding Bounded
Bounded-concat [] s h k = (k, tt)
Bounded-concat (x ∷ ss) s h k = (h.0, Bounded-concat ss s h.1 k)

-- What `Update` returns is the second smallest offset of the window that it leaves when that holds two samples or more, and the only one when it holds one: at most one offset is below it (none, for one sample), and two (one) are at it or below. The offsets are `int64_t`.
update-second :
    (m : BootAnchor) (sample : BootSample) (window : ℤ)
    → Bounded m.samples
    → sample.offset ≤ℤ max64
    → (let (left, result) = update m sample window in
        (below result left.samples ≤ min 2 (length left.samples) - 1)
        × (min 2 (length left.samples) ≤ up_to result left.samples))
unfolding update
update-second m sample window h k =
    let cutoff = saturating_sub sample.at window in
    let same = if same_boot m.boot_id sample.boot_id then m.samples else [] in
    let aged = age_out cutoff same in
    let b1 =
      Bounded-if (same_boot m.boot_id sample.boot_id) m.samples [] h (unfold Bounded in tt) in
    let b2 = Bounded-age_out cutoff same b1 in
    let b3 =
      Bounded-if (length aged == max_samples) (drop_oldest aged) aged (Bounded-drop_oldest aged b2)
        b2 in
    anchor-second _ (Bounded-concat _ (record { offset = sample.offset; at = sample.at }) b3 k)
