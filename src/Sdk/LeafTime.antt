-- ===== src/Sdk/LeafTime.antt =====
-- src/sdk/leaf_time.cpp: how the receiver turns a leaf's timestamps into Unix times. An `int64_t`
-- is an integer; `IsInt64` states its range, and the guards before each sum are the source's.
pub mod Saturation
pub mod Trust
pub mod Anchor
mod Tests
use microtel.Prelude.{
  ℕ, zero, suc, ◌+◌, ◌-◌, ◌^◌, Bool, true, false, ◌&&◌, ◌||◌, ◌==◌, if◌then◌else◌, not, ltb, List,
  [], ◌∷◌, ◌++◌, Option, none, some, length,
}
use microtel.Prelude.Int.{ℤ, pos, negsuc, ◌+ℤ◌, ◌-ℤ◌, ◌≤ℤ◌, ltb_ℤ}
use microtel.Sdk.Record.{SpanRecord, SpanEvent}

-- INT64_MAX and INT64_MIN.
abbrev pub max64 : ℤ
max64 = pos (2 ^ 63 - 1)

abbrev pub min64 : ℤ
min64 = negsuc (2 ^ 63 - 1)

abbrev pub IsInt64 : ℤ → Type 0
IsInt64 a = (min64 ≤ℤ a) × (a ≤ℤ max64)

unfoldable pub saturating_add : ℤ → ℤ → ℤ
unfolding ◌+ℤ◌ ◌-ℤ◌
saturating_add a b =
    if ltb_ℤ (pos 0) b && ltb_ℤ (max64 -ℤ b) a
    then max64
    else if ltb_ℤ b (pos 0) && ltb_ℤ a (min64 -ℤ b)
    then min64
    else a +ℤ b

unfoldable pub saturating_sub : ℤ → ℤ → ℤ
unfolding ◌+ℤ◌ ◌-ℤ◌
saturating_sub a b =
    if ltb_ℤ b (pos 0) && ltb_ℤ (max64 +ℤ b) a
    then max64
    else if ltb_ℤ (pos 0) b && ltb_ℤ a (min64 +ℤ b)
    then min64
    else a -ℤ b

pub record TimeCorrection : Type 0 where
  pub offset : ℤ
  pub fixed : Option ℤ

pub record SyncLimits : Type 0 where
  pub max_sync_age : ℤ
  pub max_clock_skew : ℤ

-- `std::max<std::int64_t>(0, t)`.
abbrev pub max_zero : ℤ → ℤ
max_zero t = if ltb_ℤ (pos 0) t then t else pos 0

pub corrected : ℤ → TimeCorrection → ℤ
corrected t c = elim c.fixed [ some f ↦ f | none ↦ max_zero (saturating_add t c.offset) ]

pub concentrator_stamped : ℤ → Option ℤ → TimeCorrection
concentrator_stamped received none = record { offset = pos 0; fixed = some (max_zero received) }
concentrator_stamped received (some encode_time) = record {
  offset = saturating_sub received encode_time;
  fixed = none;
}

-- `none` is `nullopt`: the timestamps are not trusted.
pub sync_relative : ℤ → ℤ → ℤ → SyncLimits → Option TimeCorrection
sync_relative received encode_time sync_age limits =
    let skew = saturating_sub received encode_time in
    let abs_skew = if not (ltb_ℤ skew (pos 0)) then skew else saturating_sub (pos 0) skew in
    let fresh = not (ltb_ℤ sync_age (pos 0)) && not (ltb_ℤ limits.max_sync_age sync_age) in
    if not fresh || ltb_ℤ limits.max_clock_skew abs_skew
    then none
    else some (record { offset = pos 0; fixed = none })

correct_events : List SpanEvent → TimeCorrection → List SpanEvent
correct_events [] c = []
correct_events (e ∷ es) c = record e { timestamp = corrected e.timestamp c } ∷ correct_events es c

pub apply_time_correction : SpanRecord → TimeCorrection → SpanRecord
apply_time_correction span c = record span {
  start_time = corrected span.start_time c;
  end_time = corrected span.end_time c;
  events = correct_events span.events c;
}

pub record BootSample : Type 0 where
  pub boot_id : ℤ
  pub offset : ℤ
  pub at : ℤ

pub record Sample : Type 0 where
  pub offset : ℤ
  pub at : ℤ

-- The first `m_count` of `m_samples`, oldest first.
pub record BootAnchor : Type 0 where
  pub boot_id : Option ℤ
  pub samples : List Sample

abbrev pub max_samples : ℕ
max_samples = 16

abbrev pub eq_ℤ : ℤ → ℤ → Bool
eq_ℤ a b = not (ltb_ℤ a b) && not (ltb_ℤ b a)

abbrev same_boot : Option ℤ → ℤ → Bool
same_boot none id = false
same_boot (some b) id = eq_ℤ b id

pub age_out : ℤ → List Sample → List Sample
age_out cutoff [] = []
age_out cutoff (s ∷ ss) =
    if not (ltb_ℤ s.at cutoff) then s ∷ age_out cutoff ss else age_out cutoff ss

drop_oldest : List Sample → List Sample
drop_oldest [] = []
drop_oldest (s ∷ ss) = ss

-- The one pass for the smallest and the second-smallest offset.
pub record Lowest : Type 0 where
  pub lowest : ℤ
  pub second : ℤ

lowest_step : ℤ → Lowest → Lowest
lowest_step b l =
    if ltb_ℤ b l.lowest
    then record { lowest = b; second = l.lowest }
    else if ltb_ℤ b l.second
    then record l { second = b }
    else l

pub scan : List Sample → Lowest → Lowest
scan [] l = l
scan (s ∷ ss) l = scan ss (lowest_step s.offset l)

pub anchor : List Sample → ℤ
anchor samples =
    let l = scan samples (record { lowest = max64; second = max64 }) in
    if ltb (length samples) 2 then l.lowest else l.second

-- `BootAnchor::Update`.
pub update : BootAnchor → BootSample → ℤ → BootAnchor × ℤ
update m sample window =
    let same = if same_boot m.boot_id sample.boot_id then m.samples else [] in
    let aged = age_out (saturating_sub sample.at window) same in
    let kept = if length aged == max_samples then drop_oldest aged else aged in
    let samples = kept ++ record { offset = sample.offset; at = sample.at } ∷ [] in
    (record { boot_id = some sample.boot_id; samples = samples }, anchor samples)
