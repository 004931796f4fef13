-- ===== src/Sdk/LeafTime/Tests.antt =====
-- A boot anchor with three samples, and the theorems at it.
use microtel.Prelude.{◌≡◌, refl, [], ◌∷◌, some, arith}
use microtel.Prelude.Int.{ℤ, pos, ◌+ℤ◌, ◌-ℤ◌}
use microtel.Sdk.LeafTime.{
  SyncLimits, Sample, BootSample, BootAnchor, saturating_sub, age_out, anchor, scan, lowest_step,
  update,
}
use microtel.Sdk.LeafTime.Anchor.{Bounded}

abbrev at_time : ℤ → ℤ → Sample
at_time offset at = record { offset = offset; at = at }

abbrev before : BootAnchor
before = record {
  boot_id = some (pos 7);
  samples = at_time (pos 50) (pos 1) ∷ at_time (pos 30) (pos 2) ∷ [];
}

abbrev received : BootSample
received = record { boot_id = pos 7; offset = pos 40; at = pos 3 }

-- The second smallest of 50, 30 and 40.
second_of_three : (update before received (pos 100)).1 ≡ pos 40
unfolding update age_out anchor scan lowest_step saturating_sub ◌-ℤ◌ ◌+ℤ◌
second_of_three = refl

-- A sample of another boot starts the window again.
other_boot : (update before (record received { boot_id = pos 8 }) (pos 100)).1 ≡ pos 40
unfolding update age_out anchor scan lowest_step saturating_sub ◌-ℤ◌ ◌+ℤ◌
other_boot = refl

before-Bounded : Bounded before.samples
unfolding Bounded
before-Bounded = (omega arith, (omega arith, tt))

abbrev limits : SyncLimits
limits = record { max_sync_age = pos 60; max_clock_skew = pos 5 }
