-- ===== src/Sdk/Samplers/Retune.antt =====
-- `TrySetRatio` against a map over the tree: every ratio sampler in it is set, and nothing else.
use microtel.Prelude.{
  ◌≡◌, refl, sym, ap, inl, inr, Bool, true, false, ◌||◌, if◌then◌else◌, arith, Bool-cases,
}
use microtel.Prelude.Int.{eq_of_parts}
use microtel.Sdk.Samplers.{
  Double, TraceIdRatioSampler, Sampler, SamplerHandle, Children, Status, double_eq,
  compute_threshold, normalise_ratio, make_ratio, out_of_range, try_set_ratio, try_delegate,
  try_children, set_sampler_ratio,
}

-- The tree with the ratio sampler in every place that has one.
unfoldable mutual
  pub with_ratio : TraceIdRatioSampler → Sampler → Sampler
  with_ratio t (Sampler.trace_id_ratio old) = Sampler.trace_id_ratio t
  with_ratio t (Sampler.parent_based root) = Sampler.parent_based (with_ratio t root)
  with_ratio t (Sampler.rule p a b) = Sampler.rule p (handle_with_ratio t a) (handle_with_ratio t b)
  with_ratio t (Sampler.chain cs mode) = Sampler.chain (children_with_ratio t cs) mode
  with_ratio t s = s

  pub handle_with_ratio : TraceIdRatioSampler → SamplerHandle → SamplerHandle
  handle_with_ratio t SamplerHandle.empty = SamplerHandle.empty
  handle_with_ratio t (SamplerHandle.holds s) = SamplerHandle.holds (with_ratio t s)

  pub children_with_ratio : TraceIdRatioSampler → Children → Children
  children_with_ratio t Children.nil = Children.nil
  children_with_ratio t (Children.cons s cs) =
      Children.cons (with_ratio t s) (children_with_ratio t cs)

unfoldable mutual
  pub has_ratio : Sampler → Bool
  has_ratio (Sampler.trace_id_ratio t) = true
  has_ratio (Sampler.parent_based root) = has_ratio root
  has_ratio (Sampler.rule p a b) = handle_has_ratio a || handle_has_ratio b
  has_ratio (Sampler.chain cs mode) = children_have_ratio cs
  has_ratio s = false

  pub handle_has_ratio : SamplerHandle → Bool
  handle_has_ratio SamplerHandle.empty = false
  handle_has_ratio (SamplerHandle.holds s) = has_ratio s

  pub children_have_ratio : Children → Bool
  children_have_ratio Children.nil = false
  children_have_ratio (Children.cons s cs) = has_ratio s || children_have_ratio cs

-- The threshold of every ratio sampler is the one of its ratio, as the factory and a retune leave
-- it.
unfoldable mutual
  pub IsTuned : Sampler → Type 0
  IsTuned (Sampler.trace_id_ratio t) = t.threshold ≡ compute_threshold t.ratio
  IsTuned (Sampler.parent_based root) = IsTuned root
  IsTuned (Sampler.rule p a b) = HandleIsTuned a × HandleIsTuned b
  IsTuned (Sampler.chain cs mode) = AreTuned cs
  IsTuned s = Unit

  pub HandleIsTuned : SamplerHandle → Type 0
  HandleIsTuned SamplerHandle.empty = Unit
  HandleIsTuned (SamplerHandle.holds s) = IsTuned s

  pub AreTuned : Children → Type 0
  AreTuned Children.nil = Unit
  AreTuned (Children.cons s cs) = IsTuned s × AreTuned cs

or_left : (a b : Bool) → (a || b) ≡ false → a ≡ false
or_left a b h = ground arith

or_right : (a b : Bool) → (a || b) ≡ false → b ≡ false
or_right a b h = ground arith

or_swap : (a b : Bool) → (a || b) ≡ (b || a)
or_swap a b = ground arith

double_eq_sound : (a b : Double) → double_eq a b ≡ true → a ≡ b
unfolding double_eq
double_eq_sound (Double.finite a) (Double.finite b) h =
    ap Double.finite (eq_of_parts a b (ground arith))
double_eq_sound Double.infinity Double.infinity h = refl
double_eq_sound Double.minus_infinity Double.minus_infinity h = refl
double_eq_sound _ _ h = cc

same_ratio :
    (t : TraceIdRatioSampler) (r : Double)
    → t.ratio ≡ r
    → t.threshold ≡ compute_threshold t.ratio
    → t ≡ record { ratio = r; threshold = compute_threshold r }
same_ratio t r e h = rw (← e) (rw (← h) refl)

normalise_ratio-in_range : (r : Double) → out_of_range r ≡ false → normalise_ratio r ≡ r
unfolding normalise_ratio out_of_range
normalise_ratio-in_range (Double.finite z) h = ground arith
normalise_ratio-in_range Double.nan h = cc
normalise_ratio-in_range Double.infinity h = cc
normalise_ratio-in_range Double.minus_infinity h = cc

abbrev pub tuned : Double → TraceIdRatioSampler
tuned r = record { ratio = r; threshold = compute_threshold r }

mutual
  unfolding try_set_ratio with_ratio has_ratio IsTuned

  try_set_ratio-with_ratio :
      (r : Double) (s : Sampler)
      → IsTuned s
      → ((try_set_ratio r s).0 ≡ with_ratio (tuned r) s) × ((try_set_ratio r s).1 ≡ has_ratio s)
  try_set_ratio-with_ratio r (Sampler.trace_id_ratio t) h =
      elim (Bool-cases (double_eq r t.ratio)) [
        | inl e ↦
            rw e (
              ap Sampler.trace_id_ratio (same_ratio t r (sym (double_eq_sound r t.ratio e)) h),
              refl,
            )
        | inr e ↦ rw e (refl, refl)
      ]
  try_set_ratio-with_ratio r (Sampler.parent_based root) h =
      let i = try_set_ratio-with_ratio r root h in (ap Sampler.parent_based i.0, i.1)
  try_set_ratio-with_ratio r (Sampler.rule p a b) h =
      let i = try_delegate-with_ratio r a h.0 in
      let j = try_delegate-with_ratio r b h.1 in
      rw (i.0, i.1, j.0, j.1) (refl, or_swap (handle_has_ratio b) (handle_has_ratio a))
  try_set_ratio-with_ratio r (Sampler.chain cs mode) h =
      let i = try_children-with_ratio r cs h in rw (i.0, i.1) (refl, refl)
  try_set_ratio-with_ratio r Sampler.always_on h = (refl, refl)
  try_set_ratio-with_ratio r Sampler.always_off h = (refl, refl)
  try_set_ratio-with_ratio r (Sampler.custom f) h = (refl, refl)

  pub try_delegate-with_ratio :
      (r : Double) (x : SamplerHandle)
      → HandleIsTuned x
      → ((try_delegate r x).0 ≡ handle_with_ratio (tuned r) x)
        × ((try_delegate r x).1 ≡ handle_has_ratio x)
  try_delegate-with_ratio r SamplerHandle.empty h = (refl, refl)
  try_delegate-with_ratio r (SamplerHandle.holds s) h =
      let i = try_set_ratio-with_ratio r s h in (ap SamplerHandle.holds i.0, i.1)

  try_children-with_ratio :
      (r : Double) (cs : Children)
      → AreTuned cs
      → ((try_children r cs).0 ≡ children_with_ratio (tuned r) cs)
        × ((try_children r cs).1 ≡ children_have_ratio cs)
  try_children-with_ratio r Children.nil h = (refl, refl)
  try_children-with_ratio r (Children.cons s cs) h =
      let i = try_set_ratio-with_ratio r s h.0 in
      let j = try_children-with_ratio r cs h.1 in rw (i.0, i.1, j.0, j.1) (refl, refl)

-- Without a ratio sampler in it the tree is the same.
mutual
  unfolding with_ratio has_ratio

  with_ratio_none :
      (t : TraceIdRatioSampler) (s : Sampler) → has_ratio s ≡ false → with_ratio t s ≡ s
  with_ratio_none t (Sampler.trace_id_ratio old) h = cc
  with_ratio_none t (Sampler.parent_based root) h =
      ap Sampler.parent_based (with_ratio_none t root h)
  with_ratio_none t (Sampler.rule p a b) h =
      rw
        (
          handle_with_ratio_none t a (or_left (handle_has_ratio a) (handle_has_ratio b) h),
          handle_with_ratio_none t b (or_right (handle_has_ratio a) (handle_has_ratio b) h),
        )
        refl
  with_ratio_none t (Sampler.chain cs mode) h = rw (children_with_ratio_none t cs h) refl
  with_ratio_none t Sampler.always_on h = refl
  with_ratio_none t Sampler.always_off h = refl
  with_ratio_none t (Sampler.custom f) h = refl

  handle_with_ratio_none :
      (t : TraceIdRatioSampler) (x : SamplerHandle)
      → handle_has_ratio x ≡ false
      → handle_with_ratio t x ≡ x
  handle_with_ratio_none t SamplerHandle.empty h = refl
  handle_with_ratio_none t (SamplerHandle.holds s) h =
      ap SamplerHandle.holds (with_ratio_none t s h)

  children_with_ratio_none :
      (t : TraceIdRatioSampler) (cs : Children)
      → children_have_ratio cs ≡ false
      → children_with_ratio t cs ≡ cs
  children_with_ratio_none t Children.nil h = refl
  children_with_ratio_none t (Children.cons s cs) h =
      rw
        (
          with_ratio_none t s (or_left (has_ratio s) (children_have_ratio cs) h),
          children_with_ratio_none t cs (or_right (has_ratio s) (children_have_ratio cs) h),
        )
        refl

-- What a retune answers, and the sampler after it.
unfoldable pub outcome : Bool → Double → SamplerHandle → SamplerHandle × Status
outcome shut_down r h =
    if shut_down
    then (h, Status.already_shut_down)
    else if out_of_range r
    then (h, Status.invalid_argument)
    else if handle_has_ratio h
    then (handle_with_ratio (make_ratio r) h, Status.completed)
    else (h, Status.unsupported)

-- For a tree whose ratio samplers have the thresholds of their ratios: `SetSamplerRatio` puts the
-- sampler that the factory makes for the ratio in the place of every
-- ratio sampler of the tree, and says so; after a shutdown, for a ratio that is no number from 0 to
-- 1 or without a ratio sampler in the tree it says which, and nothing is changed.
pub set_sampler_ratio-outcome :
    (shut_down : Bool) (r : Double) (h : SamplerHandle)
    → HandleIsTuned h
    → set_sampler_ratio shut_down r h ≡ outcome shut_down r h
unfolding set_sampler_ratio outcome make_ratio
set_sampler_ratio-outcome true r h t = refl
set_sampler_ratio-outcome false r h t = elim (Bool-cases (out_of_range r)) [
  | inl e ↦ rw e refl
  | inr e ↦
      let i = try_delegate-with_ratio r h t in
      let n = normalise_ratio-in_range r e in
      elim (Bool-cases (handle_has_ratio h)) [
        | inl f ↦ rw (e, i.0, i.1, f, n) refl
        | inr f ↦ rw (e, i.1, f, i.0, handle_with_ratio_none (tuned r) h f) refl
      ]
]
