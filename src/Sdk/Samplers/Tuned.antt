-- ===== src/Sdk/Samplers/Tuned.antt =====
-- Any sequence of retunes keeps the threshold of every ratio sampler the one of its ratio.
use microtel.Prelude.{refl, inl, inr, Bool, true, false, List, [], ◌∷◌, Bool-cases}
use microtel.Sdk.Samplers.{
  Double, Sampler, SamplerHandle, Children, out_of_range, set_sampler_ratio,
}
use microtel.Sdk.Samplers.Retune.{
  with_ratio, handle_with_ratio, children_with_ratio, handle_has_ratio, IsTuned, HandleIsTuned,
  AreTuned, tuned, try_delegate-with_ratio,
}

-- A retuned tree is tuned again.
mutual
  unfolding with_ratio IsTuned

  with_ratio-IsTuned : (r : Double) (s : Sampler) → IsTuned s → IsTuned (with_ratio (tuned r) s)
  with_ratio-IsTuned r (Sampler.trace_id_ratio t) h = refl
  with_ratio-IsTuned r (Sampler.parent_based root) h = with_ratio-IsTuned r root h
  with_ratio-IsTuned r (Sampler.rule p a b) h =
      (handle_with_ratio-IsTuned r a h.0, handle_with_ratio-IsTuned r b h.1)
  with_ratio-IsTuned r (Sampler.chain cs mode) h = children_with_ratio-AreTuned r cs h
  with_ratio-IsTuned r Sampler.always_on h = tt
  with_ratio-IsTuned r Sampler.always_off h = tt
  with_ratio-IsTuned r (Sampler.custom f) h = tt

  handle_with_ratio-IsTuned :
      (r : Double) (x : SamplerHandle)
      → HandleIsTuned x
      → HandleIsTuned (handle_with_ratio (tuned r) x)
  handle_with_ratio-IsTuned r SamplerHandle.empty h = tt
  handle_with_ratio-IsTuned r (SamplerHandle.holds s) h = with_ratio-IsTuned r s h

  children_with_ratio-AreTuned :
      (r : Double) (cs : Children) → AreTuned cs → AreTuned (children_with_ratio (tuned r) cs)
  children_with_ratio-AreTuned r Children.nil h = tt
  children_with_ratio-AreTuned r (Children.cons s cs) h =
      (with_ratio-IsTuned r s h.0, children_with_ratio-AreTuned r cs h.1)

one_retune :
    (shut_down : Bool) (r : Double) (h : SamplerHandle)
    → HandleIsTuned h
    → HandleIsTuned (set_sampler_ratio shut_down r h).0
unfolding set_sampler_ratio
one_retune true r h t = t
one_retune false r h t = elim (Bool-cases (out_of_range r)) [
  | inl e ↦ rw e t
  | inr e ↦
      let i = try_delegate-with_ratio r h t in
      let k = handle_with_ratio-IsTuned r h t in
      elim (Bool-cases (handle_has_ratio h)) [
        | inl f ↦ rw (e, i.0, i.1, f) k
        | inr f ↦ rw (e, i.1, f, i.0) k
      ]
]

-- The retunes, the first one first, each with whether the provider was shut down before it.
unfoldable pub retunes : List (Bool × Double) → SamplerHandle → SamplerHandle
retunes [] h = h
retunes (c ∷ cs) h = retunes cs (set_sampler_ratio c.0 c.1 h).0

-- Whatever ratios are set, every ratio sampler of the tree keeps the threshold of its ratio.
retunes-IsTuned :
    (cs : List (Bool × Double)) (h : SamplerHandle) → HandleIsTuned h → HandleIsTuned (retunes cs h)
unfolding retunes
retunes-IsTuned [] h t = t
retunes-IsTuned (c ∷ cs) h t =
    retunes-IsTuned cs (set_sampler_ratio c.0 c.1 h).0 (one_retune c.0 c.1 h t)
