-- ===== src/Sdk/SumStorage/Cardinality.antt =====
-- The number of points stays bounded, whatever attribute sets come.
use microtel.Prelude.{
  ℕ, suc, ◌≤◌, ◌<◌, ◌≡◌, refl, sym, ap, ◌∙◌, inl, inr, Bool, true, false, leb, if◌then◌else◌, List,
  [], ◌∷◌, Option, length, arith, Bool-cases,
}
use microtel.Prelude.Int.{ℤ}
use microtel.Sdk.Diagnostics.{Diagnostics}
use microtel.Sdk.SumStorage.{
  SumStorage, Call, World, is_delta, is_some, find, add_to, needs_drop, collect, add, call, calls,
}
use microtel.Sdk.SumStorage.Conserve.{new}

module _ {K : Type 0} (key_eq : K → K → Bool) where
  length-add_to :
      (k : K) (v : ℤ) (ps : List (K × ℤ))
      → length (add_to key_eq k v ps)
        ≡ (if is_some (find key_eq k ps) then length ps else suc (length ps))
  unfolding add_to find
  length-add_to k v [] = refl
  length-add_to k v (p ∷ ps) = elim (Bool-cases (key_eq p.0 k)) [
    | inl e ↦ rw e refl
    | inr e ↦ rw e (ground (arith, length-add_to k v ps))
  ]

  length-add_to_as :
      {b : Bool} (k : K) (v : ℤ) (ps : List (K × ℤ))
      → is_some (find key_eq k ps) ≡ b
      → length (add_to key_eq k v ps) ≡ (if b then length ps else suc (length ps))
  length-add_to_as k v ps f =
      length-add_to k v ps ∙ ap (λ (c : Bool). if c then length ps else suc (length ps)) f

  find-add_to_kept :
      (k j : K) (v : ℤ) (ps : List (K × ℤ))
      → is_some (find key_eq j ps) ≡ true
      → is_some (find key_eq j (add_to key_eq k v ps)) ≡ true
  unfolding add_to find
  find-add_to_kept k j v [] h = cc
  find-add_to_kept k j v (p ∷ ps) h = elim (Bool-cases (key_eq p.0 k)) [
    | inl e ↦ elim (Bool-cases (key_eq p.0 j)) [
      | inl f ↦ rw (e, f) refl
      | inr f ↦ rw (e, f) (rw f at h)
    ]
    | inr e ↦ elim (Bool-cases (key_eq p.0 j)) [
      | inl f ↦ rw (e, f) refl
      | inr f ↦ rw (e, f) (find-add_to_kept k j v ps (rw f at h))
    ]
  ]

  find-add_to_self :
      (k : K) (v : ℤ) (ps : List (K × ℤ))
      → key_eq k k ≡ true
      → is_some (find key_eq k (add_to key_eq k v ps)) ≡ true
  unfolding add_to find
  find-add_to_self k v [] h = rw h refl
  find-add_to_self k v (p ∷ ps) h = elim (Bool-cases (key_eq p.0 k)) [
    | inl e ↦ rw (e, e) refl
    | inr e ↦ rw (e, e) (find-add_to_self k v ps h)
  ]

  -- More than the limit only with the overflow set among the points.
  record IsBounded (overflow : K) (ps : List (K × ℤ)) (max : ℕ) : Type 0 where
    size : length ps ≤ suc max
    past : max < length ps → is_some (find key_eq overflow ps) ≡ true

  same_max :
      (overflow : K) (ps : List (K × ℤ)) (a b : ℕ)
      → a ≡ b
      → IsBounded overflow ps a
      → IsBounded overflow ps b
  same_max overflow ps a b e h = rw (← e) h

module _ {K E : Type 0} (key_eq : K → K → Bool) (overflow : K) where
  known :
      (v : ℤ) (k : K) (s : SumStorage K E)
      → IsBounded key_eq overflow s.points s.max_cardinality
      → is_some (find key_eq k s.points) ≡ true
      → IsBounded key_eq overflow (add_to key_eq k v s.points) s.max_cardinality
  known v k s b f =
      let n = length-add_to_as key_eq k v s.points f in
      record {
        size = omega (arith, n, b.size);
        past = λ l. find-add_to_kept key_eq k overflow v s.points (b.past (omega (arith, n)));
      }

  past_limit :
      (v : ℤ) (s : SumStorage K E)
      → key_eq overflow overflow ≡ true
      → IsBounded key_eq overflow s.points s.max_cardinality
      → IsBounded key_eq overflow (add_to key_eq overflow v s.points) s.max_cardinality
  past_limit v s o b = elim (Bool-cases (is_some (find key_eq overflow s.points))) [
    | inl f ↦ known v overflow s b f
    | inr f ↦
        let n = length-add_to_as key_eq overflow v s.points f in
        record {
          size = ground (arith, n, b.size, b.past);
          past = λ l. find-add_to_self key_eq overflow v s.points o;
        }
  ]

  fresh :
      (v : ℤ) (k : K) (s : SumStorage K E)
      → is_some (find key_eq k s.points) ≡ false
      → leb s.max_cardinality (length s.points) ≡ false
      → IsBounded key_eq overflow (add_to key_eq k v s.points) s.max_cardinality
  fresh v k s f g =
      let n = length-add_to_as key_eq k v s.points f in
      record { size = ground (arith, n); past = λ l. absurd (ground (arith, n)) }

  add-IsBounded :
      (v : ℤ) (k : K) (e : Option E) (s : SumStorage K E)
      → key_eq overflow overflow ≡ true
      → IsBounded key_eq overflow s.points s.max_cardinality
      → IsBounded key_eq overflow (add key_eq overflow v k e s).points s.max_cardinality
  unfolding add needs_drop
  add-IsBounded v k e s o b =
      let full = leb s.max_cardinality (length s.points) in
      elim (Bool-cases (is_some (find key_eq k s.points))) [
        | inl f ↦ rw f (known v k s b f)
        | inr f ↦ elim (Bool-cases full) [
          | inl g ↦ rw (f, g) (past_limit v s o b)
          | inr g ↦ rw (f, g) (fresh v k s f g)
        ]
      ]

  call-IsBounded :
      (c : Call K E) (w : World K E)
      → key_eq overflow overflow ≡ true
      → IsBounded key_eq overflow w.storage.points w.storage.max_cardinality
      → IsBounded key_eq overflow
          (call key_eq overflow c w).storage.points
          w.storage.max_cardinality
  unfolding call collect
  call-IsBounded (Call.adds v k e) w o b = add-IsBounded v k e w.storage o b
  call-IsBounded (Call.collects t) w o b = elim (Bool-cases (is_delta t)) [
    | inl d ↦ rw d (record { size = omega arith; past = λ l. absurd (omega arith) })
    | inr d ↦ rw d b
  ]

  call-max :
      (c : Call K E) (w : World K E)
      → (call key_eq overflow c w).storage.max_cardinality ≡ w.storage.max_cardinality
  unfolding call collect add
  call-max (Call.adds v k e) w = refl
  call-max (Call.collects t) w = refl

  calls-IsBounded :
      (cs : List (Call K E)) (w : World K E) (max : ℕ)
      → key_eq overflow overflow ≡ true
      → w.storage.max_cardinality ≡ max
      → IsBounded key_eq overflow w.storage.points max
      → IsBounded key_eq overflow (calls key_eq overflow cs w).storage.points max
  unfolding calls
  calls-IsBounded [] w max o m b = b
  calls-IsBounded (c ∷ cs) w max o m b =
      let one =
        call-IsBounded c w o
          (same_max key_eq overflow w.storage.points max w.storage.max_cardinality (sym m) b) in
      calls-IsBounded cs (call key_eq overflow c w) max o (call-max c w ∙ m) (
        same_max key_eq overflow (call key_eq overflow c w).storage.points w.storage.max_cardinality
          max m one)

  -- When the overflow set equals itself: however many attribute sets are counted, there is at most
  -- one point more than the limit, and then the overflow set is among the points.
  length-calls :
      (cs : List (Call K E)) (max : ℕ) (diag : Option Diagnostics)
      → key_eq overflow overflow ≡ true
      → (length (calls key_eq overflow cs (new max diag)).storage.points ≤ suc max)
        × (max < length (calls key_eq overflow cs (new max diag)).storage.points
            → is_some
                (find key_eq overflow (calls key_eq overflow cs (new max diag)).storage.points)
              ≡ true)
  length-calls cs max diag o =
      let b =
        calls-IsBounded cs (new max diag) max o refl
          (record { size = omega arith; past = λ l. absurd (omega arith) }) in
      (b.size, b.past)
