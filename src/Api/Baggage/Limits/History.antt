-- ===== src/Api/Baggage/Limits/History.antt =====
-- A baggage under any sequence of mutations, against a map from keys to values.
use microtel.Prelude.{
  ◌≡◌, refl, ap, ◌∙◌, ◌&&◌, if◌then◌else◌, Bool, true, List, [], ◌∷◌, Option, none, some,
}
use microtel.Prelude.Bytes.{Bytes, bytes_eq}
use microtel.Api.Baggage.{Baggage, get, set, erase, from_header}
use microtel.Api.Baggage.Limits.{IsWithinLimits}
use microtel.Api.Baggage.Limits.Parse.{from_header-IsWithinLimits}
use microtel.Api.Baggage.Limits.Mutators.{
  takes, set-IsWithinLimits, erase-IsWithinLimits, get-set_member, get-erase_member,
}

pub data Mutation : Type 0 where
  sets : Bytes → Bytes → Mutation
  erases : Bytes → Mutation

unfoldable pub mutate : Mutation → Baggage → Baggage
mutate (Mutation.sets k v) b = set b k v
mutate (Mutation.erases k) b = erase b k

-- The mutations, the first one first.
unfoldable pub mutates : List Mutation → Baggage → Baggage
mutates [] b = b
mutates (m ∷ ms) b = mutates ms (mutate m b)

-- A map from keys to values, and what a mutation makes of it when the pair is taken.
abbrev pub Values : Type 0
Values = Bytes → Option Bytes

unfoldable pub step : Mutation → Bool → Values → Values
step (Mutation.sets k v) taken f = λ j. if taken && bytes_eq k j then some v else f j
step (Mutation.erases k) taken f = λ j. if bytes_eq k j then none else f j

unfoldable pub is_taken : Mutation → Baggage → Bool
is_taken (Mutation.sets k v) b = takes b k v
is_taken (Mutation.erases k) b = true

-- The map after the mutations.
unfoldable pub values_after : List Mutation → Baggage → Values → Values
values_after [] b f = f
values_after (m ∷ ms) b f = values_after ms (mutate m b) (step m (is_taken m b) f)

mutate-IsWithinLimits :
    (m : Mutation) (b : Baggage) → IsWithinLimits b → IsWithinLimits (mutate m b)
unfolding mutate
mutate-IsWithinLimits (Mutation.sets k v) b w = set-IsWithinLimits b k v w
mutate-IsWithinLimits (Mutation.erases k) b w = erase-IsWithinLimits b k w

mutates_from-IsWithinLimits :
    (ms : List Mutation) (b : Baggage) → IsWithinLimits b → IsWithinLimits (mutates ms b)
unfolding mutates
mutates_from-IsWithinLimits [] b w = w
mutates_from-IsWithinLimits (m ∷ ms) b w =
    mutates_from-IsWithinLimits ms (mutate m b) (mutate-IsWithinLimits m b w)

-- Whatever header came in and whatever mutations follow, refused ones included, the baggage is empty
-- or a list of at most 180 members with distinct token keys, each of at most 4096 serialised bytes
-- and all of at most 8192 with their separators.
pub mutates-IsWithinLimits :
    (header : Bytes) (ms : List Mutation) → IsWithinLimits (mutates ms (from_header header))
mutates-IsWithinLimits header ms =
    mutates_from-IsWithinLimits ms (from_header header) (from_header-IsWithinLimits header)

get-mutate :
    (m : Mutation) (b : Baggage) (f : Values)
    → IsWithinLimits b
    → ((j : Bytes) → get b j ≡ f j)
    → (j : Bytes) → get (mutate m b) j ≡ step m (is_taken m b) f j
unfolding mutate step is_taken
get-mutate (Mutation.sets k v) b f w h j =
    get-set_member b k v j
    ∙ ap (λ (o : Option Bytes). if takes b k v && bytes_eq k j then some v else o) (h j)
get-mutate (Mutation.erases k) b f w h j =
    get-erase_member b k j ∙ ap (λ (o : Option Bytes). if bytes_eq k j then none else o) (h j)

get-mutates_from :
    (ms : List Mutation) (b : Baggage) (f : Values)
    → IsWithinLimits b
    → ((j : Bytes) → get b j ≡ f j)
    → (j : Bytes) → get (mutates ms b) j ≡ values_after ms b f j
unfolding mutates values_after
get-mutates_from [] b f w h j = h j
get-mutates_from (m ∷ ms) b f w h j =
    get-mutates_from ms (mutate m b) (step m (is_taken m b) f) (mutate-IsWithinLimits m b w)
      (get-mutate m b f w h) j

-- After any mutations of a baggage within the invariant `Get` answers as a map does that starts as
-- the baggage reads: a pair that is refused, for a key that is no token or for a limit, changes nothing, one that is taken sets its key alone,
-- and an erased key reads nothing.
pub get-mutates_member :
    (ms : List Mutation) (b : Baggage) (j : Bytes)
    → IsWithinLimits b
    → get (mutates ms b) j ≡ values_after ms b (get b) j
get-mutates_member ms b j w = get-mutates_from ms b (get b) w (λ k. refl) j
