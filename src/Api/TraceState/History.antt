-- ===== src/Api/TraceState/History.antt =====
-- A trace state under any sequence of mutations, against a map from keys to values.
use microtel.Prelude.{
  ◌≡◌, refl, ap, ◌∙◌, ◌&&◌, if◌then◌else◌, Bool, true, List, [], ◌∷◌, Option, none, some,
}
use microtel.Prelude.Bytes.{Bytes, bytes_eq}
use microtel.Api.TraceState.{TraceState, get, set, erase, from_header, admits}
use microtel.Api.TraceState.Lists.{IsWellFormed, from_header-IsWellFormed}
use microtel.Api.TraceState.Mutators.{set-IsWellFormed, erase-IsWellFormed, get-set, get-erase}

pub data Mutation : Type 0 where
  sets : Bytes → Bytes → Mutation
  erases : Bytes → Mutation

unfoldable pub mutate : Mutation → TraceState → TraceState
mutate (Mutation.sets k v) b = set b k v
mutate (Mutation.erases k) b = erase b k

-- The mutations, the first one first.
unfoldable pub mutates : List Mutation → TraceState → TraceState
mutates [] b = b
mutates (m ∷ ms) b = mutates ms (mutate m b)

-- A map from keys to values, and what a mutation makes of it when the pair is taken.
abbrev pub Values : Type 0
Values = Bytes → Option Bytes

unfoldable pub step : Mutation → Bool → Values → Values
step (Mutation.sets k v) taken f = λ j. if taken && bytes_eq k j then some v else f j
step (Mutation.erases k) taken f = λ j. if bytes_eq k j then none else f j

unfoldable pub is_taken : Mutation → TraceState → Bool
is_taken (Mutation.sets k v) b = admits b k v
is_taken (Mutation.erases k) b = true

-- The map after the mutations.
unfoldable pub values_after : List Mutation → TraceState → Values → Values
values_after [] b f = f
values_after (m ∷ ms) b f = values_after ms (mutate m b) (step m (is_taken m b) f)

mutate-IsWellFormed : (m : Mutation) (b : TraceState) → IsWellFormed b → IsWellFormed (mutate m b)
unfolding mutate
mutate-IsWellFormed (Mutation.sets k v) b w = set-IsWellFormed b k v w
mutate-IsWellFormed (Mutation.erases k) b w = erase-IsWellFormed b k w

mutates_from-IsWellFormed :
    (ms : List Mutation) (b : TraceState) → IsWellFormed b → IsWellFormed (mutates ms b)
unfolding mutates
mutates_from-IsWellFormed [] b w = w
mutates_from-IsWellFormed (m ∷ ms) b w =
    mutates_from-IsWellFormed ms (mutate m b) (mutate-IsWellFormed m b w)

-- Whatever the `tracestate` header holds and whatever mutations follow, refused ones included, the
-- state is null or a non-empty list of at most 32 valid entries with distinct keys.
pub mutates-IsWellFormed :
    (header : Bytes) (ms : List Mutation) → IsWellFormed (mutates ms (from_header header))
mutates-IsWellFormed header ms =
    mutates_from-IsWellFormed ms (from_header header) (from_header-IsWellFormed header)

get-mutate :
    (m : Mutation) (b : TraceState) (f : Values)
    → IsWellFormed b
    → ((j : Bytes) → get b j ≡ f j)
    → (j : Bytes) → get (mutate m b) j ≡ step m (is_taken m b) f j
unfolding mutate step is_taken
get-mutate (Mutation.sets k v) b f w h j =
    get-set b k v j
    ∙ ap (λ (o : Option Bytes). if admits b k v && bytes_eq k j then some v else o) (h j)
get-mutate (Mutation.erases k) b f w h j =
    get-erase b k j w ∙ ap (λ (o : Option Bytes). if bytes_eq k j then none else o) (h j)

get-mutates_from :
    (ms : List Mutation) (b : TraceState) (f : Values)
    → IsWellFormed b
    → ((j : Bytes) → get b j ≡ f j)
    → (j : Bytes) → get (mutates ms b) j ≡ values_after ms b f j
unfolding mutates values_after
get-mutates_from [] b f w h j = h j
get-mutates_from (m ∷ ms) b f w h j =
    get-mutates_from ms (mutate m b) (step m (is_taken m b) f) (mutate-IsWellFormed m b w)
      (get-mutate m b f w h) j

-- After any mutations of a trace state within the invariant `Get` answers as a map does that starts as
-- the trace state reads: a pair that is refused changes nothing, one that is taken sets its key alone,
-- and an erased key reads nothing.
pub get-mutates :
    (ms : List Mutation) (b : TraceState) (j : Bytes)
    → IsWellFormed b
    → get (mutates ms b) j ≡ values_after ms b (get b) j
get-mutates ms b j w = get-mutates_from ms b (get b) w (λ k. refl) j
