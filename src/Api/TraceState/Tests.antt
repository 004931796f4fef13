-- ===== src/Api/TraceState/Tests.antt =====
-- Runs of the parser, and the theorems at a two-entry state.
use microtel.Prelude.{List, ◌≡◌, refl, [], ◌∷◌, some, arith}
use microtel.Prelude.Bytes.{
  codes, bytes_eq, all, split_at, trim, trim_front, trim_back, is_optional_whitespace,
}
use microtel.Api.TraceState.{
  TraceState, is_lower_alpha, is_digit, is_key_tail_char, has_valid_key_tail,
  is_lower_alpha_led_component, is_tenant_id, is_valid_key, is_value_char, is_valid_value, contains,
  parse_member, take_member, parse_members, from_header, to_header_from, to_header, get,
}
use microtel.Api.TraceState.Lists.{IsWellFormed}
use microtel.Api.TraceState.RoundTrip.{from_header-to_header}
use microtel.Api.TraceState.History.{
  Mutation, mutates, values_after, mutates-IsWellFormed, get-mutates,
}

abbrev two : TraceState
two = some (
    record { key = codes "rojo"; value = codes "00f0" }
    ∷ record { key = codes "t1@congo"; value = codes "a b" }
    ∷ [])

parse_two : from_header (codes " rojo=00f0\t,, t1@congo=a b ") ≡ two
unfolding from_header parse_members take_member parse_member split_at trim trim_front trim_back
    is_optional_whitespace is_valid_key is_tenant_id is_lower_alpha_led_component has_valid_key_tail
    is_key_tail_char is_lower_alpha is_digit all is_valid_value is_value_char contains bytes_eq
parse_two = refl

print_two : to_header two ≡ codes "rojo=00f0,t1@congo=a b"
unfolding to_header to_header_from
print_two = refl

two-IsWellFormed : IsWellFormed two
unfolding is_valid_key is_tenant_id is_lower_alpha_led_component has_valid_key_tail split_at
    is_key_tail_char is_lower_alpha is_digit all is_valid_value is_value_char contains bytes_eq
two-IsWellFormed = (
  λ e. cc,
  record {
    members = ((refl, refl), ((refl, refl), tt));
    distinct = (refl, (refl, tt));
    bounded = omega arith;
  },
)

abbrev mutations : List Mutation
mutations =
    Mutation.sets (codes "rojo") (codes "2")
    ∷ Mutation.erases (codes "rojo")
    ∷ Mutation.sets (codes "A") (codes "1")
    ∷ []

mutates-IsWellFormed_example : IsWellFormed (mutates mutations (from_header (codes "a=1,b=2,a=3")))
mutates-IsWellFormed_example = mutates-IsWellFormed (codes "a=1,b=2,a=3") mutations

get-mutates_example :
    get (mutates mutations two) (codes "rojo") ≡ values_after mutations two (get two) (codes "rojo")
get-mutates_example = get-mutates mutations two (codes "rojo") two-IsWellFormed

from_header-to_header_example : from_header (to_header two) ≡ two
from_header-to_header_example = from_header-to_header two two-IsWellFormed
