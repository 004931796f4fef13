-- ===== src/Api/Baggage/Tests.antt =====
-- Small baggages, and the theorems at them.
use microtel.Prelude.{List, [], ◌∷◌, ◌≡◌, refl, some}
use microtel.Prelude.Bytes.{
  codes, Bytes, bytes_eq, all, split_at, trim, trim_front, trim_back, is_optional_whitespace,
}
use microtel.Api.Baggage.{
  Baggage, make_entry, from_header, to_header, get, find, seal, parse_members, take_member,
  parse_member, parse_parts, admit, append_property, append_to, contains, member_properties,
  parse_properties, total_with, append_members, append_member, member_text, property_text,
}
use microtel.Api.Baggage.Octets.{
  is_baggage_octet, decode_value, append_encoded, encoded_size, is_token, is_token_char, is_alpha,
  decode_escape, decode_octet, hex_digit_value, holds, is_digit, is_hex_digit, is_wire_value,
  needs_escape, push_back,
}
use microtel.Api.Baggage.Limits.{IsWithinLimits}
use microtel.Api.Baggage.Limits.Parse.{from_header-IsWithinLimits}
use microtel.Api.Baggage.Limits.History.{
  Mutation, mutates, values_after, mutates-IsWithinLimits, get-mutates_member,
}

abbrev header : Bytes
header = codes "user = a%20b;ttl=1 , bad key=1,k=v,user=again"

abbrev parsed : Baggage
parsed = from_header header

-- The bad key and the second `user` are dropped, the value is decoded.
parsed_user : get parsed (codes "user") ≡ some (codes "a b")
unfolding get find from_header seal parse_members take_member trim trim_back trim_front split_at
    is_optional_whitespace parse_member parse_parts is_token all is_token_char is_alpha decode_value
    admit append_property append_to contains decode_escape decode_octet encoded_size hex_digit_value
    holds is_baggage_octet is_digit is_hex_digit is_wire_value make_entry member_properties
    needs_escape parse_properties push_back total_with bytes_eq
parsed_user = refl

-- Written again without the optional white space.
parsed_text : to_header parsed ≡ codes "user=a%20b;ttl=1,k=v"
unfolding get find from_header seal parse_members take_member trim trim_back trim_front split_at
    is_optional_whitespace parse_member parse_parts is_token all is_token_char is_alpha decode_value
    admit append_property append_to contains decode_escape decode_octet encoded_size hex_digit_value
    holds is_baggage_octet is_digit is_hex_digit is_wire_value make_entry member_properties
    needs_escape parse_properties push_back total_with bytes_eq to_header append_members
    append_member member_text property_text append_encoded
parsed_text = refl

abbrev mutations : List Mutation
mutations =
    Mutation.sets (codes "user") (codes "c d")
    ∷ Mutation.erases (codes "k")
    ∷ Mutation.sets (codes "bad key") (codes "1")
    ∷ []

mutates-IsWithinLimits_example : IsWithinLimits (mutates mutations (from_header header))
mutates-IsWithinLimits_example = mutates-IsWithinLimits header mutations

get-mutates_member_example :
    get (mutates mutations parsed) (codes "user")
    ≡ values_after mutations parsed (get parsed) (codes "user")
get-mutates_member_example =
    get-mutates_member mutations parsed (codes "user") (from_header-IsWithinLimits header)
