-- ===== src/Json/Tests.antt =====
-- A roster of two members.
use l2voice_chat.Base.{◌≡◌, refl, arith, Bytes, codes, map, ◌∷◌, []}
use l2voice_chat.Json.{GroupMember, extract_array_body, parse_members, parse_member_array}
use l2voice_chat.Json.Fuel.{parse_member_array_ends}

abbrev members : Bytes
members = codes "{\"id\":7,\"voice_active\":true},{\"id\":8,\"role\":2}"

abbrev pushed : Bytes
pushed = codes "{\"party_members\":[{\"id\":7,\"voice_active\":true},{\"id\":8,\"role\":2}]}"

parse_member_array_ends_example :
    parse_member_array pushed (codes "party_members") ≡ parse_members 100 members
parse_member_array_ends_example =
    parse_member_array_ends pushed (codes "party_members") members 100
      (unfold extract_array_body in refl) (omega arith)

parse_member_array_members :
    map (λ (m : GroupMember). m.player_id) (parse_member_array pushed (codes "party_members"))
    ≡ 7 ∷ 8 ∷ []
unfolding parse_member_array
parse_member_array_members = refl
