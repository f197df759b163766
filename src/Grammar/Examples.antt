-- ===== src/Grammar/Examples.antt =====
-- Tests of the grammar, and its theorems at concrete usernames.
use jump_host.Base.{
  ◌≡◌, refl, ◌↔◌, true, false, none, some, nat_eq, text_eq, ok, err, all, text, split, index_of,
}
use jump_host.Base.Decimal.{value_from}
use jump_host.Grammar.Defs.{sep, is_uid, is_target_name, parse_username, is_ipv4, invalid_target}
use jump_host.Grammar.Ipv4.{IsQuad, is_ipv4_iff}
use jump_host.Grammar.Parse.{index_of_absent, Denotes, parse_username_iff, parse_username_roundtrip}

direct :
    parse_username (text "ada_-_web01")
    ≡ ok (record { uid = text "ada"; target = some (text "web01") })
unfolding parse_username is_uid is_target_name is_ipv4 all index_of
direct = refl

picker : parse_username (text "ada") ≡ ok (record { uid = text "ada"; target = none })
unfolding parse_username is_uid index_of all
picker = refl

out_of_range : is_ipv4 (text "10.0.0.256") ≡ false
unfolding is_ipv4 split all value_from
out_of_range = refl

bad_target : parse_username (text "ada_-_-x") ≡ err (invalid_target (text "-x"))
unfolding parse_username is_uid is_target_name is_ipv4 split all index_of
bad_target = refl

is_ipv4_iff_example : (is_ipv4 (text "10.1.2.3") ≡ true) ↔ IsQuad (text "10.1.2.3")
is_ipv4_iff_example = is_ipv4_iff (text "10.1.2.3")

parse_username_iff_example :
    (parse_username (text "ada_-_web01")
      ≡ ok (record { uid = text "ada"; target = some (text "web01") }))
    ↔ Denotes (text "ada_-_web01") (text "ada") (some (text "web01"))
parse_username_iff_example =
    parse_username_iff (text "ada_-_web01") (text "ada") (some (text "web01"))

parse_username_roundtrip_example :
    parse_username (text "ada_b_-_10.1.2.3")
    ≡ ok (record { uid = text "ada_b"; target = some (text "10.1.2.3") })
unfolding is_uid is_target_name all index_of
parse_username_roundtrip_example =
    parse_username_roundtrip (text "ada_b") (text "10.1.2.3") refl refl
      (index_of_absent (text "ada_b_-") sep refl)

shadowed_parses : parse_username (text "a_-_-_web") ≡ err (invalid_target (text "-_web"))
unfolding parse_username is_uid is_target_name is_ipv4 split all index_of
shadowed_parses = refl
