-- ===== src/Directory/Examples.antt =====
-- Tests of target matching, and its theorems at concrete hosts.
use jump_host.Base.{
  ◌≡◌, refl, ◌↔◌, true, false, some, nat_eq, text_eq, text_beq, ok, find, In, text,
}
use jump_host.Grammar.Defs.{is_ipv4}
use jump_host.Directory.Samples.{ascii, inventory, web01}
use jump_host.Directory.Target.{host, raw, addr_host, find_host, match_target, host_endpoint}
use jump_host.Directory.Match.{tests_of, Chosen, Unanswered, match_target-Chosen, match_target-raw}

-- The prefixed slug goes before the name of another host.
by_short_slug : match_target ascii (text "WEB01") inventory false ≡ ok (host web01)
unfolding match_target find_host find text_beq
by_short_slug = refl

by_address : match_target ascii (text "10.1.0.7") inventory true ≡ ok (host web01)
unfolding match_target find_host find text_beq addr_host
by_address = refl

endpoint : host_endpoint ascii web01 22 ≡ record { address = some (text "10.1.0.7"); port = 22 }
unfolding host_endpoint
endpoint = refl

match_target-Chosen_example :
    In web01 inventory × Chosen (tests_of ascii (text "web01")) inventory web01
unfolding match_target find_host find text_beq
match_target-Chosen_example = match_target-Chosen ascii (text "web01") inventory false web01 refl

match_target-raw_example :
    (match_target ascii (text "10.9.9.9") inventory true ≡ ok (raw (text "10.9.9.9"))) ↔ (
      (text "10.9.9.9" ≡ text "10.9.9.9")
      × (true ≡ true)
      × (is_ipv4 (text "10.9.9.9") ≡ true)
      × Unanswered (tests_of ascii (text "10.9.9.9")) inventory)
match_target-raw_example = match_target-raw ascii (text "10.9.9.9") inventory true (text "10.9.9.9")
