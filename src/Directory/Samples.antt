-- ===== src/Directory/Samples.antt =====
-- Sample hosts for the tests.
use jump_host.Base.{
  ℕ, ◌+◌, Option, none, some, List, [], ◌∷◌, map, if◌then◌else◌, nat_eq, text_eq, Text, text,
  is_upper,
}
use jump_host.Directory.Host.{Host, Platform, absent}

abbrev lower_ascii : ℕ → ℕ
lower_ascii c = if is_upper c then c + 32 else c

-- ASCII letters, and a constructor of URLs that always throws.
abbrev pub ascii : Platform
ascii = record { lower = map lower_ascii; url_hostname = λ _. none }

abbrev pub make_host : Text → Text → Option Text → Host
make_host slug name ip = record {
  kind = text "host";
  slug = some slug;
  name = some name;
  metadata = record {
    ip = ip;
    address = none;
    ssh_port = none;
    ssh_host_key_fp = none;
    managed = absent;
    discovery_sources = [];
  };
}

abbrev pub web01 : Host
web01 = make_host (text "host_web01") (text "Web 01") (some (text "10.1.0.7"))

abbrev pub web02 : Host
web02 = make_host (text "host_web02") (text "web01") none

abbrev pub inventory : List Host
inventory = web01 ∷ web02 ∷ []
