-- ===== src/Documents/Examples.antt =====
-- A document that is given once, before the directory goes away.
use jump_host.Base.{ℕ, ◌≡◌, refl, true, some, [], ◌∷◌, nat_eq, text_eq, text_beq, ok, err, In, text}
use jump_host.Base.Maps.{get, put}
use jump_host.Documents.Fetch.{
  Settings, Response, answered, failed, transport, request, cache_write, cache_read,
  fetch_with_cache,
}
use jump_host.Documents.Outage.{Call, fetch, after, note, given, fetch-given, fetch-fallback}

abbrev settings : Settings
settings = record { url = some (text "https://directory"); token = some (text "t") }

abbrev first : Call ℕ
first = record { up = true; name = text "peers"; now = 5; later = 6; response = answered 7 }

abbrev outage : Call ℕ
outage = record {
  up = true;
  name = text "peers";
  now = 8;
  later = 9;
  response = failed (text "down");
}

still_there : (fetch settings outage (after settings [] (first ∷ []))).0.value ≡ some 7
unfolding fetch_with_cache request cache_write cache_read after get put text_beq
still_there = refl

fetch-given_example :
    In
      (text "peers", 7)
      (note settings
        (text "peers")
        (request settings outage.response)
        (given settings [] (first ∷ [])))
fetch-given_example = fetch-given settings (first ∷ []) outage 7 still_there

abbrev seven : Response ℕ
seven = answered 7

abbrev down : Response ℕ
down = failed (text "down")

answers : request settings seven ≡ ok 7
unfolding request
answers = refl

fails : request settings down ≡ err (transport (text "down"))
unfolding request
fails = refl

fetch-fallback_example :
    (fetch_with_cache settings true
      (text "peers")
      8
      9
      down
      (fetch_with_cache settings true (text "peers") 5 6 seven []).1).0
    ≡ record {
      value = some 7;
      stale = true;
      cached_at = some 5;
      error = some (transport (text "down"));
    }
fetch-fallback_example =
    fetch-fallback settings (text "peers") 5 6 8 9 seven down [] 7 (transport (text "down")) answers
      fails
