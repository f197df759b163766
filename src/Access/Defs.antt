-- ===== src/Access/Defs.antt =====
-- nodejs/utils/access.js: the catalogue filter, the cache and the requests.
use jump_host.Base.{
  ℕ, ◌-◌, ◌*◌, Bool, true, false, not, ◌&&◌, Option, none, some, List, [], ltb, leb, if◌then◌else◌,
  ◌==◌, nat_eq, text_eq, Result, ok, err, length, any, filter, Text, text,
}
use jump_host.Base.Maps.{get, put, delete}
use jump_host.Directory.Host.{Host, Setting, absent, flag, word}

abbrev pub cache_ttl_ms : ℕ
cache_ttl_ms = 30 * 1000

-- `managed === true || managed === 'true'`, and the same at false.
abbrev pub is_set : Bool → Setting → Bool
is_set b absent = false
is_set true (flag v) = v
is_set false (flag v) = not v
is_set true (word w) = w == text "true"
is_set false (word w) = w == text "false"

unfoldable pub is_catalog_host : Host → Bool
is_catalog_host r =
    if not (r.kind == text "host")
    then false
    else if is_set true r.metadata.managed
    then true
    else if is_set false r.metadata.managed
    then false
    else let sources = r.metadata.discovery_sources in
      let auto_discovered = ltb 0 (length sources) && not (any (λ s. s == text "manual") sources) in
      not auto_discovered

-- The error tagged `directory-unreachable`, with the message of the cause.
pub data AccessError : Type 0 where
  directory_unreachable : Text → AccessError

-- What the directory client answers to one call: the resources, or the message of an exception.
abbrev pub Reply : Type 0
Reply = Result Text (List Host)

unfoldable pub all_hosts : Reply → Result AccessError (List Host)
all_hosts (err message) = err (directory_unreachable message)
all_hosts (ok resources) = ok (filter is_catalog_host resources)

pub record Entry : Type 0 where
  pub at : ℕ
  pub hosts : List Host

abbrev pub Cache : Type 0
Cache = List (Text × Entry)

-- The lookup after a miss. `later` is `Date.now()` at the time of the write.
unfoldable pub ask : Cache → Text → ℕ → Reply → Cache × Result AccessError (List Host)
ask cache uid later (err message) = (cache, err (directory_unreachable message))
ask cache uid later (ok resources) =
    let hosts = filter is_catalog_host resources in
    (put uid (record { at = later; hosts = hosts }) cache, ok hosts)

-- `Date.now() - hit.at < CACHE_TTL_MS`. A clock that was set back gives a negative difference in the
-- source, and 0 here; both are below the limit.
abbrev pub is_fresh : ℕ → Entry → Bool
is_fresh now e = ltb (now - e.at) cache_ttl_ms

-- One call at time `now`, with the answer that the directory would give if it were asked.
unfoldable pub accessible_hosts :
    Cache → Text → ℕ → ℕ → Reply → Cache × Result AccessError (List Host)
unfolding ask
accessible_hosts cache uid now later reply = elim (get uid cache) [
  | none ↦ ask cache uid later reply
  | some hit ↦ if is_fresh now hit then (cache, ok hit.hosts) else ask cache uid later reply
]

unfoldable pub clear_cache : Option Text → Cache → Cache
clear_cache none cache = []
clear_cache (some uid) cache = if leb 1 (length uid) then delete uid cache else []
