-- ===== src/Documents/Fetch.antt =====
-- The request, the cache in Redis, and fetchWithCache.
use jump_host.Base.{
  ℕ, Bool, true, false, not, Option, none, some, List, leb, if◌then◌else◌, nat_eq, text_eq, Result,
  ok, err, length, take, Text,
}
use jump_host.Base.Maps.{get, put}

-- `conf.sso` and the environment, with `none` for what is not set. The trailing slashes of the URL
-- are gone.
pub record Settings : Type 0 where
  pub url : Option Text
  pub token : Option Text

-- What `fetch` and `resp.json()` answer: a status with a document or the text of the error, or the
-- message of an exception.
pub data Response (V : Type 0) : Type 0 where
  answered : V → Response V
  refused : ℕ → Text → Response V
  failed : Text → Response V

pub data FetchError : Type 0 where
  no_url no_token : FetchError
  http : ℕ → Text → FetchError
  transport : Text → FetchError

abbrev pub is_set : Option Text → Bool
is_set none = false
is_set (some v) = leb 1 (length v)

unfoldable pub request : {V : Type 0} → Settings → Response V → Result FetchError V
request s r =
    if not (is_set s.url)
    then err no_url
    else if not (is_set s.token)
    then err no_token
    else elim r [
      | answered v ↦ ok v
      | refused status body ↦ err (http status (take 300 body))
      | failed message ↦ err (transport message)
    ]

pub record Cached (V : Type 0) : Type 0 where
  pub at : ℕ
  pub value : V

-- The part of Redis that holds the documents, by name.
abbrev pub Cache : Type 0 → Type 0
Cache V = List (Text × Cached V)

-- `cacheWrite` and `cacheRead`; the Boolean says whether Redis answers.
unfoldable pub cache_write : {V : Type 0} → Bool → Text → ℕ → V → Cache V → Cache V
cache_write up name now value c = if up then put name (record { at = now; value = value }) c else c

unfoldable pub cache_read : {V : Type 0} → Bool → Text → Cache V → Option (Cached V)
cache_read up name c = if up then get name c else none

pub record Fetched (V : Type 0) : Type 0 where
  pub value : Option V
  pub stale : Bool
  pub cached_at : Option ℕ
  pub error : Option FetchError

-- The handler of a failure, with what the cache holds.
abbrev pub with_cached :
    {V : Type 0} → FetchError → Option (Cached V) → Cache V → Fetched V × Cache V
with_cached e none c = (record { value = none; stale = true; cached_at = none; error = some e }, c)
with_cached e (some cached) c = (
  record { value = some cached.value; stale = true; cached_at = some cached.at; error = some e },
  c,
)

-- The part after the request. `now` is the time of the write and `later` that of the answer.
abbrev pub with_reply :
    {V : Type 0} → Bool → Text → ℕ → ℕ → Result FetchError V → Cache V → Fetched V × Cache V
with_reply up name now later (ok value) c = (
  record { value = some value; stale = false; cached_at = some later; error = none },
  cache_write up name now value c,
)
with_reply up name now later (err e) c = with_cached e (cache_read up name c) c

unfoldable pub fetch_with_cache :
    {V : Type 0} → Settings → Bool → Text → ℕ → ℕ → Response V → Cache V → Fetched V × Cache V
fetch_with_cache s up name now later r c = with_reply up name now later (request s r) c
