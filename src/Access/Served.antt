-- ===== src/Access/Served.antt =====
-- Every list of hosts that is served comes from a recent answer of the directory.
use jump_host.Base.{
  ℕ, ◌+◌, ◌<◌, ◌≡◌, refl, subst, ◌⊎◌, inl, inr, true, Option, none, some, List, [], ◌∷◌, arith,
  Bool-cases, Option-cases, nat_eq, text_eq, Result, ok, err, filter, In, Text,
}
use jump_host.Base.Maps.{get, get-delete, AllEntries, AllEntries-put}
use jump_host.Directory.Host.{Host}
use jump_host.Access.Defs.{
  cache_ttl_ms, is_catalog_host, AccessError, Reply, Entry, Cache, ask, is_fresh, accessible_hosts,
  clear_cache,
}

-- One request, with the clock at its start and at its write, and what the directory would say.
pub record Request : Type 0 where
  pub uid : Text
  pub now : ℕ
  pub later : ℕ
  pub reply : Reply

pub data Event : Type 0 where
  request : Request → Event
  clear : Option Text → Event

abbrev pub serve : Cache → Request → Cache × Result AccessError (List Host)
serve cache r = accessible_hosts cache r.uid r.now r.later r.reply

-- The cache after a history, newest event first.
unfoldable pub cache_after : List Event → Cache
cache_after [] = []
cache_after (request r ∷ es) = (serve (cache_after es) r).0
cache_after (clear uid ∷ es) = clear_cache uid (cache_after es)

-- A request of this user in the history, and the answer of the directory that the hosts come from.
pub record Source (es : List Event) (uid : Text) (at : ℕ) (hosts : List Host) : Type 0 where
  pub asked : Request
  pub listed : In (request asked) es
  pub same_user : asked.uid ≡ uid
  pub same_time : asked.later ≡ at
  pub resources : List Host
  pub answered : asked.reply ≡ ok resources
  pub filtered : hosts ≡ filter is_catalog_host resources

abbrev HasSources : List Event → Cache → Type 0
HasSources es = AllEntries (λ uid e. Source es uid e.at e.hosts)

Source-cons :
    (ev : Event) (es : List Event) (uid : Text) (at : ℕ) (hosts : List Host)
    → Source es uid at hosts
    → Source (ev ∷ es) uid at hosts
Source-cons ev es uid at hosts s = record {
  asked = s.asked;
  listed = inr s.listed;
  same_user = s.same_user;
  same_time = s.same_time;
  resources = s.resources;
  answered = s.answered;
  filtered = s.filtered;
}

HasSources-cons :
    (ev : Event) (es : List Event) (c : Cache) → HasSources es c → HasSources (ev ∷ es) c
HasSources-cons ev es c h uid e found = Source-cons ev es uid e.at e.hosts (h uid e found)

own_answer :
    (es : List Event) (r : Request) (resources : List Host)
    → r.reply ≡ ok resources
    → Source (request r ∷ es) r.uid r.later (filter is_catalog_host resources)
own_answer es r resources e = record {
  asked = r;
  listed = inl refl;
  same_user = refl;
  same_time = refl;
  resources = resources;
  answered = e;
  filtered = refl;
}

ask-HasSources :
    (es : List Event) (r : Request) (c : Cache) (reply : Reply)
    → r.reply ≡ reply
    → HasSources (request r ∷ es) c
    → HasSources (request r ∷ es) (ask c r.uid r.later reply).0
unfolding ask
ask-HasSources es r c (err message) e h = h
ask-HasSources es r c (ok resources) e h =
    AllEntries-put (λ uid v. Source (request r ∷ es) uid v.at v.hosts) r.uid
      (record { at = r.later; hosts = filter is_catalog_host resources }) c h
      (own_answer es r resources e)

ask-Source :
    (es : List Event) (r : Request) (c : Cache) (reply : Reply) (hosts : List Host)
    → r.reply ≡ reply
    → (ask c r.uid r.later reply).1 ≡ ok hosts
    → Source (request r ∷ es) r.uid r.later hosts
unfolding ask
ask-Source es r c (err message) hosts e h = cc
ask-Source es r c (ok resources) hosts e h =
    subst (Source (request r ∷ es) r.uid r.later) (ground arith) (own_answer es r resources e)

clear-HasSources :
    (es : List Event) (uid : Option Text) (c : Cache)
    → HasSources es c
    → HasSources es (clear_cache uid c)
unfolding clear_cache get
clear-HasSources es none c h uid' e found = cc
clear-HasSources es (some []) c h uid' e found = cc
clear-HasSources es (some (k ∷ ks)) c h uid' e found =
    h uid' e (ground (arith, get-delete (k ∷ ks) uid' c))

-- A call ends in a hit, or in a question to the directory.
serve-cases :
    (P : Cache × Result AccessError (List Host) → Type 0) (c : Cache) (r : Request)
    → ((e : Entry) → get r.uid c ≡ some e → is_fresh r.now e ≡ true → P (c, ok e.hosts))
    → P (ask c r.uid r.later r.reply)
    → P (serve c r)
unfolding accessible_hosts
serve-cases P c r hit miss = elim (Option-cases (get r.uid c)) [
  | inl missed ↦ rw (missed, accessible_hosts) miss
  | inr (e, found) ↦ elim (Bool-cases (is_fresh r.now e)) [
    | inl fresh ↦ rw (found, accessible_hosts) (rw fresh (hit e found fresh))
    | inr stale ↦ rw (found, accessible_hosts) (rw stale miss)
  ]
]

cache_after-HasSources : (es : List Event) → HasSources es (cache_after es)
unfolding cache_after get accessible_hosts
cache_after-HasSources [] = λ uid e found. cc
cache_after-HasSources (clear uid ∷ es) =
    clear-HasSources (clear uid ∷ es) uid (cache_after es)
      (HasSources-cons (clear uid) es (cache_after es) (cache_after-HasSources es))
cache_after-HasSources (request r ∷ es) =
    let c = cache_after es in
    let before = HasSources-cons (request r) es c (cache_after-HasSources es) in
    serve-cases (λ o. HasSources (request r ∷ es) o.0) c r (λ e found fresh. before)
      (ask-HasSources es r c r.reply refl before)

-- Whatever has been asked and cleared before, the hosts served to a user are the catalogue hosts of
-- an answer that the directory gave for this very user: the answer to this call, or one written to
-- the cache less than the limit ago.
pub serve-Source :
    (es : List Event) (r : Request) (hosts : List Host)
    → (serve (cache_after es) r).1 ≡ ok hosts
    → (at : ℕ) × Source (request r ∷ es) r.uid at hosts
      × ((at ≡ r.later) ⊎ (r.now < at + cache_ttl_ms))
serve-Source es r hosts =
    let c = cache_after es in
    serve-cases
      (λ o.
        o.1 ≡ ok hosts
        → (at : ℕ) × Source (request r ∷ es) r.uid at hosts
          × ((at ≡ r.later) ⊎ (r.now < at + cache_ttl_ms)))
      c r
      (λ e found fresh h. (
        e.at,
        subst (Source (request r ∷ es) r.uid e.at) (ground arith) (
            Source-cons (request r) es r.uid e.at e.hosts
              (cache_after-HasSources es r.uid e found)),
        inr (ground arith),
      ))
      (λ h. (r.later, ask-Source es r c r.reply hosts refl h, inl refl))
