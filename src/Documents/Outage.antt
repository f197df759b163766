-- ===== src/Documents/Outage.antt =====
-- What a fetch returns while the directory answers, and while it does not.
use jump_host.Base.{
  ℕ, ◌≡◌, refl, sym, ap, ap₂, subst, inl, inr, Bool, true, false, Option, none, some, List, [], ◌∷◌,
  arith, Bool-cases, ◌==◌, eq_iff, nat_eq, text_eq, Result, ok, err, In, Text,
}
use jump_host.Base.Maps.{get, get-put, get-put_self}
use jump_host.Documents.Fetch.{
  Settings, Response, FetchError, request, Cached, Cache, cache_write, cache_read, Fetched,
  with_cached, with_reply, fetch_with_cache,
}

-- One fetch, with the times of its write and its answer.
pub record Call (V : Type 0) : Type 0 where
  pub up : Bool
  pub name : Text
  pub now : ℕ
  pub later : ℕ
  pub response : Response V

module _ {V : Type 0} (s : Settings) where
  abbrev pub fetch : Call V → Cache V → Fetched V × Cache V
  fetch k c = fetch_with_cache s k.up k.name k.now k.later k.response c

  -- The cache after the calls.
  unfoldable pub after : Cache V → List (Call V) → Cache V
  after c [] = c
  after c (k ∷ ks) = after (fetch k c).1 ks

  abbrev pub note : Text → Result FetchError V → List (Text × V) → List (Text × V)
  note name (ok v) past = (name, v) ∷ past
  note name (err e) past = past

  -- The documents that the directory gave, with their names, the last one first.
  unfoldable pub given : List (Text × V) → List (Call V) → List (Text × V)
  given past [] = past
  given past (k ∷ ks) = given (note k.name (request s k.response) past) ks

  Known : Cache V → List (Text × V) → Type 0
  Known c past = (name : Text) (e : Cached V) → get name c ≡ some e → In (name, e.value) past

  with_cached-cache :
      (e : FetchError) (o : Option (Cached V)) (c : Cache V) → (with_cached e o c).1 ≡ c
  with_cached-cache e none c = refl
  with_cached-cache e (some cached) c = refl

  with_cached-value :
      (e : FetchError) (o : Option (Cached V)) (c : Cache V) (v : V)
      → (with_cached e o c).0.value ≡ some v
      → (cached : Cached V) × (o ≡ some cached) × (cached.value ≡ v)
  with_cached-value e none c v h = cc
  with_cached-value e (some cached) c v h = (cached, refl, cc)

  write-Known :
      (up : Bool) (named : Text) (now : ℕ) (v : V) (c : Cache V) (past : List (Text × V))
      → Known c past
      → Known (cache_write up named now v c) ((named, v) ∷ past)
  unfolding Known cache_write
  write-Known false named now v c past known name e found = inr (known name e found)
  write-Known true named now v c past known name e found = elim (Bool-cases (named == name)) [
    | inl same ↦
        let stored = get-put named name (record { at = now; value = v }) c in
        let is_it : (record { at = now; value = v }) ≡ e = ground arith in
        inl (ap₂ (λ x y. (x, y)) (sym ((eq_iff named name).0 same)) (sym (ap (λ x. x.value) is_it)))
    | inr other ↦
        let stored = get-put named name (record { at = now; value = v }) c in
        inr (known name e (ground arith))
  ]

  reply-Known :
      (k : Call V) (r : Result FetchError V) (c : Cache V) (past : List (Text × V))
      → Known c past
      → Known (with_reply k.up k.name k.now k.later r c).1 (note k.name r past)
  reply-Known k (ok v) c past known = write-Known k.up k.name k.now v c past known
  reply-Known k (err e) c past known =
      subst (λ x. Known x past) (sym (with_cached-cache e (cache_read k.up k.name c) c)) known

  fetch-Known :
      (k : Call V) (c : Cache V) (past : List (Text × V))
      → Known c past
      → Known (fetch k c).1 (note k.name (request s k.response) past)
  unfolding fetch_with_cache
  fetch-Known k c past known = reply-Known k (request s k.response) c past known

  after-Known :
      (ks : List (Call V)) (c : Cache V) (past : List (Text × V))
      → Known c past
      → Known (after c ks) (given past ks)
  unfolding after given
  after-Known [] c past known = known
  after-Known (k ∷ ks) c past known = after-Known ks _ _ (fetch-Known k c past known)

  read-get :
      (up : Bool) (name : Text) (c : Cache V) (e : Cached V)
      → cache_read up name c ≡ some e
      → get name c ≡ some e
  unfolding cache_read
  read-get up name c e h = ground arith

  replied-In :
      (k : Call V) (r : Result FetchError V) (c : Cache V) (past : List (Text × V)) (v : V)
      → Known c past
      → (with_reply k.up k.name k.now k.later r c).0.value ≡ some v
      → In (k.name, v) (note k.name r past)
  unfolding Known
  replied-In k (ok w) c past v known h = inl cc
  replied-In k (err e) c past v known h =
      let (cached, there, is_it) = with_cached-value e (cache_read k.up k.name c) c v h in
      subst (λ x. In (k.name, x) past) is_it
        (known k.name cached (read-get k.up k.name c cached there))

  fetched-In :
      (k : Call V) (c : Cache V) (past : List (Text × V)) (v : V)
      → Known c past
      → (fetch k c).0.value ≡ some v
      → In (k.name, v) (note k.name (request s k.response) past)
  unfolding fetch_with_cache
  fetched-In k c past v known found = replied-In k (request s k.response) c past v known found

  -- From an empty cache, whatever happens to the directory and to Redis, a fetch never returns a
  -- document that the directory did not give for this name, in this fetch or an earlier one.
  pub fetch-given :
      (ks : List (Call V)) (k : Call V) (v : V)
      → (fetch k (after [] ks)).0.value ≡ some v
      → In (k.name, v) (note k.name (request s k.response) (given [] ks))
  unfolding Known get
  fetch-given ks k v found =
      fetched-In k (after [] ks) (given [] ks) v (after-Known ks [] [] (λ n e h. cc)) found

  -- A fetch that fails right after one that succeeded returns the document of that one, marked as
  -- stale, with its time and the error, as long as Redis answers.
  pub fetch-fallback :
      (name : Text) (now later next last : ℕ) (first second : Response V) (c : Cache V) (v : V)
      (e : FetchError)
      → request s first ≡ ok v
      → request s second ≡ err e
      → (fetch_with_cache s true name next last second
          (fetch_with_cache s true name now later first c).1).0
        ≡ record { value = some v; stale = true; cached_at = some now; error = some e }
  unfolding fetch_with_cache cache_write cache_read
  fetch-fallback name now later next last first second c v e good bad =
      rw (good, bad, get-put_self name (record { at = now; value = v }) c) refl
