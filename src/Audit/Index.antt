-- ===== src/Audit/Index.antt =====
-- The sorted set and the hashes that nodejs/models/audit_event.js keeps in Redis, and `write`.
use jump_host.Base.{
  ℕ, ◌-◌, Bool, true, false, not, ◌&&◌, ◌||◌, Option, none, some, List, [], ◌∷◌, map, ltb,
  if◌then◌else◌, ◌==◌, nat_eq, text_eq, length, take, any, filter, Text,
}
use jump_host.Base.Maps.{put, delete}

-- The order of members with one score.
unfoldable pub text_before : Text → Text → Bool
text_before s [] = false
text_before [] (d ∷ t) = true
text_before (c ∷ s) (d ∷ t) = ltb c d || c == d && text_before s t

-- A member of the sorted set.
pub record Member : Type 0 where
  pub score : ℕ
  pub id : Text

abbrev pub before : Member → Member → Bool
before m n = ltb m.score n.score || m.score == n.score && text_before m.id n.id

unfoldable pub insert : Member → List Member → List Member
insert m [] = m ∷ []
insert m (n ∷ ns) = if before m n then m ∷ n ∷ ns else n ∷ insert m ns

-- `zAdd`, `zRem` and `del`.
abbrev pub z_add : Member → List Member → List Member
z_add m index = insert m (filter (λ n. not (n.id == m.id)) index)

abbrev pub listed : List Text → Text → Bool
listed ids id = any (λ i. i == id) ids

abbrev pub z_rem : List Text → List Member → List Member
z_rem ids index = filter (λ n. not (listed ids n.id)) index

-- A stored hash: its fields, as texts.
abbrev pub Hash : Type 0
Hash = List (Text × Text)

unfoldable pub del : List Text → List (Text × Hash) → List (Text × Hash)
del [] hashes = hashes
del (id ∷ ids) hashes = del ids (delete id hashes)

pub record Redis : Type 0 where
  pub index : List Member
  pub hashes : List (Text × Hash)

-- `(conf.audit && conf.audit.maxEvents) || 50000`
abbrev pub cap : Option ℕ → ℕ
cap none = 50000
cap (some n) = if n == 0 then 50000 else n

-- The part of `write` after `zCard`.
unfoldable pub trim : ℕ → Redis → Redis
trim max r =
    let count = length r.index in
    if ltb max count
    then (let stale = map (λ n. n.id) (take (count - max) r.index) in
        record { index = z_rem stale r.index; hashes = del stale r.hashes })
    else r

unfoldable pub write : Option ℕ → Text → ℕ → Hash → Redis → Redis
write max_events id ts hash r = trim (cap max_events) (record {
  index = z_add (record { score = ts; id = id }) r.index;
  hashes = put id hash r.hashes;
})
