-- ===== src/Access/Cache.antt =====
-- What one call of `accessibleHosts` answers, and what it keeps.
use jump_host.Base.{
  ℕ, ◌+◌, ◌<◌, ◌≡◌, ◌↔◌, ◌⊎◌, inl, inr, true, false, not, ◌&&◌, some, List, [], ◌∷◌, arith, ltb,
  Option-cases, ◌==◌, eq_iff, nat_eq, text_eq, ok, err, length, any, filter, In, Text, text,
}
use jump_host.Base.Maps.{get, get-put_self}
use jump_host.Directory.Host.{Host}
use jump_host.Access.Defs.{
  cache_ttl_ms, is_set, is_catalog_host, directory_unreachable, Reply, Entry, Cache, ask, is_fresh,
  accessible_hosts,
}

has_manual_iff :
    (sources : List Text)
    → (any (λ s. s == text "manual") sources ≡ true) ↔ In (text "manual") sources
unfolding any
has_manual_iff [] = (λ h. cc, λ m. absurd m)
has_manual_iff (s ∷ sources) = ground (arith, has_manual_iff sources, eq_iff s (text "manual"))

discovered_iff :
    (sources : List Text)
    → (ltb 0 (length sources) && not (any (λ s. s == text "manual") sources) ≡ false)
      ↔ ((sources ≡ []) ⊎ In (text "manual") sources)
discovered_iff [] = ground arith
discovered_iff (s ∷ sources) = ground (arith, has_manual_iff (s ∷ sources))

-- The rule of the catalogue: an explicit promotion decides; without one, a host is in unless it was
-- discovered and no source of it is manual.
is_catalog_host_iff :
    (r : Host)
    → (is_catalog_host r ≡ true) ↔ (
        (r.kind ≡ text "host")
        × ((is_set true r.metadata.managed ≡ true)
            ⊎ ((is_set false r.metadata.managed ≡ false)
                × ((r.metadata.discovery_sources ≡ [])
                    ⊎ In (text "manual") r.metadata.discovery_sources))))
unfolding is_catalog_host
is_catalog_host_iff r =
    ground (arith, eq_iff r.kind (text "host"), discovered_iff r.metadata.discovery_sources)

-- An outage is reported as an outage, and leaves the cache as it was.
accessible_hosts_outage :
    (cache : Cache) (uid : Text) (now later : ℕ) (message : Text)
    → ((e : Entry) → get uid cache ≡ some e → is_fresh now e ≡ false)
    → accessible_hosts cache uid now later (err message)
      ≡ (cache, err (directory_unreachable message))
unfolding accessible_hosts
accessible_hosts_outage cache uid now later message stale = elim (Option-cases (get uid cache)) [
  | inl missed ↦ ground arith
  | inr (e, found) ↦ ground (arith, stale e found)
]

-- A retry right after a failed call asks the directory again: it answers exactly as the call would
-- have answered without the failure before it.
accessible_hosts_retry :
    (cache : Cache) (uid : Text) (now later now' later' : ℕ) (message : Text) (reply : Reply)
    → accessible_hosts (accessible_hosts cache uid now later (err message)).0 uid now' later' reply
      ≡ accessible_hosts cache uid now' later' reply
unfolding accessible_hosts
accessible_hosts_retry cache uid now later now' later' message reply = ground arith

accessible_hosts_miss :
    (cache : Cache) (uid : Text) (now later : ℕ) (reply : Reply)
    → ((e : Entry) → get uid cache ≡ some e → is_fresh now e ≡ false)
    → accessible_hosts cache uid now later reply ≡ ask cache uid later reply
unfolding accessible_hosts
accessible_hosts_miss cache uid now later reply stale = elim (Option-cases (get uid cache)) [
  | inl missed ↦ ground arith
  | inr (e, found) ↦ ground (arith, stale e found)
]

-- A second call within the limit is answered from the cache, whatever the directory would say.
pub accessible_hosts_hit :
    (cache : Cache) (uid : Text) (now later now' later' : ℕ) (resources : List Host) (reply : Reply)
    → ((e : Entry) → get uid cache ≡ some e → is_fresh now e ≡ false)
    → now' < later + cache_ttl_ms
    → (accessible_hosts
        (accessible_hosts cache uid now later (ok resources)).0
        uid
        now'
        later'
        reply).1
      ≡ ok (filter is_catalog_host resources)
unfolding accessible_hosts
accessible_hosts_hit cache uid now later now' later' resources reply stale soon =
    rw (accessible_hosts_miss cache uid now later (ok resources) stale) (
      ground (
        arith,
        get-put_self uid (record { at = later; hosts = filter is_catalog_host resources }) cache,
      ))
