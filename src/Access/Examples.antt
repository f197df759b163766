-- ===== src/Access/Examples.antt =====
-- Tests of the access cache, and its theorems at concrete requests.
use jump_host.Base.{
  ℕ, ◌+◌, ◌<◌, ◌≡◌, refl, ◌⊎◌, true, [], ◌∷◌, arith, nat_eq, text_eq, text_beq, ok, err, any,
  filter, text,
}
use jump_host.Base.Maps.{get, put}
use jump_host.Directory.Host.{Host, flag}
use jump_host.Directory.Samples.{web01, inventory}
use jump_host.Access.Defs.{
  cache_ttl_ms, is_catalog_host, directory_unreachable, accessible_hosts, all_hosts,
}
use jump_host.Access.Cache.{accessible_hosts_hit}
use jump_host.Access.Served.{Request, request, serve, cache_after, Source, serve-Source}

abbrev discovered : Host
discovered = record web01 {
  metadata = record (web01.metadata) { discovery_sources = text "proxmox" ∷ [] };
}

abbrev promoted : Host
promoted = record discovered { metadata = record (discovered.metadata) { managed = flag true } }

catalogue : filter is_catalog_host (web01 ∷ discovered ∷ promoted ∷ []) ≡ web01 ∷ promoted ∷ []
unfolding is_catalog_host filter any text_beq
catalogue = refl

unreachable :
    all_hosts (err (text "ECONNREFUSED")) ≡ err (directory_unreachable (text "ECONNREFUSED"))
unfolding all_hosts
unreachable = refl

abbrev first : Request
first = record { uid = text "ada"; now = 1000; later = 1005; reply = ok (web01 ∷ discovered ∷ []) }

abbrev second : Request
second = record { uid = text "ada"; now = 20000; later = 20000; reply = err (text "timeout") }

served_again : (serve (cache_after (request first ∷ [])) second).1 ≡ ok (web01 ∷ [])
unfolding cache_after accessible_hosts get put is_catalog_host filter any text_beq
served_again = refl

accessible_hosts_hit_example :
    (accessible_hosts
      (accessible_hosts [] (text "ada") 1 2 (ok inventory)).0
      (text "ada")
      900
      901
      (err (text "timeout"))).1
    ≡ ok (filter is_catalog_host inventory)
unfolding get
accessible_hosts_hit_example =
    accessible_hosts_hit [] (text "ada") 1 2 900 901 inventory (err (text "timeout"))
      (λ e found. cc) (omega arith)

serve-Source_example :
    (at : ℕ) × Source (request second ∷ request first ∷ []) (text "ada") at (web01 ∷ [])
    × ((at ≡ 20000) ⊎ (20000 < at + cache_ttl_ms))
unfolding cache_after accessible_hosts get put is_catalog_host filter any text_beq
serve-Source_example = serve-Source (request first ∷ []) second (web01 ∷ []) refl
