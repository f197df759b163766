-- ===== src/Mesh/Plan.antt =====
-- nodejs/services/mesh_state.js: planReconcile, the interface that the directory's documents ask for.
use jump_host.Base.{
  ℕ, zero, suc, ◌+◌, ◌-◌, ◌*◌, ◌/◌, ◌%◌, ◌^◌, ◌≤◌, ◌<◌, min, pred, ◌≡◌, refl, sym, ap, ap₂, ◌∙◌,
  subst, ◌≡⟨◌⟩◌, ◌∎, ◌≢◌, ◌↔◌, ◌⊎◌, inl, inr, Bool, true, false, not, ◌&&◌, ◌||◌, Option, none,
  some, List, [], ◌∷◌, ◌++◌, map, reverse, append-nil, append_assoc, map-append, arith, ltb, leb,
  if◌then◌else◌, ltb→lt, lt→ltb, leb→le, le→leb, tests, Bool-cases, Option-cases, Eq, ◌==◌, eq_iff,
  eq_refl, eq_of_ne, nat_eq, text_eq, text_beq, Result, ok, err, ◌>>=◌, ◌>>◌, require, Result-cases,
  length, length-append, get_elem?, take, drop, length-take, take-append, drop-append, all, any,
  find, filter, In, All, All-In, All-from_members, In-append, Text, text, is_digit, is_lower,
  is_upper, split, join, Lacks, split_of_Lacks, split-append, split-Lacks, join-split, starts_with,
  index_of, starts_with_iff, split-join, all_iff, any_iff, find-eq-some, find-eq-none, In-filter,
  length-filter-le, All-imp, drop-nil, drop-add, take-append-drop,
}
pub mod Peers
pub mod Ready
mod Examples
use jump_host.Base.Decimal.{decimal}
use jump_host.Mesh.Roster.{truthy, Client, Site, is_truthy, or_text}
use jump_host.Mesh.Addressing
use jump_host.Mesh.Addressing.{
  of_number, AddressError, assert_site_id, mesh_address, site_gateway_cidr, shadow_cidr,
  shadow_slots,
}

-- A row of `peers` or of `exitPeers`, with `[]` for absent `allowedIps`.
pub record PeerRow : Type 0 where
  pub slug : Option Text
  pub site_id : ℕ
  pub public_key : Option Text
  pub endpoint : Option Text
  pub allowed_ips : List Text

-- `local_site_id` is `none` where the document has none.
pub record PeersDoc : Type 0 where
  pub local_site_id : Option ℕ
  pub peers : List PeerRow
  pub exit_peers : List PeerRow

pub data Kind : Type 0 where
  site exit_client client : Kind

pub record Peer : Type 0 where
  pub kind : Kind
  pub label : Text
  pub public_key : Text
  pub endpoint : Text
  pub allowed_ips : List Text
  pub keepalive : ℕ
  pub exit_site_id : Option ℕ

pub record Route : Type 0 where
  pub cidr : Text
  pub dev : Text

pub record Netmap : Type 0 where
  pub slot : ℕ
  pub shadow : Text
  pub physical : Text

pub record Plan : Type 0 where
  pub site_id : ℕ
  pub addresses : List Text
  pub peers : List Peer
  pub routes : List Route
  pub netmaps : List Netmap
  pub site_cidr : Text

-- `{ ready: false, … }` or the plan.
pub data Planned : Type 0 where
  not_ready : Planned
  ready : Plan → Planned

abbrev is_usable : PeerRow → Bool
is_usable p = is_truthy p.public_key && ltb 0 (length p.allowed_ips)

abbrev site_peer : PeerRow → Peer
site_peer p = record {
  kind = site;
  label = or_text p.slug (text "site " ++ decimal p.site_id);
  public_key = or_text p.public_key [];
  endpoint = or_text p.endpoint [];
  allowed_ips = p.allowed_ips;
  keepalive = if is_truthy p.endpoint then 25 else 0;
  exit_site_id = none;
}

abbrev exit_peer : PeerRow → Peer
exit_peer p = record {
  kind = exit_client;
  label = or_text p.slug (text "site " ++ decimal p.site_id) ++ text " (exiting here)";
  public_key = or_text p.public_key [];
  endpoint = [];
  allowed_ips = p.allowed_ips;
  keepalive = 0;
  exit_site_id = none;
}

abbrev client_peer : Client → Peer
client_peer c = record {
  kind = client;
  label = c.uid ++ b'/' ∷ c.name;
  public_key = or_text c.public_key [];
  endpoint = [];
  allowed_ips = (or_text c.assigned_ip [] ++ text "/32") ∷ [];
  keepalive = 0;
  exit_site_id = c.exit_site_id;
}

-- The three loops that collect the peers.
unfoldable pub site_peers : List PeerRow → List Peer
site_peers [] = []
site_peers (p ∷ ps) = if is_usable p then site_peer p ∷ site_peers ps else site_peers ps

unfoldable pub exit_peers : List PeerRow → List Peer
exit_peers [] = []
exit_peers (p ∷ ps) = if is_usable p then exit_peer p ∷ exit_peers ps else exit_peers ps

unfoldable pub client_peers : List Client → List Peer
client_peers [] = []
client_peers (c ∷ cs) =
    if is_truthy c.public_key && is_truthy c.assigned_ip
    then client_peer c ∷ client_peers cs
    else client_peers cs

abbrev pub lan_of : Option Site → ℕ → Option Text
lan_of none slot = none
lan_of (some s) slot = if slot == 168 then s.lan168 else s.lan172

-- The loop over the shadow slots, and its body.
abbrev pub netmap_at : ℕ → ℕ → Option Text → Result AddressError (List Netmap)
netmap_at id slot none = ok []
netmap_at id slot (some physical) = do
  shadow ← shadow_cidr (of_number id) (of_number slot)
  ok (record { slot = slot; shadow = shadow; physical = physical } ∷ [])

unfoldable pub netmaps_of : ℕ → Option Site → List ℕ → Result AddressError (List Netmap)
netmaps_of id s [] = ok []
netmaps_of id s (slot ∷ slots) = do
  here ← netmap_at id slot (truthy (lan_of s slot))
  rest ← netmaps_of id s slots
  ok (here ++ rest)

-- The plan's record, from the texts that the addressing gave. `iface` is the interface's name, from
-- the environment.
abbrev pub plan_with : Text → ℕ → PeersDoc → List Client → Text → Text → List Netmap → Text → Plan
plan_with iface id doc clients identity gateway netmaps cidr = record {
  site_id = id;
  addresses = identity ∷ gateway ∷ [];
  peers = site_peers doc.peers ++ (exit_peers doc.exit_peers ++ client_peers clients);
  routes =
      record { cidr = text "10.0.0.0/8"; dev = iface }
      ∷ record { cidr = text "172.24.0.0/16"; dev = iface }
      ∷ [];
  netmaps = netmaps;
  site_cidr = cidr;
}

-- The plan for a site id that is there.
unfoldable pub plan_site :
    Text → ℕ → PeersDoc → List Client → Option Site → Result AddressError Planned
plan_site iface id doc clients own = do
  _ ← assert_site_id (of_number id)
  identity ← mesh_address (of_number id)
  gateway ← site_gateway_cidr (of_number id)
  netmaps ← netmaps_of id own shadow_slots
  cidr ← Addressing.site_cidr (of_number id)
  ok (ready (plan_with iface id doc clients identity gateway netmaps cidr))

-- `none` for no peers document; the clients are `[]` where their document is missing.
unfoldable pub plan_reconcile :
    Text → Option PeersDoc → List Client → Option Site → Result AddressError Planned
plan_reconcile iface none clients own = ok not_ready
plan_reconcile iface (some doc) clients own = elim doc.local_site_id [
  | none ↦ ok not_ready
  | some id ↦ if id == 0 then ok not_ready else plan_site iface id doc clients own
]
