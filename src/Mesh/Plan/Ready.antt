-- ===== src/Mesh/Plan/Ready.antt =====
-- When a plan is made, and what it says of its site.
use jump_host.Base.{
  ℕ, ◌≤◌, ◌≡◌, refl, ap, ◌∙◌, Option, none, some, List, [], ◌∷◌, ◌++◌, append-nil, arith, ◌==◌,
  eq_of_ne, nat_eq, text_eq, ok, any, Text, false,
}
use jump_host.Base.Decimal.{decimal}
use jump_host.Grammar.Ipv4.{dotted}
use jump_host.Mesh.Roster.{Client, Site, truthy}
use jump_host.Mesh.Addressing.{
  of_number, assert_site_id, mesh_address, site_cidr, site_gateway_cidr, shadow_cidr, shadow_slots,
}
use jump_host.Mesh.Addressing.Sites.{assert_site_id_iff, mesh_text, site_shown, tails, slots}
use jump_host.Mesh.Plan.{
  PeersDoc, Netmap, Plan, ready, netmap_at, netmaps_of, plan_with, plan_site, plan_reconcile,
}

-- The texts that a plan of a site has, by the numbers of its addresses.
abbrev pub in_site : ℕ → ℕ → ℕ → ℕ → Text
in_site id c d prefix = dotted 10 id c d ++ b'/' ∷ decimal prefix

-- The LAN behind a slot, as the roster has it: an absent or empty text is none.
abbrev pub mapped : ℕ → ℕ → Option Text → List Netmap
mapped id slot none = []
mapped id slot (some []) = []
mapped id slot (some (c ∷ lan)) =
    record { slot = slot; shadow = in_site id slot 0 24; physical = c ∷ lan } ∷ []

abbrev pub netmaps_for : ℕ → Option Site → List Netmap
netmaps_for id none = []
netmaps_for id (some site) = mapped id 168 site.lan168 ++ mapped id 172 site.lan172

-- What a plan says of its site.
abbrev pub IsOfSite : ℕ → Option Site → Plan → Type 0
IsOfSite id own p =
    (p.site_id ≡ id)
    × (p.addresses ≡ (dotted 172 24 0 id ++ b'/' ∷ decimal 32) ∷ in_site id 0 1 16 ∷ [])
    × (p.site_cidr ≡ in_site id 0 0 16)
    × (p.netmaps ≡ netmaps_for id own)

module _ (id : ℕ) (low : 1 ≤ id) (high : id ≤ 254) where
  accepted : assert_site_id (of_number id) ≡ ok id
  accepted = (assert_site_id_iff (of_number id) id).1 (refl, low, high)

  mesh_address_text : mesh_address (of_number id) ≡ ok (dotted 172 24 0 id ++ b'/' ∷ decimal 32)
  unfolding mesh_address
  mesh_address_text = rw (accepted, mesh_text) refl

  gateway_text : site_gateway_cidr (of_number id) ≡ ok (in_site id 0 1 16)
  unfolding site_gateway_cidr
  gateway_text = rw accepted (ap ok (site_shown id 0 1 16 _ tails.1))

  site_cidr_text : site_cidr (of_number id) ≡ ok (in_site id 0 0 16)
  unfolding site_cidr
  site_cidr_text = rw accepted (ap ok (site_shown id 0 0 16 _ tails.0))

  shadow_168_text : shadow_cidr (of_number id) (of_number 168) ≡ ok (in_site id 168 0 24)
  unfolding shadow_cidr any
  shadow_168_text = rw (accepted, slots.0) (ap ok (site_shown id 168 0 24 _ tails.3))

  shadow_172_text : shadow_cidr (of_number id) (of_number 172) ≡ ok (in_site id 172 0 24)
  unfolding shadow_cidr any
  shadow_172_text = rw (accepted, slots.1) (ap ok (site_shown id 172 0 24 _ tails.4))

  netmap_at-mapped :
      (slot : ℕ) (lan : Option Text)
      → shadow_cidr (of_number id) (of_number slot) ≡ ok (in_site id slot 0 24)
      → netmap_at id slot (truthy lan) ≡ ok (mapped id slot lan)
  netmap_at-mapped slot none e = refl
  netmap_at-mapped slot (some []) e = refl
  netmap_at-mapped slot (some (c ∷ lan)) e = rw e refl

  netmaps_of_site : (own : Option Site) → netmaps_of id own shadow_slots ≡ ok (netmaps_for id own)
  unfolding netmaps_of
  netmaps_of_site none = refl
  netmaps_of_site (some site) =
      rw
        (
          netmap_at-mapped 168 site.lan168 shadow_168_text,
          netmap_at-mapped 172 site.lan172 shadow_172_text,
          append-nil,
        )
        refl

  plan_site_total :
      (iface : Text) (doc : PeersDoc) (clients : List Client) (own : Option Site)
      → (p : Plan) × (plan_site iface id doc clients own ≡ ok (ready p)) × IsOfSite id own p
  unfolding plan_site
  plan_site_total iface doc clients own = (
    plan_with iface id doc clients (dotted 172 24 0 id ++ b'/' ∷ decimal 32) (in_site id 0 1 16)
        (netmaps_for id own) (in_site id 0 0 16),
    rw (accepted, mesh_address_text, gateway_text, netmaps_of_site own, site_cidr_text) refl,
    (refl, refl, refl, refl),
  )

plan_reconcile-some :
    (iface : Text) (doc : PeersDoc) (clients : List Client) (own : Option Site) (id : ℕ)
    → doc.local_site_id ≡ some id
    → 1 ≤ id
    → plan_reconcile iface (some doc) clients own ≡ plan_site iface id doc clients own
unfolding plan_reconcile
plan_reconcile-some iface doc clients own id found low =
    let nonzero : (id == 0) ≡ false = eq_of_ne id 0 (omega arith) in ground arith

-- A site id from 1 to 254 gives a plan, whatever the rest of the documents say. It has the site's id,
-- the mesh address 172.24.0.s/32 and the gateway's 10.s.0.1/16, the range 10.s.0.0/16, and one NETMAP
-- for each LAN that the roster gives the site, in the order of the slots: 10.s.168.0/24 to the first,
-- 10.s.172.0/24 to the second.
pub plan_reconcile_ready :
    (iface : Text) (doc : PeersDoc) (clients : List Client) (own : Option Site) (id : ℕ)
    → doc.local_site_id ≡ some id
    → 1 ≤ id
    → id ≤ 254
    → (p : Plan) × (plan_reconcile iface (some doc) clients own ≡ ok (ready p)) × IsOfSite id own p
plan_reconcile_ready iface doc clients own id found low high =
    let (p, made, of_site) = plan_site_total id low high iface doc clients own in
    (p, plan_reconcile-some iface doc clients own id found low ∙ made, of_site)
