-- ===== src/Mesh/Plan/Examples.antt =====
-- The plan of site 4 with one neighbour, one device and a LAN behind it.
use jump_host.Base.{◌≡◌, refl, Option, none, some, [], ◌∷◌, arith, nat_eq, text_eq, ok, text}
use jump_host.Mesh.Roster.{Client, Site}
use jump_host.Mesh.Addressing
use jump_host.Mesh.Plan.{PeerRow, PeersDoc, Plan, ready, plan_with, plan_reconcile}
use jump_host.Mesh.Plan.Ready.{IsOfSite, plan_reconcile_ready}

abbrev neighbour : PeerRow
neighbour = record {
  slug = some (text "nyc");
  site_id = 6;
  public_key = some (text "k6");
  endpoint = some (text "nyc:51820");
  allowed_ips = text "172.24.0.6/32" ∷ text "10.6.0.0/16" ∷ [];
}

abbrev document : PeersDoc
document = record { local_site_id = some 4; peers = neighbour ∷ []; exit_peers = [] }

abbrev phone : Client
phone = record {
  uid = text "ann";
  name = text "phone";
  public_key = some (text "kd");
  assigned_ip = some (text "10.4.128.2");
  exit_site_id = none;
}

abbrev here : Option Site
here = some (record {
  site_id = 4;
  slug = some (text "lon");
  gateway_public_key = none;
  gateway_endpoint = none;
  lan168 = some (text "192.168.1.0/24");
  lan172 = none;
})

plan_reconcile_ready_example :
    (p : Plan) × (plan_reconcile (text "wg0") (some document) (phone ∷ []) here ≡ ok (ready p))
    × IsOfSite 4 here p
plan_reconcile_ready_example =
    plan_reconcile_ready (text "wg0") document (phone ∷ []) here 4 refl (omega arith) (omega arith)

abbrev made : Plan
made =
    plan_with (text "wg0") 4 document (phone ∷ []) (text "172.24.0.4/32") (text "10.4.0.1/16")
      (record { slot = 168; shadow = text "10.4.168.0/24"; physical = text "192.168.1.0/24" } ∷ [])
      (text "10.4.0.0/16")
