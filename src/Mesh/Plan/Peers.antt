-- ===== src/Mesh/Plan/Peers.antt =====
-- What the planned peers may do, and when a plan is made.
use jump_host.Base.{◌≡◌, ◌≢◌, ◌⊎◌, some, List, [], ◌∷◌, ◌++◌, nat_eq, text_eq, In, Text, text}
use jump_host.Mesh.Roster.{Client}
use jump_host.Mesh.Plan.{PeerRow, PeersDoc, site, exit_client, client, Peer, Plan, exit_peers}

-- What a planned peer may be, by its kind: a device sends from its own address alone, neither a
-- device nor a gateway that exits here is dialled, and a site is kept alive exactly if it is dialled.
abbrev pub Permitted : PeersDoc → List Client → Peer → Type 0
Permitted doc clients p = elim p.kind [
  | site ↦
      ((r : PeerRow) × In r doc.peers
        × (p.allowed_ips ≡ r.allowed_ips)
        × (r.public_key ≡ some p.public_key))
      × (((p.endpoint ≡ []) × (p.keepalive ≡ 0)) ⊎ ((p.endpoint ≢ []) × (p.keepalive ≡ 25)))
  | exit_client ↦
      ((r : PeerRow) × In r doc.exit_peers
        × (p.allowed_ips ≡ r.allowed_ips)
        × (r.public_key ≡ some p.public_key))
      × (p.endpoint ≡ [])
      × (p.keepalive ≡ 0)
  | client ↦
      ((c : Client) × (a : Text) × In c clients
        × (c.assigned_ip ≡ some a)
        × (p.allowed_ips ≡ (a ++ text "/32") ∷ [])
        × (c.public_key ≡ some p.public_key))
      × (p.endpoint ≡ [])
      × (p.keepalive ≡ 0)
]
