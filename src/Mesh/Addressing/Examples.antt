-- ===== src/Mesh/Addressing/Examples.antt =====
-- Tests of the addresses, and the address plan of site 4.
use jump_host.Base.{ℕ, ◌+◌, ◌≡◌, refl, some, [], ◌∷◌, arith, nat_eq, text_eq, ok, err, any, text}
use jump_host.Base.Decimal.{decimal}
use jump_host.Mesh.Addressing.{
  of_number, bad_site_id, bad_slot, assert_site_id, mesh_address, site_cidr, site_gateway_cidr,
  shadow_cidr, mesh_ip, site_gateway_ip, peer_allowed_ips,
}
use jump_host.Mesh.Addressing.Blocks.{Block, ip, Disjoint}
use jump_host.Mesh.Addressing.Sites.{
  result_block, from_to, site_blocks, sites-Disjoint, site_cidr_block, mesh_address_block,
}

peers_of_six : peer_allowed_ips (of_number 6) ≡ ok (text "172.24.0.6/32" ∷ text "10.6.0.0/16" ∷ [])
unfolding peer_allowed_ips site_cidr assert_site_id decimal
peers_of_six = refl

gateway_of_four : site_gateway_ip (of_number 4) ≡ ok (text "10.4.0.1")
unfolding site_gateway_ip assert_site_id decimal
gateway_of_four = refl

identity_of_four : mesh_ip (of_number 4) ≡ ok (text "172.24.0.4")
unfolding mesh_ip assert_site_id decimal
identity_of_four = refl

out_of_range : mesh_address (of_number 255) ≡ err bad_site_id
unfolding mesh_address assert_site_id
out_of_range = refl

no_such_slot : shadow_cidr (of_number 3) (of_number 99) ≡ err bad_slot
unfolding shadow_cidr assert_site_id any
no_such_slot = refl

-- The slot's text is taken over as it stands, also where it is a number in another spelling.
unchecked_text :
    shadow_cidr (record { shown = text "3.0"; number = some 3 }) (of_number 168)
    ≡ ok (text "10.3.0.168.0/24")
unfolding shadow_cidr assert_site_id any decimal
unchecked_text = refl

site_blocks_example :
    result_block (site_gateway_cidr (of_number 4)) ≡ from_to (ip 10 4 0 0) (ip 10 5 0 0)
site_blocks_example = (site_blocks 4 (omega arith) (omega arith)).2

abbrev block_of_site : ℕ → Block
block_of_site s = record { first = ip 10 s 0 0; stop = ip 10 (s + 1) 0 0 }

abbrev block_of_mesh : ℕ → Block
block_of_mesh s = record { first = ip 172 24 0 s; stop = ip 172 24 0 (s + 1) }

sites-Disjoint_example :
    Disjoint (block_of_site 4) (block_of_site 6)
    × Disjoint (block_of_mesh 4) (block_of_mesh 6)
    × Disjoint (block_of_site 4) (block_of_mesh 4)
    × Disjoint (block_of_site 4) (block_of_mesh 6)
    × Disjoint (block_of_site 6) (block_of_mesh 4)
    × Disjoint (block_of_site 6) (block_of_mesh 6)
sites-Disjoint_example =
    sites-Disjoint 4 6 _ _ _ _ (omega arith) (omega arith)
      (site_cidr_block 4 (omega arith) (omega arith))
      (site_cidr_block 6 (omega arith) (omega arith))
      (mesh_address_block 4 (omega arith) (omega arith))
      (mesh_address_block 6 (omega arith) (omega arith))
