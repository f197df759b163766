-- ===== src/Mesh/Addressing/Sites.antt =====
-- The address plan of a site, as blocks, and that sites do not overlap.
use jump_host.Base.{
  ℕ, ◌+◌, ◌-◌, ◌^◌, ◌≤◌, ◌≡◌, refl, ◌≢◌, ◌↔◌, ◌⊎◌, inl, inr, Option, none, some, ◌∷◌, ◌++◌,
  append_assoc, arith, nat_eq, text_eq, Result, ok, err, any, Text, text, join,
}
use jump_host.Base.Decimal.{decimal}
use jump_host.Grammar.Ipv4.{dotted}
use jump_host.Mesh.Addressing.{
  mesh_prefix, Value, of_number, AddressError, assert_site_id, mesh_address, site_cidr,
  site_gateway_cidr, client_pool_cidr, shadow_cidr, mesh_prefix,
}
use jump_host.Mesh.Addressing.Blocks.{
  block, Block, ip, cidr_block, Within, Disjoint, cidr_block-dotted,
}

-- A site id is accepted exactly if it is a number from 1 to 254, and is then returned.
pub assert_site_id_iff :
    (v : Value) (id : ℕ)
    → (assert_site_id v ≡ ok id) ↔ ((v.number ≡ some id) × (1 ≤ id) × (id ≤ 254))
unfolding assert_site_id
assert_site_id_iff v id = ground arith

abbrev pub result_block : Result AddressError Text → Option Block
result_block (err e) = none
result_block (ok t) = cidr_block t

abbrev pub from_to : ℕ → ℕ → Option Block
from_to first stop = some (record { first = first; stop = stop })

-- The part of an address text behind the site id.
abbrev pub tail : ℕ → ℕ → ℕ → Text
tail c d p = b'.' ∷ (decimal c ++ b'.' ∷ (decimal d ++ b'/' ∷ decimal p))

ten : decimal 10 ≡ text "10"
unfolding decimal
ten = refl

dotted-tail :
    (s c d p : ℕ) → text "10." ++ (decimal s ++ tail c d p) ≡ dotted 10 s c d ++ b'/' ∷ decimal p
unfolding dotted join
dotted-tail s c d p = rw ten (simp append_assoc)

pub tails :
    (tail 0 0 16 ≡ text ".0.0/16")
    × (tail 0 1 16 ≡ text ".0.1/16")
    × (tail 128 0 17 ≡ text ".128.0/17")
    × (tail 168 0 24 ≡ text ".168.0/24")
    × (tail 172 0 24 ≡ text ".172.0/24")
unfolding decimal
tails = (refl, refl, refl, refl, refl)

pub site_shown :
    (s c d p : ℕ) (t : Text)
    → tail c d p ≡ t
    → text "10." ++ (decimal s ++ t) ≡ dotted 10 s c d ++ b'/' ∷ decimal p
site_shown s c d p t e = rw (← e, dotted-tail) refl

site_text :
    (s c d p : ℕ) (t : Text)
    → tail c d p ≡ t
    → cidr_block (text "10." ++ (decimal s ++ t)) ≡ some (block (ip 10 s c d) (2 ^ (32 - p)))
site_text s c d p t e = rw (← e, dotted-tail) (cidr_block-dotted 10 s c d p)

pub mesh_text :
    (s : ℕ)
    → mesh_prefix ++ (text "." ++ (decimal s ++ text "/32"))
      ≡ dotted 172 24 0 s ++ b'/' ∷ decimal 32
unfolding dotted join decimal
mesh_text s = refl

pub slots : (decimal 168 ≡ text "168") × (decimal 172 ≡ text "172")
unfolding decimal
slots = (refl, refl)

module _ (s : ℕ) (low : 1 ≤ s) (high : s ≤ 254) where
  accepted : assert_site_id (of_number s) ≡ ok s
  accepted = (assert_site_id_iff (of_number s) s).1 (refl, low, high)

  pub mesh_address_block :
      result_block (mesh_address (of_number s)) ≡ from_to (ip 172 24 0 s) (ip 172 24 0 (s + 1))
  unfolding mesh_address
  mesh_address_block = rw (accepted, mesh_text, cidr_block-dotted) (ground arith)

  pub site_cidr_block :
      result_block (site_cidr (of_number s)) ≡ from_to (ip 10 s 0 0) (ip 10 (s + 1) 0 0)
  unfolding site_cidr
  site_cidr_block = rw (accepted, site_text s 0 0 16 _ tails.0) (ground arith)

  site_gateway_cidr_block :
      result_block (site_gateway_cidr (of_number s)) ≡ from_to (ip 10 s 0 0) (ip 10 (s + 1) 0 0)
  unfolding site_gateway_cidr
  site_gateway_cidr_block = rw (accepted, site_text s 0 1 16 _ tails.1) (ground arith)

  client_pool_cidr_block :
      result_block (client_pool_cidr (of_number s)) ≡ from_to (ip 10 s 128 0) (ip 10 (s + 1) 0 0)
  unfolding client_pool_cidr
  client_pool_cidr_block = rw (accepted, site_text s 128 0 17 _ tails.2) (ground arith)

  shadow_168_block :
      result_block (shadow_cidr (of_number s) (of_number 168))
      ≡ from_to (ip 10 s 168 0) (ip 10 s 169 0)
  unfolding shadow_cidr any
  shadow_168_block = rw (accepted, slots.0, site_text s 168 0 24 _ tails.3) (ground arith)

  shadow_172_block :
      result_block (shadow_cidr (of_number s) (of_number 172))
      ≡ from_to (ip 10 s 172 0) (ip 10 s 173 0)
  unfolding shadow_cidr any
  shadow_172_block = rw (accepted, slots.1, site_text s 172 0 24 _ tails.4) (ground arith)

  -- The texts that a site id gives denote the documented blocks: the mesh address alone, the site's
  -- /16 (with its gateway as host part), the upper half of it for devices, and a /24 for each slot.
  pub site_blocks :
      (result_block (mesh_address (of_number s)) ≡ from_to (ip 172 24 0 s) (ip 172 24 0 (s + 1)))
      × (result_block (site_cidr (of_number s)) ≡ from_to (ip 10 s 0 0) (ip 10 (s + 1) 0 0))
      × (result_block (site_gateway_cidr (of_number s)) ≡ from_to (ip 10 s 0 0) (ip 10 (s + 1) 0 0))
      × (result_block (client_pool_cidr (of_number s))
          ≡ from_to (ip 10 s 128 0) (ip 10 (s + 1) 0 0))
      × (result_block (shadow_cidr (of_number s) (of_number 168))
          ≡ from_to (ip 10 s 168 0) (ip 10 s 169 0))
      × (result_block (shadow_cidr (of_number s) (of_number 172))
          ≡ from_to (ip 10 s 172 0) (ip 10 s 173 0))
  site_blocks = (
    mesh_address_block, site_cidr_block, site_gateway_cidr_block, client_pool_cidr_block,
    shadow_168_block, shadow_172_block,
  )

  -- Both NETMAP shadows lie inside the block that is documented for devices.
  shadow-Within-client_pool :
      (b p : Block) (slot : ℕ)
      → (slot ≡ 168) ⊎ (slot ≡ 172)
      → result_block (shadow_cidr (of_number s) (of_number slot)) ≡ some b
      → result_block (client_pool_cidr (of_number s)) ≡ some p
      → Within b p
  shadow-Within-client_pool b p slot (inl e) hb hp =
      ground (arith, shadow_168_block, client_pool_cidr_block, rw e at hb)
  shadow-Within-client_pool b p slot (inr e) hb hp =
      ground (arith, shadow_172_block, client_pool_cidr_block, rw e at hb)

-- The blocks of two sites do not meet, nor do their mesh addresses, and the mesh address of neither
-- stands in the block of either.
pub sites-Disjoint :
    (s t : ℕ) (b c m n : Block)
    → (1 ≤ s) × (s ≤ 254) × (1 ≤ t) × (t ≤ 254)
    → s ≢ t
    → result_block (site_cidr (of_number s)) ≡ some b
    → result_block (site_cidr (of_number t)) ≡ some c
    → result_block (mesh_address (of_number s)) ≡ some m
    → result_block (mesh_address (of_number t)) ≡ some n
    → Disjoint b c × Disjoint m n × Disjoint b m × Disjoint b n × Disjoint c m × Disjoint c n
sites-Disjoint s t b c m n (ls, hs, lt, ht) different hb hc hm hn = ground (
  arith,
  site_cidr_block s ls hs,
  site_cidr_block t lt ht,
  mesh_address_block s ls hs,
  mesh_address_block t lt ht,
)
