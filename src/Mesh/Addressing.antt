-- ===== src/Mesh/Addressing.antt =====
-- nodejs/utils/mesh_addressing.js: which addresses a site has.
use jump_host.Base.{
  ℕ, zero, suc, ◌+◌, ◌-◌, ◌*◌, ◌/◌, ◌%◌, ◌≤◌, ◌<◌, min, pred, ◌≡◌, refl, sym, ap, ap₂, ◌∙◌, subst,
  ◌≡⟨◌⟩◌, ◌∎, ◌≢◌, ◌↔◌, ◌⊎◌, inl, inr, Bool, true, false, not, ◌&&◌, ◌||◌, Option, none, some, List,
  [], ◌∷◌, ◌++◌, map, reverse, append-nil, append_assoc, map-append, arith, ltb, leb, if◌then◌else◌,
  ltb→lt, lt→ltb, leb→le, le→leb, tests, Bool-cases, Option-cases, Eq, ◌==◌, eq_iff, eq_refl,
  eq_of_ne, nat_eq, text_eq, text_beq, Result, ok, err, ◌>>=◌, ◌>>◌, require, Result-cases, length,
  length-append, get_elem?, take, drop, length-take, take-append, drop-append, all, any, find,
  filter, In, All, All-In, All-from_members, In-append, Text, text, is_digit, is_lower, is_upper,
  split, join, Lacks, split_of_Lacks, split-append, split-Lacks, join-split, starts_with, index_of,
  starts_with_iff, split-join, all_iff, any_iff, find-eq-some, find-eq-none, In-filter,
  length-filter-le, All-imp, drop-nil, drop-add, take-append-drop,
}
pub mod Blocks
pub mod Sites
mod Examples
use jump_host.Base.Decimal.{decimal}

abbrev pub min_site_id : ℕ
min_site_id = 1

abbrev pub max_site_id : ℕ
max_site_id = 254

abbrev pub mesh_prefix : Text
mesh_prefix = text "172.24.0"

abbrev pub shadow_slots : List ℕ
shadow_slots = 168 ∷ 172 ∷ []

-- An argument: how `${v}` prints it, and `Number(v)`, with `none` for what is no natural number.
pub record Value : Type 0 where
  pub shown : Text
  pub number : Option ℕ

abbrev pub of_number : ℕ → Value
of_number n = record { shown = decimal n; number = some n }

pub data AddressError : Type 0 where
  bad_site_id bad_slot : AddressError

unfoldable pub assert_site_id : Value → Result AddressError ℕ
assert_site_id v = elim v.number [
  | none ↦ err bad_site_id
  | some id ↦ if ltb id min_site_id || ltb max_site_id id then err bad_site_id else ok id
]

module _ (site_id : Value) where
  unfoldable pub mesh_address : Result AddressError Text
  mesh_address = do
    id ← assert_site_id site_id
    ok (mesh_prefix ++ (text "." ++ (decimal id ++ text "/32")))

  unfoldable pub mesh_ip : Result AddressError Text
  mesh_ip = do id ← assert_site_id site_id; ok (mesh_prefix ++ (text "." ++ decimal id))

  unfoldable pub site_cidr : Result AddressError Text
  site_cidr = do id ← assert_site_id site_id; ok (text "10." ++ (decimal id ++ text ".0.0/16"))

  unfoldable pub site_gateway_ip : Result AddressError Text
  site_gateway_ip = do id ← assert_site_id site_id; ok (text "10." ++ (decimal id ++ text ".0.1"))

  unfoldable pub site_gateway_cidr : Result AddressError Text
  site_gateway_cidr = do
    id ← assert_site_id site_id
    ok (text "10." ++ (decimal id ++ text ".0.1/16"))

  unfoldable pub client_pool_cidr : Result AddressError Text
  client_pool_cidr = do
    id ← assert_site_id site_id
    ok (text "10." ++ (decimal id ++ text ".128.0/17"))

  -- The site id and the slot are printed as they were given.
  unfoldable pub shadow_cidr : Value → Result AddressError Text
  shadow_cidr slot = do
    id ← assert_site_id site_id
    require (elim slot.number [ none ↦ false | some n ↦ any (λ s. s == n) shadow_slots ]) bad_slot
    ok (text "10." ++ (site_id.shown ++ (text "." ++ (slot.shown ++ text ".0/24"))))

  unfoldable pub peer_allowed_ips : Result AddressError (List Text)
  peer_allowed_ips = do
    id ← assert_site_id site_id
    cidr ← site_cidr
    ok ((mesh_prefix ++ (text "." ++ (decimal id ++ text "/32"))) ∷ cidr ∷ [])

unfoldable pub hub_allowed_ips : List Text
hub_allowed_ips = text "10.0.0.0/8" ∷ text "172.24.0.0/16" ∷ []
