-- ===== src/Mesh/Apply/Listing.antt =====
-- The peers that `wg show` lists for an interface, as listPeers of nodejs/utils/wg_iface.js reads them.
use jump_host.Base.{
  ℕ, ◌≡◌, refl, ◌≢◌, false, not, List, [], ◌∷◌, ◌++◌, map, if◌then◌else◌, nat_eq, text_eq, ok,
  filter, In, All, Text, text, split,
}
use jump_host.Host.Shell.{Exec}
use jump_host.Host.Netmap.{is_empty}
use jump_host.Host.Peers.{trim, trim_end}
use jump_host.Mesh.Exits.Readback.{is_space, span}
use jump_host.Mesh.Apply.{Applied}

-- A key as `wg` prints it: some characters, none of them white space.
abbrev pub IsKey : Text → Type 0
IsKey k = (c : ℕ) × (s : Text) × (k ≡ c ∷ s) × All (λ d. is_space d ≡ false) (c ∷ s)

-- `wg` for an interface that holds the peers `keys w`.
pub record PeerLaws {W : Type 0} (exec : Exec W) (keys : W → List Text) (iface : Text)
    : Type 0 where
  pub list :
      (w : W)
      → (out : Text) × ((exec (text "wg") (text "show" ∷ iface ∷ text "peers" ∷ []) w).0 ≡ ok out)
        × (split 10 out ≡ keys w ++ [] ∷ [])
  pub keys_solid : (w : W) → All IsKey (keys w)
  pub list_keeps :
      (w : W) → keys (exec (text "wg") (text "show" ∷ iface ∷ text "peers" ∷ []) w).1 ≡ keys w
  pub allowed_keeps :
      (w : W) → keys (exec (text "wg") (text "show" ∷ iface ∷ text "allowed-ips" ∷ []) w).1 ≡ keys w
  pub remove :
      (k : Text) (w : W) (x : Text)
      → In x
          (keys (exec (text "wg") (text "set" ∷ iface ∷ text "peer" ∷ k ∷ text "remove" ∷ []) w).1)
      → In x (keys w) × (x ≢ k)
  pub others :
      (cmd : Text) (args : List Text) (w : W) → cmd ≢ text "wg" → keys (exec cmd args w).1 ≡ keys w

-- The Redis set has no part in the peers of the interface.
pub record ApartLaws {W : Type 0} (redis : Applied W) (keys : W → List Text) : Type 0 where
  pub add_keeps : (key : Text) (w : W) → keys (redis.s_add key w) ≡ keys w
  pub rem_keeps : (key : Text) (w : W) → keys (redis.s_rem key w) ≡ keys w
  pub members_keeps : (w : W) → keys (redis.s_members w).1 ≡ keys w

trim_end-solid : (s : Text) → All (λ d. is_space d ≡ false) s → trim_end s ≡ s
unfolding trim_end
trim_end-solid [] _ = refl
trim_end-solid (c ∷ s) (h, hs) = rw (trim_end-solid s hs) (by_rest s)
  where
    by_rest :
        (t : Text) → (elim t [ [] ↦ if is_space c then [] else c ∷ [] | d ∷ u ↦ c ∷ d ∷ u ]) ≡ c ∷ t
    by_rest [] = rw h
    by_rest (d ∷ u) = refl

trim-solid : (k : Text) → IsKey k → trim k ≡ k
unfolding span
trim-solid k (c, s, e, (h, hs)) = rw (e, h) (trim_end-solid (c ∷ s) (h, hs))

trim_nothing : trim [] ≡ []
unfolding span trim_end
trim_nothing = refl

IsKey-nonempty : (k : Text) → IsKey k → is_empty k ≡ false
IsKey-nonempty k (c, s, e, _) = rw e refl

pub key_lines :
    (ks : List Text) → All IsKey ks → filter (λ l. not (is_empty l)) (map trim (ks ++ [] ∷ [])) ≡ ks
unfolding filter
key_lines [] _ = rw trim_nothing refl
key_lines (k ∷ ks) (h, hs) = rw (trim-solid k h, IsKey-nonempty k h, key_lines ks hs) refl
