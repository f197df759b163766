-- ===== src/Ssh/Examples.antt =====
-- One user with one key, on a directory that is the list of its key lines.
use jump_host.Base.{
  ◌≡◌, refl, subst, ◌↔◌, Bool, true, false, ◌&&◌, none, some, List, [], ◌∷◌, ◌++◌, arith, ◌==◌,
  eq_refl, nat_eq, text_eq, text_beq, ok, err, any, Text, text, starts_with,
}
use jump_host.Base.Maps.{get, put}
use jump_host.Grammar.Defs.{Parsed, parse_username}
use jump_host.Ssh.Keys.{
  User, Ldap, Store, is_flagged, has_line, ensure_key_injected, Dial, connect_upstream,
  connect_after, reach,
}
use jump_host.Ssh.Provision.{IsProvisioned, reach-IsProvisioned}
use jump_host.Ssh.Auth.{
  is_local_addr, Crypto, Backend, KeyOffer, Method, publickey, State, accept, handle_auth,
}
use jump_host.Ssh.Admitted.{Admits, handle_auth_iff}

abbrev ann : User
ann = record { uid = text "ann"; dn = text "uid=ann"; ssh_public_keys = text "k" ∷ [] }

-- The directory as the list of the entries and lines that were added.
abbrev ldap : Ldap (List (Text × Text))
ldap = record { add_ssh_key = λ d dn line. ok ((dn, line) ∷ d) }

abbrev crypto : Crypto
crypto = record {
  parse_key = λ line. some (record { kind = text "ssh-ed25519"; blob = line }, []);
  verify = λ key blob signature hash_algo. signature == text "good";
}

abbrev backend : Backend
backend = record {
  get_user = λ uid. ok (some ann);
  check_password = λ dn p. ok (p == text "secret");
}

abbrev offer : Text → KeyOffer
offer signature = record {
  algo = text "ssh-ed25519";
  bytes = text "k";
  blob = text "session";
  signature = some signature;
  hash_algo = text "sha512";
}

abbrev fresh : State
fresh = record {
  client_ip = some (text "::ffff:172.20.0.9");
  uid = none;
  target = none;
  user = none;
  auth_method = none;
}

local : is_local_addr fresh.client_ip ≡ true
unfolding is_local_addr starts_with text_beq
local = refl

not_local : is_local_addr (some (text "172.32.0.9")) ≡ false
unfolding is_local_addr starts_with text_beq
not_local = refl

abbrev Admitted : Method → Type 0
Admitted m =
    ((handle_auth crypto (some (text "own")) none backend (text "ann") m fresh).1 ≡ accept) ↔ (
      (parsed : Parsed) × (user : User) × (parse_username (text "ann") ≡ ok parsed)
      × (backend.get_user parsed.uid ≡ ok (some user))
      × Admits crypto (some (text "own")) none backend user fresh.client_ip m)

handle_auth_iff_example : Admitted (publickey (offer (text "good")))
handle_auth_iff_example =
    handle_auth_iff crypto (some (text "own")) none backend (text "ann")
      (publickey (offer (text "good"))) fresh

abbrev store : List (Text × Text) → Store (List (Text × Text))
store flags = record { directory = []; flags = flags }

abbrev same : Text → Text
same s = s

abbrev refused : Dial
refused = err (text "All configured authentication methods failed")

abbrev flag : List (Text × Text)
flag = (text "ann", text "1") ∷ []

ann_flagged : is_flagged (text "ann") flag ≡ true
unfolding is_flagged get text_beq
ann_flagged = refl

abbrev listed : List (Text × Text) → Text → Bool
listed d dn = any (λ e. e.0 == dn && e.1 == text "own") d

abbrev dn_of : Text → Text
dn_of uid = text "uid=" ++ uid

adds :
    (d : List (Text × Text)) (dn : Text) (changed : List (Text × Text))
    → ldap.add_ssh_key d dn (text "own") ≡ ok changed
    → listed changed dn ≡ true
unfolding any
adds d dn changed e =
    let added : (dn, text "own") ∷ d ≡ changed = cc in
    subst (λ x. listed x dn ≡ true) added (ground (arith, eq_refl dn, eq_refl (text "own")))

keeps :
    (d : List (Text × Text)) (dn : Text) (changed : List (Text × Text)) (other : Text)
    → ldap.add_ssh_key d dn (text "own") ≡ ok changed
    → listed d other ≡ true
    → listed changed other ≡ true
unfolding any
keeps d dn changed other e h =
    let added : (dn, text "own") ∷ d ≡ changed = cc in
    subst (λ x. listed x other ≡ true) added (ground (arith, h))

no_flags : IsProvisioned ldap (text "own") listed dn_of (store [])
unfolding is_flagged get
no_flags uid h = cc

no_line : has_line (text "own") ann ≡ false
unfolding any text_beq
no_line = refl

flag_set :
    is_flagged
      (text "ann")
      (reach ldap same ann (text "own") (text "ann") (ok tt) refused true (store [])).1.flags
    ≡ true
unfolding reach ensure_key_injected connect_after connect_upstream is_flagged get put any text_beq
flag_set = refl

reach-IsProvisioned_example :
    listed
      (reach ldap same ann (text "own") (text "ann") (ok tt) refused true (store [])).1.directory
      (text "uid=ann")
    ≡ true
reach-IsProvisioned_example =
    reach-IsProvisioned ldap (text "own") listed dn_of adds keeps same ann (text "ann") (store [])
      (ok tt) refused true refl (λ h. absurd (ground (arith, no_line))) no_flags (text "ann")
      flag_set
