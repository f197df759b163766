-- ===== src/Mesh/Apply/Examples.antt =====
-- An interface that still has a peer which has left the roster, an exit, and the loop of the passes.
use jump_host.Base.{
  ◌≤◌, ◌≡◌, refl, sym, ◌∙◌, ◌≢◌, inl, inr, Bool, true, false, ◌&&◌, none, List, [], ◌∷◌, ◌++◌,
  arith, if◌then◌else◌, Bool-cases, ◌==◌, eq_iff, eq_of_ne, nat_eq, text_eq, text_beq, ok, In, All,
  Text, text, split,
}
use jump_host.Host.Shell.{Exec, Reply, Gateway}
use jump_host.Host.Wg.{System}
use jump_host.Mesh.Plan.{Plan, Peer, site}
use jump_host.Mesh.Apply.{Applied, Setting, apply_plan}
use jump_host.Mesh.Apply.Listing.{IsKey, PeerLaws, ApartLaws}
use jump_host.Mesh.Apply.Revocation.{Leaves, apply_plan-OnlyWanted}
use jump_host.Mesh.Exits
use jump_host.Mesh.Exits.{Exit, iface_for, table_for}
use jump_host.Mesh.Reconcile.{Loop, Reachable, run_reconcile, run_reconcile-IsSerial}

-- Whether the old peer is on the interface.
abbrev keys : Bool → List Text
keys true = text "gone" ∷ []
keys false = []

on_args : List Text → Bool → Reply × Bool
on_args (set ∷ dev ∷ kind ∷ key ∷ verb ∷ rest) w =
    if verb == text "remove" && key == text "gone" then (ok [], false) else (ok [], w)
on_args (show ∷ dev ∷ kind ∷ rest) w =
    if kind == text "peers" then (ok (if w then text "gone" ++ 10 ∷ [] else []), w) else (ok [], w)
on_args _ w = (ok [], w)

wg_exec : Exec Bool
wg_exec cmd args w = if cmd == text "wg" then on_args args w else (ok [], w)

abbrev system : System Bool
system = record {
  exec = wg_exec;
  spawn = λ cmd args w. (1, w);
  write_file = λ path content w. (ok tt, w);
  unlink = λ path w. (ok tt, w);
}

abbrev redis : Applied Bool
redis = record { s_add = λ key w. w; s_rem = λ key w. w; s_members = λ w. (ok [], w) }

key_lines : (w : Bool) → split 10 (if w then text "gone" ++ 10 ∷ [] else []) ≡ keys w ++ [] ∷ []
unfolding split
key_lines true = refl
key_lines false = refl

keys_solid : (w : Bool) → All IsKey (keys w)
keys_solid true = ((b'g', text "one", refl, (refl, (refl, (refl, (refl, tt))))), tt)
keys_solid false = tt

remove-eq :
    (k : Text) (w : Bool)
    → wg_exec (text "wg") (text "set" ∷ text "wg0" ∷ text "peer" ∷ k ∷ text "remove" ∷ []) w
      ≡ (if k == text "gone" then (ok [], false) else (ok [], w))
unfolding wg_exec on_args text_beq
remove-eq k w = refl

removes :
    (k : Text) (w : Bool) (x : Text)
    → In x (
        keys
          (wg_exec
            (text "wg")
            (text "set" ∷ text "wg0" ∷ text "peer" ∷ k ∷ text "remove" ∷ [])
            w).1)
    → In x (keys w) × (x ≢ k)
removes k w x m = elim (Bool-cases (k == text "gone")) [
  | inl t ↦ absurd (rw (remove-eq k w, t) at m)
  | inr n ↦
      let k_in : In x (keys w) = rw (remove-eq k w, n) at m in
      (
        k_in,
        λ same.
            let it = (eq_iff k (text "gone")).1 (sym same ∙ is_gone w k_in) in
            absurd (ground arith),
      )
]
  where
    is_gone : (v : Bool) → In x (keys v) → x ≡ text "gone"
    is_gone true h = elim h [ inl e ↦ e | inr no_more ↦ absurd no_more ]
    is_gone false h = absurd h

others :
    (cmd : Text) (args : List Text) (w : Bool)
    → cmd ≢ text "wg"
    → keys (wg_exec cmd args w).1 ≡ keys w
unfolding wg_exec
others cmd args w differs = rw (eq_of_ne cmd (text "wg") differs) refl

list-eq :
    (w : Bool)
    → wg_exec (text "wg") (text "show" ∷ text "wg0" ∷ text "peers" ∷ []) w
      ≡ (ok (if w then text "gone" ++ 10 ∷ [] else []), w)
unfolding wg_exec on_args text_beq
list-eq w = refl

allowed-eq :
    (w : Bool)
    → wg_exec (text "wg") (text "show" ∷ text "wg0" ∷ text "allowed-ips" ∷ []) w ≡ (ok [], w)
unfolding wg_exec on_args text_beq
allowed-eq w = refl

laws : PeerLaws system.exec keys (text "wg0")
laws = record {
  list = λ w. ((if w then text "gone" ++ 10 ∷ [] else []), rw (list-eq w) refl, key_lines w);
  keys_solid = keys_solid;
  list_keeps = λ w. rw (list-eq w) refl;
  allowed_keeps = λ w. rw (allowed-eq w) refl;
  remove = removes;
  others = others;
}

apart : ApartLaws redis keys
apart = record { add_keeps = λ key w. refl; rem_keeps = λ key w. refl; members_keeps = λ w. refl }

abbrev setting : Setting
setting = record {
  iface = text "wg0";
  listen_port = 51820;
  private_key = text "secret";
  tmp = text "/tmp/k";
  probe = text "wgprobe1";
  polls = 50;
}

abbrev peer : Peer
peer = record {
  kind = site;
  label = text "nyc";
  public_key = text "k6";
  endpoint = text "nyc:51820";
  allowed_ips = text "10.6.0.0/16" ∷ [];
  keepalive = 25;
  exit_site_id = none;
}

abbrev plan : Plan
plan = record {
  site_id = 4;
  addresses = text "10.4.0.1/16" ∷ [];
  peers = peer ∷ [];
  routes = [];
  netmaps = [];
  site_cidr = text "10.4.0.0/16";
}

abbrev gateway : Gateway Bool
gateway = record { world = true; tool_cache = none; kernel_support = none; probes = [] }

apply_plan-OnlyWanted_example :
    Leaves system redis keys setting laws apart
      (text "k6" ∷ [])
      (apply_plan system redis setting plan gateway)
apply_plan-OnlyWanted_example =
    apply_plan-OnlyWanted system redis keys setting plan gateway laws apart

abbrev exit : Exit
exit = record {
  site_id = 6;
  slug = text "nyc";
  iface = iface_for 6;
  table = table_for 6;
  public_key = text "k6";
  endpoint = text "nyc:51820";
  allowed_ips = text "0.0.0.0/0" ∷ [];
  keepalive = 25;
}

abbrev exits : Exits.Plan
exits = record { exits = (6, exit) ∷ []; rules = []; unusable = [] }

abbrev idle : Loop
idle = record { in_flight = none; running = []; started = 0 }

run_reconcile-IsSerial_example :
    (0 ≤ 1) × ((run_reconcile idle).0.running ≡ (run_reconcile idle).1 ∷ [])
run_reconcile-IsSerial_example = run_reconcile-IsSerial idle Reachable.start
