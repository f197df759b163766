-- ===== src/Host/Peers.antt =====
-- nodejs/utils/wg_iface.js: the peers of an interface.
pub mod Privacy
use jump_host.Base.{
  ℕ, zero, suc, ◌+◌, ◌-◌, ◌*◌, ◌/◌, ◌%◌, ◌^◌, ◌≤◌, ◌<◌, min, pred, ◌≡◌, refl, sym, ap, ap₂, ◌∙◌,
  subst, ◌≡⟨◌⟩◌, ◌∎, ◌≢◌, ◌↔◌, ◌⊎◌, inl, inr, Bool, true, false, not, ◌&&◌, ◌||◌, Option, none,
  some, List, [], ◌∷◌, ◌++◌, map, reverse, append-nil, append_assoc, map-append, arith, ltb, leb,
  if◌then◌else◌, ltb→lt, lt→ltb, leb→le, le→leb, tests, Bool-cases, Option-cases, Eq, ◌==◌, eq_iff,
  eq_refl, eq_of_ne, nat_eq, text_eq, text_beq, Result, ok, err, require, Result-cases, length,
  length-append, get_elem?, take, drop, length-take, take-append, drop-append, all, any, find,
  filter, In, All, All-In, All-from_members, In-append, Text, text, is_digit, is_lower, is_upper,
  split, join, Lacks, split_of_Lacks, split-append, split-Lacks, join-split, starts_with, index_of,
  starts_with_iff, split-join, all_iff, any_iff, find-eq-some, find-eq-none, In-filter,
  length-filter-le, All-imp, All-append, drop-nil, drop-add, take-append-drop,
}
use jump_host.Host.Shell.{
  Exec, Reply, Action, return, and_then, ◌>>=◌, ◌>>◌, try_run, run, refused, throw_if, for_each,
}
use jump_host.Base.Maps.{get, put}
use jump_host.Base.Decimal.{decimal, value}
use jump_host.Mesh.Exits.Readback.{is_space, span}
use jump_host.Host.Netmap.{is_empty}

unfoldable pub trim_end : Text → Text
trim_end [] = []
trim_end (c ∷ s) = elim (trim_end s) [ [] ↦ if is_space c then [] else c ∷ [] | d ∷ t ↦ c ∷ d ∷ t ]

-- `s.trim()`
abbrev pub trim : Text → Text
trim s = let (_, rest) = span is_space s in trim_end rest

-- `s.split(/\s+/)`, less the empty parts.
push : ℕ → List Text → List Text
push c [] = (c ∷ []) ∷ []
push c (w ∷ ws) = (c ∷ w) ∷ ws

unfoldable pub space_split : Text → List Text
unfolding push
space_split [] = [] ∷ []
space_split (c ∷ s) = if is_space c then [] ∷ space_split s else push c (space_split s)

abbrev pub words : Text → List Text
words s = filter (λ w. not (is_empty w)) (space_split s)

-- What `setPeer` takes of a peer: a `keepalive` of 0 and an `endpoint` of no characters are none.
pub record PeerConf : Type 0 where
  pub public_key : Text
  pub endpoint : Text
  pub allowed_ips : List Text
  pub keepalive : ℕ

-- An entry of what `peerStatus` returns.
pub record Status : Type 0 where
  pub endpoint : Option Text
  pub latest_handshake : ℕ
  pub handshake_age_seconds : Option ℕ
  pub rx_bytes : ℕ
  pub tx_bytes : ℕ

-- `Number(s) || 0`, for the digits that `wg` prints.
abbrev pub digits_value : Text → ℕ
digits_value s = if all is_digit s then value s else 0

-- An entry, from the fields of a line; a line of fewer than seven fields is skipped.
unfoldable pub read_status : ℕ → List Text → List (Text × Status)
read_status now (key ∷ preshared ∷ endpoint ∷ allowed ∷ handshake ∷ rx ∷ tx ∷ rest) =
    (
      key,
      record {
        endpoint = if endpoint == text "(none)" then none else some endpoint;
        latest_handshake = digits_value handshake;
        handshake_age_seconds =
            if leb 1 (digits_value handshake) then some (now - digits_value handshake) else none;
        rx_bytes = digits_value rx;
        tx_bytes = digits_value tx;
      },
    )
    ∷ []
read_status now _ = []

abbrev pub put_all : List (Text × Status) → List (Text × Status) → List (Text × Status)
put_all [] out = out
put_all ((key, status) ∷ rest) out = put_all rest (put key status out)

unfoldable pub read_statuses : ℕ → List Text → List (Text × Status) → List (Text × Status)
read_statuses now [] out = out
read_statuses now (line ∷ lines) out =
    read_statuses now lines (put_all (read_status now (split 9 line)) out)

-- The lines after the first, which is the interface's own.
unfoldable pub statuses : ℕ → Reply → List (Text × Status)
statuses now (ok out) = read_statuses now (drop 1 (split 10 (trim out))) []
statuses now (err _) = []

-- The addresses of the key's line, in the output of `wg show <name> allowed-ips`.
abbrev pub line_of : Text → Text → Option Text
line_of key out = find (λ l. starts_with l (key ++ 9 ∷ [])) (split 10 out)

abbrev pub allowed_of : Option Text → List Text
allowed_of none = []
allowed_of (some line) =
    filter (λ ip. not (ip == text "(none)"))
      (words (elim (get_elem? (split 9 line) 1) [ none ↦ [] | some s ↦ s ]))

abbrev pub shown_allowed : Text → Reply → List Text
shown_allowed key (ok out) = allowed_of (line_of key out)
shown_allowed key (err _) = []

module _ {W : Type 0} (exec : Exec W) where
  abbrev pub peers_of : Reply → List Text
  peers_of (ok out) = filter (λ l. not (is_empty l)) (map trim (split 10 out))
  peers_of (err _) = []

  unfoldable pub list_peers : Text → Action W (List Text)
  list_peers name = do
    res ← try_run exec (text "wg") (text "show" ∷ name ∷ text "peers" ∷ [])
    return (peers_of res)

  abbrev pub peer_args : Text → PeerConf → List Text
  peer_args name p =
      text "set"
        ∷ name
        ∷ text "peer"
        ∷ p.public_key
        ∷ text "allowed-ips"
        ∷ join b',' p.allowed_ips
        ∷ (if is_empty p.endpoint then [] else text "endpoint" ∷ p.endpoint ∷ [])
      ++ (if leb 1 p.keepalive then text "persistent-keepalive" ∷ decimal p.keepalive ∷ [] else [])

  unfoldable pub set_peer_no_routes : Text → PeerConf → Action W Unit
  set_peer_no_routes name p = do run exec (text "wg") (peer_args name p); return tt

  abbrev pub add_peer_route : Text → Text → Action W Unit
  add_peer_route name cidr = do
    add ← try_run exec (text "ip") (text "route" ∷ text "add" ∷ cidr ∷ text "dev" ∷ name ∷ [])
    throw_if (refused add)
        (text "failed to add kernel route " ++ cidr ++ text " via " ++ name ++ text ": ")

  unfoldable pub set_peer : Text → PeerConf → Action W Unit
  set_peer name p = do set_peer_no_routes name p; for_each (add_peer_route name) p.allowed_ips

  abbrev pub del_route : Text → Text → Action W Unit
  del_route name cidr = do
    try_run exec (text "ip") (text "route" ∷ text "del" ∷ cidr ∷ text "dev" ∷ name ∷ [])
    return tt

  unfoldable pub remove_peer : Text → Text → Action W Unit
  remove_peer name public_key = do
    show ← try_run exec (text "wg") (text "show" ∷ name ∷ text "allowed-ips" ∷ [])
    try_run exec (text "wg") (text "set" ∷ name ∷ text "peer" ∷ public_key ∷ text "remove" ∷ [])
    for_each (del_route name) (shown_allowed public_key show)

  -- `now` is the clock, in seconds.
  unfoldable pub peer_status : ℕ → Text → Action W (List (Text × Status))
  peer_status now name = do
    dump ← try_run exec (text "wg") (text "show" ∷ name ∷ text "dump" ∷ [])
    return (statuses now dump)
