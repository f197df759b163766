-- ===== src/Directory/Target.antt =====
-- nodejs/utils/target_match.js.
use jump_host.Base.{
  ℕ, Bool, true, false, ◌&&◌, Option, none, some, List, [], ◌∷◌, ◌++◌, if◌then◌else◌, ◌==◌, nat_eq,
  text_eq, Result, ok, err, find, Text, text, index_of,
}
use jump_host.Grammar.Defs.{is_ipv4}
use jump_host.Directory.Host.{Host, Platform, truthy_and, equals, or_else}

-- `s.includes(p)`
abbrev pub includes : Text → Text → Bool
includes s p = elim (index_of s p) [ none ↦ false | some _ ↦ true ]

module _ (js : Platform) where
  open js use {lower, url_hostname}

  -- `addrHost`
  unfoldable pub addr_host : Option Text → Option Text
  addr_host none = none
  addr_host (some []) = none
  addr_host (some (c ∷ s)) =
      let address = c ∷ s in
      let url = if includes address (text "://") then address else text "ssh://" ++ address in
      elim (url_hostname url) [ none ↦ some address | some hostname ↦ some hostname ]

  abbrev pub by_slug : Text → Host → Bool
  by_slug t h = truthy_and h.slug (λ s. lower s == t)

  abbrev pub by_prefixed : Text → Host → Bool
  by_prefixed t h = truthy_and h.slug (λ s. lower s == text "host_" ++ t)

  abbrev pub by_name : Text → Host → Bool
  by_name t h = truthy_and h.name (λ s. lower s == t)

  abbrev pub by_ip : Text → Host → Bool
  by_ip target h = equals h.metadata.ip target

  abbrev pub by_addr : Text → Host → Bool
  by_addr t h = truthy_and (addr_host h.metadata.address) (λ a. lower a == t)

pub data Matched : Type 0 where
  host : Host → Matched
  raw : Text → Matched

pub data TargetError : Type 0 where
  no_such_target : TargetError

infixr 20 ◌<|>◌
abbrev pub ◌<|>◌ : Option Host → Option Host → Option Host
none <|> b = b
some h <|> b = some h

unfoldable pub find_host : Platform → Text → List Host → Option Host
find_host js target hosts =
    let t = js.lower target in
    find (by_slug js t) hosts
    <|> find (by_prefixed js t) hosts
    <|> find (by_name js t) hosts
    <|> find (by_ip js target) hosts
    <|> find (by_addr js t) hosts

unfoldable pub match_target : Platform → Text → List Host → Bool → Result TargetError Matched
match_target js target hosts allow_raw_ips = elim (find_host js target hosts) [
  | some h ↦ ok (host h)
  | none ↦ if is_ipv4 target && allow_raw_ips then ok (raw target) else err no_such_target
]

pub record Endpoint : Type 0 where
  pub address : Option Text
  pub port : ℕ

-- `n || d` at a number that may be NaN.
abbrev pub or_port : Option ℕ → ℕ → ℕ
or_port none d = d
or_port (some n) d = if n == 0 then d else n

unfoldable pub host_endpoint : Platform → Host → ℕ → Endpoint
host_endpoint js h default_port = record {
  address = or_else h.metadata.ip (or_else (addr_host js h.metadata.address) none);
  port = or_port h.metadata.ssh_port default_port;
}
