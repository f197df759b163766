-- ===== src/Ssh/Session/Granted.antt =====
-- Where a session of nodejs/services/ssh_server.js may go.
use jump_host.Base.{◌≡◌, ◌⊎◌, true, Option, some, List, nat_eq, text_eq, ok, In, Text}
use jump_host.Directory.Host.{Host}
use jump_host.Grammar.Defs.{is_ipv4}
use jump_host.Directory.Target.{Matched, host, raw}
use jump_host.Ssh.Registry.{add}
use jump_host.Ssh.Session.{Answers, Front, Clock, Server, endpoint_of, slug_of, live_of}

module _ {D : Type 0} (f : Front) (a : Answers D) (clock : Clock) where
  -- A host is granted that the directory lists for the user; an address, where raw addresses are
  -- allowed and the client asked for it.
  abbrev pub Granted : Matched → Type 0
  Granted (host h) = (hosts : List Host) × (a.hosts ≡ ok hosts) × In h hosts
  Granted (raw r) = (r ≡ f.target) × (f.allow_raw_ips ≡ true) × (is_ipv4 f.target ≡ true)

  abbrev address_of : Matched → Option Text
  address_of m = (endpoint_of f m).address

  -- The record names the target, and the registry has at most the session's entry more, at it.
  abbrev At : Matched → Server D → Server D → Type 0
  At m s t =
      (t.event.target_addr ≡ address_of m)
      × (t.event.target_slug ≡ slug_of m)
      × ((t.registry ≡ s.registry)
          ⊎ (t.registry ≡ add s.event.id (live_of f a clock m (address_of m)) s.registry))

  abbrev Nowhere : Server D → Server D → Type 0
  Nowhere s t =
      (t.event.target_addr ≡ s.event.target_addr)
      × (t.event.target_slug ≡ s.event.target_slug)
      × (t.registry ≡ s.registry)

  -- What a session leaves of its way: nothing, or a granted target.
  abbrev pub GoesToGranted : Server D → Server D → Type 0
  GoesToGranted s t = Nowhere s t ⊎ ((m : Matched) × Granted m × At m s t)

  -- The target is noted, for a session that is not yet in the registry.
  abbrev Noted : Matched → Server D → Server D → Type 0
  Noted m s t =
      (t.event.target_addr ≡ address_of m)
      × (t.event.target_slug ≡ slug_of m)
      × (t.registry ≡ s.registry)
      × (t.event.id ≡ s.event.id)

  -- A picker that chooses one of the hosts it is given.
  abbrev pub PicksGiven : (List Host → Option Host) → Type 0
  PicksGiven choice = (hosts : List Host) (h : Host) → choice hosts ≡ some h → In h hosts
