-- ===== src/Ssh/Keys.antt =====
-- nodejs/utils/key_inject.js, and connectUpstream of nodejs/services/bridge.js.
use jump_host.Base.{
  ℕ, Bool, true, false, not, ◌&&◌, ◌||◌, Option, none, some, List, leb, if◌then◌else◌, ◌==◌, nat_eq,
  text_eq, Result, ok, err, length, any, Text, text,
}
use jump_host.Base.Maps.{get, put, delete}
use jump_host.Directory.Target.{includes}

-- A user of the directory, with `[]` for absent keys.
pub record User : Type 0 where
  pub uid : Text
  pub dn : Text
  pub ssh_public_keys : List Text

-- The directory's user store: `add_ssh_key` gives the changed store, or the message of an exception.
pub record Ldap (D : Type 0) : Type 0 where
  pub add_ssh_key : D → Text → Text → Result Text D

-- The directory, and the flags that Redis holds, by uid.
pub record Store (D : Type 0) : Type 0 where
  pub directory : D
  pub flags : List (Text × Text)

-- `await redis.get(flagKey(uid))` as a condition.
unfoldable pub is_flagged : Text → List (Text × Text) → Bool
is_flagged uid flags = elim (get uid flags) [ none ↦ false | some v ↦ leb 1 (length v) ]

abbrev pub has_line : Text → User → Bool
has_line line user = any (λ k. k == line) user.ssh_public_keys

module _ {D : Type 0} (ldap : Ldap D) where
  abbrev pub set_flag : Text → Store D → Store D
  set_flag uid s = record { directory = s.directory; flags = put uid (text "1") s.flags }

  unfoldable pub ensure_key_injected : User → Text → Store D → Result Text Bool × Store D
  ensure_key_injected user public_line s =
      if is_flagged user.uid s.flags
      then (ok false, s)
      else if has_line public_line user
      then (ok false, set_flag user.uid s)
      else elim (ldap.add_ssh_key s.directory user.dn public_line) [
        | err message ↦ (err message, s)
        | ok changed ↦
            (ok true, set_flag user.uid (record { directory = changed; flags = s.flags }))
      ]

unfoldable pub clear_injected_flag : Text → List (Text × Text) → List (Text × Text)
clear_injected_flag uid flags = delete uid flags

-- `/authentication|All configured authentication methods failed/i`, with the message in lower case.
abbrev pub authish : (Text → Text) → Text → Bool
authish lower message =
    includes (lower message) (text "authentication")
    || includes (lower message) (text "all configured authentication methods failed")

-- What a dial ends with: `ready`, or the message of `error`.
abbrev pub Dial : Type 0
Dial = Result Text Unit

-- `hostVerifier`, for the fingerprint of the key that the host shows.
abbrev pub verify_host : Option Text → Text → Bool
verify_host none fp = true
verify_host (some expected) fp = not (leb 1 (length expected) && not (expected == fp))

-- The whole of a connection: its end, the flags, and how often the host was dialled. `clears` says
-- whether Redis lets the flag be cleared; an exception there is dropped.
pub record Connected : Type 0 where
  pub result : Dial
  pub flags : List (Text × Text)
  pub dials : ℕ

unfoldable pub connect_upstream :
    (Text → Text) → Dial → Dial → Bool → Text → Bool → List (Text × Text) → Connected
connect_upstream lower (ok u) second clears uid just_injected flags = record {
  result = ok u;
  flags = flags;
  dials = 1;
}
connect_upstream lower (err message) second clears uid just_injected flags =
    if authish lower message && just_injected
    then record {
      result = second;
      flags = if clears then clear_injected_flag uid flags else flags;
      dials = 2;
    }
    else record { result = err message; flags = flags; dials = 1 }

-- The two in the order in which a session runs them: the key, then the connection.
unfoldable pub connect_after :
    {D : Type 0}
    → (Text → Text)
    → Text
    → Dial
    → Dial
    → Bool
    → Result Text Bool
    → Store D
    → Result Text Connected × Store D
connect_after lower uid first second clears (err message) t = (err message, t)
connect_after lower uid first second clears (ok just_injected) t =
    let c = connect_upstream lower first second clears uid just_injected t.flags in
    (ok c, record { directory = t.directory; flags = c.flags })

-- `uid` is the name of the login, and `user` the entry of the directory.
unfoldable pub reach :
    {D : Type 0}
    → Ldap D
    → (Text → Text)
    → User
    → Text
    → Text
    → Dial
    → Dial
    → Bool
    → Store D
    → Result Text Connected × Store D
reach ldap lower user public_line uid first second clears s =
    let (injected, t) = ensure_key_injected ldap user public_line s in
    connect_after lower uid first second clears injected t
