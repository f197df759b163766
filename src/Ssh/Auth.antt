-- ===== src/Ssh/Auth.antt =====
-- nodejs/services/ssh_server.js: isLocalAddr, passwordAllowed, userKeyMatches and handleAuth.
use jump_host.Base.{
  Bool, true, false, not, ◌&&◌, ◌||◌, Option, none, some, List, [], ◌∷◌, leb, if◌then◌else◌, ◌==◌,
  nat_eq, text_eq, Result, ok, err, length, drop, Text, text, is_digit, starts_with,
}
use jump_host.Grammar.Defs.{parse_username}
use jump_host.Ssh.Keys.{User}

-- `ip.replace(/^::ffff:/, '')`
abbrev pub unmapped : Text → Text
unmapped ip = if starts_with ip (text "::ffff:") then drop 7 ip else ip

-- `/^172\.(1[6-9]|2\d|3[01])\./`
abbrev pub second_octet : Text → Bool
second_octet (a ∷ b ∷ dot ∷ rest) =
    dot == b'.'
    && (a == b'1' && leb b'6' b && leb b b'9'
        || a == b'2' && is_digit b
        || a == b'3' && (b == b'0' || b == b'1'))
second_octet s = false

unfoldable pub is_local_addr : Option Text → Bool
is_local_addr none = false
is_local_addr (some ip) =
    let a = unmapped ip in
    leb 1 (length ip)
    && (a == text "127.0.0.1"
        || a == text "::1"
        || starts_with a (text "10.")
        || starts_with a (text "192.168.")
        || starts_with a (text "172.") && second_octet (drop 4 a))

-- `(conf.ssh && conf.ssh.passwordAuth) || 'local'`
abbrev pub mode_of : Option Text → Text
mode_of none = text "local"
mode_of (some m) = if leb 1 (length m) then m else text "local"

unfoldable pub password_allowed : Option Text → Option Text → Bool
password_allowed password_auth client_ip =
    let mode = mode_of password_auth in
    if mode == text "all"
    then true
    else if mode == text "off"
    then false
    else is_local_addr client_ip

-- A parsed public key, by its `type` and `getPublicSSH()`.
pub record Key : Type 0 where
  pub kind : Text
  pub blob : Text

-- What ssh2 offers: `parseKey`, with `none` for an Error and the first key before the others, and
-- `key.verify(blob, signature, hashAlgo) === true`.
pub record Crypto : Type 0 where
  pub parse_key : Text → Option (Key × List Key)
  pub verify : Key → Text → Text → Text → Bool

abbrev pub is_own : Option Text → Text → Bool
is_own none blob = false
is_own (some own) blob = blob == own

-- The loop over the user's keys. `own` is OWN_KEY_BLOB.
unfoldable pub user_key_matches : Crypto → Option Text → List Text → Text → Text → Option Key
user_key_matches c own [] algo bytes = none
user_key_matches c own (line ∷ lines) algo bytes =
    let rest = user_key_matches c own lines algo bytes in
    elim (c.parse_key line) [
      | none ↦ rest
      | some (key, others) ↦
          if is_own own key.blob
          then rest
          else if key.kind == algo && key.blob == bytes
          then some key
          else rest
    ]

-- `getUser` and `checkPassword` of the directory; `err` is an exception.
pub record Backend : Type 0 where
  pub get_user : Text → Result Text (Option User)
  pub check_password : Text → Text → Result Text Bool

pub record KeyOffer : Type 0 where
  pub algo : Text
  pub bytes : Text
  pub blob : Text
  pub signature : Option Text
  pub hash_algo : Text

pub data Method : Type 0 where
  publickey : KeyOffer → Method
  password : Text → Method
  other_method : Method

pub record State : Type 0 where
  pub client_ip : Option Text
  pub uid : Option Text
  pub target : Option Text
  pub user : Option User
  pub auth_method : Option Text

-- `reject []` is `ctx.reject()`; the texts are the methods that may go on.
pub data Verdict : Type 0 where
  accept : Verdict
  reject : List Text → Verdict

abbrev pub both : List Text
both = text "publickey" ∷ text "password" ∷ []

abbrev pub signed : Crypto → KeyOffer → Key → Bool
signed c o key = elim o.signature [
  | none ↦ true
  | some signature ↦ c.verify key o.blob signature o.hash_algo
]

-- The part after the key is looked for.
abbrev pub with_key : Crypto → KeyOffer → Option Key → State → State × Verdict
with_key c o none st = (st, reject both)
with_key c o (some key) st =
    if signed c o key
    then (record st { auth_method = some (text "publickey") }, accept)
    else (st, reject [])

module _ (c : Crypto) (own : Option Text) (password_auth : Option Text) (b : Backend) where
  abbrev pub with_user : User → Method → State → State × Verdict
  with_user user (publickey o) st =
      with_key c o (user_key_matches c own user.ssh_public_keys o.algo o.bytes) st
  with_user user (password p) st =
      if not (password_allowed password_auth st.client_ip)
      then (st, reject (text "publickey" ∷ []))
      else elim (b.check_password user.dn p) [
        | err message ↦ (st, reject [])
        | ok good ↦
            if good
            then (record st { auth_method = some (text "password") }, accept)
            else (st, reject both)
      ]
  with_user user other_method st = (st, reject both)

  -- The part after the user is looked up.
  abbrev pub with_answer : Result Text (Option User) → Method → State → State × Verdict
  with_answer (err message) m st = (st, reject both)
  with_answer (ok none) m st = (st, reject both)
  with_answer (ok (some user)) m st = with_user user m (record st { user = some user })

  unfoldable pub handle_auth : Text → Method → State → State × Verdict
  handle_auth username m st = elim (parse_username username) [
    | err e ↦ (st, reject both)
    | ok parsed ↦
        with_answer (b.get_user parsed.uid) m
          (record st { uid = some parsed.uid; target = parsed.target })
  ]
