-- ===== src/Ssh/Admitted.antt =====
-- Who passes the authentication of the gateway.
use jump_host.Base.{
  ◌≡◌, refl, sym, ap, ap₂, ◌∙◌, subst, ◌↔◌, inl, inr, true, false, ◌&&◌, Option, none, some, List,
  [], ◌∷◌, arith, Bool-cases, Option-cases, ◌==◌, eq_iff, eq_refl, nat_eq, text_eq, Result, ok, err,
  Result-cases, In, Text,
}
use jump_host.Grammar.Defs.{Parsed, GrammarError, parse_username}
use jump_host.Ssh.Keys.{User}
use jump_host.Ssh.Auth.{
  is_own, password_allowed, Key, Crypto, user_key_matches, Backend, KeyOffer, Method, publickey,
  password, other_method, State, accept, reject, both, signed, with_key, with_user, with_answer,
  handle_auth,
}

-- A line of the user's keys holds the key.
abbrev pub Holds : Crypto → Key → Text → Type 0
Holds c key line = (others : List Key) × (c.parse_key line ≡ some (key, others))

-- What lets a user in: one of the user's keys, other than the gateway's own, with a signature that
-- verifies where there is one; or a password that the directory accepts, where passwords are allowed.
abbrev pub Admits :
    Crypto → Option Text → Option Text → Backend → User → Option Text → Method → Type 0
Admits c own password_auth b user client_ip (publickey o) =
    let key : Key = record { kind = o.algo; blob = o.bytes } in
    (is_own own o.bytes ≡ false)
    × (signed c o key ≡ true)
    × ((line : Text) × In line user.ssh_public_keys × Holds c key line)
Admits c own password_auth b user client_ip (password p) =
    (password_allowed password_auth client_ip ≡ true) × (b.check_password user.dn p ≡ ok true)
Admits c own password_auth b user client_ip other_method = ⊥

module _ (c : Crypto) (own : Option Text) (algo bytes : Text) where
  abbrev offered : Key
  offered = record { kind = algo; blob = bytes }

  key_is : (k : Key) → (k.kind == algo && k.blob == bytes) ≡ true → k ≡ offered
  key_is k same =
      let kinds : k.kind ≡ algo = ground (arith, eq_iff k.kind algo) in
      let blobs : k.blob ≡ bytes = ground (arith, eq_iff k.blob bytes) in
      ap₂ (λ x y. record { kind = x; blob = y }) kinds blobs

  some-injective : {k key : Key} → some k ≡ some key → key ≡ k
  some-injective e = cc

  key_matches-some :
      (lines : List Text) (key : Key)
      → user_key_matches c own lines algo bytes ≡ some key
      → (key ≡ offered)
        × (is_own own bytes ≡ false)
        × ((line : Text) × In line lines × Holds c offered line)
  unfolding user_key_matches
  key_matches-some [] key h = cc
  key_matches-some (line ∷ lines) key h =
      let later : user_key_matches c own lines algo bytes ≡ some key
          → (key ≡ offered)
            × (is_own own bytes ≡ false)
            × ((l : Text) × In l (line ∷ lines) × Holds c offered l) =
        λ r. let (e, f, (l, m, w)) = key_matches-some lines key r in (e, f, (l, inr m, w)) in
      elim (Option-cases (c.parse_key line)) [
        | inl bad ↦ later (rw (user_key_matches, bad) at h)
        | inr ((k, others), good) ↦ elim (Bool-cases (is_own own k.blob)) [
          | inl mine ↦ later (rw (user_key_matches, good, mine) at h)
          | inr foreign ↦ elim (Bool-cases (k.kind == algo && k.blob == bytes)) [
            | inr different ↦ later (rw (user_key_matches, good, foreign, different) at h)
            | inl same ↦
                let is_it = key_is k same in
                let hit : some k ≡ some key = rw (user_key_matches, good, foreign, same) at h in
                let own_blob : is_own own k.blob ≡ is_own own bytes =
                  ap (λ x. is_own own x.blob) is_it in
                (
                  some-injective hit ∙ is_it,
                  sym own_blob ∙ foreign,
                  (line, inl refl, (others, good ∙ ap (λ x. some (x, others)) is_it)),
                )
          ]
        ]
      ]

  key_matches-found :
      (lines : List Text) (line : Text)
      → is_own own bytes ≡ false
      → In line lines
      → Holds c offered line
      → user_key_matches c own lines algo bytes ≡ some offered
  unfolding user_key_matches
  key_matches-found [] line foreign m holds = absurd m
  key_matches-found (l ∷ lines) line foreign (inl e) (others, good) =
      let here : c.parse_key l ≡ some (offered, others) = ap c.parse_key (sym e) ∙ good in
      rw (user_key_matches, here, foreign, eq_refl algo, eq_refl bytes) refl
  key_matches-found (l ∷ lines) line foreign (inr m) holds =
      let rest = key_matches-found lines line foreign m holds in
      elim (Option-cases (c.parse_key l)) [
        | inl bad ↦ rw (user_key_matches, bad) rest
        | inr ((k, others), good) ↦ elim (Bool-cases (is_own own k.blob)) [
          | inl mine ↦ rw (user_key_matches, good, mine) rest
          | inr not_mine ↦ elim (Bool-cases (k.kind == algo && k.blob == bytes)) [
            | inr different ↦ rw (user_key_matches, good, not_mine, different) rest
            | inl same ↦ rw (user_key_matches, good, not_mine, same) (ap some (key_is k same))
          ]
        ]
      ]

module _ (c : Crypto) (own : Option Text) (password_auth : Option Text) (b : Backend) where
  with_key-accept :
      (o : KeyOffer) (st : State) (found : Option Key)
      → (with_key c o found st).1 ≡ accept
      → (key : Key) × (found ≡ some key) × (signed c o key ≡ true)
  with_key-accept o st none h = absurd (ground arith)
  with_key-accept o st (some key) h = (key, refl, ground arith)

  key-Admits :
      (user : User) (o : KeyOffer) (st : State)
      → (with_key c o (user_key_matches c own user.ssh_public_keys o.algo o.bytes) st).1 ≡ accept
      → Admits c own password_auth b user st.client_ip (publickey o)
  key-Admits user o st h =
      let (key, fits, s) = with_key-accept o st _ h in
      let (e, f, held) = key_matches-some c own o.algo o.bytes _ key fits in
      (f, ap (signed c o) (sym e) ∙ s, held)

  key_accepted :
      (user : User) (o : KeyOffer) (st : State)
      → Admits c own password_auth b user st.client_ip (publickey o)
      → (with_key c o (user_key_matches c own user.ssh_public_keys o.algo o.bytes) st).1 ≡ accept
  key_accepted user o st (f, s, (line, m, w)) =
      rw (key_matches-found c own o.algo o.bytes user.ssh_public_keys line f m w, s) refl

  with_user-accept :
      (user : User) (m : Method) (st : State)
      → ((with_user c own password_auth b user m st).1 ≡ accept)
        ↔ Admits c own password_auth b user st.client_ip m
  with_user-accept user (publickey o) st = (key-Admits user o st, key_accepted user o st)
  with_user-accept user (password p) st = ground arith
  with_user-accept user other_method st = ground arith

  answer_iff :
      (r : Result Text (Option User)) (m : Method) (st : State)
      → ((with_answer c own password_auth b r m st).1 ≡ accept)
        ↔ ((user : User) × (r ≡ ok (some user)) × Admits c own password_auth b user st.client_ip m)
  answer_iff (err message) m st =
      ((λ h. absurd (ground arith)), (λ (_, e, _). absurd (ground arith)))
  answer_iff (ok none) m st = ((λ h. absurd (ground arith)), (λ (_, e, _). absurd (ground arith)))
  answer_iff (ok (some user)) m st =
      let (to, from) = with_user-accept user m (record st { user = some user }) in
      (
        (λ h. (user, refl, to h)),
        (λ (u, e, a).
            let user_is : u ≡ user = cc in
            from (subst (λ x. Admits c own password_auth b x st.client_ip m) user_is a)),
      )

  handle_auth-ok :
      (username : Text) (m : Method) (st : State) (parsed : Parsed)
      → parse_username username ≡ ok parsed
      → handle_auth c own password_auth b username m st
        ≡ with_answer c own password_auth b
            (b.get_user parsed.uid)
            m
            (record st { uid = some parsed.uid; target = parsed.target })
  unfolding handle_auth
  handle_auth-ok username m st parsed good = rw (handle_auth, good) refl

  handle_auth-err :
      (username : Text) (m : Method) (st : State) (e : GrammarError)
      → parse_username username ≡ err e
      → handle_auth c own password_auth b username m st ≡ (st, reject both)
  unfolding handle_auth
  handle_auth-err username m st e wrong = rw (handle_auth, wrong) refl

  -- A login is accepted exactly if its name parses, the directory has the user, and what the client
  -- shows lets this user in.
  pub handle_auth_iff :
      (username : Text) (m : Method) (st : State)
      → ((handle_auth c own password_auth b username m st).1 ≡ accept) ↔ (
          (parsed : Parsed) × (user : User) × (parse_username username ≡ ok parsed)
          × (b.get_user parsed.uid ≡ ok (some user))
          × Admits c own password_auth b user st.client_ip m)
  handle_auth_iff username m st = elim (Result-cases (parse_username username)) [
    | inr (e, wrong) ↦
        let refused = handle_auth-err username m st e wrong in
        ((λ h. absurd (ground (arith, refused))), (λ (_, _, good, _, _). absurd (ground arith)))
    | inl (parsed, good) ↦
        let taken = ap (λ x. x.1) (handle_auth-ok username m st parsed good) in
        let (to, from) =
          answer_iff (b.get_user parsed.uid) m
            (record st { uid = some parsed.uid; target = parsed.target }) in
        (
          (λ h. let (user, there, a) = to (sym taken ∙ h) in (parsed, user, good, there, a)),
          (λ (q, user, also, there, a).
              let same : parsed ≡ q = cc in
              taken ∙ from (user, ap (λ x. b.get_user x.uid) same ∙ there, a)),
        )
  ]
