-- ===== src/Ssh/Provision.antt =====
-- When the gateway's key is given to a user, and when a connection is tried again.
use jump_host.Base.{
  ◌≡◌, refl, ◌⊎◌, inl, inr, Bool, true, false, ◌&&◌, ◌||◌, List, arith, if◌then◌else◌, Bool-cases,
  ◌==◌, eq_iff, nat_eq, text_eq, Result, ok, err, Result-cases, Text, text,
}
use jump_host.Base.Maps.{put, delete, get-put, get-delete}
use jump_host.Ssh.Keys.{
  User, Ldap, Store, is_flagged, has_line, ensure_key_injected, clear_injected_flag, authish, Dial,
  connect_upstream, connect_after, reach,
}

-- The upstream is dialled a second time exactly if the key was just written and the first dial ended
-- with an authentication error; then the second dial decides and the user's flag is cleared where
-- Redis allows it. Otherwise the first dial decides and the flags stay.
connect_upstream_retry :
    (lower : Text → Text) (first second : Dial) (clears : Bool) (uid : Text) (just_injected : Bool)
    (flags : List (Text × Text))
    → let c = connect_upstream lower first second clears uid just_injected flags in
      ((c.dials ≡ 2)
        × (just_injected ≡ true)
        × ((m : Text) × (first ≡ err m) × (authish lower m ≡ true))
        × (c.result ≡ second)
        × (c.flags ≡ (if clears then delete uid flags else flags)))
      ⊎ ((c.dials ≡ 1)
          × ((m : Text) → first ≡ err m → (authish lower m && just_injected) ≡ false)
          × (c.result ≡ first)
          × (c.flags ≡ flags))
unfolding connect_upstream clear_injected_flag
connect_upstream_retry lower (ok u) second clears uid j flags = inr (refl, (λ m e. cc), refl, refl)
connect_upstream_retry lower (err m) second clears uid j flags =
    elim (Bool-cases (authish lower m && j)) [
      | inl again ↦ rw again (inl (refl, ground arith, (m, refl, ground arith), refl, refl))
      | inr once ↦ rw once (inr (refl, (λ n e. ground arith), refl, refl))
    ]

not_retried :
    (lower : Text → Text) (first second : Dial) (clears : Bool) (uid : Text)
    (flags : List (Text × Text))
    → (connect_upstream lower first second clears uid false flags).flags ≡ flags
unfolding connect_upstream
not_retried lower (ok u) second clears uid flags = refl
not_retried lower (err m) second clears uid flags = ground arith

flagged-set :
    (uid j : Text) (flags : List (Text × Text))
    → is_flagged j (put uid (text "1") flags) ≡ (uid == j || is_flagged j flags)
unfolding is_flagged
flagged-set uid j flags = ground (arith, get-put uid j (text "1") flags)

flagged-clear :
    (uid j : Text) (flags : List (Text × Text))
    → is_flagged j (delete uid flags) ≡ true
    → is_flagged j flags ≡ true
unfolding is_flagged
flagged-clear uid j flags h = let found = get-delete uid j flags in ground arith

-- Whatever happens to a connection, a flag that is set afterwards was set before.
connect-flagged :
    (lower : Text → Text) (first second : Dial) (clears : Bool) (uid : Text) (just_injected : Bool)
    (flags : List (Text × Text)) (j : Text)
    → is_flagged j (connect_upstream lower first second clears uid just_injected flags).flags ≡ true
    → is_flagged j flags ≡ true
connect-flagged lower first second clears uid just_injected flags j h =
    elim (connect_upstream_retry lower first second clears uid just_injected flags) [
      | inl (_, _, _, _, e) ↦ ground (arith, flagged-clear uid j flags)
      | inr (_, _, _, e) ↦ ground arith
    ]

module _ {D : Type 0} (ldap : Ldap D) (line : Text) where
  ensure_flagged :
      (user : User) (s : Store D)
      → is_flagged user.uid s.flags ≡ true
      → ensure_key_injected ldap user line s ≡ (ok false, s)
  unfolding ensure_key_injected
  ensure_flagged user s flagged = rw flagged refl

  -- A user whose flag is set is not given the key again, however the connection ends, and keeps the
  -- flag: after a removal of the key by hand, no connection brings it back.
  reach_flagged :
      (lower : Text → Text) (user : User) (name : Text) (s : Store D) (first second : Dial)
      (clears : Bool)
      → is_flagged user.uid s.flags ≡ true
      → (reach ldap lower user line name first second clears s).1 ≡ s
  unfolding reach connect_after
  reach_flagged lower user name s first second clears flagged =
      rw (ensure_flagged user s flagged)
        (rw (not_retried lower first second clears name s.flags) refl)

  module _ (listed : D → Text → Bool) (dn_of : Text → Text) where
    -- Each user with a flag has the key in the directory.
    abbrev pub IsProvisioned : Store D → Type 0
    IsProvisioned s =
        (uid : Text) → is_flagged uid s.flags ≡ true → listed s.directory (dn_of uid) ≡ true

    module _
        (adds : (d : D) (dn : Text) (changed : D)
          → ldap.add_ssh_key d dn line ≡ ok changed
          → listed changed dn ≡ true)
        (keeps : (d : D) (dn : Text) (changed : D) (other : Text)
          → ldap.add_ssh_key d dn line ≡ ok changed
          → listed d other ≡ true
          → listed changed other ≡ true) where
      ensure-IsProvisioned :
          (user : User) (s : Store D)
          → user.dn ≡ dn_of user.uid
          → (has_line line user ≡ true → listed s.directory user.dn ≡ true)
          → IsProvisioned s
          → IsProvisioned (ensure_key_injected ldap user line s).1
      unfolding ensure_key_injected
      ensure-IsProvisioned user s named read h = elim (Bool-cases (is_flagged user.uid s.flags)) [
        | inl flagged ↦ rw flagged h
        | inr unflagged ↦ elim (Bool-cases (has_line line user)) [
          | inl there ↦
              rw (unflagged, there)
                (λ j e.
                  ground
                    (arith, read there, h j, flagged-set user.uid j s.flags, eq_iff user.uid j))
          | inr missing ↦ elim (Result-cases (ldap.add_ssh_key s.directory user.dn line)) [
            | inr (message, failed) ↦ rw (unflagged, missing, failed) h
            | inl (changed, added) ↦
                rw (unflagged, missing, added)
                  (λ j e. ground (
                    arith,
                    h j,
                    adds s.directory user.dn changed added,
                    keeps s.directory user.dn changed (dn_of j) added,
                    flagged-set user.uid j s.flags,
                    eq_iff user.uid j,
                  ))
          ]
        ]
      ]

      connect-IsProvisioned :
          (lower : Text → Text) (uid : Text) (first second : Dial) (clears : Bool)
          (injected : Result Text Bool) (t : Store D)
          → IsProvisioned t
          → IsProvisioned (connect_after lower uid first second clears injected t).1
      unfolding connect_after
      connect-IsProvisioned lower uid first second clears (err m) t p = p
      connect-IsProvisioned lower uid first second clears (ok b) t p =
          λ j e. p j (connect-flagged lower first second clears uid b t.flags j e)

      -- Where the directory keeps what it is told, no connection ever leaves a user flagged whose
      -- key is not in the directory, if that held before and the user's record is up to date.
      pub reach-IsProvisioned :
          (lower : Text → Text) (user : User) (name : Text) (s : Store D) (first second : Dial)
          (clears : Bool)
          → user.dn ≡ dn_of user.uid
          → (has_line line user ≡ true → listed s.directory user.dn ≡ true)
          → IsProvisioned s
          → (uid : Text)
          → is_flagged uid (reach ldap lower user line name first second clears s).1.flags ≡ true
          → listed (reach ldap lower user line name first second clears s).1.directory (dn_of uid)
            ≡ true
      unfolding reach
      reach-IsProvisioned lower user name s first second clears named read h =
          connect-IsProvisioned lower name first second clears _ _
            (ensure-IsProvisioned user s named read h)
