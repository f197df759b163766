-- ===== src/Directory/Match.antt =====
-- Which host a target names, and when none.
use jump_host.Base.{
  ◌≡◌, refl, sym, ◌∙◌, ◌↔◌, ◌⊎◌, inl, inr, Bool, true, false, ◌&&◌, Option, none, some, List, [],
  ◌∷◌, arith, Option-cases, nat_eq, text_eq, ok, err, find, In, All, Text, find-eq-some,
  find-eq-none,
}
use jump_host.Grammar.Defs.{is_ipv4}
use jump_host.Directory.Host.{Host, Platform}
use jump_host.Directory.Target.{
  by_slug, by_prefixed, by_name, by_ip, by_addr, host, raw, no_such_target, find_host, match_target,
  ◌<|>◌,
}

-- The five ways to name a host, in the documented order of precedence.
abbrev pub tests_of : Platform → Text → List (Host → Bool)
tests_of js target =
    let t = js.lower target in
    by_slug js t ∷ by_prefixed js t ∷ by_name js t ∷ by_ip js target ∷ by_addr js t ∷ []

-- The host answers by one of the tests, and no host at all answers by a test before it.
abbrev pub Chosen : List (Host → Bool) → List Host → Host → Type 0
Chosen [] hosts h = ⊥
Chosen (p ∷ ps) hosts h =
    (In h hosts × (p h ≡ true)) ⊎ (All (λ g. p g ≡ false) hosts × Chosen ps hosts h)

abbrev pub Unanswered : List (Host → Bool) → List Host → Type 0
Unanswered ps hosts = All (λ p. All (λ g. p g ≡ false) hosts) ps

Chosen-In :
    (ps : List (Host → Bool)) (hosts : List Host) (h : Host) → Chosen ps hosts h → In h hosts
Chosen-In [] hosts h c = absurd c
Chosen-In (p ∷ ps) hosts h (inl c) = c.0
Chosen-In (p ∷ ps) hosts h (inr c) = Chosen-In ps hosts h c.1

first_answer : List (Host → Bool) → List Host → Option Host
first_answer [] hosts = none
first_answer (p ∷ ps) hosts = find p hosts <|> first_answer ps hosts

first_answer-Chosen :
    (ps : List (Host → Bool)) (hosts : List Host) (h : Host)
    → first_answer ps hosts ≡ some h
    → Chosen ps hosts h
unfolding first_answer
first_answer-Chosen [] hosts h e = cc
first_answer-Chosen (p ∷ ps) hosts h e = elim (Option-cases (find p hosts)) [
  | inl missed ↦
      inr
        ((find-eq-none p hosts).0 missed, first_answer-Chosen ps hosts h (rw (missed, ◌<|>◌) at e))
  | inr (g, found) ↦ inl (find-eq-some p hosts h (found ∙ (rw (found, ◌<|>◌) at e)))
]

first_answer-eq-none :
    (ps : List (Host → Bool)) (hosts : List Host)
    → (first_answer ps hosts ≡ none) ↔ Unanswered ps hosts
unfolding first_answer
first_answer-eq-none [] hosts = (λ _. tt, λ _. refl)
first_answer-eq-none (p ∷ ps) hosts =
    ground (arith, find-eq-none p hosts, first_answer-eq-none ps hosts)

none-or : (o : Option Host) → (o <|> none) ≡ o
none-or none = refl
none-or (some h) = refl

find_host-first :
    (js : Platform) (target : Text) (hosts : List Host)
    → find_host js target hosts ≡ first_answer (tests_of js target) hosts
unfolding find_host first_answer
find_host-first js target hosts = rw none-or

module _ (js : Platform) (target : Text) (hosts : List Host) (allow : Bool) where
  -- A matched host is one of the given hosts; it answers the target by slug, prefixed slug, name, ip
  -- or address, and no given host answers by an earlier one of these.
  pub match_target-Chosen :
      (h : Host)
      → match_target js target hosts allow ≡ ok (host h)
      → In h hosts × Chosen (tests_of js target) hosts h
  unfolding match_target
  match_target-Chosen h e =
      let found : find_host js target hosts ≡ some h = ground arith in
      let chosen =
        first_answer-Chosen (tests_of js target) hosts h
          (sym (find_host-first js target hosts) ∙ found) in
      (Chosen-In (tests_of js target) hosts h chosen, chosen)

  -- A raw address is dialled only if raw addresses are allowed, the target is an IPv4 address, and
  -- no given host answers to it; it is then the target itself.
  pub match_target-raw :
      (r : Text)
      → (match_target js target hosts allow ≡ ok (raw r)) ↔ (
          (r ≡ target)
          × (allow ≡ true)
          × (is_ipv4 target ≡ true)
          × Unanswered (tests_of js target) hosts)
  unfolding match_target
  match_target-raw r =
      ground
        (arith, find_host-first js target hosts, first_answer-eq-none (tests_of js target) hosts)

  -- The target is refused exactly when no given host answers to it and it is not an allowed IPv4
  -- address.
  match_target-refuses :
      (match_target js target hosts allow ≡ err no_such_target)
      ↔ (Unanswered (tests_of js target) hosts × (is_ipv4 target && allow ≡ false))
  unfolding match_target
  match_target-refuses =
      ground
        (arith, find_host-first js target hosts, first_answer-eq-none (tests_of js target) hosts)
