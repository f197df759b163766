-- ===== src/Host/Examples.antt =====
-- A firewall that is the list of its rules.
use jump_host.Base.{
  ℕ, suc, ◌+◌, ◌≤◌, ◌≡◌, refl, sym, ap, ◌∙◌, ◌≢◌, ◌↔◌, inl, inr, Bool, true, false, ◌&&◌, none,
  some, List, [], ◌∷◌, arith, leb, if◌then◌else◌, le→leb, Bool-cases, ◌==◌, eq_iff, eq_of_ne,
  nat_eq, text_eq, text_beq, Result, ok, err, any, Text, text,
}
use jump_host.Host.Shell.{Exec, Reply, Failure, Gateway, succeeded, try_run}
use jump_host.Host.Router.{
  IpRule, Outcome, changed, have_iptables, missing_tools, ensure_rule, remove_rule,
}
use jump_host.Host.Router.Firewall.{Firewall, Appends, OnlyRule, SameRules, iptables_args, IsReady}
use jump_host.Host.Router.Removal.{Removes, remove_rule-Removes, Ends, remove_rule-Ends}
use jump_host.Host.Router.Settled.{Converges}
use jump_host.Host.Forwarding.{
  masquerade, forward_on, forward_tunnels, forward_others, apply_forwarding,
}
use jump_host.Host.Forwarding.Laws.{forward_rules, apply_forwarding-Converges}
use jump_host.Host.Netmap.{apply_netmap}
use jump_host.Host.Netmap.Laws.{Undone, remove_netmap-apply_netmap}

texts_beq : List Text → List Text → Bool
texts_beq [] [] = true
texts_beq (a ∷ s) (b ∷ t) = a == b && texts_beq s t
texts_beq _ _ = false

texts_beq_iff : (s t : List Text) → (texts_beq s t ≡ true) ↔ (s ≡ t)
unfolding texts_beq
texts_beq_iff [] [] = (λ _. refl, λ _. refl)
texts_beq_iff [] (b ∷ t) = ground arith
texts_beq_iff (a ∷ s) [] = ground arith
texts_beq_iff (a ∷ s) (b ∷ t) = ground (arith, eq_iff a b, texts_beq_iff s t)

same : IpRule → IpRule → Bool
same a b = a.table == b.table && (a.chain == b.chain && texts_beq a.spec b.spec)

same_iff : (a b : IpRule) → (same a b ≡ true) ↔ (a ≡ b)
unfolding same
same_iff a b =
    ground (arith, eq_iff a.table b.table, eq_iff a.chain b.chain, texts_beq_iff a.spec b.spec)

copies : List IpRule → IpRule → ℕ
copies [] e = 0
copies (r ∷ rules) e = if same r e then suc (copies rules e) else copies rules e

drop_first : IpRule → List IpRule → List IpRule
drop_first e [] = []
drop_first e (r ∷ rules) = if same r e then rules else r ∷ drop_first e rules

abbrev absent_failure : Failure
absent_failure = record { message = text "no such rule"; missing = false }

on_rule : Text → IpRule → List IpRule → Reply × List IpRule
on_rule option e rules =
    if option == text "-C"
    then (if leb 1 (copies rules e) then (ok [], rules) else (err absent_failure, rules))
    else if option == text "-D"
    then (if leb 1 (copies rules e)
        then (ok [], drop_first e rules)
        else (err absent_failure, rules))
    else (ok [], e ∷ rules)

on_args : List Text → List IpRule → Reply × List IpRule
on_args (t ∷ table ∷ option ∷ chain ∷ spec) rules =
    on_rule option (record { table = table; chain = chain; spec = spec }) rules
on_args _ rules = (ok [], rules)

kernel_exec : Exec (List IpRule)
kernel_exec cmd args rules = if cmd == text "iptables" then on_args args rules else (ok [], rules)

iptables-eq :
    (option : Text) (e : IpRule) (w : List IpRule)
    → kernel_exec (text "iptables") (iptables_args option e) w ≡ on_rule option e w
unfolding kernel_exec on_args text_beq
iptables-eq option e w = refl

check-eq :
    (e : IpRule) (w : List IpRule)
    → on_rule (text "-C") e w ≡ (if leb 1 (copies w e) then (ok [], w) else (err absent_failure, w))
unfolding on_rule text_beq
check-eq e w = refl

delete-eq :
    (e : IpRule) (w : List IpRule)
    → on_rule (text "-D") e w
      ≡ (if leb 1 (copies w e) then (ok [], drop_first e w) else (err absent_failure, w))
unfolding on_rule text_beq
delete-eq e w = refl

append-eq : (e : IpRule) (w : List IpRule) → on_rule (text "-A") e w ≡ (ok [], e ∷ w)
unfolding on_rule text_beq
append-eq e w = refl

insert-eq : (e : IpRule) (w : List IpRule) → on_rule (text "-I") e w ≡ (ok [], e ∷ w)
unfolding on_rule text_beq
insert-eq e w = refl

copies_one_more : (e : IpRule) (w : List IpRule) → Appends copies e w (ok [], e ∷ w)
unfolding copies
copies_one_more e w = (
  ground (arith, same_iff e e),
  λ j. elim (Bool-cases (same e j)) [
    | inl t ↦ inl (sym ((same_iff e j).0 t))
    | inr n ↦ inr (rw n refl)
  ],
)

dropped :
    (e : IpRule) (w : List IpRule) → 1 ≤ copies w e → copies (drop_first e w) e + 1 ≡ copies w e
unfolding copies drop_first
dropped e [] h = absurd (omega arith)
dropped e (r ∷ w) h = elim (Bool-cases (same r e)) [
  | inl t ↦ rw t (omega arith)
  | inr n ↦ rw n (rw n (dropped e w (rw n at h)))
]

dropped_only : (e : IpRule) (w : List IpRule) → OnlyRule copies e w (drop_first e w)
unfolding copies drop_first
dropped_only e [] j = inr refl
dropped_only e (r ∷ w) j = elim (Bool-cases (same r e)) [
  | inl t ↦ rw t (elim (Bool-cases (same r j)) [
    | inl u ↦ inl (sym ((same_iff r j).0 u) ∙ (same_iff r e).0 t)
    | inr v ↦ rw v (inr refl)
  ])
  | inr n ↦ rw n (elim (dropped_only e w j) [
    | inl k ↦ inl k
    | inr k ↦ elim (Bool-cases (same r j)) [ inl u ↦ rw u (inr (ap suc k)) | inr v ↦ rw v (inr k) ]
  ])
]

checked :
    (e : IpRule) (w : List IpRule) → succeeded (on_rule (text "-C") e w).0 ≡ leb 1 (copies w e)
checked e w =
    rw (check-eq e w)
      (elim (Bool-cases (leb 1 (copies w e))) [ inl t ↦ rw t refl | inr n ↦ rw n refl ])

check_same : (e : IpRule) (w : List IpRule) → SameRules copies w (on_rule (text "-C") e w).1
check_same e w =
    rw (check-eq e w) (elim (Bool-cases (leb 1 (copies w e))) [
      | inl t ↦ rw t (λ j. refl)
      | inr n ↦ rw n (λ j. refl)
    ])

deleted :
    (e : IpRule) (w : List IpRule)
    → 1 ≤ copies w e
    → on_rule (text "-D") e w ≡ (ok [], drop_first e w)
deleted e w h = rw (delete-eq e w, le→leb 1 (copies w e) h) refl

deleted_only : (e : IpRule) (w : List IpRule) → OnlyRule copies e w (on_rule (text "-D") e w).1
deleted_only e w = rw (delete-eq e w) (elim (Bool-cases (leb 1 (copies w e))) [
  | inl t ↦ rw t (dropped_only e w)
  | inr n ↦ rw n (λ j. inr refl)
])

iptables_only :
    (cmd : Text) (args : List Text) (w : List IpRule)
    → cmd ≢ text "iptables"
    → SameRules copies w (kernel_exec cmd args w).1
unfolding kernel_exec
iptables_only cmd args w differs = rw (eq_of_ne cmd (text "iptables") differs) (λ j. refl)

firewall : Firewall kernel_exec copies
firewall = record {
  check = λ e w. rw (iptables-eq (text "-C") e w) (checked e w);
  check_keeps = λ e w. rw (iptables-eq (text "-C") e w) (check_same e w);
  append = λ e w. rw (iptables-eq (text "-A") e w, append-eq e w) (copies_one_more e w);
  insert = λ e w. rw (iptables-eq (text "-I") e w, insert-eq e w) (copies_one_more e w);
  remove = λ e w h. rw (iptables-eq (text "-D") e w, deleted e w h) refl;
  remove_one = λ e w h. rw (iptables-eq (text "-D") e w, deleted e w h) (dropped e w h);
  remove_only = λ e w. rw (iptables-eq (text "-D") e w) (deleted_only e w);
  others = iptables_only;
}

abbrev gateway : List IpRule → Gateway (List IpRule)
gateway rules = record { world = rules; tool_cache = some []; kernel_support = none; probes = [] }

gateway-IsReady : IsReady (gateway [])
unfolding any
gateway-IsReady = ([], refl, refl)

-- A rule that an older build has stacked.
remove_rule-Ends_example : Ends kernel_exec (
    remove_rule kernel_exec
      (masquerade (text "eth0"))
      (gateway (masquerade (text "eth0") ∷ masquerade (text "eth0") ∷ [])))
remove_rule-Ends_example =
    remove_rule-Ends kernel_exec (masquerade (text "eth0"))
      (gateway (masquerade (text "eth0") ∷ masquerade (text "eth0") ∷ []))

stacked-IsReady : IsReady (gateway (masquerade (text "eth0") ∷ masquerade (text "eth0") ∷ []))
unfolding any
stacked-IsReady = ([], refl, refl)

remove_rule-Removes_example :
    let stacked = gateway (masquerade (text "eth0") ∷ masquerade (text "eth0") ∷ []) in
    Removes kernel_exec copies firewall
      (masquerade (text "eth0"))
      0
      stacked.world
      (some [])
      (remove_rule kernel_exec (masquerade (text "eth0")) stacked)
remove_rule-Removes_example =
    remove_rule-Removes kernel_exec copies firewall (masquerade (text "eth0"))
      (gateway (masquerade (text "eth0") ∷ masquerade (text "eth0") ∷ [])) stacked-IsReady

apply_forwarding-Converges_example :
    Converges copies
      (forward_rules (text "eth0") (text "wg0" ∷ text "wg1" ∷ []))
      (apply_forwarding kernel_exec (some (text "eth0")) (text "wg0" ∷ text "wg1" ∷ []))
      []
      (apply_forwarding kernel_exec
        (some (text "eth0"))
        (text "wg0" ∷ text "wg1" ∷ [])
        (gateway []))
apply_forwarding-Converges_example =
    apply_forwarding-Converges kernel_exec copies firewall b'e' (text "th0")
      (text "wg0" ∷ text "wg1" ∷ []) (gateway []) gateway-IsReady

remove_netmap-apply_netmap_example :
    Undone kernel_exec copies firewall
      (text "wg0")
      (text "10.4.168.0/24")
      (text "192.168.1.0/24")
      []
      (apply_netmap kernel_exec
        (text "wg0")
        (text "10.4.168.0/24")
        (text "192.168.1.0/24")
        (gateway []))
unfolding copies
remove_netmap-apply_netmap_example =
    remove_netmap-apply_netmap kernel_exec copies firewall (text "wg0") (text "10.4.168.0/24")
      (text "192.168.1.0/24") (gateway []) refl gateway-IsReady (refl, (refl, (refl, tt)))

-- The second pass has nothing to add.
abbrev first_pass : Result Text Outcome × Gateway (List IpRule)
first_pass = apply_forwarding kernel_exec (some (text "eth0")) (text "wg0" ∷ []) (gateway [])

forwarding_twice :
    (first_pass.0 ≡ ok (changed 3))
    × ((apply_forwarding kernel_exec (some (text "eth0")) (text "wg0" ∷ []) first_pass.1).0
        ≡ ok (changed 0))
unfolding apply_forwarding forward_on forward_tunnels forward_others ensure_rule have_iptables
    missing_tools any try_run kernel_exec on_args on_rule copies same texts_beq text_beq
forwarding_twice = (refl, refl)
